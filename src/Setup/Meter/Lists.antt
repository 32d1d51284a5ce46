-- ===== src/Setup/Meter/Lists.antt =====
-- The lists of profiles that the step "meter" shows one after the other.
use esphome_gplug.Base.{
  ℕ, ◌-◌, ◌<◌, ◌≡◌, refl, ap, ◌∙◌, inl, inr, min, false, not, ◌&&◌, Option, none, some, List, [],
  ◌∷◌, ◌==◌, Bool-cases, arith, length, get_elem?, get_elem?-lt, filter, length-filter,
  filter_whole,
}
use esphome_gplug.Text.Utf8.{Text}
use esphome_gplug.Setup.Meter.{Preset, Detected, mine, fit, fits, same, tiers, level, shown, more}

last_tier : List (List Preset) → Option (List Preset)
last_tier ts = get_elem? ts (length ts - 1)

-- A tier that is as long as the list of all profiles is that list.
abbrev IsWhole : List Preset → List Preset → Type 0
IsWhole t presets = length t ≡ length presets → t ≡ presets

mine-IsWhole :
    (presets : List Preset) (variant : Option Text) → IsWhole (mine presets variant) presets
unfolding mine
mine-IsWhole presets variant h = filter_whole (λ (p : Preset). same variant p.variant) presets h

fit-IsWhole :
    (presets : List Preset) (variant : Option Text) (d : Option Detected)
    → 0 < length (fit presets variant d)
    → IsWhole (fit presets variant d) presets
unfolding fit mine
fit-IsWhole presets variant none some_fit h = absurd (omega arith)
fit-IsWhole presets variant (some d) some_fit h =
    let of_variant = λ (p : Preset). same variant p.variant in
    let near = length-filter of_variant presets in
    let far = length-filter (fits d) (filter of_variant presets) in
    filter_whole (fits d) (filter of_variant presets) (omega (arith, near, far))
    ∙ filter_whole of_variant presets (omega (arith, near, far))

module _ (fitting of_variant presets : List Preset)
    (whole_fit : 0 < length fitting → IsWhole fitting presets)
    (whole_variant : IsWhole of_variant presets) (any_preset : 0 < length presets) where
  last-tiers : last_tier (tiers fitting of_variant presets) ≡ some presets
  unfolding last_tier tiers
  last-tiers = elim (Bool-cases (length fitting == 0)) [
    | inl no_fit ↦
        elim (Bool-cases
          (not (length of_variant == 0) && not (length of_variant == length fitting))) [
            | inl second ↦ elim (Bool-cases (length presets == length of_variant)) [
              | inl all ↦ rw (no_fit, second, all) (ap some (whole_variant (ground arith)))
              | inr part ↦ rw (no_fit, second, part) refl
            ]
            | inr single ↦ rw (no_fit, single, not_empty) refl
          ]
    | inr a_fit ↦
        elim (Bool-cases
          (not (length of_variant == 0) && not (length of_variant == length fitting))) [
            | inl second ↦ elim (Bool-cases (length presets == length of_variant)) [
              | inl all ↦ rw (a_fit, second, all) (ap some (whole_variant (ground arith)))
              | inr part ↦ rw (a_fit, second, part) refl
            ]
            | inr single ↦ elim (Bool-cases (length presets == length fitting)) [
              | inl all ↦
                  rw (a_fit, single, all) (ap some (whole_fit (ground arith) (ground arith)))
              | inr part ↦ rw (a_fit, single, part) refl
            ]
          ]
  ]
    where
      not_empty : (length presets == 0) ≡ false
      not_empty = ground arith

shown_last : (e : ℕ) (ts : List (List Preset)) → more e ts ≡ false → shown e ts ≡ last_tier ts
unfolding more shown level last_tier
shown_last e [] h = refl
shown_last e (t ∷ ts) h = ap (get_elem? (t ∷ ts)) (ground arith)

shown-some :
    (e : ℕ) (ts : List (List Preset)) → 0 < length ts → (l : List Preset) × (shown e ts ≡ some l)
unfolding shown level
shown-some e [] h = absurd (omega arith)
shown-some e (t ∷ ts) h = get_elem?-lt (t ∷ ts) (min e (length (t ∷ ts) - 1)) (omega arith)

-- When there are profiles at all, the step always has a list to show, and once it offers no more
-- profiles it shows all of them, whatever was detected and whatever the variant.
pub shown_all :
    (presets : List Preset) (variant : Option Text) (d : Option Detected) (e : ℕ)
    → 0 < length presets
    → ((l : List Preset) × (shown e (tiers (fit presets variant d) (mine presets variant) presets)
          ≡ some l))
      × (more e (tiers (fit presets variant d) (mine presets variant) presets) ≡ false
          → shown e (tiers (fit presets variant d) (mine presets variant) presets) ≡ some presets)
shown_all presets variant d e any_preset =
    (shown-some e ts (has_last ts presets last), (λ h. shown_last e ts h ∙ last))
  where
    ts : List (List Preset)
    ts = tiers (fit presets variant d) (mine presets variant) presets

    last : last_tier ts ≡ some presets
    last =
        last-tiers (fit presets variant d) (mine presets variant) presets
          (fit-IsWhole presets variant d) (mine-IsWhole presets variant) any_preset

    has_last : (us : List (List Preset)) (l : List Preset) → last_tier us ≡ some l → 0 < length us
    has_last [] l h = absurd (unfold last_tier in ground arith)
    has_last (u ∷ us) l h = omega arith
