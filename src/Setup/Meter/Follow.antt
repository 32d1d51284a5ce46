-- ===== src/Setup/Meter/Follow.antt =====
-- The selection and what the device detects.
use esphome_gplug.Base.{
  ◌≡◌, refl, sym, Bool, true, false, Option, none, some, List, ◌∷◌, if◌then◌else◌, arith, filter,
  any, any-filter, any-find, find-true,
}
use esphome_gplug.Text.Utf8.{Text, bytes_eq}
use esphome_gplug.Text.Equal.{bytes_eq_refl, bytes_eq→eq}
use esphome_gplug.Setup.Meter.{
  Preset, Detected, Choice, mine, fit, fits, same, selected, id_of, follow,
}

abbrev pub named : Text → Preset → Bool
named id p = bytes_eq id p.id

-- Whether the selection is one of the profiles `l`.
abbrev pub picks : List Preset → Choice → List Preset → Bool
picks presets v l = any (λ (x : Preset). same (id_of (selected presets v.preset)) x.id) l

any-fit :
    (presets : List Preset) (variant : Option Text) (d : Option Detected) (id : Text)
    → any (named id) (fit presets variant d) ≡ true
    → any (named id) presets ≡ true
unfolding fit mine
any-fit presets variant none id h = absurd (ground arith)
any-fit presets variant (some d) id h =
    let of_variant = λ (p : Preset). same variant p.variant in
    any-filter (named id) of_variant presets
      (any-filter (named id) (fits d) (filter of_variant presets) h)

first_picked :
    (presets : List Preset) (p : Preset) (rest : List Preset) (v : Choice)
    → any (named p.id) presets ≡ true
    → picks presets (record v { preset = some p.id }) (p ∷ rest) ≡ true
unfolding selected
first_picked presets p rest v h =
    let (q, found) = any-find (named p.id) presets h in
    let same_id = bytes_eq→eq p.id q.id (find-true (named p.id) presets q found) in
    rw (found, sym same_id, bytes_eq_refl p.id) refl

either_picks :
    (presets l : List Preset) (b : Bool) (v w : Choice)
    → (b ≡ true → picks presets v l ≡ true)
    → picks presets w l ≡ true
    → picks presets (if b then v else w) l ≡ true
either_picks presets l true v w f h = f refl
either_picks presets l false v w f h = h

follow_cons :
    (presets : List Preset) (p : Preset) (rest : List Preset) (v : Choice)
    → any (named p.id) presets ≡ true
    → picks presets (follow false presets (p ∷ rest) v) (p ∷ rest) ≡ true
unfolding follow
follow_cons presets p rest v h =
    either_picks presets (p ∷ rest) (picks presets v (p ∷ rest)) v (record v { preset = some p.id })
      (λ e. e) (first_picked presets p rest v h)

-- Unless the user has picked a profile by hand, the selection after following the detection is one of
-- the profiles that fit what was detected, as soon as there is one.
pub follow_fits :
    (presets : List Preset) (variant : Option Text) (d : Option Detected) (v : Choice) (p : Preset)
    (rest : List Preset)
    → fit presets variant d ≡ p ∷ rest
    → picks presets (follow false presets (fit presets variant d) v) (fit presets variant d) ≡ true
follow_fits presets variant d v p rest h = rw h (
    follow_cons presets p rest v (any-fit presets variant d p.id (rw (h, bytes_eq_refl p.id) refl)))
