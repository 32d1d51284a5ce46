-- ===== src/Live/Stream/Export.antt =====
-- The export of the stream tab: `exportAs` of spa/src/live/stream-tab.js, of the texts that come.
use esphome_gplug.Base.{
  ℕ, Bool, true, false, ◌≡◌, sym, ap, Option, none, some, List, [], ◌∷◌, ◌++◌, map, find, ◌==◌,
  length, if◌then◌else◌, Bool-cases, inl, inr, arith, append-nil, any,
}
use mathlib.Core.Path.{◌∙◌, subst}
use esphome_gplug.Text.Utf8.{Text, codes}
use esphome_gplug.Text.Decimal.{digits}
use esphome_gplug.Language.Spell.{Shows, Shows-after, Shows-before}
use esphome_gplug.Live.Stream.{Form, raw, plain, Frame}

unfoldable pub form_name : Form → Text
form_name raw = codes "raw"
form_name plain = codes "plain"

unfoldable pub age_text : Option Frame → Text
age_text none = codes "?"
age_text (some f) = digits f.age

unfoldable pub is_fine : Option Frame → Bool
is_fine none = false
is_fine (some f) = f.ok

-- The text that is cached or comes, or else the remark that there is none.
unfoldable pub body_text : Form → Option Text → Text
unfolding form_name
body_text k (some s) = s
body_text k none = codes "(no " ++ form_name k ++ codes " data)" ++ (10 ∷ [])

-- `parts.join("\n")`.
unfoldable pub join_lines : List Text → Text
join_lines [] = []
join_lines (s ∷ []) = s
join_lines (s ∷ t ∷ rest) = s ++ (10 ∷ join_lines (t ∷ rest))

number : (a i : ℕ) → (a == i) ≡ true → a ≡ i
number a i h = ground arith

only : (a i : ℕ) → any (λ j. j == i) (a ∷ []) ≡ true → a ≡ i
only a i h = ground arith

-- `text` is what comes for a position, `good` and `bad` the texts `S.crcOk` and `S.crcFail`.
module _ (good bad : Text) (k : Form) (frames : List Frame) (text : ℕ → Option Text) where
  unfoldable pub part_header : ℕ → Text
  unfolding age_text is_fine
  part_header i =
      let f = find (λ (x : Frame). x.i == i) frames in
      codes "# frame "
      ++ digits i
      ++ codes "  age="
      ++ age_text f
      ++ codes "s  "
      ++ (if is_fine f then good else bad)
      ++ (10 ∷ [])

  unfoldable pub part : ℕ → Text
  unfolding part_header body_text
  part i = part_header i ++ body_text k (text i)

  unfoldable pub export_ids : List ℕ → List ℕ
  export_ids sel = if length sel == 0 then map (λ (f : Frame). f.i) frames else sel

  -- The name and the text of the file.
  unfoldable pub export_as : List ℕ → Text × Text
  unfolding form_name export_ids join_lines part
  export_as sel =
      let ids = export_ids sel in
      (
        codes "gplug-" ++ form_name k ++ codes "-" ++ digits (length ids) ++ codes "frames.txt",
        join_lines (map part ids),
      )

  part-Shows : (i : ℕ) (s : Text) → text i ≡ some s → Shows s (part i)
  unfolding part body_text
  part-Shows i s e =
      Shows-after (part_header i) s (body_text k (text i))
        ([], [], ap (body_text k) e ∙ sym (append-nil s))

  join-Shows :
      (i : ℕ) (s : Text) (ids : List ℕ)
      → text i ≡ some s
      → any (λ j. j == i) ids ≡ true
      → Shows s (join_lines (map part ids))
  unfolding join_lines
  join-Shows i s [] e h = absurd (ground arith)
  join-Shows i s (a ∷ []) e h =
      subst (λ (j : ℕ). Shows s (part j)) (sym (only a i h)) (part-Shows i s e)
  join-Shows i s (a ∷ b ∷ rest) e h = elim (Bool-cases (a == i)) [
    | inl here ↦
        Shows-before s (part a) (10 ∷ join_lines (map part (b ∷ rest)))
          (subst (λ (j : ℕ). Shows s (part j)) (sym (number a i here)) (part-Shows i s e))
    | inr there ↦ Shows-after (part a) s (10 ∷ join_lines (map part (b ∷ rest))) (
        Shows-after (10 ∷ []) s (join_lines (map part (b ∷ rest)))
          (join-Shows i s (b ∷ rest) e (rw there at h)))
  ]

-- The exported file holds the text of every chosen frame that comes, or of every frame when none is
-- chosen.
pub export_as-Shows :
    (good bad : Text) (k : Form) (frames : List Frame) (text : ℕ → Option Text) (sel : List ℕ)
    (i : ℕ) (s : Text)
    → text i ≡ some s
    → any (λ j. j == i) (export_ids good bad k frames text sel) ≡ true
    → Shows s (export_as good bad k frames text sel).1
unfolding export_as
export_as-Shows good bad k frames text sel i s e h =
    join-Shows good bad k frames text i s (export_ids good bad k frames text sel) e h
