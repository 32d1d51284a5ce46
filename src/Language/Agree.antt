-- ===== src/Language/Agree.antt =====
-- What tables without a problem agree on.
use esphome_gplug.Base.{
  ◌≡◌, refl, sym, inl, inr, Option, none, some, List, [], ◌∷◌, ◌++◌, ◌==◌, Bool-cases, All, arith,
}
use mathlib.Core.Path.{subst}
use mathlib.Core.List.{flat_map}
use esphome_gplug.Text.Utf8.{Text, bytes_eq}
use esphome_gplug.Text.Equal.{bytes_eq→eq}
use esphome_gplug.Language.{
  Entry, text, function, Table, lookup, compare_entry, compare_found, check_key, check_unknown,
  check_table, check_language_tables, string_of,
}

append_nil : {A : Type 0} (xs ys : List A) → xs ++ ys ≡ [] → (xs ≡ []) × (ys ≡ [])
append_nil [] ys h = (refl, h)
append_nil (x ∷ xs) ys h = absurd (ground arith)

-- Entries that can stand for one another.
abbrev pub SameKind : Entry → Entry → Type 0
SameKind (text a) (text b) = Unit
SameKind (function n ps) (function m qs) = m ≡ n
SameKind _ _ = ⊥

compare-SameKind : (k : Text) (r e : Entry) → compare_entry k r e ≡ [] → SameKind r e
unfolding compare_entry
compare-SameKind k (text a) (text b) h = tt
compare-SameKind k (function n ps) (function m qs) h = elim (Bool-cases (m == n)) [
  | inl same ↦ ground arith
  | inr other ↦ absurd (ground (arith, rw other at h))
]
compare-SameKind k (text a) (function m qs) h = absurd (ground arith)
compare-SameKind k (function n ps) (text b) h = absurd (ground arith)

found-SameKind :
    (k : Text) (r : Entry) (o : Option Entry)
    → compare_found k r o ≡ []
    → (e : Entry) × (o ≡ some e) × SameKind r e
unfolding compare_found
found-SameKind k r none h = absurd (ground arith)
found-SameKind k r (some e) h = (e, refl, compare-SameKind k r e h)

pub entry_inj : {x y : Entry} → some x ≡ some y → x ≡ y
entry_inj h = cc

key-SameKind :
    (ref t : Table) (k : Text) (r : Entry)
    → flat_map (check_key t) ref ≡ []
    → lookup k ref ≡ some r
    → (e : Entry) × (lookup k t ≡ some e) × SameKind r e
unfolding lookup check_key flat_map
key-SameKind [] t k r h l = absurd (ground arith)
key-SameKind ((name, x) ∷ rest) t k r h l =
    let (here, there) =
      append_nil (compare_found name x (lookup name t)) (flat_map (check_key t) rest) h in
    elim (Bool-cases (bytes_eq k name)) [
      | inl hit ↦
          let same = bytes_eq→eq k name hit in
          subst (λ (n : Text). (e : Entry) × (lookup n t ≡ some e) × SameKind r e) (sym same)
            (found-SameKind name r (lookup name t) (
              subst (λ (y : Entry). compare_found name y (lookup name t) ≡ [])
                (entry_inj (rw hit at l)) here))
      | inr miss ↦ key-SameKind rest t k r there (rw miss at l)
    ]

abbrev pub OfSameKind : Table → Text → Entry → Table → Type 0
OfSameKind ref k r t =
    (e : Entry) × (lookup k t ≡ some e) × (string_of ref t k ≡ some e) × SameKind r e

-- When the check of the tables reports no problem, every key of the reference has, in every other
-- table, an entry of its own that takes the place of the reference's one: a text for a text, a function
-- of as many arguments for a function, and never the reference's entry as a stopgap.
pub check_language_tables-Agree :
    (ref : Table) (tables : List Table) (k : Text) (r : Entry)
    → check_language_tables ref tables ≡ []
    → lookup k ref ≡ some r
    → All (OfSameKind ref k r) tables
unfolding check_language_tables check_table string_of flat_map
check_language_tables-Agree ref [] k r h l = tt
check_language_tables-Agree ref (t ∷ tables) k r h l =
    let (here, there) = append_nil (check_table ref t) (flat_map (check_table ref) tables) h in
    let (keys, unknown) =
      append_nil (flat_map (check_key t) ref) (flat_map (check_unknown ref) t) here in
    let (e, found, same) = key-SameKind ref t k r keys l in
    (
      (e, found, rw (found, string_of) refl, same),
      check_language_tables-Agree ref tables k r there l,
    )
