-- ===== src/Language/Real.antt =====
-- The four tables of spa/src/i18n against one another, as spa/build.mjs checks them.
use esphome_gplug.Base.{ℕ, ◌<◌, ◌≡◌, refl, some, List, [], ◌∷◌, get_elem?, All, length, true, ap}
use esphome_gplug.Text.Utf8.{Text, bytes_eq}
use mathlib.Core.List.{flat_map}
use mathlib.Core.Path.{subst, ◌∙◌}
use esphome_gplug.Language.{
  Lang, de, fr, it, en, Part, Entry, text, function, Table, lookup, check_language_tables,
  check_table, check_key, check_unknown, compare_found, compare_entry, string_of,
}
use esphome_gplug.Language.German.{german}
use esphome_gplug.Language.French.{french}
use esphome_gplug.Language.Italian.{italian}
use esphome_gplug.Language.English.{english}
use esphome_gplug.Language.Agree.{SameKind, OfSameKind, check_language_tables-Agree}
use esphome_gplug.Language.Spell.{
  spell, uses, uses_all, is_complete, complete, Shows, uses-Shows, uses_all-uses, complete-lookup,
  get_elem?-bound,
}

abbrev pub translations : List Table
translations = french ∷ italian ∷ english ∷ []

-- `TABLES`.
unfoldable pub table_of : Lang → Table
table_of de = german
table_of fr = french
table_of it = italian
table_of en = english

-- The build's check finds nothing to report.
no_problem : check_language_tables german translations ≡ []
unfolding check_language_tables check_table check_key check_unknown compare_found compare_entry
    lookup bytes_eq flat_map
no_problem = refl

-- Every key of the German table has, in the French, the Italian and the English one, an entry of its
-- own of the same kind, and with as many arguments where it is a function. So no text is ever taken
-- from the German table in another language.
pub translations-Agree :
    (k : Text) (r : Entry) → lookup k german ≡ some r → All (OfSameKind german k r) translations
translations-Agree k r h = check_language_tables-Agree german translations k r no_problem h

tables_full : All (λ t. complete t ≡ true) (german ∷ translations)
unfolding complete is_complete uses_all uses
tables_full = (refl, (refl, (refl, (refl, tt))))

-- That the template of the key `k` is in the table, takes `n` arguments and shows `x`.
abbrev pub ShowsIn : Text → ℕ → List Text → Text → Table → Type 0
ShowsIn k n xs x t =
    (qs : List Part) × (string_of german t k ≡ some (function n qs)) × Shows x (spell qs xs)

of_function :
    (n : ℕ) (ps : List Part) (e : Entry)
    → SameKind (function n ps) e
    → (qs : List Part) × (e ≡ function n qs)
of_function n ps (text s) h = absurd h
of_function n ps (function m qs) h = (qs, ap (λ j. function j qs) h)

shows_in :
    (k : Text) (n : ℕ) (ps : List Part) (xs : List Text) (i : ℕ) (x : Text) (t : Table)
    → i < n
    → get_elem? xs i ≡ some x
    → complete t ≡ true
    → OfSameKind german k (function n ps) t
    → ShowsIn k n xs x t
unfolding is_complete
shows_in k n ps xs i x t l h c (e, found, own, same) =
    let (qs, is) = of_function n ps e same in
    let used = complete-lookup t k (function n qs) c (found ∙ ap some is) in
    (qs, own ∙ ap some is, uses-Shows qs xs i x (uses_all-uses n qs i used l) h)

of_german :
    (k : Text) (n : ℕ) (ps : List Part)
    → lookup k german ≡ some (function n ps)
    → OfSameKind german k (function n ps) german
unfolding string_of
of_german k n ps g = (function n ps, g, rw (g, string_of) refl, refl)

-- In every language, the message that a key of the German table with arguments makes shows each of the
-- arguments it is called with, when it is called with as many as it takes.
pub translations-Show :
    (k : Text) (n : ℕ) (ps : List Part) (xs : List Text) (i : ℕ) (x : Text)
    → lookup k german ≡ some (function n ps)
    → length xs ≡ n
    → get_elem? xs i ≡ some x
    → All (ShowsIn k n xs x) (german ∷ translations)
translations-Show k n ps xs i x g len h =
    let (fr_ok, (it_ok, (en_ok, _))) = translations-Agree k (function n ps) g in
    let (de_full, (fr_full, (it_full, (en_full, _)))) = tables_full in
    let small = subst (λ m. i < m) len (get_elem?-bound xs i x h) in
    let shows = λ (t : Table). shows_in k n ps xs i x t small h in
    (
      shows german de_full (of_german k n ps g),
      (
        shows french fr_full fr_ok,
        (shows italian it_full it_ok, (shows english en_full en_ok, tt)),
      ),
    )
