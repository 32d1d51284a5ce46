-- ===== src/Language.antt =====
-- The languages of the interface: spa/tools/i18n-check.mjs, which compares the tables, and the choice
-- of a language and the texts in spa/src/i18n/index.js. The tables are arguments; the
-- app's are in German, French, Italian and English.
pub mod German
pub mod French
pub mod Italian
pub mod English
pub mod Agree
pub mod Choice
pub mod Spell
pub mod Real
pub mod Tests
use Prim.Native.String.{String}
use esphome_gplug.Base.{
  ℕ, Bool, true, false, not, ◌&&◌, Option, none, some, List, [], ◌∷◌, ◌++◌, map, ◌==◌,
  if◌then◌else◌, take, leb, ◌+◌,
}
use mathlib.Core.List.{flat_map}
use esphome_gplug.Text.Utf8.{Text, codes, bytes_eq}

-- A piece of a template literal: a text, or `${…}` with the argument of this index.
pub data Part : Type 0 where
  lit : String → Part
  arg : ℕ → Part

-- A text, or a function of so many arguments with its template.
pub data Entry : Type 0 where
  text : Text → Entry
  function : ℕ → List Part → Entry

abbrev pub Table : Type 0
Table = List (Text × Entry)

abbrev pub says : String → String → Text × Entry
says k s = (codes k, text (codes s))

abbrev pub takes : String → ℕ → List Part → Text × Entry
takes k n ps = (codes k, function n ps)

unfoldable pub lookup : Text → Table → Option Entry
lookup k [] = none
lookup k ((name, e) ∷ rest) = let later = lookup k rest in if bytes_eq k name then some e else later

-- What `checkLanguageTables` reports of a key.
pub data Problem : Type 0 where
  missing_key wrong_type wrong_arguments unknown_key : Text → Problem

-- The comparison of an entry with the one of the reference.
unfoldable pub compare_entry : Text → Entry → Entry → List Problem
compare_entry k (text r) (text e) = []
compare_entry k (function n ps) (function m qs) = if m == n then [] else wrong_arguments k ∷ []
compare_entry k _ _ = wrong_type k ∷ []

unfoldable pub compare_found : Text → Entry → Option Entry → List Problem
unfolding compare_entry
compare_found k r none = missing_key k ∷ []
compare_found k r (some e) = compare_entry k r e

unfoldable pub check_key : Table → Text × Entry → List Problem
unfolding compare_found lookup
check_key t x = compare_found (x.0) (x.1) (lookup (x.0) t)

unfoldable pub check_unknown : Table → Text × Entry → List Problem
unfolding lookup
check_unknown ref x = elim (lookup (x.0) ref) [ none ↦ unknown_key (x.0) ∷ [] | some r ↦ [] ]

unfoldable pub check_table : Table → Table → List Problem
unfolding check_key check_unknown
check_table ref t = flat_map (check_key t) ref ++ flat_map (check_unknown ref) t

-- `checkLanguageTables`, of the reference and the other tables.
unfoldable pub check_language_tables : Table → List Table → List Problem
unfolding check_table
check_language_tables ref tables = flat_map (check_table ref) tables

pub data Lang : Type 0 where
  de fr it en : Lang

-- `TABLES[code]`.
unfoldable pub lang_of : Text → Option Lang
lang_of code =
    if bytes_eq code (codes "de")
    then some de
    else if bytes_eq code (codes "fr")
    then some fr
    else if bytes_eq code (codes "it")
    then some it
    else if bytes_eq code (codes "en")
    then some en
    else none

unfoldable pub lower : ℕ → ℕ
lower c = if leb 65 c && leb c 90 then c + 32 else c

-- The first of the browser's languages that there is a table for.
unfoldable pub from_tags : List Text → Lang
unfolding lang_of lower
from_tags [] = de
from_tags (tag ∷ rest) =
    let later = from_tags rest in
    elim (lang_of (map lower (take 2 tag))) [ some l ↦ l | none ↦ later ]

-- `detect`, of what is saved and of `navigator.languages`.
unfoldable pub detect : Option Text → List Text → Lang
unfolding from_tags
detect none tags = from_tags tags
detect (some saved) tags = elim (lang_of saved) [ some l ↦ l | none ↦ from_tags tags ]

-- The proxy `S`: the text of a key in a table, or else the German one.
unfoldable pub string_of : Table → Table → Text → Option Entry
unfolding lookup
string_of german t k = elim (lookup k t) [ some e ↦ some e | none ↦ lookup k german ]
