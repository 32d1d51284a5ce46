-- ===== src/Language/Tests.antt =====
-- Small tables, and the theorems at them and at the real ones.
use esphome_gplug.Base.{◌≡◌, refl, List, false, true, none, some, [], ◌∷◌, All}
use esphome_gplug.Text.Utf8.{codes, bytes_eq}
use mathlib.Core.List.{flat_map}
use esphome_gplug.Language.{
  text, function, arg, lit, Table, lookup, missing_key, wrong_arguments, check_language_tables,
  check_table, check_key, check_unknown, compare_found, compare_entry, fr, detect, from_tags,
  lang_of, lower,
}
use esphome_gplug.Language.German.{german}
use esphome_gplug.Language.Real.{translations, translations-Agree, ShowsIn, translations-Show}
use esphome_gplug.Language.Spell.{spell, argument}
use esphome_gplug.Language.Choice.{
  Change, set, listen, changes, change, set_lang, on_lang_change, switch, same_lang, apply_lang,
  keep, load_choice, code_of, reload_keeps, preset_label, preset, qualified,
}
use esphome_gplug.Language.Agree.{OfSameKind, check_language_tables-Agree}

abbrev small_german : Table
small_german =
    (codes "next", text (codes "Weiter"))
    ∷ (codes "points", function 1 (arg 0 ∷ lit " points" ∷ []))
    ∷ []

abbrev small_english : Table
small_english =
    (codes "points", function 1 (arg 0 ∷ lit " points" ∷ []))
    ∷ (codes "next", text (codes "Next"))
    ∷ []

no_problem : check_language_tables small_german (small_english ∷ []) ≡ []
unfolding check_language_tables check_table check_key check_unknown compare_found compare_entry
    lookup bytes_eq flat_map
no_problem = refl

problems :
    check_language_tables small_german (((codes "points", function 2 []) ∷ []) ∷ [])
    ≡ missing_key (codes "next") ∷ wrong_arguments (codes "points") ∷ []
unfolding check_language_tables check_table check_key check_unknown compare_found compare_entry
    lookup bytes_eq flat_map
problems = refl

detected : detect none (codes "es-ES" ∷ codes "FR-ch" ∷ []) ≡ fr
unfolding detect from_tags lang_of lower bytes_eq
detected = refl

points_entry : lookup (codes "points") small_german ≡ some (function 1 (arg 0 ∷ lit " points" ∷ []))
unfolding lookup bytes_eq
points_entry = refl

small_tables :
    All
      (OfSameKind small_german (codes "points") (function 1 (arg 0 ∷ lit " points" ∷ [])))
      (small_english ∷ [])
small_tables =
    check_language_tables-Agree small_german (small_english ∷ []) (codes "points")
      (function 1 (arg 0 ∷ lit " points" ∷ [])) no_problem points_entry

points_german : lookup (codes "points") german ≡ some (function 1 (arg 0 ∷ lit " Werte" ∷ []))
unfolding lookup bytes_eq
points_german = refl

translations-Agree_example :
    All (OfSameKind german (codes "points") (function 1 (arg 0 ∷ lit " Werte" ∷ []))) translations
translations-Agree_example =
    translations-Agree (codes "points") (function 1 (arg 0 ∷ lit " Werte" ∷ [])) points_german

translations-Show_example :
    All (ShowsIn (codes "points") 1 (codes "96" ∷ []) (codes "96")) (german ∷ translations)
translations-Show_example =
    translations-Show (codes "points") 1 (arg 0 ∷ lit " Werte" ∷ []) (codes "96" ∷ []) 0
      (codes "96") points_german refl refl

points_french : spell (lit "il y a " ∷ arg 0 ∷ lit " s" ∷ []) (codes "5" ∷ []) ≡ codes "il y a 5 s"
unfolding spell argument
points_french = refl

-- A French browser, the English language picked, and an unknown one after it.
abbrev picks : List Change
picks = listen 1 ∷ set (codes "en") ∷ set (codes "es") ∷ set (codes "it") ∷ []

picked :
    (changes
      (listen 1 ∷ set (codes "en") ∷ set (codes "es") ∷ [])
      (load_choice none true (codes "fr-CH" ∷ []))).told
    ≡ (1, codes "en") ∷ []
unfolding changes change set_lang on_lang_change switch same_lang apply_lang keep load_choice detect
    from_tags lang_of code_of lower bytes_eq
picked = refl

reload_keeps_example :
    let c = changes picks (load_choice none true (codes "fr-CH" ∷ [])) in
    ((load_choice c.saved true (codes "fr-CH" ∷ [])).lang ≡ c.lang) × (c.page_lang ≡ code_of c.lang)
reload_keeps_example = reload_keeps none (codes "fr-CH" ∷ []) picks

labelled :
    preset_label (codes "verschlüsselt") (codes "Klartext") (some (preset (codes "P1") false)) none
    ≡ some (codes "P1 · Klartext")
unfolding preset_label qualified
labelled = refl
