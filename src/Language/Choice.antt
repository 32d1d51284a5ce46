-- ===== src/Language/Choice.antt =====
-- The language of the running app, of spa/src/i18n/index.js: what `setLang` changes and tells, and the
-- label of a preset.
use esphome_gplug.Base.{
  ℕ, ◌≡◌, refl, Bool, true, false, Bool-cases, Option, none, some, List, [], ◌∷◌, ◌++◌, map,
  if◌then◌else◌, any, filter, not, ◌==◌, inl, inr, ap, arith,
}
use mathlib.Core.Path.{◌∙◌}
use esphome_gplug.Text.Utf8.{Text, codes, bytes_eq}
use esphome_gplug.Language.{Lang, de, fr, it, en, lang_of, detect}

unfoldable pub code_of : Lang → Text
code_of de = codes "de"
code_of fr = codes "fr"
code_of it = codes "it"
code_of en = codes "en"

-- `LOCALES[lang]`.
unfoldable pub get_locale : Lang → Text
get_locale de = codes "de-CH"
get_locale fr = codes "fr-CH"
get_locale it = codes "it-CH"
get_locale en = codes "en-CH"

-- `LANGS`: the picker's entries.
abbrev pub langs : List (Text × Text)
langs =
    (codes "de", codes "Deutsch")
    ∷ (codes "fr", codes "Français")
    ∷ (codes "it", codes "Italiano")
    ∷ (codes "en", codes "English")
    ∷ []

-- The language, what the browser keeps under `gplug.lang`, the page's `lang` attribute, the listeners
-- by number in the order of the `Set`, and which of them have been told what, in that order. `works`: the browser lets the
-- page keep something.
pub record LangState : Type 0 where
  pub lang : Lang
  pub saved : Option Text
  pub page_lang : Text
  pub works : Bool
  pub listeners : List ℕ
  pub told : List (ℕ × Text)

-- When the module is loaded: `lang = detect()`, and `applyLang()` by the app.
unfoldable pub load_choice : Option Text → Bool → List Text → LangState
load_choice kept works tags =
    let l = detect (if works then kept else none) tags in
    record {
      lang = l;
      saved = kept;
      page_lang = code_of l;
      works = works;
      listeners = [];
      told = [];
    }

unfoldable pub apply_lang : LangState → LangState
apply_lang c = record c { page_lang = code_of c.lang }

unfoldable pub same_lang : Lang → Text → Bool
same_lang l code = bytes_eq code (code_of l)

unfoldable pub keep : Bool → Text → Option Text → Option Text
keep true code old = some code
keep false code old = old

-- `setLang`, of the table that there is for the code and of whether it is the language already.
unfoldable pub switch : Text → Option Lang → Bool → LangState → LangState
switch code none same c = c
switch code (some l) true c = c
switch code (some l) false c =
    let next = apply_lang (record c { lang = l; saved = keep c.works code c.saved }) in
    record next { told = c.told ++ map (λ fn. (fn, code)) c.listeners }

unfoldable pub set_lang : Text → LangState → LangState
set_lang code c = switch code (lang_of code) (same_lang c.lang code) c

-- The `Set` holds a listener once; `forget_listener` is the function that `onLangChange` returns.
unfoldable pub on_lang_change : ℕ → LangState → LangState
on_lang_change fn c =
    if any (λ k. k == fn) c.listeners then c else record c { listeners = c.listeners ++ (fn ∷ []) }

unfoldable pub forget_listener : ℕ → LangState → LangState
forget_listener fn c = record c { listeners = filter (λ k. not (k == fn)) c.listeners }

-- What happens to the language while the page is open.
pub data Change : Type 0 where
  set : Text → Change
  listen ignore : ℕ → Change

unfoldable pub change : Change → LangState → LangState
unfolding set_lang on_lang_change forget_listener
change (set code) = set_lang code
change (listen fn) = on_lang_change fn
change (ignore fn) = forget_listener fn

unfoldable pub changes : List Change → LangState → LangState
changes [] c = c
changes (x ∷ rest) c = changes rest (change x c)

-- A preset, or the id of one that the device reports and that is not in the list.
pub data Named : Type 0 where
  by_id : Text → Named
  preset : Text → Bool → Named

-- `p.name + " · " + …`, with the texts of the two keys `detectEncrypted` and `detectPlain`.
unfoldable pub qualified : Text → Text → Text → Option Bool → Text
qualified encrypted plain name none = name
qualified encrypted plain name (some e) = name ++ codes " · " ++ (if e then encrypted else plain)

unfoldable pub preset_label : Text → Text → Option Named → Option Bool → Option Text
unfolding qualified
preset_label encrypted plain none enc = none
preset_label encrypted plain (some (by_id id)) enc = some id
preset_label encrypted plain (some (preset name key)) enc =
    some (qualified encrypted plain name (if key then enc else some false))

-- That a reload, with the browser's languages `tags`, finds the language that is shown, and the page's
-- attribute says it.
abbrev pub IsKept : List Text → LangState → Type 0
IsKept tags c = (c.works ≡ true) × (detect c.saved tags ≡ c.lang) × (c.page_lang ≡ code_of c.lang)

keep_works : (b : Bool) (code : Text) (old : Option Text) → b ≡ true → keep b code old ≡ some code
unfolding keep
keep_works true code old h = refl
keep_works false code old h = absurd (ground arith)

detect-some :
    (code : Text) (l : Lang) (tags : List Text)
    → lang_of code ≡ some l
    → detect (some code) tags ≡ l
unfolding detect
detect-some code l tags e = rw (e, detect) refl

switch-IsKept :
    (tags : List Text) (code : Text) (o : Option Lang) (same : Bool) (c : LangState)
    → lang_of code ≡ o
    → IsKept tags c
    → IsKept tags (switch code o same c)
unfolding switch apply_lang
switch-IsKept tags code none same c e h = h
switch-IsKept tags code (some l) true c e h = h
switch-IsKept tags code (some l) false c e (works, found, page) = (
  works,
  ap (λ o. detect o tags) (keep_works c.works code c.saved works) ∙ detect-some code l tags e,
  refl,
)

change-IsKept :
    (tags : List Text) (x : Change) (c : LangState) → IsKept tags c → IsKept tags (change x c)
unfolding change set_lang forget_listener on_lang_change
change-IsKept tags (set code) c h =
    switch-IsKept tags code (lang_of code) (same_lang c.lang code) c refl h
change-IsKept tags (listen fn) c h = elim (Bool-cases (any (λ k. k == fn) c.listeners)) [
  | inl e ↦ rw e h
  | inr e ↦ rw e h
]
change-IsKept tags (ignore fn) c h = h

changes-IsKept :
    (tags : List Text) (xs : List Change) (c : LangState)
    → IsKept tags c
    → IsKept tags (changes xs c)
unfolding changes
changes-IsKept tags [] c h = h
changes-IsKept tags (x ∷ rest) c h =
    changes-IsKept tags rest (change x c) (change-IsKept tags x c h)

-- In a browser that keeps what a page saves, and as long as its own languages stay: whatever languages
-- are picked and whoever listens, a reload shows the language that was last shown, and the page's
-- `lang` attribute always names the language shown.
pub reload_keeps :
    (kept : Option Text) (tags : List Text) (xs : List Change)
    → let c = changes xs (load_choice kept true tags) in
      ((load_choice c.saved true tags).lang ≡ c.lang) × (c.page_lang ≡ code_of c.lang)
unfolding load_choice
reload_keeps kept tags xs =
    let (works, found, page) =
      changes-IsKept tags xs (load_choice kept true tags) (refl, refl, refl) in
    (found, page)
