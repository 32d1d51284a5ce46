-- ===== src/Live/Mqtt/Refused.antt =====
-- A refusal of the MQTT settings by the simulated device, as the card words it.
use esphome_gplug.Base.{
  ℕ, ◌+◌, ◌≡◌, refl, ap, ap₂, Option, some, List, [], ◌∷◌, All, get_elem?, ◌==◌, if◌then◌else◌,
}
use mathlib.Core.Path.{◌∙◌, subst}
use esphome_gplug.Text.Utf8.{Text, codes, bytes_eq}
use esphome_gplug.Text.Decimal.{digits}
use esphome_gplug.Template.Data.{
  Code, tpl_too_long, tpl_empty, tpl_syntax, tpl_topic, tpl_unknown, tpl_context, tpl_overflow,
}
use esphome_gplug.Language.{
  Lang, de, fr, it, en, Table, Entry, Part, lit, arg, function, lookup, string_of,
}
use esphome_gplug.Language.German.{german}
use esphome_gplug.Language.Real.{table_of, translations, ShowsIn, translations-Show}
use esphome_gplug.Language.Spell.{spell, Shows}
use esphome_gplug.Service.{Object, Payload, object, known_in}
use esphome_gplug.Mock.Json.{str, int}
use esphome_gplug.Mock.Mqtt.{Key, Answer, bad, bad_template}
use esphome_gplug.Live.Mqtt.Texts.{
  tpl_err, field_label, string_at, number_at, label, spelled, tpl_msg, failed_with, save_failed,
}

unfoldable pub code_token : Code → Text
code_token tpl_too_long = codes "tpl_too_long"
code_token tpl_empty = codes "tpl_empty"
code_token tpl_syntax = codes "tpl_syntax"
code_token tpl_topic = codes "tpl_topic"
code_token tpl_unknown = codes "tpl_unknown"
code_token tpl_context = codes "tpl_context"
code_token tpl_overflow = codes "tpl_overflow"

unfoldable pub key_name : Key → Text
key_name Key.host = codes "host"
key_name Key.client_id = codes "client_id"
key_name Key.user = codes "user"
key_name Key.password = codes "password"
key_name Key.port = codes "port"
key_name Key.period = codes "period"
key_name Key.status_period = codes "status_period"
key_name Key.qos = codes "qos"
key_name Key.mode = codes "mode"
key_name Key.topic = codes "topic"
key_name Key.payload = codes "payload"
key_name Key.status_topic = codes "status_topic"
key_name Key.avail_topic = codes "avail_topic"

-- `worst` in an answer, left out when it is 0 and for the fixed topics.
unfoldable pub worst_of : Key → ℕ → Object
worst_of Key.status_topic worst = []
worst_of Key.avail_topic worst = []
worst_of k worst = if worst == 0 then [] else (codes "worst", int worst) ∷ []

-- The body of an answer of `mqttPost`.
unfoldable pub payload_of : Answer → Payload
unfolding code_token key_name worst_of
payload_of (bad k) = object (some (key_name k)) []
payload_of (bad_template code k pos worst) =
    object (some (code_token code))
      ((codes "field", str (key_name k)) ∷ (codes "pos", int pos) ∷ worst_of k worst)

-- What is said of all tables holds of the one of a language.
of_lang : (P : Table → Type 0) (l : Lang) → All P (german ∷ translations) → P (table_of l)
unfolding table_of
of_lang P de (d, (f, (i, (e, _)))) = d
of_lang P fr (d, (f, (i, (e, _)))) = f
of_lang P it (d, (f, (i, (e, _)))) = i
of_lang P en (d, (f, (i, (e, _)))) = e

abbrev at_parts : List Part
at_parts = arg 0 ∷ lit ", Zeichen " ∷ arg 2 ∷ lit ": " ∷ arg 1 ∷ []

at_german : lookup (codes "tplAt") german ≡ some (function 3 at_parts)
unfolding lookup bytes_eq
at_german = refl

-- That a message is there and shows three texts.
abbrev pub ShowsAll : Option Text → Text → Text → Text → Type 0
ShowsAll o x y z = (s : Text) × (o ≡ some s) × Shows x s × Shows y s × Shows z s

spelled-Shows :
    (l : Lang) (x y z : Text) (i : ℕ) (w : Text)
    → get_elem? (x ∷ y ∷ z ∷ []) i ≡ some w
    → ShowsIn (codes "tplAt") 3 (x ∷ y ∷ z ∷ []) w (table_of l)
spelled-Shows l x y z i w h =
    of_lang (ShowsIn (codes "tplAt") 3 (x ∷ y ∷ z ∷ []) w) l
      (translations-Show (codes "tplAt") 3 at_parts (x ∷ y ∷ z ∷ []) i w at_german refl h)

-- One template, since the table has one.
same_parts :
    (o : Option Entry) (ps qs : List Part)
    → o ≡ some (function 3 ps)
    → o ≡ some (function 3 qs)
    → ps ≡ qs
same_parts o ps qs e g = cc

tpl_at-ShowsAll :
    (l : Lang) (x y z : Text)
    → ShowsAll
        (spelled german
          (table_of l)
          (x ∷ y ∷ z ∷ [])
          (string_of german (table_of l) (codes "tplAt")))
        x
        y
        z
unfolding spelled
tpl_at-ShowsAll l x y z =
    let xs = x ∷ y ∷ z ∷ [] in
    let entry = string_of german (table_of l) (codes "tplAt") in
    let (ps, e, first) = spelled-Shows l x y z 0 x refl in
    let (qs, g, second) = spelled-Shows l x y z 1 y refl in
    let (rs, k, third) = spelled-Shows l x y z 2 z refl in
    (
      spell ps xs,
      ap (spelled german (table_of l) xs) e,
      first,
      subst (λ (p : List Part). Shows y (spell p xs)) (same_parts entry qs ps g e) second,
      subst (λ (p : List Part). Shows z (spell p xs)) (same_parts entry rs ps k e) third,
    )

-- The key of an error is in the table, for each code.
code_known : (code : Code) → (key : Text) × (known_in tpl_err (code_token code) ≡ some key)
unfolding known_in code_token bytes_eq
code_known tpl_too_long = (codes "tplTooLong", refl)
code_known tpl_empty = (codes "tplEmpty", refl)
code_known tpl_syntax = (codes "tplSyntax", refl)
code_known tpl_topic = (codes "tplTopic", refl)
code_known tpl_unknown = (codes "tplUnknown", refl)
code_known tpl_context = (codes "tplContext", refl)
code_known tpl_overflow = (codes "tplOverflow", refl)

field_found :
    (k : Key) (pos : ℕ) (rest : Object)
    → string_at (codes "field") ((codes "field", str (key_name k)) ∷ (codes "pos", int pos) ∷ rest)
      ≡ some (key_name k)
unfolding string_at key_name bytes_eq
field_found Key.host pos rest = refl
field_found Key.client_id pos rest = refl
field_found Key.user pos rest = refl
field_found Key.password pos rest = refl
field_found Key.port pos rest = refl
field_found Key.period pos rest = refl
field_found Key.status_period pos rest = refl
field_found Key.qos pos rest = refl
field_found Key.mode pos rest = refl
field_found Key.topic pos rest = refl
field_found Key.payload pos rest = refl
field_found Key.status_topic pos rest = refl
field_found Key.avail_topic pos rest = refl

template_refusal :
    (l : Lang) (code : Code) (k : Key) (pos worst : ℕ) (m : Text)
    → save_failed german (table_of l) (some (payload_of (bad_template code k pos worst))) m
      ≡ tpl_msg german (table_of l) (key_name k) (code_token code) pos
unfolding save_failed payload_of failed_with number_at bytes_eq
template_refusal l code k pos worst m =
    ap₂ (λ (o key : Option Text). failed_with german (table_of l) m o (code_token code) key pos)
      (field_found k pos (worst_of k worst)) ((code_known code).1)

field_refusal :
    (l : Lang) (k : Key) (m : Text)
    → save_failed german (table_of l) (some (payload_of (bad k))) m ≡ some m
unfolding save_failed payload_of failed_with string_at
field_refusal l k m = refl

-- When the device refuses a template, the card shows, in each of the four languages, a sentence with the
-- name of the field, what is wrong, and the position counted from 1; when it refuses another field, the
-- message of the request.
pub save_failed-ShowsAll :
    (l : Lang) (code : Code) (k other : Key) (pos worst : ℕ) (m : Text)
    → ShowsAll
        (save_failed german (table_of l) (some (payload_of (bad_template code k pos worst))) m)
        (label german (table_of l) field_label (key_name k))
        (label german (table_of l) tpl_err (code_token code))
        (digits (pos + 1))
      × (save_failed german (table_of l) (some (payload_of (bad other))) m ≡ some m)
unfolding tpl_msg
save_failed-ShowsAll l code k other pos worst m =
    let (s, shown, first, second, third) =
      tpl_at-ShowsAll l (label german (table_of l) field_label (key_name k))
        (label german (table_of l) tpl_err (code_token code)) (digits (pos + 1)) in
    (
      (s, template_refusal l code k pos worst m ∙ shown, first, second, third),
      field_refusal l other m,
    )
