-- ===== src/Live/Mqtt/Texts.antt =====
-- The texts of the MQTT card: the badge, a template error as a sentence, and what is shown when the
-- device refuses the settings.
use esphome_gplug.Base.{ℕ, ◌+◌, Option, none, some, List, [], ◌∷◌, if◌then◌else◌}
use mathlib.Core.Option
use esphome_gplug.Text.Utf8.{Text, codes, bytes_eq}
use esphome_gplug.Text.Decimal.{digits}
use esphome_gplug.Language.{Table, Entry, function, string_of}
use esphome_gplug.Language.Spell.{spell}
use esphome_gplug.Service.{Payload, object, Object, known_in, says_key}
use esphome_gplug.Mock.Json.{str, int}

-- `TPL_ERR`, `FIELD_LABEL` and `CONN_ERR`.
abbrev pub tpl_err : List (Text × Text)
tpl_err =
    (codes "tpl_syntax", codes "tplSyntax")
    ∷ (codes "tpl_unknown", codes "tplUnknown")
    ∷ (codes "tpl_context", codes "tplContext")
    ∷ (codes "tpl_topic", codes "tplTopic")
    ∷ (codes "tpl_empty", codes "tplEmpty")
    ∷ (codes "tpl_too_long", codes "tplTooLong")
    ∷ (codes "tpl_overflow", codes "tplOverflow")
    ∷ []

abbrev pub field_label : List (Text × Text)
field_label =
    (codes "topic", codes "mqttTopic")
    ∷ (codes "payload", codes "mqttPayload")
    ∷ (codes "status_topic", codes "mqttStatusTopic")
    ∷ (codes "avail_topic", codes "mqttAvailTopic")
    ∷ []

abbrev pub conn_err : List (Text × Text)
conn_err =
    (codes "tcp", codes "mqttErrTcp")
    ∷ (codes "refused", codes "mqttErrRefused")
    ∷ (codes "auth", codes "mqttErrAuth")
    ∷ []

-- `status.mqtt`, as far as the badge reads it.
pub record BrokerState : Type 0 where
  pub state : Text
  pub error : Option Text

-- The text of an answer's key, where it is a string that is not empty.
unfoldable pub string_at : Text → Object → Option Text
string_at key [] = none
string_at key ((name, str []) ∷ rest) = string_at key rest
string_at key ((name, str (c ∷ s)) ∷ rest) =
    let later = string_at key rest in if bytes_eq key name then some (c ∷ s) else later
string_at key ((name, v) ∷ rest) = string_at key rest

unfoldable pub number_at : Text → Object → ℕ
number_at key [] = 0
number_at key ((name, int n) ∷ rest) =
    let later = number_at key rest in if bytes_eq key name then n else later
number_at key ((name, v) ∷ rest) = number_at key rest

module _ (german t : Table) where
  -- `S[table[token]] || token`.
  unfoldable pub label : List (Text × Text) → Text → Text
  unfolding known_in says_key
  label table token = elim (known_in table token) as (λ _. Text) [
    | none ↦ token
    | some key ↦ Option.get_or (says_key german t key) token
  ]

  -- `badgeOf`: the class and the text.
  unfoldable pub badge_of : Option BrokerState → Text × Option Text
  unfolding label says_key
  badge_of none = ([], says_key german t (codes "mqttOff"))
  badge_of (some m) =
      if bytes_eq m.state (codes "off")
      then ([], says_key german t (codes "mqttOff"))
      else if bytes_eq m.state (codes "connected")
      then (codes "ok", says_key german t (codes "mqttConnected"))
      else if bytes_eq m.state (codes "error")
      then (codes "err", says_key german t (codes "mqttError"))
      else elim m.error as (λ _. Text × Option Text) [
        | none ↦ (codes "warn", says_key german t (codes "mqttConnecting"))
        | some e ↦ (codes "err", some (label conn_err e))
      ]

  unfoldable pub spelled : List Text → Option Entry → Option Text
  unfolding spell
  spelled xs (some (function n ps)) = some (spell ps xs)
  spelled xs _ = none

  -- `tplMsg`.
  unfoldable pub tpl_msg : Text → Text → ℕ → Option Text
  unfolding label spelled
  tpl_msg field code pos =
      spelled (label field_label field ∷ label tpl_err code ∷ digits (pos + 1) ∷ [])
        (string_of german t (codes "tplAt"))

  -- The message when saving fails with this error body and message, of the field and the key of the
  -- error that are found in it.
  unfoldable pub failed_with : Text → Option Text → Text → Option Text → ℕ → Option Text
  unfolding tpl_msg
  failed_with m (some field) code (some key) pos = tpl_msg field code pos
  failed_with m _ code _ pos = some m

  unfoldable pub save_failed : Option Payload → Text → Option Text
  unfolding failed_with
  save_failed (some (object (some code) o)) m =
      failed_with m (string_at (codes "field") o) code (known_in tpl_err code)
        (number_at (codes "pos") o)
  save_failed _ m = some m
