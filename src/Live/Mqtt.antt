-- ===== src/Live/Mqtt.antt =====
-- The MQTT card, spa/src/live/mqtt-card.js: the draft, what is compiled of it, the preview, the button
-- "save" with the request that it sends, and the texts of states and template errors.
pub mod Limits
pub mod Save
pub mod Texts
pub mod Refused
pub mod Preview
pub mod Tests
use esphome_gplug.Base.{
  ℕ, suc, ◌+◌, Bool, true, false, not, ◌&&◌, ◌||◌, Option, none, some, List, [], ◌∷◌, ◌++◌, map,
  filter, find, any, ltb, leb, ◌==◌, if◌then◌else◌, length, take,
}
use mathlib.Core.Option
use esphome_gplug.Text.Utf8.{Text, Bytes, codes, utf8, bytes_eq}
use esphome_gplug.Text.Decimal.{digits}
use esphome_gplug.Template.Data.{
  Code, tpl_too_long, tpl_empty, tpl_syntax, tpl_topic, tpl_unknown, tpl_context, tpl_overflow,
  Fields, Value, missing, Snapshot, Template, CompileResult, failed, compiled, diverged, presets,
}
use esphome_gplug.Template.Data
use esphome_gplug.Template.Compile.{compile, compile_fixed}
use esphome_gplug.Template.Render.{item_ok, render}
use esphome_gplug.Mock.Json.{Json, bool, int, other_number, str}
use esphome_gplug.Mock.Mqtt.{Config, Body}

-- What a number field holds: nothing, a whole number from 0 on, or another number.
pub data Number : Type 0 where
  blank other : Number
  whole : ℕ → Number

-- `d`, the draft. `each` tells that the mode is "each"; the fields of the device status are only used
-- where the device has it.
pub record Draft : Type 0 where
  pub enabled : Bool
  pub host : Text
  pub port : Number
  pub client_id : Text
  pub user : Text
  pub password : Text
  pub clear_password : Bool
  pub each : Bool
  pub topic : Text
  pub payload : Text
  pub period : Number
  pub qos : ℕ
  pub retain : Bool
  pub status : Bool
  pub status_period : Number
  pub status_topic : Text
  pub avail_topic : Text

-- `{ ...cfg, password: "" }`.
unfoldable pub draft_of : Config → Draft
draft_of c = record {
  enabled = c.enabled;
  host = c.host;
  port = whole c.port;
  client_id = c.client_id;
  user = c.user;
  password = [];
  clear_password = false;
  each = c.each;
  topic = c.topic;
  payload = c.payload;
  period = whole c.period;
  qos = c.qos;
  retain = c.retain;
  status = c.status;
  status_period = whole c.status_period;
  status_topic = c.status_topic;
  avail_topic = c.avail_topic;
}

-- `set` of a preset.
unfoldable pub choose_preset : Text → Draft → Draft
choose_preset id d = elim (find (λ (p : Data.Preset). bytes_eq p.id id) presets) [
  | none ↦ d
  | some p ↦ record d { each = p.each; topic = p.topic; payload = p.payload }
]

unfoldable pub same_flag : Bool → Bool → Bool
same_flag true y = y
same_flag false y = not y

-- `preset`.
unfoldable pub preset_of : Draft → Option Data.Preset
unfolding same_flag
preset_of d =
    find
      (λ (p : Data.Preset).
        bytes_eq p.topic d.topic && (bytes_eq p.payload d.payload && same_flag p.each d.each))
      presets

-- `topicC`, `payloadC`, `statusC` and `availC`; `none` stands for what is fine without a template.
unfoldable pub topic_c : Draft → Fields → CompileResult
topic_c d f = compile d.topic d.each true f

unfoldable pub payload_c : Draft → Fields → CompileResult
payload_c d f = compile d.payload d.each false f

unfoldable pub status_c : Bool → Draft → Fields → Option CompileResult
status_c has_status d f = if has_status then some (compile_fixed d.status_topic f) else none

unfoldable pub avail_c : Draft → Fields → Option CompileResult
avail_c d f = if length d.avail_topic == 0 then none else some (compile_fixed d.avail_topic f)

-- `c.ok`. The loop of `compile` ends, so that `diverged` is no case of the page.
unfoldable pub is_compiled : CompileResult → Bool
is_compiled (compiled t) = true
is_compiled _ = false

unfoldable pub is_fine : Option CompileResult → Bool
unfolding is_compiled
is_fine none = true
is_fine (some r) = is_compiled r

-- The button "save", while nothing is being saved if `busy` is false.
unfoldable pub can_save : Bool → Bool → Draft → Fields → Bool
unfolding is_compiled is_fine topic_c payload_c status_c avail_c
can_save busy has_status d f =
    not busy
    && ((is_compiled (topic_c d f) && is_compiled (payload_c d f))
        && (is_fine (status_c has_status d f) && is_fine (avail_c d f)))

-- The white space that `trim` takes away.
unfoldable pub is_space : ℕ → Bool
is_space c =
    (leb 9 c && leb c 13)
    || any (λ k. k == c)
        (0x20 ∷ 0xa0 ∷ 0x1680 ∷ 0x2028 ∷ 0x2029 ∷ 0x202f ∷ 0x205f ∷ 0x3000 ∷ 0xfeff ∷ [])
    || (leb 0x2000 c && leb c 0x200a)

unfoldable pub trim_start : Text → Text
unfolding is_space
trim_start [] = []
trim_start (c ∷ s) = let rest = trim_start s in if is_space c then rest else c ∷ s

-- A character before what is left of a text without the white space at its end.
unfoldable pub keep_before : ℕ → Text → Text
unfolding is_space
keep_before c [] = if is_space c then [] else c ∷ []
keep_before c (d ∷ s) = c ∷ d ∷ s

unfoldable pub trim_end : Text → Text
unfolding keep_before
trim_end [] = []
trim_end (c ∷ s) = keep_before c (trim_end s)

unfoldable pub trim : Text → Text
unfolding trim_start trim_end
trim s = trim_end (trim_start s)

unfoldable pub number_json : Number → Json
number_json blank = str []
number_json other = other_number
number_json (whole n) = int n

unfoldable pub mode_name : Bool → Text
mode_name true = codes "each"
mode_name false = codes "period"

-- `body.password`: left out to keep the stored one.
unfoldable pub password_json : Text → Bool → Option Json
password_json password true = some (str [])
password_json [] false = none
password_json (c ∷ s) false = some (str (c ∷ s))

unfoldable pub only_if {ℓ} : {A : Type ℓ} → Bool → A → Option A
only_if true a = some a
only_if false a = none

-- The body that `save` sends.
unfoldable pub save_body : Bool → Draft → Body
unfolding trim number_json mode_name password_json only_if
save_body has_status d = record {
  host = some (str (trim d.host));
  client_id = some (str d.client_id);
  user = some (str d.user);
  password = password_json d.password d.clear_password;
  enabled = some (bool d.enabled);
  retain = some (bool d.retain);
  status = only_if has_status (bool d.status);
  port = some (number_json d.port);
  period = some (number_json d.period);
  status_period = only_if has_status (number_json d.status_period);
  qos = some (int d.qos);
  mode = some (str (mode_name d.each));
  topic = some d.topic;
  payload = some d.payload;
  status_topic = only_if has_status (trim d.status_topic);
  avail_topic = only_if has_status (trim d.avail_topic);
}

-- The values of /api/live by name; `null` is a register that the device holds as NaN.
unfoldable pub value_of : List (Text × Value) → Text → Option Value
value_of [] n = none
value_of ((name, v) ∷ rest) n =
    let later = value_of rest n in if bytes_eq n name then some v else later

unfoldable pub is_some {ℓ} : {A : Type ℓ} → Option A → Bool
is_some none = false
is_some (some a) = true

-- `snap`.
unfoldable pub snapshot_of : Fields → List (Text × Value) → Text → ℕ → Snapshot
unfolding value_of is_some
snapshot_of f values smid epoch = record {
  v = map (λ n. Option.get_or (value_of values n) missing) f.names;
  have = map (λ n. is_some (value_of values n)) f.names;
  smid = smid;
  epoch = epoch;
}

unfoldable pub indices : ℕ → List Text → List ℕ
indices i [] = []
indices i (n ∷ rest) = i ∷ indices (suc i) rest

-- `items`: up to three registers with a value, or the one message of a period.
unfoldable pub preview_items : Bool → Fields → Snapshot → List (Option ℕ)
unfolding indices
preview_items true f s = map some (take 3 (filter (item_ok f s) (indices 0 f.names)))
preview_items false f s = none ∷ []

-- Two texts with a separator between them; `none` is the exception of a rendering.
unfoldable pub glued : Bytes → Option Bytes → Option Bytes → Option Bytes
glued sep none b = none
glued sep (some a) b = Option.map (λ (d : Bytes). a ++ (sep ++ d)) b

-- One message: its topic, a line break and its payload.
unfoldable pub preview_message : Template → Template → Fields → Snapshot → Option ℕ → Option Bytes
unfolding glued
preview_message t p f s i = glued (10 ∷ []) (render t true f s i) (render p false f s i)

-- `join("\n\n")`.
unfoldable pub joined : List (Option Bytes) → Option Bytes
unfolding glued
joined [] = some []
joined (m ∷ []) = m
joined (m ∷ x ∷ rest) = glued (10 ∷ 10 ∷ []) m (joined (x ∷ rest))

unfoldable pub preview : Bool → Template → Template → Fields → Snapshot → Option Bytes
unfolding preview_items preview_message joined
preview each t p f s = joined (map (preview_message t p f s) (preview_items each f s))
