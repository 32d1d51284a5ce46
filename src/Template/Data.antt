-- ===== src/Template/Data.antt =====
-- The data of spa/src/live/mqtt-template.js: limits, register table, snapshot, tokens, results.
use esphome_gplug.Base.{ℕ, Bool, true, false, List, [], ◌∷◌}
use esphome_gplug.Text.Utf8.{Text, Bytes, codes}

abbrev pub topic_tpl_max : ℕ
topic_tpl_max = 128

abbrev pub payload_tpl_max : ℕ
payload_tpl_max = 512

abbrev pub max_tokens : ℕ
max_tokens = 64

abbrev pub topic_buf : ℕ
topic_buf = 256

abbrev pub payload_buf : ℕ
payload_buf = 2048

abbrev pub num_max : ℕ
num_max = 20

abbrev pub smid_max : ℕ
smid_max = 39

abbrev pub key_max : ℕ
key_max = 32

-- Bytes with a meaning of their own; the braces are `lbr` and `rbr`.
abbrev pub quote : ℕ
quote = 34

abbrev pub bsl : ℕ
bsl = 92

abbrev pub comma : ℕ
comma = 44

abbrev pub equals : ℕ
equals = 61

abbrev pub space : ℕ
space = 32

abbrev pub plus : ℕ
plus = 43

abbrev pub hash : ℕ
hash = 35

abbrev pub lbr : ℕ
lbr = 123

abbrev pub rbr : ℕ
rbr = 125

-- The escaping in force: the strings "topic", "json" and "lp" of the source.
pub data Esc : Type 0 where
  topic json lp : Esc

-- The register table, as parallel arrays, with the names of the device. An element out of range is
-- `undefined`: falsy as a flag, the empty string under `s || ""`.
pub record Fields : Type 0 where
  pub names : List Text
  pub obis : List Text
  pub units : List Text
  pub prec : List ℕ
  pub string : List Bool
  pub device : Text
  pub mac : Text

-- A finite JavaScript number is exactly ± mantissa / 2 ^ shift.
pub record Double : Type 0 where
  pub neg : Bool
  pub mantissa : ℕ
  pub shift : ℕ

-- What an element of `v` may hold: no number at all, a NaN or an infinity, or a finite number.
pub data Value : Type 0 where
  missing : Value
  not_finite : Value
  finite : Double → Value

-- The values that a rendering reads.
pub record Snapshot : Type 0 where
  pub v : List Value
  pub have : List Bool
  pub smid : Text
  pub epoch : ℕ

-- The `key` of a token.
pub data Kind : Type 0 where
  lit device mac meter ts iso values values_lp : Kind
  i_name i_obis i_value i_unit val unit : Kind

abbrev pub is_lit : Kind → Bool
is_lit lit = true
is_lit _ = false

-- Whether a rendering of the key reads the clock.
abbrev pub is_time : Kind → Bool
is_time ts = true
is_time iso = true
is_time _ = false

-- Whether the key tells the registers apart.
abbrev pub names_item : Kind → Bool
names_item i_name = true
names_item i_obis = true
names_item _ = false

pub record Token : Type 0 where
  pub key : Kind
  pub idx : ℕ
  pub off : ℕ
  pub len : ℕ

pub data Code : Type 0 where
  tpl_too_long tpl_empty tpl_syntax tpl_topic tpl_unknown tpl_context tpl_overflow : Code

pub record Template : Type 0 where
  pub tok : List Token
  pub worst : ℕ
  pub uses_time : Bool
  pub text : Bytes

-- What `compile` returns. `diverged` stands for a loop that does not end.
pub data CompileResult : Type 0 where
  failed : Code → ℕ → ℕ → CompileResult
  compiled : Template → CompileResult
  diverged : CompileResult

pub record Preset : Type 0 where
  pub id : Text
  pub each : Bool
  pub topic : Text
  pub payload : Text

-- `PRESETS`.
abbrev pub preset_json : Preset
preset_json = record {
  id = codes "json";
  each = false;
  topic = codes "gplug/{device}/state";
  payload = codes "{\"device\":\"{device}\",\"meter\":\"{meter}\",\"ts\":{ts},\"values\":{values}}";
}

abbrev pub preset_each : Preset
preset_each = record {
  id = codes "each";
  each = true;
  topic = codes "gplug/{device}/{name}";
  payload = codes "{value}";
}

abbrev pub preset_influx : Preset
preset_influx = record {
  id = codes "influx";
  each = false;
  topic = codes "gplug/{device}/influx";
  payload = codes "energy,device={device} {values_lp} {ts}000000000";
}

abbrev pub presets : List Preset
presets = preset_json ∷ preset_each ∷ preset_influx ∷ []
