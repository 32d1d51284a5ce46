-- ===== src/Mock/Status.antt =====
-- `mqttCtx` and `mqttStatus` of spa/mock/server.mjs: what the simulated broker has been sent.
pub mod Sent
use mathlib.Core.Option
use esphome_gplug.Base.{
  ℕ, ◌+◌, ◌-◌, ◌*◌, ◌/◌, ◌%◌, ◌≤◌, ◌<◌, ◌≡◌, refl, Bool, true, false, not, Option, none, some, List,
  [], ◌∷◌, map, ltb, ◌==◌, if◌then◌else◌, Bool-cases, arith,
}
use esphome_gplug.Text.Utf8.{Text, codes}
use esphome_gplug.Template.Data.{Code, Fields}
use esphome_gplug.Template.Render.{FieldConfig, to_fields}
use esphome_gplug.Mock.Mqtt.{Config, Mqtt, Key, bad, bad_template, Result, ok, err, compile_error}

-- `MOCK_MQTT`.
pub data Broker : Type 0 where
  connects refuses_login unreachable : Broker

pub data Status : Type 0 where
  off : Status
  error : Code → Status
  connecting : Option Broker → Status
  connected : ℕ → Option ℕ → Status

-- One register of the meter's descriptor, as far as `mqttCtx` reads it.
pub record Register : Type 0 where
  pub name : Text
  pub obis : Text
  pub unit : Option Text
  pub precision : Option ℕ
  pub is_string : Bool

abbrev pub field_of : Register → FieldConfig
field_of o = record {
  name = o.name;
  obis = o.obis;
  unit = some (Option.get_or o.unit []);
  prec = some (Option.get_or o.precision 0);
  string = if o.is_string then some true else none;
}

-- The table that the templates are compiled against; without a meter it is empty.
unfoldable pub mqtt_ctx : Text → Option (List Register) → Fields
unfolding to_fields
mqtt_ctx hostname obis =
    to_fields (map field_of (Option.get_or obis [])) (some hostname) (some (codes "a1b2c3d4e5f6"))

-- How many registers are no text.
unfoldable pub numeric : List Bool → ℕ
numeric [] = 0
numeric (s ∷ rest) = (if s then 0 else 1) + numeric rest

-- The status once the broker has answered, `run` ms after the connection.
unfoldable pub sending : Fields → Config → ℕ → Status
unfolding numeric
sending f c run =
    let n = run / (1000 * c.period) in
    connected (n * (if c.each then numeric f.string else 1))
      (if n == 0 then none else some (run % (1000 * c.period) / 1000))

-- What the broker makes of the time since the connection.
unfoldable pub answer : Broker → Fields → Config → ℕ → Status
answer connects f c run = sending f c run
answer b f c run = connecting (some b)

-- The status when the templates compile.
unfoldable pub running : Broker → Fields → ℕ → Mqtt → Status
running broker f now m =
    let t = now - m.since in
    if ltb t 2000 then connecting none else answer broker f m.cfg (t - 2000)

-- `mqttStatus` at the time `now`, in ms as `Date.now` counts.
unfoldable pub mqtt_status : Broker → Fields → ℕ → Mqtt → Status
mqtt_status broker f now m = if not m.cfg.enabled then off else elim (compile_error f m.cfg) [
  | err (bad_template code k pos worst) ↦ error code
  | err (bad k) ↦ off
  | ok u ↦ running broker f now m
]
