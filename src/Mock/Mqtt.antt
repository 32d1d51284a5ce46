-- ===== src/Mock/Mqtt.antt =====
-- The MQTT settings of the simulated device: `mqtt`, `mqttCtx`, `mqttCompileError`, `mqttStatus` and
-- `mqttPost` of spa/mock/server.mjs. A template in a request is a string, as the page sends it.
pub mod Merge
pub mod Single
pub mod Post
pub mod Again
use esphome_gplug.Base.{
  ℕ, ◌+◌, ◌-◌, ◌*◌, ◌/◌, ◌%◌, Bool, true, false, not, ◌&&◌, ◌||◌, Option, none, some, List, [], ◌∷◌,
  ltb, leb, ◌==◌, if◌then◌else◌, length,
}
use esphome_gplug.Text.Utf8.{Text, codes, utf8, bytes_eq}
use esphome_gplug.Template.Data.{
  Code, tpl_too_long, Fields, Template, CompileResult, failed, compiled, diverged, topic_tpl_max,
  payload_tpl_max, preset_json,
}
use esphome_gplug.Template.Compile.{compile, compile_fixed}
use esphome_gplug.Mock.Json.{Json, null, bool, int, other_number, str, composite, truthy}

-- `mqtt.cfg`; the mode is "each" or "period".
pub record Config : Type 0 where
  pub enabled : Bool
  pub host : Text
  pub port : ℕ
  pub client_id : Text
  pub user : Text
  pub each : Bool
  pub topic : Text
  pub payload : Text
  pub period : ℕ
  pub qos : ℕ
  pub retain : Bool
  pub status : Bool
  pub status_period : ℕ
  pub status_topic : Text
  pub avail_topic : Text

-- `mqtt`.
pub record Mqtt : Type 0 where
  pub cfg : Config
  pub password : Text
  pub since : ℕ

abbrev pub initial : Mqtt
initial = record {
  cfg = record {
    enabled = false;
    host = [];
    port = 1883;
    client_id = [];
    user = [];
    each = preset_json.each;
    topic = preset_json.topic;
    payload = preset_json.payload;
    period = 10;
    qos = 0;
    retain = false;
    status = false;
    status_period = 60;
    status_topic = codes "gplug/{device}/status";
    avail_topic = codes "gplug/{device}/availability";
  };
  password = [];
  since = 0;
}

-- The body of a POST; a key left out is `none`.
pub record Body : Type 0 where
  pub host : Option Json
  pub client_id : Option Json
  pub user : Option Json
  pub password : Option Json
  pub enabled : Option Json
  pub retain : Option Json
  pub status : Option Json
  pub port : Option Json
  pub period : Option Json
  pub status_period : Option Json
  pub qos : Option Json
  pub mode : Option Json
  pub topic : Option Text
  pub payload : Option Text
  pub status_topic : Option Text
  pub avail_topic : Option Text

-- The key that an answer names.
pub data Key : Type 0 where
  host client_id user password port period status_period qos mode : Key
  topic payload status_topic avail_topic : Key

-- The answers: 200, a field that is refused, or a template error at a position.
pub data Answer : Type 0 where
  bad : Key → Answer
  bad_template : Code → Key → ℕ → ℕ → Answer

pub data Result {ℓ} (A : Type ℓ) : Type ℓ where
  ok : A → Result A
  err : Answer → Result A

infixl 5 ◌>>=◌
abbrev pub ◌>>=◌ {ℓ κ} : {A : Type ℓ} {B : Type κ} → Result A → (A → Result B) → Result B
ok a >>= f = f a
err e >>= f = err e

-- A text of at most `limit` bytes, the old one if the key is left out.
unfoldable pub text_field : Key → ℕ → Text → Option Json → Result Text
text_field k limit old none = ok old
text_field k limit old (some (str s)) = if ltb limit (length (utf8 s)) then err (bad k) else ok s
text_field k limit old (some _) = err (bad k)

unfoldable pub flag_field : Bool → Option Json → Bool
unfolding truthy
flag_field old none = old
flag_field old (some v) = truthy v

-- `int(v, lo, hi)`.
unfoldable pub int_field : Key → ℕ → ℕ → ℕ → Option Json → Result ℕ
int_field k lo hi old none = ok old
int_field k lo hi old (some (int n)) = if leb lo n && leb n hi then ok n else err (bad k)
int_field k lo hi old (some _) = err (bad k)

unfoldable pub mode_field : Bool → Option Json → Result Bool
mode_field old none = ok old
mode_field old (some (str s)) =
    if bytes_eq s (codes "period")
    then ok false
    else if bytes_eq s (codes "each")
    then ok true
    else err (bad Key.mode)
mode_field old (some _) = err (bad Key.mode)

unfoldable pub template_field : Key → ℕ → Text → Option Text → Result Text
template_field k limit old none = ok old
template_field k limit old (some s) =
    if ltb limit (length (utf8 s))
    then err (bad_template tpl_too_long k (length (utf8 s)) 0)
    else ok s

-- Settings and password with what the body brings, before the checks across fields.
unfoldable pub merge : Mqtt → Body → Result (Config × Text)
merge m b = do
  let c = m.cfg
  host' ← text_field Key.host 63 c.host b.host
  client' ← text_field Key.client_id 64 c.client_id b.client_id
  user' ← text_field Key.user 64 c.user b.user
  password' ← text_field Key.password 64 m.password b.password
  port' ← int_field Key.port 1 65535 c.port b.port
  period' ← int_field Key.period 5 3600 c.period b.period
  status_period' ← int_field Key.status_period 5 3600 c.status_period b.status_period
  qos' ← int_field Key.qos 0 1 c.qos b.qos
  each' ← mode_field c.each b.mode
  topic' ← template_field Key.topic topic_tpl_max c.topic b.topic
  payload' ← template_field Key.payload payload_tpl_max c.payload b.payload
  status_topic' ← template_field Key.status_topic topic_tpl_max c.status_topic b.status_topic
  avail_topic' ← template_field Key.avail_topic topic_tpl_max c.avail_topic b.avail_topic
  ok (
    record {
      enabled = flag_field c.enabled b.enabled;
      host = host';
      port = port';
      client_id = client';
      user = user';
      each = each';
      topic = topic';
      payload = payload';
      period = period';
      qos = qos';
      retain = flag_field c.retain b.retain;
      status = flag_field c.status b.status;
      status_period = status_period';
      status_topic = status_topic';
      avail_topic = avail_topic';
    },
    password',
  )

unfoldable pub enabled_host : Config → Result (Unit {0})
enabled_host c = if c.enabled && length c.host == 0 then err (bad Key.host) else ok tt

-- One template of `mqttCompileError`; `compile` does not run for ever.
unfoldable pub check_template : Key → CompileResult → Result (Unit {0})
check_template k (compiled t) = ok tt
check_template k (failed code pos worst) = err (bad_template code k pos worst)
check_template k diverged = err (bad k)

-- `mqttCompileError`, with the register table of the current profile.
unfoldable pub compile_error : Fields → Config → Result (Unit {0})
compile_error f c = do
  _ ← check_template Key.status_topic (compile_fixed c.status_topic f)
  _ ←
      (if length c.avail_topic == 0
        then ok tt
        else check_template Key.avail_topic (compile_fixed c.avail_topic f))
  _ ← check_template Key.topic (compile c.topic c.each true f)
  check_template Key.payload (compile c.payload c.each false f)

-- `!==` on two flags.
unfoldable pub differ : Bool → Bool → Bool
differ true y = not y
differ false y = y

-- Whether a setting of the connection has changed.
unfoldable pub reconnects : Mqtt → Config → Text → Bool
unfolding differ
reconnects m next pw =
    let c = m.cfg in
    differ next.enabled c.enabled
    || (not (bytes_eq next.host c.host)
        || (not (next.port == c.port)
            || (not (bytes_eq next.client_id c.client_id)
                || (not (bytes_eq next.user c.user)
                    || (not (bytes_eq next.avail_topic c.avail_topic)
                        || ((not (length next.avail_topic == 0) && not (next.qos == c.qos))
                            || not (bytes_eq pw m.password)))))))

-- What a saved setting does to the state, at the time `now`.
abbrev pub saved : ℕ → Mqtt → Config × Text → Mqtt
saved now m (next, pw) = record {
  cfg = next;
  password = pw;
  since = if reconnects m next pw then now else m.since;
}

-- The checks of `mqttPost`, across fields too.
unfoldable pub checked : Fields → Mqtt → Body → Result (Config × Text)
checked f m b = do r ← merge m b; _ ← enabled_host r.0; _ ← compile_error f r.0; ok r

-- `mqttPost`, at the time `now`.
unfoldable pub mqtt_post : Fields → ℕ → Mqtt → Body → Mqtt × Option Answer
mqtt_post f now m b = elim (checked f m b) [ ok r ↦ (saved now m r, none) | err a ↦ (m, some a) ]
