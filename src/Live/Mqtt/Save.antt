-- ===== src/Live/Mqtt/Save.antt =====
-- The MQTT card and the simulated device: what becomes of a request of the button "save".
use esphome_gplug.Base.{
  ℕ, ◌≡◌, refl, ap, Bool, true, false, not, ◌&&◌, Bool-cases, Option, none, [], ◌∷◌, ◌==◌,
  if◌then◌else◌, length, inl, inr, arith,
}
use mathlib.Core.Path.{◌∙◌}
use esphome_gplug.Text.Utf8.{Text, utf8}
use esphome_gplug.Template.Data.{Fields, topic_tpl_max, payload_tpl_max}
use esphome_gplug.Template.Compile.{compile, compile_fixed}
use esphome_gplug.Mock.Mqtt.{
  Answer, Config, Mqtt, Key, ok, text_field, flag_field, enabled_host, check_template,
  compile_error, checked, mqtt_post,
}
use esphome_gplug.Mock.Mqtt.Merge.{IsMerged, IsMerged-merge}
use esphome_gplug.Mock.Mqtt.Single.{Fits, Between}
use esphome_gplug.Mock.Mqtt.Post.{mqtt_post_ok}
use esphome_gplug.Live.Mqtt.Limits.{
  text_field-str, template_field-some, int_field-int, number-int, mode_field-name,
  check_template-compiled, compile-Fits, compile_fixed-Fits,
}
use esphome_gplug.Live.Mqtt.{
  whole, Draft, draft_of, number_json, password_json, only_if, is_compiled, is_fine, topic_c,
  payload_c, avail_c, can_save, trim, save_body,
}

-- That the fields are within the limits that the page shows.
pub record IsInRange (d : Draft) : Type 0 where
  pub host_ok : Fits 63 (trim d.host)
  pub client_ok : Fits 64 d.client_id
  pub user_ok : Fits 64 d.user
  pub password_ok : Fits 64 d.password
  pub port : ℕ
  pub port_is : d.port ≡ whole port
  pub port_ok : Between 1 65535 port
  pub period : ℕ
  pub period_is : d.period ≡ whole period
  pub period_ok : Between 5 3600 period
  pub status_period : ℕ
  pub status_period_is : d.status_period ≡ whole status_period
  pub status_period_ok : Between 5 3600 status_period
  pub qos_ok : Between 0 1 d.qos
  pub named : (d.enabled && length (trim d.host) == 0) ≡ false

-- The draft without white space around the host and the fixed topics.
abbrev pub trimmed : Draft → Draft
trimmed d = record d {
  host = trim d.host;
  status_topic = trim d.status_topic;
  avail_topic = trim d.avail_topic;
}

-- The settings that are meant.
config_of : (d : Draft) → IsInRange d → Config
config_of d g = record {
  enabled = d.enabled;
  host = trim d.host;
  port = g.port;
  client_id = d.client_id;
  user = d.user;
  each = d.each;
  topic = d.topic;
  payload = d.payload;
  period = g.period;
  qos = d.qos;
  retain = d.retain;
  status = d.status;
  status_period = g.status_period;
  status_topic = trim d.status_topic;
  avail_topic = trim d.avail_topic;
}

-- The password that stays, or takes the place of the old one.
abbrev pub kept_password : Text → Text → Bool → Text
kept_password old new true = []
kept_password old [] false = old
kept_password old (c ∷ s) false = c ∷ s

password-kept :
    (old new : Text) (clear : Bool)
    → Fits 64 new
    → text_field Key.password 64 old (password_json new clear) ≡ ok (kept_password old new clear)
unfolding text_field password_json utf8
password-kept old new true h = refl
password-kept old [] false h = refl
password-kept old (c ∷ s) false h = ground arith

empty-Fits : (s : Text) → (length s == 0) ≡ true → Fits topic_tpl_max s
unfolding utf8
empty-Fits [] h = omega arith
empty-Fits (c ∷ s) h = absurd (ground arith)

fine-Fits :
    (d : Draft) (f : Fields) → is_fine (avail_c d f) ≡ true → Fits topic_tpl_max d.avail_topic
unfolding is_fine avail_c
fine-Fits d f h = elim (Bool-cases (length d.avail_topic == 0)) [
  | inl empty ↦ empty-Fits d.avail_topic empty
  | inr given ↦ compile_fixed-Fits d.avail_topic f (rw given at h)
]

-- What compiles, the fixed topics as they are sent.
record Compiles (d : Draft) (f : Fields) : Type 0 where
  topic_is : is_compiled (compile d.topic d.each true f) ≡ true
  payload_is : is_compiled (compile d.payload d.each false f) ≡ true
  status_is : is_compiled (compile_fixed (trim d.status_topic) f) ≡ true
  avail_is : is_fine (avail_c (trimmed d) f) ≡ true

both : (a b : Bool) → (a && b) ≡ true → (a ≡ true) × (b ≡ true)
both true b h = (refl, h)
both false b h = absurd (ground arith)

can_save-Compiles :
    (busy : Bool) (d : Draft) (f : Fields)
    → can_save busy true d f ≡ true
    → is_compiled (compile_fixed (trim d.status_topic) f) ≡ true
    → is_fine (avail_c (trimmed d) f) ≡ true
    → Compiles d f
unfolding can_save topic_c payload_c
can_save-Compiles busy d f h s a =
    let (idle, rest) = both (not busy) _ h in
    let (templates, topics) =
      both (is_compiled (topic_c d f) && is_compiled (payload_c d f)) _ rest in
    let (t, p) = both (is_compiled (topic_c d f)) (is_compiled (payload_c d f)) templates in
    record { topic_is = t; payload_is = p; status_is = s; avail_is = a }

-- The request brings the settings that are meant.
body-IsMerged :
    (m : Mqtt) (d : Draft) (f : Fields) (g : IsInRange d)
    → Compiles d f
    → IsMerged m
        (save_body true d)
        (config_of d g)
        (kept_password m.password d.password d.clear_password)
unfolding save_body config_of only_if number_json flag_field
body-IsMerged m d f g c = record {
  host_is = text_field-str Key.host 63 m.cfg.host (trim d.host) g.host_ok;
  client_id_is = text_field-str Key.client_id 64 m.cfg.client_id d.client_id g.client_ok;
  user_is = text_field-str Key.user 64 m.cfg.user d.user g.user_ok;
  pw_is = password-kept m.password d.password d.clear_password g.password_ok;
  port_is = number-int Key.port 1 65535 m.cfg.port g.port d.port g.port_is g.port_ok;
  period_is = number-int Key.period 5 3600 m.cfg.period g.period d.period g.period_is g.period_ok;
  status_period_is =
      number-int Key.status_period 5 3600 m.cfg.status_period g.status_period d.status_period
        g.status_period_is g.status_period_ok;
  qos_is = int_field-int Key.qos 0 1 m.cfg.qos d.qos g.qos_ok;
  each_is = mode_field-name m.cfg.each d.each;
  topic_is =
      template_field-some Key.topic topic_tpl_max m.cfg.topic d.topic
        (compile-Fits d.topic d.each true f c.topic_is);
  payload_is =
      template_field-some Key.payload payload_tpl_max m.cfg.payload d.payload
        (compile-Fits d.payload d.each false f c.payload_is);
  status_topic_is =
      template_field-some Key.status_topic topic_tpl_max m.cfg.status_topic (trim d.status_topic)
        (compile_fixed-Fits (trim d.status_topic) f c.status_is);
  avail_topic_is =
      template_field-some Key.avail_topic topic_tpl_max m.cfg.avail_topic (trim d.avail_topic)
        (fine-Fits (trimmed d) f c.avail_is);
  enabled_is = refl;
  retain_is = refl;
  status_is = refl;
}

avail-fine :
    (d : Draft) (f : Fields)
    → is_fine (avail_c d f) ≡ true
    → (if length d.avail_topic == 0
        then ok tt
        else check_template Key.avail_topic (compile_fixed d.avail_topic f))
      ≡ ok tt
unfolding avail_c is_fine
avail-fine d f h = elim (Bool-cases (length d.avail_topic == 0)) [
  | inl empty ↦ rw empty refl
  | inr given ↦
      rw given
        (check_template-compiled Key.avail_topic (compile_fixed d.avail_topic f) (rw given at h))
]

compile_error-none :
    (d : Draft) (f : Fields) (g : IsInRange d)
    → Compiles d f
    → compile_error f (config_of d g) ≡ ok tt
unfolding compile_error config_of
compile_error-none d f g c =
    rw
      (
        check_template-compiled Key.status_topic (compile_fixed (trim d.status_topic) f)
            c.status_is,
        avail-fine (trimmed d) f c.avail_is,
        check_template-compiled Key.topic (compile d.topic d.each true f) c.topic_is,
        check_template-compiled Key.payload (compile d.payload d.each false f) c.payload_is,
      )
      refl

checked-body :
    (f : Fields) (m : Mqtt) (d : Draft) (g : IsInRange d)
    → Compiles d f
    → checked f m (save_body true d)
      ≡ ok (config_of d g, kept_password m.password d.password d.clear_password)
unfolding checked enabled_host config_of
checked-body f m d g c =
    rw
      (
        IsMerged-merge m (save_body true d) (config_of d g)
            (kept_password m.password d.password d.clear_password) (body-IsMerged m d f g c),
        g.named,
        compile_error-none d f g c,
      )
      refl

-- The draft that the card shows once the settings are read again.
draft-kept :
    (d : Draft) (g : IsInRange d)
    → draft_of (config_of d g) ≡ record (trimmed d) { password = []; clear_password = false }
unfolding draft_of config_of
draft-kept d g = rw (g.port_is, g.period_is, g.status_period_is) refl

-- When the card shows the device status, the button "save" can be pressed, with templates compiled
-- against the registers that the device has, the fixed topics also compile without white space around
-- them, and the fields are within their limits, then the device accepts what the button sends. The card
-- then shows the same draft again, with white space around the host and the fixed topics taken away
-- and the password left empty, and the device has the new password, or none if it was to be cleared,
-- or the old one if nothing was typed.
pub save-Accepted :
    (f : Fields) (now : ℕ) (m : Mqtt) (busy : Bool) (d : Draft)
    → IsInRange d
    → can_save busy true d f ≡ true
    → is_compiled (compile_fixed (trim d.status_topic) f) ≡ true
    → is_fine (avail_c (trimmed d) f) ≡ true
    → let r = mqtt_post f now m (save_body true d) in
      (r.1 ≡ none)
      × (draft_of (r.0).cfg ≡ record (trimmed d) { password = []; clear_password = false })
      × ((r.0).password ≡ kept_password m.password d.password d.clear_password)
save-Accepted f now m busy d g h s a =
    let pw = kept_password m.password d.password d.clear_password in
    let e =
      mqtt_post_ok f now m (save_body true d) (config_of d g, pw)
        (checked-body f m d g (can_save-Compiles busy d f h s a)) in
    (
      ap (λ (r : Mqtt × Option Answer). r.1) e,
      ap (λ (r : Mqtt × Option Answer). draft_of (r.0).cfg) e ∙ draft-kept d g,
      ap (λ (r : Mqtt × Option Answer). (r.0).password) e,
    )
