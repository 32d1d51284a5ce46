-- ===== src/Mock/Mqtt/Post.antt =====
-- What `mqttPost` makes of the settings.
use esphome_gplug.Base.{
  ℕ, ◌<◌, ◌≡◌, refl, ◌⊎◌, inl, inr, true, none, some, ◌==◌, arith, Bool-cases, length,
}
use mathlib.Core.Path.{subst}
use esphome_gplug.Text.Utf8.{Text}
use esphome_gplug.Template.Data.{Fields, topic_tpl_max, payload_tpl_max}
use esphome_gplug.Mock.Mqtt.{
  Config, Mqtt, Body, Key, Answer, Result, ok, err, merge, enabled_host, compile_error, checked,
  saved, mqtt_post,
}
use esphome_gplug.Mock.Mqtt.Merge.{bind_ok, ok_inj, IsMerged, merge-IsMerged}
use esphome_gplug.Mock.Mqtt.Single.{
  Fits, Between, text_field-Fits, template_field-Fits, int_field-Between,
}

-- What the settings and the password keep to.
pub record IsValid (m : Mqtt) : Type 0 where
  pub host_ok : Fits 63 m.cfg.host
  pub client_ok : Fits 64 m.cfg.client_id
  pub user_ok : Fits 64 m.cfg.user
  pub password_ok : Fits 64 m.password
  pub port_ok : Between 1 65535 m.cfg.port
  pub period_ok : Between 5 3600 m.cfg.period
  pub status_period_ok : Between 5 3600 m.cfg.status_period
  pub qos_ok : Between 0 1 m.cfg.qos
  pub topic_ok : Fits topic_tpl_max m.cfg.topic
  pub payload_ok : Fits payload_tpl_max m.cfg.payload
  pub status_topic_ok : Fits topic_tpl_max m.cfg.status_topic
  pub avail_topic_ok : Fits topic_tpl_max m.cfg.avail_topic
  pub enabled_ok : m.cfg.enabled ≡ true → 0 < length m.cfg.host

pub enabled_host_named :
    (c : Config) → enabled_host c ≡ ok tt → c.enabled ≡ true → 0 < length c.host
unfolding enabled_host
enabled_host_named c h on = elim (Bool-cases (length c.host == 0)) [
  | inl empty ↦ absurd (ground (arith, rw (on, empty) at h))
  | inr named ↦ ground arith
]

-- What the checks let through.
pub checked_inv :
    (f : Fields) (m : Mqtt) (b : Body) (r : Config × Text)
    → checked f m b ≡ ok r
    → (merge m b ≡ ok r) × (enabled_host r.0 ≡ ok tt) × (compile_error f r.0 ≡ ok tt)
unfolding checked
checked_inv f m b r h =
    let (a, e0, h1) = bind_ok (merge m b) _ _ h in
    let (x, e1, h2) = bind_ok (enabled_host a.0) _ _ h1 in
    let (y, e2, h3) = bind_ok (compile_error f a.0) _ _ h2 in
    subst
      (λ (q : Config × Text).
        (merge m b ≡ ok q) × (enabled_host q.0 ≡ ok tt) × (compile_error f q.0 ≡ ok tt))
      (ok_inj h3) (e0, e1, e2)

saved-IsValid :
    (now : ℕ) (m : Mqtt) (b : Body) (c : Config) (pw : Text)
    → IsValid m
    → IsMerged m b c pw
    → enabled_host c ≡ ok tt
    → IsValid (saved now m (c, pw))
saved-IsValid now m b c pw v g named = record {
  host_ok = text_field-Fits Key.host 63 m.cfg.host c.host b.host v.host_ok g.host_is;
  client_ok =
      text_field-Fits Key.client_id 64 m.cfg.client_id c.client_id b.client_id v.client_ok
        g.client_id_is;
  user_ok = text_field-Fits Key.user 64 m.cfg.user c.user b.user v.user_ok g.user_is;
  password_ok = text_field-Fits Key.password 64 m.password pw b.password v.password_ok g.pw_is;
  port_ok = int_field-Between Key.port 1 65535 m.cfg.port c.port b.port v.port_ok g.port_is;
  period_ok =
      int_field-Between Key.period 5 3600 m.cfg.period c.period b.period v.period_ok g.period_is;
  status_period_ok =
      int_field-Between Key.status_period 5 3600 m.cfg.status_period c.status_period b.status_period
        v.status_period_ok g.status_period_is;
  qos_ok = int_field-Between Key.qos 0 1 m.cfg.qos c.qos b.qos v.qos_ok g.qos_is;
  topic_ok =
      template_field-Fits Key.topic topic_tpl_max m.cfg.topic c.topic b.topic v.topic_ok g.topic_is;
  payload_ok =
      template_field-Fits Key.payload payload_tpl_max m.cfg.payload c.payload b.payload v.payload_ok
        g.payload_is;
  status_topic_ok =
      template_field-Fits Key.status_topic topic_tpl_max m.cfg.status_topic c.status_topic
        b.status_topic v.status_topic_ok g.status_topic_is;
  avail_topic_ok =
      template_field-Fits Key.avail_topic topic_tpl_max m.cfg.avail_topic c.avail_topic
        b.avail_topic v.avail_topic_ok g.avail_topic_is;
  enabled_ok = enabled_host_named c named;
}

pub Result-cases :
    {A : Type 0} (r : Result A) → ((a : A) × (r ≡ ok a)) ⊎ ((e : Answer) × (r ≡ err e))
Result-cases (ok a) = inl (a, refl)
Result-cases (err e) = inr (e, refl)

module _ (f : Fields) (now : ℕ) (m : Mqtt) (b : Body) where
  pub mqtt_post_ok :
      (r : Config × Text) → checked f m b ≡ ok r → mqtt_post f now m b ≡ (saved now m r, none)
  unfolding mqtt_post
  mqtt_post_ok r e = rw (e, mqtt_post) refl

  pub mqtt_post_err : (a : Answer) → checked f m b ≡ err a → mqtt_post f now m b ≡ (m, some a)
  unfolding mqtt_post
  mqtt_post_err a e = rw (e, mqtt_post) refl

-- A post, accepted or refused, takes settings within the limits to settings within the limits: the
-- lengths of the texts, the port, the periods, the QoS, the sizes of the templates, and a host when
-- MQTT is enabled.
pub mqtt_post-IsValid :
    (f : Fields) (now : ℕ) (m : Mqtt) (b : Body) → IsValid m → IsValid (mqtt_post f now m b).0
mqtt_post-IsValid f now m b v = elim (Result-cases (checked f m b)) [
  | inl (r, e) ↦
      let (g, named, _) = checked_inv f m b r e in
      rw (mqtt_post_ok f now m b r e)
        (saved-IsValid now m b r.0 r.1 v (merge-IsMerged m b r.0 r.1 g) named)
  | inr (a, e) ↦ rw (mqtt_post_err f now m b a e) v
]
