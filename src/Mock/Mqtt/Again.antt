-- ===== src/Mock/Mqtt/Again.antt =====
-- Posting the same body twice.
use esphome_gplug.Base.{ℕ, ◌≡◌, refl, ap, ◌∙◌, inl, inr, Bool, true, false, none, ◌==◌, arith}
use esphome_gplug.Text.Utf8.{Text}
use esphome_gplug.Text.Equal.{bytes_eq_refl}
use esphome_gplug.Template.Data.{Fields, topic_tpl_max, payload_tpl_max}
use esphome_gplug.Mock.Mqtt.{
  Config, Mqtt, Body, Key, ok, checked, differ, reconnects, saved, mqtt_post,
}
use esphome_gplug.Mock.Mqtt.Merge.{IsMerged, merge-IsMerged, IsMerged-merge}
use esphome_gplug.Mock.Mqtt.Single.{
  text_field_again, template_field_again, int_field_again, mode_field_again, flag_field_again,
}
use esphome_gplug.Mock.Mqtt.Post.{checked_inv, Result-cases, mqtt_post_ok, mqtt_post_err}

==_refl : (n : ℕ) → n == n ≡ true
==_refl n = ground arith

differ_refl : (b : Bool) → differ b b ≡ false
unfolding differ
differ_refl true = refl
differ_refl false = refl

reconnects_same : (m : Mqtt) → reconnects m m.cfg m.password ≡ false
unfolding reconnects
reconnects_same m =
    rw
      (
        differ_refl m.cfg.enabled,
        bytes_eq_refl m.cfg.host,
        ==_refl m.cfg.port,
        bytes_eq_refl m.cfg.client_id,
        bytes_eq_refl m.cfg.user,
        bytes_eq_refl m.cfg.avail_topic,
        ==_refl m.cfg.qos,
        bytes_eq_refl m.password,
      )
      (ground arith)

saved-IsMerged :
    (now : ℕ) (m : Mqtt) (b : Body) (c : Config) (pw : Text)
    → IsMerged m b c pw
    → IsMerged (saved now m (c, pw)) b c pw
saved-IsMerged now m b c pw g = record {
  host_is = text_field_again Key.host 63 m.cfg.host c.host b.host g.host_is;
  client_id_is =
      text_field_again Key.client_id 64 m.cfg.client_id c.client_id b.client_id g.client_id_is;
  user_is = text_field_again Key.user 64 m.cfg.user c.user b.user g.user_is;
  pw_is = text_field_again Key.password 64 m.password pw b.password g.pw_is;
  port_is = int_field_again Key.port 1 65535 m.cfg.port c.port b.port g.port_is;
  period_is = int_field_again Key.period 5 3600 m.cfg.period c.period b.period g.period_is;
  status_period_is =
      int_field_again Key.status_period 5 3600 m.cfg.status_period c.status_period b.status_period
        g.status_period_is;
  qos_is = int_field_again Key.qos 0 1 m.cfg.qos c.qos b.qos g.qos_is;
  each_is = mode_field_again m.cfg.each c.each b.mode g.each_is;
  topic_is = template_field_again Key.topic topic_tpl_max m.cfg.topic c.topic b.topic g.topic_is;
  payload_is =
      template_field_again Key.payload payload_tpl_max m.cfg.payload c.payload b.payload
        g.payload_is;
  status_topic_is =
      template_field_again Key.status_topic topic_tpl_max m.cfg.status_topic c.status_topic
        b.status_topic g.status_topic_is;
  avail_topic_is =
      template_field_again Key.avail_topic topic_tpl_max m.cfg.avail_topic c.avail_topic
        b.avail_topic g.avail_topic_is;
  enabled_is = flag_field_again m.cfg.enabled c.enabled b.enabled g.enabled_is;
  retain_is = flag_field_again m.cfg.retain c.retain b.retain g.retain_is;
  status_is = flag_field_again m.cfg.status c.status b.status g.status_is;
}

checked_again :
    (f : Fields) (now : ℕ) (m : Mqtt) (b : Body) (r : Config × Text)
    → checked f m b ≡ ok r
    → checked f (saved now m r) b ≡ ok r
unfolding checked
checked_again f now m b r h =
    let (g, named, fine) = checked_inv f m b r h in
    let again =
      IsMerged-merge (saved now m r) b r.0 r.1
        (saved-IsMerged now m b r.0 r.1 (merge-IsMerged m b r.0 r.1 g)) in
    rw (again, named, fine) refl

saved_same : (now : ℕ) (m : Mqtt) → saved now m (m.cfg, m.password) ≡ m
saved_same now m = rw (reconnects_same m) refl

-- A body that is posted again, at any later time, after it was accepted is accepted again and changes
-- nothing, the time of the connection included.
pub mqtt_post_again :
    (f : Fields) (now later : ℕ) (m : Mqtt) (b : Body)
    → (mqtt_post f now m b).1 ≡ none
    → mqtt_post f later (mqtt_post f now m b).0 b ≡ ((mqtt_post f now m b).0, none)
mqtt_post_again f now later m b accepted = elim (Result-cases (checked f m b)) [
  | inl (r, e) ↦ rw (mqtt_post_ok f now m b r e) (
      mqtt_post_ok f later (saved now m r) b r (checked_again f now m b r e)
      ∙ ap (λ (x : Mqtt). (x, none)) (saved_same later (saved now m r)))
  | inr (a, e) ↦ absurd (ground (arith, rw (mqtt_post_err f now m b a e) at accepted))
]
