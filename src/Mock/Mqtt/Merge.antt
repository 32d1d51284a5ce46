-- ===== src/Mock/Mqtt/Merge.antt =====
-- What `merge` returns, field by field.
use esphome_gplug.Base.{◌≡◌, refl, arith}
use mathlib.Core.Path.{subst}
use esphome_gplug.Text.Utf8.{Text}
use esphome_gplug.Template.Data.{topic_tpl_max, payload_tpl_max}
use esphome_gplug.Mock.Mqtt.{
  Config, Mqtt, Body, Key, Result, ok, err, ◌>>=◌, text_field, flag_field, int_field, mode_field,
  template_field, merge,
}

pub bind_ok :
    {A B : Type 0} (r : Result A) (f : A → Result B) (y : B)
    → r >>= f ≡ ok y
    → (a : A) × (r ≡ ok a) × (f a ≡ ok y)
bind_ok (ok a) f y h = (a, refl, h)
bind_ok (err e) f y h = absurd (ground arith)

pub ok_inj : {A : Type 0} {x y : A} → ok x ≡ ok y → x ≡ y
ok_inj h = cc

-- Settings `c` and a password `pw`, each from its key of the body `b` or from the state `m`.
pub record IsMerged (m : Mqtt) (b : Body) (c : Config) (pw : Text) : Type 0 where
  pub host_is : text_field Key.host 63 m.cfg.host b.host ≡ ok c.host
  pub client_id_is : text_field Key.client_id 64 m.cfg.client_id b.client_id ≡ ok c.client_id
  pub user_is : text_field Key.user 64 m.cfg.user b.user ≡ ok c.user
  pub pw_is : text_field Key.password 64 m.password b.password ≡ ok pw
  pub port_is : int_field Key.port 1 65535 m.cfg.port b.port ≡ ok c.port
  pub period_is : int_field Key.period 5 3600 m.cfg.period b.period ≡ ok c.period
  pub status_period_is :
      int_field Key.status_period 5 3600 m.cfg.status_period b.status_period ≡ ok c.status_period
  pub qos_is : int_field Key.qos 0 1 m.cfg.qos b.qos ≡ ok c.qos
  pub each_is : mode_field m.cfg.each b.mode ≡ ok c.each
  pub topic_is : template_field Key.topic topic_tpl_max m.cfg.topic b.topic ≡ ok c.topic
  pub payload_is : template_field Key.payload payload_tpl_max m.cfg.payload b.payload ≡ ok c.payload
  pub status_topic_is :
      template_field Key.status_topic topic_tpl_max m.cfg.status_topic b.status_topic
      ≡ ok c.status_topic
  pub avail_topic_is :
      template_field Key.avail_topic topic_tpl_max m.cfg.avail_topic b.avail_topic
      ≡ ok c.avail_topic
  pub enabled_is : flag_field m.cfg.enabled b.enabled ≡ c.enabled
  pub retain_is : flag_field m.cfg.retain b.retain ≡ c.retain
  pub status_is : flag_field m.cfg.status b.status ≡ c.status

pub merge-IsMerged :
    (m : Mqtt) (b : Body) (c : Config) (pw : Text) → merge m b ≡ ok (c, pw) → IsMerged m b c pw
unfolding merge
merge-IsMerged m b c pw h0 =
    let (host, e0, h1) = bind_ok (text_field Key.host 63 m.cfg.host b.host) _ _ h0 in
    let (client_id, e1, h2) =
      bind_ok (text_field Key.client_id 64 m.cfg.client_id b.client_id) _ _ h1 in
    let (user, e2, h3) = bind_ok (text_field Key.user 64 m.cfg.user b.user) _ _ h2 in
    let (pw, e3, h4) = bind_ok (text_field Key.password 64 m.password b.password) _ _ h3 in
    let (port, e4, h5) = bind_ok (int_field Key.port 1 65535 m.cfg.port b.port) _ _ h4 in
    let (period, e5, h6) = bind_ok (int_field Key.period 5 3600 m.cfg.period b.period) _ _ h5 in
    let (status_period, e6, h7) =
      bind_ok (int_field Key.status_period 5 3600 m.cfg.status_period b.status_period) _ _ h6 in
    let (qos, e7, h8) = bind_ok (int_field Key.qos 0 1 m.cfg.qos b.qos) _ _ h7 in
    let (each, e8, h9) = bind_ok (mode_field m.cfg.each b.mode) _ _ h8 in
    let (topic, e9, h10) =
      bind_ok (template_field Key.topic topic_tpl_max m.cfg.topic b.topic) _ _ h9 in
    let (payload, e10, h11) =
      bind_ok (template_field Key.payload payload_tpl_max m.cfg.payload b.payload) _ _ h10 in
    let (status_topic, e11, h12) =
      bind_ok (template_field Key.status_topic topic_tpl_max m.cfg.status_topic b.status_topic) _ _
        h11 in
    let (avail_topic, e12, h13) =
      bind_ok (template_field Key.avail_topic topic_tpl_max m.cfg.avail_topic b.avail_topic) _ _
        h12 in
    subst (λ (r : Config × Text). IsMerged m b r.0 r.1) (ok_inj h13)
      (record {
        host_is = e0;
        client_id_is = e1;
        user_is = e2;
        pw_is = e3;
        port_is = e4;
        period_is = e5;
        status_period_is = e6;
        qos_is = e7;
        each_is = e8;
        topic_is = e9;
        payload_is = e10;
        status_topic_is = e11;
        avail_topic_is = e12;
        enabled_is = refl;
        retain_is = refl;
        status_is = refl;
      })

pub IsMerged-merge :
    (m : Mqtt) (b : Body) (c : Config) (pw : Text) → IsMerged m b c pw → merge m b ≡ ok (c, pw)
unfolding merge
IsMerged-merge m b c pw v =
    rw
      (
        v.host_is, v.client_id_is, v.user_is, v.pw_is, v.port_is, v.period_is, v.status_period_is,
        v.qos_is, v.each_is, v.topic_is, v.payload_is, v.status_topic_is, v.avail_topic_is,
        v.enabled_is, v.retain_is, v.status_is,
      )
      refl
