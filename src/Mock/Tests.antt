-- ===== src/Mock/Tests.antt =====
-- Runs of the simulated device's MQTT settings, and their theorems at them.
use esphome_gplug.Base.{◌≡◌, refl, true, false, none, some, arith}
use esphome_gplug.Text.Utf8.{codes, utf8}
use esphome_gplug.Template.Data.{Fields}
use esphome_gplug.Template.Escape.{esc_len}
use esphome_gplug.Template.Keys.{classify, maxima}
use esphome_gplug.Template.Compile.{
  compile, compile_bytes, loop, round, placeholder, literal, conclude, compile_fixed, fixed_result,
  key_span, closes, accept, starts_key,
}
use esphome_gplug.Template.Render.{to_fields}
use esphome_gplug.Mock.Json.{bool, int, str, truthy}
use esphome_gplug.Mock.Mqtt.{
  Mqtt, initial, Body, mqtt_post, checked, merge, text_field, flag_field, int_field, mode_field,
  template_field, enabled_host, check_template, compile_error, reconnects, differ, bad, Key,
}
use esphome_gplug.Mock.Mqtt.Post.{IsValid, mqtt_post-IsValid}
use esphome_gplug.Mock.Mqtt.Again.{mqtt_post_again}
use esphome_gplug.Mock.Status.{
  mqtt_ctx, mqtt_status, running, answer, sending, numeric, connects, connected,
}
use esphome_gplug.Mock.Status.Sent.{is_error, mqtt_status_no_error}

abbrev empty_body : Body
empty_body = record {
  host = none;
  client_id = none;
  user = none;
  password = none;
  enabled = none;
  retain = none;
  status = none;
  port = none;
  period = none;
  status_period = none;
  qos = none;
  mode = none;
  topic = none;
  payload = none;
  status_topic = none;
  avail_topic = none;
}

abbrev no_meter : Fields
no_meter = mqtt_ctx (codes "gplug-a1") none

abbrev switch_on : Body
switch_on = record empty_body {
  enabled = some (bool true);
  host = some (str (codes "broker"));
  period = some (int 30);
  topic = some (codes "t");
  payload = some (codes "{ts}");
  mode = some (str (codes "period"));
}

refuse_host :
    mqtt_post no_meter 5 initial (record empty_body { enabled = some (bool true) })
    ≡ (initial, some (bad Key.host))
unfolding mqtt_post checked merge text_field flag_field truthy int_field mode_field template_field
    enabled_host
refuse_host = refl

accepted : (mqtt_post no_meter 5 initial switch_on).1 ≡ none
unfolding mqtt_post checked merge text_field flag_field truthy int_field mode_field template_field
    enabled_host compile_error check_template mqtt_ctx to_fields compile compile_bytes loop round
    placeholder literal conclude key_span closes accept classify maxima starts_key utf8 esc_len
    compile_fixed fixed_result reconnects differ
accepted = refl

status_run :
    mqtt_status connects no_meter 100005 (mqtt_post no_meter 5 initial switch_on).0
    ≡ connected 3 (some 8)
unfolding mqtt_post checked merge text_field flag_field truthy int_field mode_field template_field
    enabled_host compile_error check_template mqtt_ctx to_fields compile compile_bytes loop round
    placeholder literal conclude key_span closes accept classify maxima starts_key utf8 esc_len
    compile_fixed fixed_result reconnects differ mqtt_status running answer sending numeric
status_run = refl

initial-IsValid : IsValid initial
unfolding utf8
initial-IsValid = record {
  host_ok = omega arith;
  client_ok = omega arith;
  user_ok = omega arith;
  password_ok = omega arith;
  port_ok = (omega arith, omega arith);
  period_ok = (omega arith, omega arith);
  status_period_ok = (omega arith, omega arith);
  qos_ok = (omega arith, omega arith);
  topic_ok = omega arith;
  payload_ok = omega arith;
  status_topic_ok = omega arith;
  avail_topic_ok = omega arith;
  enabled_ok = λ h. cc;
}

mqtt_post-IsValid_example : IsValid (mqtt_post no_meter 5 initial switch_on).0
mqtt_post-IsValid_example = mqtt_post-IsValid no_meter 5 initial switch_on initial-IsValid

twice_changes_nothing :
    mqtt_post no_meter 9 (mqtt_post no_meter 5 initial switch_on).0 switch_on
    ≡ ((mqtt_post no_meter 5 initial switch_on).0, none)
twice_changes_nothing = mqtt_post_again no_meter 5 9 initial switch_on accepted

no_error :
    is_error (mqtt_status connects no_meter 9 (mqtt_post no_meter 5 initial switch_on).0) ≡ false
no_error = mqtt_status_no_error connects no_meter 5 9 initial switch_on accepted

abbrev running_mqtt : Mqtt
running_mqtt = (mqtt_post no_meter 5 initial switch_on).0
