-- ===== src/Live/Mqtt/Tests.antt =====
-- The MQTT card at small inputs, and its theorems there.
use esphome_gplug.Base.{
  ◌+◌, ◌≤◌, ◌≡◌, refl, true, false, none, some, [], ◌∷◌, arith, length, List, All,
}
use esphome_gplug.Text.Utf8.{Text, Bytes, codes, utf8}
use esphome_gplug.Text.Decimal.{digits}
use esphome_gplug.Language.{en}
use esphome_gplug.Language.German.{german}
use esphome_gplug.Language.Real.{table_of}
use esphome_gplug.Template.Data.{
  Fields, Template, Value, finite, compiled, preset_each, i_value, tpl_unknown,
}
use esphome_gplug.Template.Escape.{esc_len}
use esphome_gplug.Template.Keys.{classify, maxima}
use esphome_gplug.Template.Compile.{
  compile, compile_bytes, loop, round, placeholder, literal, conclude, compile_fixed, fixed_result,
  key_span, closes, accept, starts_key,
}
use esphome_gplug.Template.Render.{to_fields}
use esphome_gplug.Template.Tests.{fields, each_topic, compile_each}
use esphome_gplug.Mock.Mqtt.{initial, mqtt_post, bad, bad_template, Key}
use esphome_gplug.Mock.Status.{mqtt_ctx}
use esphome_gplug.Live.Mqtt.{
  Draft, draft_of, can_save, is_compiled, is_fine, topic_c, payload_c, status_c, avail_c, trim,
  trim_start, trim_end, keep_before, is_space, save_body, preview, snapshot_of,
}
use esphome_gplug.Live.Mqtt.Save.{IsInRange, trimmed, kept_password, save-Accepted}
use esphome_gplug.Live.Mqtt.Texts.{save_failed, label, field_label, tpl_err}
use esphome_gplug.Live.Mqtt.Refused.{
  ShowsAll, payload_of, key_name, code_token, save_failed-ShowsAll,
}
use esphome_gplug.Live.Mqtt.Preview.{preview_text, IsShort, count, preview_fits}

abbrev no_meter : Fields
no_meter = mqtt_ctx (codes "gplug-a1") none

abbrev draft : Draft
draft = record (draft_of initial.cfg) {
  enabled = true;
  host = codes " broker";
  topic = codes "t";
  payload = codes "{ts}";
  password = codes "geheim";
  avail_topic = codes " a";
}

host_trimmed : trim (codes " broker") ≡ codes "broker"
unfolding trim trim_start trim_end keep_before is_space
host_trimmed = refl

draft-IsInRange : IsInRange draft
unfolding trim trim_start trim_end keep_before is_space utf8 draft_of
draft-IsInRange = record {
  host_ok = omega arith;
  client_ok = omega arith;
  user_ok = omega arith;
  password_ok = omega arith;
  port = 1883;
  port_is = refl;
  port_ok = omega arith;
  period = 10;
  period_is = refl;
  period_ok = omega arith;
  status_period = 60;
  status_period_is = refl;
  status_period_ok = omega arith;
  qos_ok = omega arith;
  named = refl;
}

enabled : can_save false true draft no_meter ≡ true
unfolding can_save is_compiled is_fine topic_c payload_c status_c avail_c mqtt_ctx to_fields compile
    compile_bytes loop round placeholder literal conclude key_span closes accept classify maxima
    starts_key utf8 esc_len compile_fixed fixed_result draft_of
enabled = refl

-- The fixed topics compile without the white space, too.
bare :
    (is_compiled (compile_fixed (trim draft.status_topic) no_meter) ≡ true)
    × (is_fine (avail_c (trimmed draft) no_meter) ≡ true)
unfolding is_compiled is_fine avail_c trim trim_start trim_end keep_before is_space mqtt_ctx
    to_fields compile compile_bytes loop round placeholder literal conclude key_span closes accept
    classify maxima starts_key utf8 esc_len compile_fixed fixed_result draft_of
bare = (refl, refl)

save-Accepted_example :
    let r = mqtt_post no_meter 5 initial (save_body true draft) in
    (r.1 ≡ none)
    × (draft_of (r.0).cfg ≡ record (trimmed draft) { password = []; clear_password = false })
    × ((r.0).password ≡ kept_password initial.password draft.password draft.clear_password)
save-Accepted_example =
    save-Accepted no_meter 5 initial false draft draft-IsInRange enabled (bare.0) (bare.1)

save_failed-ShowsAll_example :
    ShowsAll
      (save_failed german
        (table_of en)
        (some (payload_of (bad_template tpl_unknown Key.topic 4 0)))
        (codes "Error"))
      (label german (table_of en) field_label (key_name Key.topic))
      (label german (table_of en) tpl_err (code_token tpl_unknown))
      (digits (4 + 1))
    × (save_failed german (table_of en) (some (payload_of (bad Key.port))) (codes "Error")
        ≡ some (codes "Error"))
save_failed-ShowsAll_example =
    save_failed-ShowsAll en tpl_unknown Key.topic Key.port 4 0 (codes "Error")

abbrev value_payload : Template
value_payload = record {
  tok = record { key = i_value; idx = 0; off = 0; len = 7 } ∷ [];
  worst = 20;
  uses_time = false;
  text = utf8 (codes "{value}");
}

compile_value : compile (codes "{value}") true false fields ≡ compiled value_payload
unfolding compile compile_bytes loop round placeholder literal conclude key_span closes accept
    classify maxima starts_key utf8 esc_len
compile_value = refl

abbrev polled : List (Text × Value)
polled = (codes "Pi", finite (record { neg = false; mantissa = 3; shift = 1 })) ∷ []

preview_fits_example :
    let s = snapshot_of fields polled (codes "55+7") 1577836800 in
    (ms : List (Bytes × Bytes)) × (preview true each_topic value_payload fields s
      ≡ some (preview_text ms))
    × (length ms ≡ count true fields s)
    × All (IsShort each_topic value_payload) ms
preview_fits_example =
    preview_fits true preset_each.topic (codes "{value}") each_topic value_payload fields polled
      (codes "55+7") 1577836800 compile_each compile_value
      (record { same_obis = refl; same_units = refl }) (omega arith, tt) (omega arith) short_id
  where
    short_id : length (utf8 (codes "55+7")) ≤ 39
    short_id = unfold utf8 in omega arith
