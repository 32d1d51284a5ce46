-- ===== src/Template/Tests.antt =====
-- Runs of the template engine at concrete inputs, and its theorems at them.
use esphome_gplug.Base.{
  ℕ, ◌+◌, ◌≤◌, ◌≡◌, refl, true, false, ◌⊎◌, none, some, [], ◌∷◌, arith, length, All,
}
use esphome_gplug.Text.Utf8.{Bytes, codes, utf8, decode}
use esphome_gplug.Template.Data.{
  Fields, Snapshot, finite, missing, Template, compiled, failed, tpl_syntax, tpl_unknown,
  tpl_context, tpl_topic, Code, lit, device, i_name, preset_each, is_time, names_item, num_max,
  json,
}
use mathlib.Core.List.{flat_map}
use esphome_gplug.Template.Escape.{esc_str, esc_len}
use esphome_gplug.Template.Escape.Length.{length-esc_str}
use esphome_gplug.Template.Number.{num, iso}
use esphome_gplug.Template.Number.Length.{num-le-num_max}
use esphome_gplug.Template.Keys.{classify, maxima}
use esphome_gplug.Template.Compile.{
  compile, compile_bytes, loop, round, placeholder, literal, conclude, compile_fixed, fixed_result,
  key_span, closes, accept, starts_key,
}
use esphome_gplug.Template.Compile.Covers.{CleanByte, any_key}
use esphome_gplug.Template.Compile.Result.{compile_returns, buf_limit}
use esphome_gplug.Template.Compile.Tiles.{slices-compile}
use esphome_gplug.Template.Compile.Modes.{is_list, is_item, compile_modes}
use esphome_gplug.Template.Render.{render, render_tokens, render_kind, shown_then, slice_of}
use esphome_gplug.Template.Render.Fits.{render_fits}
use esphome_gplug.Template.Render.Clean.{render-Clean}
use esphome_gplug.Template.Render.Fixed.{render-compile_fixed}

iso_run : iso 1577836800 ≡ codes "2020-01-01T00:00:00Z"
unfolding iso
iso_run = refl

iso_run_leap : iso 1709251199 ≡ codes "2024-02-29T23:59:59Z"
unfolding iso
iso_run_leap = refl

num_run : num (finite (record { neg = true; mantissa = 5; shift = 2 })) 1 ≡ codes "-1.3"
unfolding num
num_run = refl

num_run_small : num (finite (record { neg = false; mantissa = 1; shift = 10 })) 3 ≡ codes "0.001"
unfolding num
num_run_small = refl

-- Two registers, one of them a string.
abbrev pub fields : Fields
fields = record {
  names = codes "Pi" ∷ codes "id" ∷ [];
  obis = codes "1.7.0" ∷ codes "0.0" ∷ [];
  units = codes "kW" ∷ [] ∷ [];
  prec = 3 ∷ 0 ∷ [];
  string = false ∷ true ∷ [];
  device = codes "gplug-a1";
  mac = codes "a1b2";
}

abbrev snapshot : Snapshot
snapshot = record {
  v = finite (record { neg = false; mantissa = 3; shift = 1 }) ∷ missing ∷ [];
  have = true ∷ true ∷ [];
  smid = codes "55+7";
  epoch = 1577836800;
}

abbrev pub each_topic : Template
each_topic = record {
  tok =
      record { key = lit; idx = 0; off = 0; len = 6 }
      ∷ record { key = device; idx = 0; off = 6; len = 8 }
      ∷ record { key = lit; idx = 0; off = 14; len = 1 }
      ∷ record { key = i_name; idx = 0; off = 15; len = 6 }
      ∷ [];
  worst = 17;
  uses_time = false;
  text = utf8 preset_each.topic;
}

pub compile_each : compile preset_each.topic true true fields ≡ compiled each_topic
unfolding compile compile_bytes loop round placeholder literal conclude key_span closes accept
    classify maxima starts_key utf8 esc_len
compile_each = refl

errors :
    (compile (codes "a{nope}") false false fields ≡ failed tpl_unknown 1 0)
    × (compile (codes "{values}") true false fields ≡ failed tpl_context 0 0)
    × (compile (codes "a/#") false true fields ≡ failed tpl_topic 2 0)
    × (compile (codes "x{device") false false fields ≡ failed tpl_syntax 1 0)
    × (compile (codes "a/b") true true fields ≡ failed tpl_topic 0 0)
unfolding compile compile_bytes loop round placeholder literal conclude key_span closes accept
    classify maxima starts_key utf8 esc_len
errors = (refl, refl, refl, refl, refl)

render_each : render each_topic true fields snapshot (some 0) ≡ some (codes "gplug/gplug-a1/Pi")
unfolding render render_tokens render_kind shown_then decode utf8 esc_str
render_each = refl

abbrev fixed_topic : Template
fixed_topic = record {
  tok =
      record { key = device; idx = 0; off = 0; len = 8 }
      ∷ record { key = lit; idx = 0; off = 8; len = 2 }
      ∷ [];
  worst = 10;
  uses_time = false;
  text = utf8 (codes "{device}/s");
}

compile_fixed_run : compile_fixed (codes "{device}/s") fields ≡ compiled fixed_topic
unfolding compile compile_bytes loop round placeholder literal conclude key_span closes accept
    classify maxima starts_key utf8 esc_len compile_fixed fixed_result
compile_fixed_run = refl

length-esc_str_example :
    length (utf8 (esc_str (codes "a\"³") json)) ≡ esc_len (utf8 (codes "a\"³")) json
length-esc_str_example = length-esc_str (codes "a\"³") json

num-le-num_max_example :
    length (num (finite (record { neg = true; mantissa = 8191999999999999; shift = 13 })) 9)
    ≤ num_max
num-le-num_max_example =
    num-le-num_max (finite (record { neg = true; mantissa = 8191999999999999; shift = 13 })) 9
      (omega arith)

compile_returns_example :
    ((k : Template) × (compile (codes "{v:Pi} kW") false false fields ≡ compiled k))
    ⊎ ((code : Code) × (pos : ℕ) × (worst : ℕ) × (compile (codes "{v:Pi} kW") false false fields
          ≡ failed code pos worst)
        × (pos ≤ length (utf8 (codes "{v:Pi} kW"))))
compile_returns_example = compile_returns (codes "{v:Pi} kW") false false fields

slices-compile_example : flat_map (slice_of each_topic.text) each_topic.tok ≡ utf8 preset_each.topic
slices-compile_example = slices-compile preset_each.topic true true fields each_topic compile_each

compile_modes_example :
    (any_key is_list each_topic.tok ≡ true → (true ≡ false) × (true ≡ false))
    × (any_key is_item each_topic.tok ≡ true → true ≡ true)
    × (true ≡ true → true ≡ true → any_key names_item each_topic.tok ≡ true)
    × (each_topic.uses_time ≡ any_key is_time each_topic.tok)
compile_modes_example = compile_modes preset_each.topic true true fields each_topic compile_each

render_fits_example :
    (b : Bytes) × (render each_topic true fields snapshot (some 0) ≡ some b)
    × (length b ≤ each_topic.worst)
    × (length b + 1 ≤ buf_limit true)
render_fits_example =
    render_fits preset_each.topic true true fields each_topic snapshot (some 0) compile_each
      (record { same_obis = refl; same_units = refl })
      (record { doubles = omega arith; clock = omega arith; short_id = short_id })
      (λ h. (0, refl, omega arith, refl))
  where
    short_id : length (utf8 snapshot.smid) ≤ 39
    short_id = unfold utf8 in omega arith

render-Clean_example : All CleanByte (codes "gplug/gplug-a1/Pi")
render-Clean_example =
    render-Clean preset_each.topic true fields each_topic snapshot (some 0)
      (codes "gplug/gplug-a1/Pi") compile_each mac_clean (omega arith) render_each
  where
    mac_clean : All CleanByte (utf8 fields.mac)
    mac_clean = unfold utf8 in omega arith

render-compile_fixed_example :
    (compile (codes "{device}/s") false true fields ≡ compiled fixed_topic)
    × (render fixed_topic true fields snapshot none
        ≡ render fixed_topic true fields snapshot (some 1))
render-compile_fixed_example =
    render-compile_fixed (codes "{device}/s") fields fixed_topic snapshot snapshot none (some 1)
      compile_fixed_run
