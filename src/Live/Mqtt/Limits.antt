-- ===== src/Live/Mqtt/Limits.antt =====
-- What single fields of the card and compiled templates come to at the simulated device.
use esphome_gplug.Base.{
  ℕ, ◌≡◌, refl, ap, Bool, true, false, Bool-cases, some, ltb, if◌then◌else◌, length, inl, inr,
  arith,
}
use mathlib.Core.Path.{◌∙◌}
use esphome_gplug.Text.Utf8.{Text, utf8, bytes_eq}
use esphome_gplug.Template.Data.{
  Fields, CompileResult, failed, compiled, diverged, topic_tpl_max, payload_tpl_max,
}
use esphome_gplug.Template.Compile.{compile, compile_bytes, compile_fixed, fixed_result}
use esphome_gplug.Mock.Json.{int, str}
use esphome_gplug.Mock.Mqtt.{
  Key, ok, text_field, int_field, mode_field, template_field, check_template,
}
use esphome_gplug.Mock.Mqtt.Single.{Fits, Between}
use esphome_gplug.Live.Mqtt.{Number, whole, number_json, mode_name, is_compiled}

pub text_field-str :
    (k : Key) (limit : ℕ) (old s : Text)
    → Fits limit s
    → text_field k limit old (some (str s)) ≡ ok s
unfolding text_field
text_field-str k limit old s h = ground arith

pub template_field-some :
    (k : Key) (limit : ℕ) (old s : Text) → Fits limit s → template_field k limit old (some s) ≡ ok s
unfolding template_field
template_field-some k limit old s h = ground arith

pub int_field-int :
    (k : Key) (lo hi old n : ℕ) → Between lo hi n → int_field k lo hi old (some (int n)) ≡ ok n
unfolding int_field
int_field-int k lo hi old n h = ground arith

pub number-int :
    (k : Key) (lo hi old n : ℕ) (x : Number)
    → x ≡ whole n
    → Between lo hi n
    → int_field k lo hi old (some (number_json x)) ≡ ok n
unfolding number_json
number-int k lo hi old n x e h =
    ap (λ (y : Number). int_field k lo hi old (some (number_json y))) e
    ∙ int_field-int k lo hi old n h

pub mode_field-name : (old each : Bool) → mode_field old (some (str (mode_name each))) ≡ ok each
unfolding mode_field mode_name bytes_eq
mode_field-name old true = refl
mode_field-name old false = refl

pub check_template-compiled :
    (k : Key) (r : CompileResult) → is_compiled r ≡ true → check_template k r ≡ ok tt
unfolding check_template is_compiled
check_template-compiled k (compiled t) h = refl
check_template-compiled k (failed c i w) h = absurd (ground arith)
check_template-compiled k diverged h = absurd (ground arith)

-- A template that compiles is not too long.
pub compile-Fits :
    (s : Text) (each topic : Bool) (f : Fields)
    → is_compiled (compile s each topic f) ≡ true
    → Fits (if topic then topic_tpl_max else payload_tpl_max) s
unfolding compile compile_bytes is_compiled
compile-Fits s each topic f h =
    elim (Bool-cases (ltb (if topic then topic_tpl_max else payload_tpl_max) (length (utf8 s)))) [
      | inl long ↦ absurd (ground (arith, rw long at h))
      | inr short ↦ ground (arith, short)
    ]

fixed_result-compiled :
    (r : CompileResult) → is_compiled (fixed_result r) ≡ true → is_compiled r ≡ true
unfolding fixed_result is_compiled
fixed_result-compiled (compiled t) h = refl
fixed_result-compiled (failed c i w) h = h
fixed_result-compiled diverged h = h

pub compile_fixed-Fits :
    (s : Text) (f : Fields) → is_compiled (compile_fixed s f) ≡ true → Fits topic_tpl_max s
unfolding compile_fixed
compile_fixed-Fits s f h =
    compile-Fits s false true f (fixed_result-compiled (compile s false true f) h)
