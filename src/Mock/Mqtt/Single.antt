-- ===== src/Mock/Mqtt/Single.antt =====
-- Bounds of the single fields of `mqttPost`, and what the same field comes to when it is sent again.
use esphome_gplug.Base.{
  ℕ, ◌≤◌, ◌≡◌, refl, sym, inl, inr, Bool, ◌&&◌, Option, none, some, arith, ltb, leb, Bool-cases,
  length,
}
use esphome_gplug.Text.Utf8.{Text, utf8}
use esphome_gplug.Mock.Json.{Json, int, str}
use esphome_gplug.Mock.Mqtt.Merge.{ok_inj}
use esphome_gplug.Mock.Mqtt.{Key, ok, text_field, flag_field, int_field, mode_field, template_field}

abbrev pub Fits : ℕ → Text → Type 0
Fits limit s = length (utf8 s) ≤ limit

abbrev pub Between : ℕ → ℕ → ℕ → Type 0
Between lo hi n = (lo ≤ n) × (n ≤ hi)

module _ (k : Key) (limit : ℕ) where
  pub text_field-Fits :
      (old s : Text) (v : Option Json)
      → Fits limit old
      → text_field k limit old v ≡ ok s
      → Fits limit s
  unfolding text_field
  text_field-Fits old s none small h = rw (sym (ok_inj h)) small
  text_field-Fits old s (some (str t)) small h = elim (Bool-cases (ltb limit (length (utf8 t)))) [
    | inl long ↦ absurd (ground (arith, rw long at h))
    | inr short ↦ rw (sym (ok_inj (rw short at h))) (ground arith)
  ]
  text_field-Fits old s (some _) small h = absurd (ground arith)

  pub text_field_again :
      (old s : Text) (v : Option Json)
      → text_field k limit old v ≡ ok s
      → text_field k limit s v ≡ ok s
  unfolding text_field
  text_field_again old s none h = refl
  text_field_again old s (some (str t)) h = h
  text_field_again old s (some _) h = absurd (ground arith)

  pub template_field-Fits :
      (old s : Text) (v : Option Text)
      → Fits limit old
      → template_field k limit old v ≡ ok s
      → Fits limit s
  unfolding template_field
  template_field-Fits old s none small h = rw (sym (ok_inj h)) small
  template_field-Fits old s (some t) small h = elim (Bool-cases (ltb limit (length (utf8 t)))) [
    | inl long ↦ absurd (ground (arith, rw long at h))
    | inr short ↦ rw (sym (ok_inj (rw short at h))) (ground arith)
  ]

  pub template_field_again :
      (old s : Text) (v : Option Text)
      → template_field k limit old v ≡ ok s
      → template_field k limit s v ≡ ok s
  unfolding template_field
  template_field_again old s none h = refl
  template_field_again old s (some t) h = h

module _ (k : Key) (lo hi : ℕ) where
  pub int_field-Between :
      (old n : ℕ) (v : Option Json)
      → Between lo hi old
      → int_field k lo hi old v ≡ ok n
      → Between lo hi n
  unfolding int_field
  int_field-Between old n none small h = rw (sym (ok_inj h)) small
  int_field-Between old n (some (int x)) small h = elim (Bool-cases (leb lo x && leb x hi)) [
    | inl inside ↦ rw (sym (ok_inj (rw inside at h))) ground arith
    | inr outside ↦ absurd (ground (arith, rw outside at h))
  ]
  int_field-Between old n (some _) small h = absurd (ground arith)

  pub int_field_again :
      (old n : ℕ) (v : Option Json) → int_field k lo hi old v ≡ ok n → int_field k lo hi n v ≡ ok n
  unfolding int_field
  int_field_again old n none h = refl
  int_field_again old n (some (int x)) h = h
  int_field_again old n (some _) h = absurd (ground arith)

pub mode_field_again :
    (old b : Bool) (v : Option Json) → mode_field old v ≡ ok b → mode_field b v ≡ ok b
unfolding mode_field
mode_field_again old b none h = refl
mode_field_again old b (some (str t)) h = h
mode_field_again old b (some _) h = absurd (ground arith)

pub flag_field_again : (old b : Bool) (v : Option Json) → flag_field old v ≡ b → flag_field b v ≡ b
unfolding flag_field
flag_field_again old b none h = refl
flag_field_again old b (some v) h = h
