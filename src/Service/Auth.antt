-- ===== src/Service/Auth.antt =====
-- When two passwords have the same credentials.
use esphome_gplug.Base.{
  ℕ, ◌<◌, ◌≡◌, refl, sym, ap, Bool, true, false, [], ◌∷◌, ◌++◌, All, All-append, arith, drop,
}
use mathlib.Core.Path.{◌∙◌}
use esphome_gplug.Text.Utf8.{Text, Bytes, codes, utf8, utf8_char, bytes_eq}
use esphome_gplug.Text.Laws.{utf8-append}
use esphome_gplug.Text.Equal.{bytes_eq_refl, bytes_eq→eq}
use esphome_gplug.Service.Base64.{btoa, atob, basic_auth, atob-btoa}

-- A code point.
abbrev pub IsCode : ℕ → Type 0
IsCode c = c < 0x110000

abbrev IsByte : ℕ → Type 0
IsByte b = b < 256

utf8_char-Byte : (c : ℕ) → IsCode c → All IsByte (utf8_char c)
unfolding utf8_char
utf8_char-Byte c h = ground arith

utf8-Byte : (s : Text) → All IsCode s → All IsByte (utf8 s)
unfolding utf8
utf8-Byte [] h = tt
utf8-Byte (c ∷ s) (here, there) =
    All-append IsByte (utf8_char c) (utf8 s) (utf8_char-Byte c here) (utf8-Byte s there)

btoa_inj : (a b : Bytes) → All IsByte a → All IsByte b → btoa a ≡ btoa b → a ≡ b
btoa_inj a b ha hb e = sym (atob-btoa a ha) ∙ ap atob e ∙ atob-btoa b hb

basic_auth-inj :
    (p w : Text) → All IsCode p → All IsCode w → basic_auth p ≡ basic_auth w → utf8 p ≡ utf8 w
unfolding basic_auth utf8 utf8_char
basic_auth-inj p w hp hw e = ap (drop 6) (
    btoa_inj (utf8 (codes "admin:" ++ p)) (utf8 (codes "admin:" ++ w))
      (utf8-Byte (codes "admin:" ++ p) (ground (arith, hp)))
      (utf8-Byte (codes "admin:" ++ w) (ground (arith, hw))) (ap (drop 6) e))

basic_auth-bytes : (p w : Text) → utf8 p ≡ utf8 w → basic_auth p ≡ basic_auth w
unfolding basic_auth
basic_auth-bytes p w e =
    ap (λ (b : Bytes). codes "Basic " ++ btoa b)
      (utf8-append (codes "admin:") p
        ∙ ap (λ (b : Bytes). utf8 (codes "admin:") ++ b) e
        ∙ sym (utf8-append (codes "admin:") w))

same_if : (x y : Bool) → (x ≡ true → y ≡ true) → (y ≡ true → x ≡ true) → x ≡ y
same_if true true f g = refl
same_if false false f g = refl
same_if true false f g = sym (f refl)
same_if false true f g = g refl

-- A server that compares the credentials compares the bytes of the passwords.
pub same_credentials :
    (p w : Text)
    → All IsCode p
    → All IsCode w
    → bytes_eq (basic_auth p) (basic_auth w) ≡ bytes_eq (utf8 p) (utf8 w)
same_credentials p w hp hw =
    same_if (bytes_eq (basic_auth p) (basic_auth w)) (bytes_eq (utf8 p) (utf8 w))
      (λ e. equal (basic_auth-inj p w hp hw (bytes_eq→eq (basic_auth p) (basic_auth w) e)))
      (λ e. equal (basic_auth-bytes p w (bytes_eq→eq (utf8 p) (utf8 w) e)))
  where
    equal : {a b : Bytes} → a ≡ b → bytes_eq a b ≡ true
    equal {a} e = ap (bytes_eq a) (sym e) ∙ bytes_eq_refl a
