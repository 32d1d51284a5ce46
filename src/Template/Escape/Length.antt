-- ===== src/Template/Escape/Length.antt =====
-- `escLen` and the length of what `escStr` writes.
use esphome_gplug.Base.{
  ℕ, ◌+◌, ◌*◌, ◌≤◌, ◌<◌, ◌≡◌, refl, sym, ap, ◌∙◌, false, inl, inr, [], ◌∷◌, ◌++◌, arith, map,
  length, length-append, All,
}
use esphome_gplug.Text.Utf8.{Text, Bytes, utf8_char, utf8}
use esphome_gplug.Text.Laws.{utf8-append, Ascii, utf8-Ascii, utf8_char-HighOrSelf}
use esphome_gplug.Template.Data.{Esc, topic, json}
use esphome_gplug.Template.Escape.{escaped, esc_len, esc_char, esc_str, meter_char, esc_meter}

pub esc_len-append : (a b : Bytes) (e : Esc) → esc_len (a ++ b) e ≡ esc_len a e + esc_len b e
unfolding esc_len
esc_len-append [] b e = omega arith
esc_len-append (c ∷ a) b e = omega (arith, esc_len-append a b e)

escaped_high : (c : ℕ) (e : Esc) → 0x80 ≤ c → escaped c e ≡ false
unfolding escaped
escaped_high c topic h = ground arith
escaped_high c _ h = ground arith

-- A character beyond ASCII is written as it is.
pub esc_char_high : (c : ℕ) (e : Esc) → 0x80 ≤ c → esc_char c e ≡ c ∷ []
unfolding esc_char
esc_char_high c topic h = ground arith
esc_char_high c _ h = ground arith

esc_char_ascii : (c : ℕ) (e : Esc) → c < 0x80 → length (utf8 (esc_char c e)) ≡ esc_len (c ∷ []) e
unfolding esc_char esc_len utf8
esc_char_ascii c topic h = ground arith
esc_char_ascii c _ h = ground arith

esc_len_high : (bs : Bytes) (e : Esc) → All (λ b. 0x80 ≤ b) bs → esc_len bs e ≡ length bs
unfolding esc_len
esc_len_high [] e h = refl
esc_len_high (b ∷ bs) e h = rw (escaped_high b e h.0) (omega (arith, esc_len_high bs e h.1))

length-utf8-single : (c : ℕ) → length (utf8 (c ∷ [])) ≡ length (utf8_char c)
unfolding utf8
length-utf8-single c = omega (arith, length-append (utf8_char c) [])

esc_char-length : (c : ℕ) (e : Esc) → length (utf8 (esc_char c e)) ≡ esc_len (utf8_char c) e
esc_char-length c e = elim (utf8_char-HighOrSelf c) [
  | inl low ↦ rw low.1 (esc_char_ascii c e low.0)
  | inr high ↦ rw (esc_char_high c e high.0) (length-utf8-single c ∙ sym (esc_len_high _ e high.1))
]

-- For every string and every escaping, the length that `escLen` computes on the bytes of the string
-- is the length in bytes of what `escStr` makes of the string.
pub length-esc_str : (s : Text) (e : Esc) → length (utf8 (esc_str s e)) ≡ esc_len (utf8 s) e
unfolding esc_str utf8
length-esc_str [] e = unfold esc_len in refl
length-esc_str (c ∷ s) e =
    rw (utf8-append (esc_char c e) (esc_str s e), length-append, esc_len-append, esc_char-length)
      (omega (arith, length-esc_str s e))

pub meter_char-Ascii : (e : Esc) (c : ℕ) → Ascii (meter_char e c)
unfolding meter_char
meter_char-Ascii topic c = ground arith
meter_char-Ascii _ c = ground arith

pub map-meter_char-Ascii : (e : Esc) (bs : Bytes) → All Ascii (map (meter_char e) bs)
map-meter_char-Ascii e [] = tt
map-meter_char-Ascii e (b ∷ bs) = (meter_char-Ascii e b, map-meter_char-Ascii e bs)

esc_len-le : (bs : Bytes) (e : Esc) → esc_len bs e ≤ 2 * length bs
unfolding esc_len
esc_len-le [] e = omega arith
esc_len-le (b ∷ bs) e = ground (arith, esc_len-le bs e)

esc_len-topic : (bs : Bytes) → esc_len bs topic ≡ length bs
unfolding esc_len
esc_len-topic [] = refl
esc_len-topic (b ∷ bs) = omega (arith, esc_len-topic bs)

length-map : (bs : Bytes) (f : ℕ → ℕ) → length (map f bs) ≡ length bs
length-map [] f = refl
length-map (b ∷ bs) f = omega (arith, length-map bs f)

esc_meter-esc_len :
    (s : Text) (e : Esc) → length (utf8 (esc_meter s e)) ≡ esc_len (map (meter_char e) (utf8 s)) e
unfolding esc_meter
esc_meter-esc_len s e =
    length-esc_str (map (meter_char e) (utf8 s)) e
    ∙ ap (λ t. esc_len t e) (utf8-Ascii _ (map-meter_char-Ascii e (utf8 s)))

-- The escaped meter id takes as many bytes as the id in a topic, and at most twice as many elsewhere.
pub esc_meter-length :
    (s : Text)
    → (length (utf8 (esc_meter s topic)) ≡ length (utf8 s))
      × (length (utf8 (esc_meter s json)) ≤ 2 * length (utf8 s))
esc_meter-length s = (
  rw esc_meter-esc_len (rw esc_len-topic (length-map (utf8 s) _)),
  rw esc_meter-esc_len (
      omega (
        arith,
        esc_len-le (map (meter_char json) (utf8 s)) json,
        length-map (utf8 s) (meter_char json),
      )),
)
