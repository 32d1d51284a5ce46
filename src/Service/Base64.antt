-- ===== src/Service/Base64.antt =====
-- `btoa` on the bytes of a string, the `Basic` credentials of spa/src/api.js, and the decoding that a
-- server makes of them.
use esphome_gplug.Base.{
  ℕ, ◌+◌, ◌-◌, ◌*◌, ◌/◌, ◌%◌, ◌<◌, ◌≡◌, refl, false, [], ◌∷◌, ◌++◌, ltb, ◌==◌, if◌then◌else◌, All,
  arith, ap, ap₂,
}
use mathlib.Core.Path.{◌∙◌}
use esphome_gplug.Text.Utf8.{Text, Bytes, codes, utf8}

-- The character of six bits, and the padding.
unfoldable pub digit64 : ℕ → ℕ
digit64 n =
    if ltb n 26
    then n + 65
    else if ltb n 52
    then n + 71
    else if ltb n 62
    then n - 52 + 48
    else if n == 62
    then 43
    else 47

abbrev pub pad : ℕ
pad = 61

unfoldable pub btoa : Bytes → Text
unfolding digit64
btoa [] = []
btoa (a ∷ []) = digit64 (a / 4) ∷ digit64 (a % 4 * 16) ∷ pad ∷ pad ∷ []
btoa (a ∷ b ∷ []) =
    digit64 (a / 4) ∷ digit64 (a % 4 * 16 + b / 16) ∷ digit64 (b % 16 * 4) ∷ pad ∷ []
btoa (a ∷ b ∷ c ∷ rest) =
    digit64 (a / 4)
    ∷ digit64 (a % 4 * 16 + b / 16)
    ∷ digit64 (b % 16 * 4 + c / 64)
    ∷ digit64 (c % 64)
    ∷ btoa rest

-- `basicAuth(password)`.
unfoldable pub basic_auth : Text → Text
unfolding btoa utf8
basic_auth password = codes "Basic " ++ btoa (utf8 (codes "admin:" ++ password))

-- The six bits of a character.
unfoldable pub value64 : ℕ → ℕ
value64 c =
    if c == 43
    then 62
    else if c == 47
    then 63
    else if ltb c 58
    then c - 48 + 52
    else if ltb c 91
    then c - 65
    else c - 71

unfoldable pub quad : ℕ → ℕ → ℕ → ℕ → Bytes
unfolding value64
quad a b c d =
    if c == pad
    then (value64 a * 4 + value64 b / 16) ∷ []
    else if d == pad
    then (value64 a * 4 + value64 b / 16) ∷ (value64 b % 16 * 16 + value64 c / 4) ∷ []
    else (value64 a * 4 + value64 b / 16)
      ∷ (value64 b % 16 * 16 + value64 c / 4)
      ∷ (value64 c % 4 * 64 + value64 d)
      ∷ []

unfoldable pub atob : Text → Bytes
unfolding quad
atob (a ∷ b ∷ c ∷ d ∷ rest) = quad a b c d ++ atob rest
atob _ = []

value64-digit64 : (n : ℕ) → n < 64 → (value64 (digit64 n) ≡ n)
unfolding value64 digit64
value64-digit64 n h = ground arith

digit64_no_pad : (n : ℕ) → n < 64 → (digit64 n == pad) ≡ false
unfolding digit64
digit64_no_pad n h = ground arith

-- What four, three and two characters of six bits stand for.
quad_full :
    (x y z w : ℕ)
    → x < 64
    → y < 64
    → z < 64
    → w < 64
    → quad (digit64 x) (digit64 y) (digit64 z) (digit64 w)
      ≡ (x * 4 + y / 16) ∷ (y % 16 * 16 + z / 4) ∷ (z % 4 * 64 + w) ∷ []
unfolding quad
quad_full x y z w hx hy hz hw =
    rw
      (
        digit64_no_pad z hz,
        digit64_no_pad w hw,
        value64-digit64 x hx,
        value64-digit64 y hy,
        value64-digit64 z hz,
        value64-digit64 w hw,
      )
      refl

quad_two :
    (x y z : ℕ)
    → x < 64
    → y < 64
    → z < 64
    → quad (digit64 x) (digit64 y) (digit64 z) pad ≡ (x * 4 + y / 16) ∷ (y % 16 * 16 + z / 4) ∷ []
unfolding quad
quad_two x y z hx hy hz =
    rw (digit64_no_pad z hz, value64-digit64 x hx, value64-digit64 y hy, value64-digit64 z hz) refl

quad_one :
    (x y : ℕ) → x < 64 → y < 64 → quad (digit64 x) (digit64 y) pad pad ≡ (x * 4 + y / 16) ∷ []
unfolding quad
quad_one x y hx hy = rw (value64-digit64 x hx, value64-digit64 y hy) refl

-- The bits of one, two and three bytes, put together again.
first_byte : (a b : ℕ) → b < 256 → a / 4 * 4 + (a % 4 * 16 + b / 16) / 16 ≡ a
first_byte a b h = omega arith

second_byte :
    (a b c : ℕ)
    → b < 256
    → c < 256
    → (a % 4 * 16 + b / 16) % 16 * 16 + (b % 16 * 4 + c / 64) / 4 ≡ b
second_byte a b c h k = omega arith

third_byte : (b c : ℕ) → c < 256 → (b % 16 * 4 + c / 64) % 4 * 64 + c % 64 ≡ c
third_byte b c h = omega arith

three :
    (r : Bytes)
    → {x x' y y' z z' : ℕ} → x ≡ x'
    → y ≡ y'
    → z ≡ z'
    → (x ∷ y ∷ z ∷ []) ++ r ≡ x' ∷ y' ∷ z' ∷ r
three r e f g = cc

-- Decoding what `btoa` made of bytes gives the bytes back.
pub atob-btoa : (bs : Bytes) → All (λ b. b < 256) bs → atob (btoa bs) ≡ bs
unfolding btoa atob
atob-btoa [] h = refl
atob-btoa (a ∷ []) (ha, h) =
    quad_one (a / 4) (a % 4 * 16) (omega arith) (omega arith) ∙ ap (λ (x : ℕ). x ∷ []) (omega arith)
atob-btoa (a ∷ b ∷ []) (ha, (hb, h)) =
    ap (λ (l : Bytes). l ++ [])
      (quad_two (a / 4) (a % 4 * 16 + b / 16) (b % 16 * 4) (omega arith) (omega arith)
        (omega arith))
    ∙ ap₂ (λ (x y : ℕ). x ∷ y ∷ []) (first_byte a b hb) (omega arith)
atob-btoa (a ∷ b ∷ c ∷ rest) (ha, (hb, (hc, h))) =
    ap₂ ◌++◌
      (quad_full (a / 4) (a % 4 * 16 + b / 16) (b % 16 * 4 + c / 64) (c % 64) (omega arith)
        (omega arith) (omega arith) (omega arith))
      (atob-btoa rest h)
    ∙ three rest (first_byte a b hb) (second_byte a b c hb hc) (third_byte b c hc)
