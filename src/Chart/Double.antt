-- ===== src/Chart/Double.antt =====
-- The division and the multiplication of JavaScript numbers that spa/src/scrub.js places a pointer by:
-- each is rounded to 53 bits, to the nearest and in the middle to the even number.
pub mod Near
pub mod Place
use esphome_gplug.Base.{ℕ, zero, suc, ◌+◌, ◌*◌, ◌/◌, ◌%◌, ◌^◌, ltb, leb, if◌then◌else◌}

-- `a / b`, rounded to a whole number.
unfoldable pub round_even : ℕ → ℕ → ℕ
round_even a b =
    let q = a / b in
    let r = a % b in if ltb (2 * r) b then q else if ltb b (2 * r) then q + 1 else q + q % 2

-- The number `mantissa * 2 ^ up / 2 ^ down`.
pub record Rounded : Type 0 where
  pub mantissa : ℕ
  pub up : ℕ
  pub down : ℕ

-- How often `a` is doubled from `e` on until `a / b` has 53 bits before the point.
unfoldable pub doublings : ℕ → ℕ → ℕ → ℕ → ℕ
doublings zero a b e = e
doublings (suc n) a b e =
    let later = doublings n a b (e + 1) in if leb (2 ^ 52 * b) (a * 2 ^ e) then e else later

-- `a / b` of whole numbers, for a quotient below 2 ^ 53; a quotient of at least `1 / b` is doubled less
-- than `53 + b` times.
unfoldable pub quotient : ℕ → ℕ → Rounded
unfolding doublings round_even
quotient a b =
    let e = doublings (53 + b) a b 0 in
    record { mantissa = round_even (a * 2 ^ e) b; up = 0; down = e }

-- How often `p` is halved from `d` on until it has at most 53 bits.
unfoldable pub halvings : ℕ → ℕ → ℕ → ℕ
halvings zero p d = d
halvings (suc n) p d =
    let later = halvings n p (d + 1) in if ltb p (2 ^ 53 * 2 ^ d) then d else later

-- A number times `n`; the product of 53 bits with `n` is halved at most `n + 1` times.
unfoldable pub times : Rounded → ℕ → Rounded
unfolding halvings round_even
times x n =
    let p = x.mantissa * n in
    let d = halvings (n + 1) p 0 in
    record { mantissa = round_even p (2 ^ d); up = d + x.up; down = x.down }

-- `Math.floor`.
unfoldable pub floor : Rounded → ℕ
floor x = x.mantissa * 2 ^ x.up / 2 ^ x.down

-- `Math.round`, which rounds a half up.
unfoldable pub round : Rounded → ℕ
round x = (2 * (x.mantissa * 2 ^ x.up) + 2 ^ x.down) / (2 * 2 ^ x.down)
