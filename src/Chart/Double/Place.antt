-- ===== src/Chart/Double/Place.antt =====
-- The whole part of the rounded product of a rounded quotient.
use esphome_gplug.Base.{ℕ, zero, suc, ◌+◌, ◌*◌, ◌/◌, ◌^◌, ◌≤◌, ◌<◌, ◌≡◌, refl, arith, ap}
use mathlib.Core.Path.{subst, sym}
use native.Mathlib.Nat.{
  pow-succ', div-mul-le_self, lt-div-mul-add, mul-le-mul_left, mul-le-mul_right,
}
use native.Mathlib.Decide.{dec_lt}
use esphome_gplug.Chart.Double.{round_even, doublings, halvings, quotient, times, floor}
use esphome_gplug.Chart.Double.Near.{
  IsNear, round_even-Near, pow_pos, at_power, doublings_reach, doublings_stop, halvings_stop,
  on_bar,
}

big_scale : (x w E : ℕ) → 0 < x → x < w → 2 ^ 52 * w ≤ x * E → 2 ^ 52 < E
big_scale x w E pos lt h = elim (dec_lt (2 ^ 52) E) [
  | yes big ↦ big
  | no small ↦ absurd (omega (arith, mul-le-mul_left x (not_lt small)))
]
  where
    not_lt : ¬ (2 ^ 52 < E) → E ≤ 2 ^ 52
    not_lt h = omega (arith, h)

-- A mantissa of at most 53 bits.
mantissa_small : (m w y : ℕ) → 0 < w → IsNear m y w → y ≤ 2 ^ 53 * w → m ≤ 2 ^ 53
mantissa_small m w y pos near h = elim (dec_lt (2 ^ 53) m) [
  | no small ↦ omega (arith, small)
  | yes big ↦ absurd (omega (arith, near.0, mul-le-mul_right w big))
]

big_power : (w : ℕ) → 2 ^ 53 * (w + 1) ≤ 2 ^ (53 + w)
big_power zero = omega arith
big_power (suc w) = omega (arith, big_power w, pow-succ' 2 (53 + w), ap (λ (j : ℕ). 2 ^ j) (next w))
  where
    next : (w : ℕ) → 53 + suc w ≡ suc (53 + w)
    next w = omega arith

nearly_zero : (r a b : ℕ) → a ≡ 0 → 0 < b → IsNear r a b → r ≡ 0
nearly_zero zero a b e pos near = refl
nearly_zero (suc r) a b e pos near = absurd (omega (arith, near.0, e))

product_zero : (y z : ℕ) → y ≡ 0 → y * z ≡ 0
product_zero zero z e = omega arith
product_zero (suc y) z e = absurd (omega (arith, e))

module _ (x w n : ℕ) (some_bars : 0 < n) (inside : x < w) (small : n * w < 2 ^ 50) where
  down : ℕ
  down = doublings (53 + w) x w 0

  mantissa : ℕ
  mantissa = round_even (x * 2 ^ down) w

  up : ℕ
  up = halvings (n + 1) (mantissa * n) 0

  rounded : ℕ
  rounded = round_even (mantissa * n) (2 ^ up)

  place : ℕ
  place = rounded * 2 ^ up / 2 ^ down

  mantissa-Near : IsNear mantissa (x * 2 ^ down) w
  unfolding mantissa
  mantissa-Near = round_even-Near (x * 2 ^ down) w (omega arith)

  rounded-Near : IsNear rounded (mantissa * n) (2 ^ up)
  unfolding rounded
  rounded-Near = round_even-Near (mantissa * n) (2 ^ up) (pow_pos up)

  coarse_up : 2 ^ up ≤ 2 * n
  unfolding up
  coarse_up =
      halvings_stop (n + 1) (mantissa * n) 0 n
        (mul-le-mul_right n
          (mantissa_small mantissa w (x * 2 ^ down) (omega arith) mantissa-Near not_over))
        (omega arith)
    where
      not_over : x * 2 ^ down ≤ 2 ^ 53 * w
      not_over = unfold down in doublings_stop (53 + w) x w 0 (omega arith)

  fine_down : 0 < x → 3 * (n * w) < 2 * 2 ^ down
  unfolding down
  fine_down pos = omega (
    arith,
    big_scale x w (2 ^ doublings (53 + w) x w 0) pos inside (doublings_reach (53 + w) x w 0 enough),
  )
    where
      enough : 2 ^ 52 * w ≤ x * 2 ^ (0 + (53 + w))
      enough =
          at_power x (2 ^ 52 * w) (53 + w) (0 + (53 + w)) (omega arith)
            (omega (arith, big_power w, mul-le-mul_right (2 ^ (53 + w)) pos))

  whole_low : place * 2 ^ down ≤ rounded * 2 ^ up
  unfolding place
  whole_low = div-mul-le_self (rounded * 2 ^ up) (2 ^ down)

  whole_high : rounded * 2 ^ up < (place + 1) * 2 ^ down
  unfolding place
  whole_high = omega (arith, lt-div-mul-add {a = rounded * 2 ^ up} {b = 2 ^ down} (pow_pos down))

  at_edge : x ≡ 0 → (place * w ≤ x * n) × (x * n ≤ (place + 1) * w)
  at_edge e = (omega (arith, product_zero place w none_before), omega (arith, product_zero x n e))
    where
      no_mantissa : mantissa ≡ 0
      no_mantissa =
          nearly_zero mantissa (x * 2 ^ down) w (product_zero x (2 ^ down) e) (omega arith)
            mantissa-Near

      nothing : rounded ≡ 0
      nothing =
          nearly_zero rounded (mantissa * n) (2 ^ up) (product_zero mantissa n no_mantissa)
            (pow_pos up) rounded-Near

      none_before : place ≡ 0
      none_before = elim (dec_lt 0 place) [
        | no empty ↦ omega (arith, empty)
        | yes full ↦ absurd (
            omega (
              arith,
              whole_low,
              pow_pos down,
              mul-le-mul_right (2 ^ down) full,
              product_zero rounded (2 ^ up) nothing,
            ))
      ]

  place_near : (place * w ≤ x * n) × (x * n ≤ (place + 1) * w)
  place_near = elim (dec_lt 0 x) [
    | yes pos ↦
        on_bar x w n mantissa rounded place (2 ^ up) (2 ^ down) mantissa-Near rounded-Near coarse_up
          (fine_down pos) whole_low whole_high
    | no none_left ↦ at_edge (omega (arith, none_left))
  ]

  same_place : floor (times (quotient x w) n) ≡ place
  unfolding floor times quotient place rounded up mantissa down
  same_place = ap (λ (j : ℕ). rounded * 2 ^ j / 2 ^ down) (omega arith)

  -- The whole part of the rounded product of the rounded quotient `x / w` with `n` is that of the exact
  -- one, or, where that is a whole number, it may be the one below.
  pub floor_near :
      (floor (times (quotient x w) n) * w ≤ x * n)
      × (x * n ≤ (floor (times (quotient x w) n) + 1) * w)
  floor_near =
      subst (λ (k : ℕ). (k * w ≤ x * n) × (x * n ≤ (k + 1) * w)) (sym same_place) place_near
