-- ===== src/Chart/Double/Near.antt =====
-- How near a rounded quotient and a rounded product are to the exact ones.
use esphome_gplug.Base.{
  ℕ, zero, suc, ◌+◌, ◌*◌, ◌/◌, ◌%◌, ◌^◌, ◌≤◌, ◌<◌, ◌≡◌, inl, inr, false, ltb, leb, Bool-cases,
  arith, ap, ◌∙◌, leb→le,
}
use mathlib.Core.Path.{subst}
use native.Mathlib.Nat.{pow-succ', div-add-mod, mod-lt, mul-le-mul_right}
use esphome_gplug.Chart.Double.{round_even, doublings, halvings}

-- A whole number times `b` is at most half of `b` away from `a`.
abbrev pub IsNear : ℕ → ℕ → ℕ → Type 0
IsNear r a b = (2 * (r * b) ≤ 2 * a + b) × (2 * a ≤ 2 * (r * b) + b)

half_up : (q b r a : ℕ) → b * q + r ≡ a → r < b → b ≤ 2 * r → IsNear (q + 1) a b
half_up q b r a e lt h = (omega arith, omega arith)

half_down : (q b r a : ℕ) → b * q + r ≡ a → 2 * r ≤ b → IsNear q a b
half_down q b r a e h = (omega arith, omega arith)

tie : (q b r a s : ℕ) → b * q + r ≡ a → r < b → 2 * r ≡ b → s < 2 → IsNear (q + s) a b
tie q b r a zero e lt h small = half_down (q + 0) b r a (omega arith) (omega arith)
tie q b r a (suc zero) e lt h small = half_up q b r a e lt (omega arith)
tie q b r a (suc (suc s)) e lt h small = absurd (omega arith)

pub round_even-Near : (a b : ℕ) → 0 < b → IsNear (round_even a b) a b
unfolding round_even
round_even-Near a b pos =
    let e = div-add-mod a b in
    let lt = mod-lt a pos in
    elim (Bool-cases (ltb (2 * (a % b)) b)) [
      | inl low ↦ rw low (half_down (a / b) b (a % b) a e (ground arith))
      | inr high ↦ elim (Bool-cases (ltb b (2 * (a % b)))) [
        | inl up ↦ rw (high, up) (half_up (a / b) b (a % b) a e lt (ground arith))
        | inr level ↦
            rw (high, level) (tie (a / b) b (a % b) a (a / b % 2) e lt (ground arith) (omega arith))
      ]
    ]

pow_suc : (k : ℕ) → 2 ^ (k + 1) ≡ 2 * 2 ^ k
pow_suc k = ap (λ (j : ℕ). 2 ^ j) (omega arith) ∙ pow-succ' 2 k

pub pow_pos : (k : ℕ) → 0 < 2 ^ k
pow_pos zero = omega arith
pow_pos (suc k) = omega (arith, pow_pos k, pow-succ' 2 k)

pow_above : (k : ℕ) → k < 2 ^ k
pow_above zero = omega arith
pow_above (suc k) = omega (arith, pow_above k, pow-succ' 2 k)

pub at_power : (a x i j : ℕ) → i ≡ j → x ≤ a * 2 ^ i → x ≤ a * 2 ^ j
at_power a x i j e h = subst (λ (k : ℕ). x ≤ a * 2 ^ k) e h

-- Enough doublings are made.
pub doublings_reach :
    (n a b e : ℕ) → 2 ^ 52 * b ≤ a * 2 ^ (e + n) → 2 ^ 52 * b ≤ a * 2 ^ doublings n a b e
unfolding doublings
doublings_reach zero a b e h = at_power a (2 ^ 52 * b) (e + 0) e (omega arith) h
doublings_reach (suc n) a b e h = elim (Bool-cases (leb (2 ^ 52 * b) (a * 2 ^ e))) [
  | inl met ↦ rw met (leb→le (2 ^ 52 * b) (a * 2 ^ e) met)
  | inr more ↦ rw more (
      doublings_reach n a b (e + 1)
        (at_power a (2 ^ 52 * b) (e + suc n) (e + 1 + n) (omega arith) h))
]

not_leb : (x y : ℕ) → leb x y ≡ false → y < x
not_leb x y h = ground arith

-- Not more than enough are made.
pub doublings_stop : (n a b e : ℕ) → a * 2 ^ e ≤ 2 ^ 53 * b → a * 2 ^ doublings n a b e ≤ 2 ^ 53 * b
unfolding doublings
doublings_stop zero a b e h = h
doublings_stop (suc n) a b e h = elim (Bool-cases (leb (2 ^ 52 * b) (a * 2 ^ e))) [
  | inl met ↦ rw met h
  | inr more ↦ rw more (
      doublings_stop n a b (e + 1)
        (omega (arith, not_leb (2 ^ 52 * b) (a * 2 ^ e) more, ap (◌*◌ a) (pow_suc e))))
]

not_ltb : (x y : ℕ) → ltb x y ≡ false → y ≤ x
not_ltb x y h = ground arith

-- A product of at most `2 ^ 53 * n` is halved so often that `2 ^ d` is at most twice `n`.
pub halvings_stop :
    (fuel p d n : ℕ) → p ≤ 2 ^ 53 * n → 2 ^ d ≤ 2 * n → 2 ^ halvings fuel p d ≤ 2 * n
unfolding halvings
halvings_stop zero p d n h k = k
halvings_stop (suc fuel) p d n h k = elim (Bool-cases (ltb p (2 ^ 53 * 2 ^ d))) [
  | inl fits ↦ rw fits k
  | inr long ↦
      rw long (
        halvings_stop fuel p (d + 1) n h
          (omega (arith, not_ltb p (2 ^ 53 * 2 ^ d) long, pow_suc d)))
]

-- The exact quotient `x / w` with `E` parts to one is `m` parts, that times `n` is `r * D` parts, and
-- `k` whole ones are in it: then `k` is below the exact product, if the errors are small.
module _ (x w n m r k D E : ℕ) (quotient_near : IsNear m (x * E) w)
    (product_near : IsNear r (m * n) D) (coarse : D ≤ 2 * n) (fine : 3 * (n * w) < 2 * E) where
  -- The errors of both, in parts of `w`.
  upper : 2 * (r * D * w) ≤ 2 * (x * n * E) + 3 * (n * w)
  upper = omega (
    arith,
    mul-le-mul_right w (product_near.0),
    mul-le-mul_right n (quotient_near.0),
    mul-le-mul_right w coarse,
  )

  lower : 2 * (x * n * E) ≤ 2 * (r * D * w) + 3 * (n * w)
  lower = omega (
    arith,
    mul-le-mul_right w (product_near.1),
    mul-le-mul_right n (quotient_near.1),
    mul-le-mul_right w coarse,
  )

  module _ (low : k * E ≤ r * D) (high : r * D < (k + 1) * E) where
    over : x * n + 1 ≤ k * w → ⊥
    over h = omega (arith, upper, fine, mul-le-mul_right w low, mul-le-mul_right E h)

    under : (k + 1) * w + 1 ≤ x * n → ⊥
    under h = omega (arith, lower, fine, mul-le-mul_right w high, mul-le-mul_right E h)

    pub on_bar : (k * w ≤ x * n) × (x * n ≤ (k + 1) * w)
    on_bar = (omega (arith, over), omega (arith, under))
