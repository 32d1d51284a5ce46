-- ===== src/Text/Decimal/Length.antt =====
-- How long decimal numbers are, and which characters stand in them.
use native.Mathlib.Nat.{pow-suc}
use esphome_gplug.Base.{
  ℕ, zero, suc, ◌+◌, ◌-◌, ◌/◌, ◌%◌, ◌^◌, ◌≤◌, ◌<◌, ◌≡◌, inl, inr, [], ◌∷◌, arith, ltb, ltb→lt,
  Bool-cases, length, length-append, length-replicate, replicate, max, All, All-append,
}
use esphome_gplug.Text.Utf8.{Text}
use esphome_gplug.Text.Laws.{Plain}
use esphome_gplug.Text.Decimal.{digits_fuel, digits, pad_start}

digits_fuel-length : (fuel d n : ℕ) → n < 10 ^ suc d → length (digits_fuel fuel n) ≤ suc d
unfolding digits_fuel
digits_fuel-length zero d n h = omega arith
digits_fuel-length (suc fuel) zero n h = ground arith
digits_fuel-length (suc fuel) (suc d) n h = ground (
  arith,
  length-append (digits_fuel fuel (n / 10)) ((b'0' + n % 10) ∷ []),
  digits_fuel-length fuel d (n / 10),
  pow-suc 10 (suc d),
)

-- A number below 10 ^ (d + 1) has at most d + 1 digits.
pub length-digits : (d n : ℕ) → n < 10 ^ suc d → length (digits n) ≤ suc d
unfolding digits
length-digits d n = digits_fuel-length (suc n) d n

digits_fuel-Plain : (fuel n : ℕ) → All Plain (digits_fuel fuel n)
unfolding digits_fuel
digits_fuel-Plain zero n = tt
digits_fuel-Plain (suc fuel) n = elim (Bool-cases (ltb n 10)) [
  | inl small ↦ let h : n < 10 = ltb→lt n 10 small in rw small (omega arith)
  | inr large ↦ rw large (All-append Plain _ _ (digits_fuel-Plain fuel (n / 10)) (omega arith))
]

pub digits-Plain : (n : ℕ) → All Plain (digits n)
unfolding digits
digits-Plain n = digits_fuel-Plain (suc n) n

replicate-Plain : (n c : ℕ) → Plain c → All Plain (replicate n c)
replicate-Plain zero c h = tt
replicate-Plain (suc n) c h = (h, replicate-Plain n c h)

pub pad_start-Plain : (n c : ℕ) (s : Text) → Plain c → All Plain s → All Plain (pad_start n c s)
unfolding pad_start
pad_start-Plain n c s h k = All-append Plain _ _ (replicate-Plain _ c h) k

pub length-pad_start : (n c : ℕ) (s : Text) → length (pad_start n c s) ≡ max n (length s)
unfolding pad_start
length-pad_start n c s =
    omega (arith, length-append (replicate (n - length s) c) s, length-replicate (n - length s) c)
