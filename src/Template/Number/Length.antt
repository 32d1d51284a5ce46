-- ===== src/Template/Number/Length.antt =====
-- The room that a printed number takes.
use native.Mathlib.Decide.{dec_le}
use native.Mathlib.Nat.{pow-le-pow_right, one-le-pow, div-lt_iff_lt-mul}
use esphome_gplug.Base.{
  ℕ, zero, suc, ◌+◌, ◌-◌, ◌*◌, ◌^◌, ◌≤◌, ◌<◌, ◌≡◌, refl, false, not, ◌&&◌, inl, inr, [], ◌∷◌, arith,
  Bool-cases, length, length-append, length-take, length-drop, take, drop, max, min, ◌==◌,
}
use esphome_gplug.Text.Utf8.{Text}
use esphome_gplug.Text.Decimal.{digits, pad_start}
use esphome_gplug.Text.Decimal.Length.{length-digits, length-pad_start}
use esphome_gplug.Template.Data.{Double, Value, missing, not_finite, finite, num_max}
use esphome_gplug.Template.Number.{
  scaled, place_point, to_fixed, too_large, num, iso, to_iso_string,
}

-- A finite double has a significand of 53 bits.
abbrev pub IsDouble : Value → Type 0
IsDouble (finite v) = v.mantissa < 2 ^ 53
IsDouble _ = Unit

pow_pos : (k : ℕ) → 0 < 2 ^ k
pow_pos k = one-le-pow k 2 (omega arith)

not_too_large : (v : Double) → too_large v ≡ false → v.mantissa < 10 ^ 12 * 2 ^ v.shift
unfolding too_large
not_too_large v h = ground arith

scaled-lt :
    (f p n : ℕ) (v : Double)
    → p ≡ 10 ^ f
    → 2 * (v.mantissa * p) + 2 ^ v.shift < n * (2 * 2 ^ v.shift)
    → scaled f v < n
unfolding scaled
scaled-lt f p n v e h = (div-lt_iff_lt-mul (omega (arith, pow_pos v.shift))).1 (rw (← e) h)

-- With up to five decimals, rounding may carry into a thirteenth digit before the point.
scaled_coarse :
    (v : Double)
    → v.mantissa < 10 ^ 12 * 2 ^ v.shift
    → (scaled 0 v < 10 ^ 13)
      × (scaled 1 v < 10 ^ 14)
      × (scaled 2 v < 10 ^ 15)
      × (scaled 3 v < 10 ^ 16)
      × (scaled 4 v < 10 ^ 17)
      × (scaled 5 v < 10 ^ 18)
scaled_coarse v h = (
  scaled-lt 0 1 _ v refl (omega (arith, pow_pos v.shift)),
  scaled-lt 1 10 _ v refl (omega (arith, pow_pos v.shift)),
  scaled-lt 2 100 _ v refl (omega (arith, pow_pos v.shift)),
  scaled-lt 3 1000 _ v refl (omega (arith, pow_pos v.shift)),
  scaled-lt 4 10000 _ v refl (omega (arith, pow_pos v.shift)),
  scaled-lt 5 100000 _ v refl (omega (arith, pow_pos v.shift)),
)

-- With six decimals it does not, since a double below 10 ^ 12 is at least 2 ^ -13 away from it.
scaled_fine :
    (v : Double) → v.mantissa < 10 ^ 12 * 2 ^ v.shift → v.mantissa < 2 ^ 53 → scaled 6 v < 10 ^ 18
scaled_fine v h k = elim (dec_le v.shift 13) [
  | yes small ↦
      let p : 2 ^ v.shift ≤ 2 ^ 13 = pow-le-pow_right (omega arith) small in
      scaled-lt 6 1000000 _ v refl (omega arith)
  | no big ↦
      let p : 2 ^ 14 ≤ 2 ^ v.shift = pow-le-pow_right (omega arith) {i = 14} (omega arith) in
      scaled-lt 6 1000000 _ v refl (omega arith)
]

-- A point and the digits behind it are added, and zeros where there are too few digits.
length-place_point :
    (f : ℕ) (m : Text) → length (place_point (suc f) m) ≡ max (f + 2) (length m) + 1
unfolding place_point
length-place_point f m =
    let m' = pad_start (suc (suc f)) b'0' m in
    let k = length m' - suc f in
    omega (
      arith,
      length-append (take k m') (b'.' ∷ drop k m'),
      length-take k m',
      length-drop k m',
      length-pad_start (suc (suc f)) b'0' m,
    )

length-place_point_le :
    (f d n : ℕ) → n < 10 ^ suc d → f < suc d → length (place_point f (digits n)) ≤ d + 2
length-place_point_le zero d n h k = unfold place_point in omega (arith, length-digits d n h)
length-place_point_le (suc f) d n h k =
    omega (arith, length-place_point f (digits n), length-digits d n h)

-- A sign in front.
length-to_fixed :
    (f d : ℕ) (v : Double) → scaled f v < 10 ^ suc d → f < suc d → length (to_fixed f v) ≤ d + 3
unfolding to_fixed
length-to_fixed f d v h k = elim (Bool-cases (v.neg && not (v.mantissa == 0))) [
  | inl minus ↦ rw minus (omega (arith, length-place_point_le f d (scaled f v) h k))
  | inr plain ↦ rw plain (omega (arith, length-place_point_le f d (scaled f v) h k))
]

length-to_fixed_le :
    (f : ℕ) (v : Double)
    → v.mantissa < 10 ^ 12 * 2 ^ v.shift
    → v.mantissa < 2 ^ 53
    → f ≤ 6
    → length (to_fixed f v) ≤ num_max
length-to_fixed_le zero v h k _ =
    omega (arith, length-to_fixed 0 12 v (scaled_coarse v h).0 (omega arith))
length-to_fixed_le (suc zero) v h k _ =
    omega (arith, length-to_fixed 1 13 v (scaled_coarse v h).1 (omega arith))
length-to_fixed_le (suc (suc zero)) v h k _ =
    omega (arith, length-to_fixed 2 14 v (scaled_coarse v h).2 (omega arith))
length-to_fixed_le (suc (suc (suc zero))) v h k _ =
    omega (arith, length-to_fixed 3 15 v (scaled_coarse v h).3 (omega arith))
length-to_fixed_le (suc (suc (suc (suc zero)))) v h k _ =
    omega (arith, length-to_fixed 4 16 v (scaled_coarse v h).4 (omega arith))
length-to_fixed_le (suc (suc (suc (suc (suc zero))))) v h k _ =
    omega (arith, length-to_fixed 5 17 v (scaled_coarse v h).5 (omega arith))
length-to_fixed_le (suc (suc (suc (suc (suc (suc zero)))))) v h k _ =
    omega (arith, length-to_fixed 6 17 v (scaled_fine v h k) (omega arith))
length-to_fixed_le (suc (suc (suc (suc (suc (suc (suc f))))))) v h k l = absurd (omega arith)

-- Whatever a register holds, and whatever its precision, `num` writes at most NUM_MAX characters.
pub num-le-num_max : (v : Value) (prec : ℕ) → IsDouble v → length (num v prec) ≤ num_max
unfolding num
num-le-num_max missing prec h = omega arith
num-le-num_max not_finite prec h = omega arith
num-le-num_max (finite v) prec h = elim (Bool-cases (too_large v)) [
  | inl large ↦ rw large (omega arith)
  | inr fits ↦ rw fits (length-to_fixed_le (min prec 6) v (not_too_large v fits) h (omega arith))
]

-- The date and the time of day, cut after the seconds, and the zone.
pub length-iso : (epoch : ℕ) → length (iso epoch) ≤ 20
unfolding iso
length-iso epoch = omega (
  arith,
  length-append (take 19 (to_iso_string epoch)) (b'Z' ∷ []),
  length-take 19 (to_iso_string epoch),
)
