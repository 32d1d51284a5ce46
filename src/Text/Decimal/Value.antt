-- ===== src/Text/Decimal/Value.antt =====
-- Reading a decimal number back.
use esphome_gplug.Base.{
  ℕ, zero, suc, ◌+◌, ◌-◌, ◌*◌, ◌/◌, ◌%◌, ◌<◌, ◌≡◌, ◌≢◌, refl, Bool, true, false, ◌&&◌, Bool-cases,
  Option, none, some, [], ◌∷◌, ◌++◌, ltb, leb, if◌then◌else◌, length, length-append, All,
  All-append, arith, inl, inr, ap,
}
use mathlib.Core.Path.{◌∙◌}
use esphome_gplug.Text.Utf8.{Text}
use esphome_gplug.Text.Decimal.{digits, digits_fuel}

-- `\d`.
unfoldable pub is_digit : ℕ → Bool
is_digit c = leb 48 c && leb c 57

-- The longest run of digits from here on, after a number `n` that is read already, and what follows;
-- `any` tells whether there was a digit before.
unfoldable pub read_number : Bool → ℕ → Text → Option (ℕ × Text)
unfolding is_digit
read_number any n [] = if any then some (n, []) else none
read_number any n (c ∷ s) =
    let more = read_number true (n * 10 + (c - 48)) s in
    if is_digit c then more else if any then some (n, c ∷ s) else none

value : ℕ → Text → ℕ
value n [] = n
value n (c ∷ s) = value (n * 10 + (c - 48)) s

value-append : (n : ℕ) (s t : Text) → value n (s ++ t) ≡ value (value n s) t
unfolding value
value-append n [] t = refl
value-append n (c ∷ s) t = value-append (n * 10 + (c - 48)) s t

abbrev pub IsDigit : ℕ → Type 0
IsDigit c = is_digit c ≡ true

digits_fuel-Digit : (f n : ℕ) → All IsDigit (digits_fuel f n)
unfolding digits_fuel is_digit
digits_fuel-Digit zero n = tt
digits_fuel-Digit (suc f) n = elim (Bool-cases (ltb n 10)) [
  | inl small ↦ rw small (ground arith, tt)
  | inr big ↦ rw big (
      All-append IsDigit (digits_fuel f (n / 10)) _ (digits_fuel-Digit f (n / 10))
        (ground arith, tt))
]

value-digits_fuel : (f n : ℕ) → n < f → value 0 (digits_fuel f n) ≡ n
unfolding digits_fuel value
value-digits_fuel zero n h = absurd (omega arith)
value-digits_fuel (suc f) n h = elim (Bool-cases (ltb n 10)) [
  | inl small ↦ rw small (ground arith)
  | inr big ↦ rw big (
      value-append 0 (digits_fuel f (n / 10)) _
      ∙ last (value-digits_fuel f (n / 10) (ground arith)))
]
  where
    last :
        value 0 (digits_fuel f (n / 10)) ≡ n / 10
        → value (value 0 (digits_fuel f (n / 10))) ((48 + n % 10) ∷ []) ≡ n
    last e = omega arith

-- That no digit follows.
abbrev pub Stops : Text → Type 0
Stops [] = Unit
Stops (c ∷ s) = is_digit c ≡ false

read_number-stop : (n : ℕ) (rest : Text) → Stops rest → read_number true n rest ≡ some (n, rest)
unfolding read_number
read_number-stop n [] h = refl
read_number-stop n (c ∷ s) h = rw h refl

read_number-value :
    (n : ℕ) (s rest : Text)
    → All IsDigit s
    → Stops rest
    → read_number true n (s ++ rest) ≡ some (value n s, rest)
unfolding read_number value
read_number-value n [] rest h stop = read_number-stop n rest stop
read_number-value n (c ∷ s) rest (here, there) stop =
    rw here (read_number-value (n * 10 + (c - 48)) s rest there stop)

read_number-first :
    (s rest : Text)
    → All IsDigit s
    → s ≢ []
    → Stops rest
    → read_number false 0 (s ++ rest) ≡ some (value 0 s, rest)
unfolding read_number value
read_number-first [] rest h full stop = absurd (full refl)
read_number-first (c ∷ s) rest (here, there) full stop =
    rw here (read_number-value (0 * 10 + (c - 48)) s rest there stop)

digits-length : (n : ℕ) → 0 < length (digits n)
unfolding digits digits_fuel
digits-length n = elim (Bool-cases (ltb n 10)) [
  | inl small ↦ rw small (omega arith)
  | inr big ↦ rw big (omega (arith, length-append (digits_fuel n (n / 10)) ((48 + n % 10) ∷ [])))
]

digits-nonempty : (n : ℕ) → digits n ≢ []
digits-nonempty n e = absurd (omega (arith, digits-length n, ap length e))

pub digits-Digit : (n : ℕ) → All IsDigit (digits n)
unfolding digits
digits-Digit n = digits_fuel-Digit (suc n) n

-- Reading what is printed gives the number back.
pub read_number-digits :
    (n : ℕ) (rest : Text) → Stops rest → read_number false 0 (digits n ++ rest) ≡ some (n, rest)
unfolding digits
read_number-digits n rest stop =
    read_number-first (digits n) rest (digits_fuel-Digit (suc n) n) (digits-nonempty n) stop
    ∙ ap (λ (k : ℕ). some (k, rest)) (value-digits_fuel (suc n) n (omega arith))
