-- ===== src/Text/Decimal.antt =====
-- Decimal printing of natural numbers: `String(n)` and `padStart`.
pub mod Length
pub mod Value
use esphome_gplug.Base.{
  ℕ, zero, suc, ◌+◌, ◌-◌, ◌*◌, ◌/◌, ◌%◌, ◌^◌, ◌≤◌, ◌<◌, ◌≡◌, refl, [], ◌∷◌, ◌++◌, arith, ltb,
  if◌then◌else◌, length, replicate,
}
use esphome_gplug.Text.Utf8.{Text}

digits_fuel : ℕ → ℕ → Text
digits_fuel zero n = []
digits_fuel (suc fuel) n =
    let more = digits_fuel fuel (n / 10) ++ (b'0' + n % 10) ∷ [] in
    if ltb n 10 then (b'0' + n) ∷ [] else more

-- `String(n)`. The number itself is more fuel than it has digits.
unfoldable pub digits : ℕ → Text
unfolding digits_fuel
digits n = digits_fuel (suc n) n

-- `s.padStart(n, fill)` for a one-character fill.
unfoldable pub pad_start : ℕ → ℕ → Text → Text
pad_start n fill s = replicate (n - length s) fill ++ s
