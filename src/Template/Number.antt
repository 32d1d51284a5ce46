-- ===== src/Template/Number.antt =====
-- `num` and `iso` of spa/src/live/mqtt-template.js, with what they use of the language: `toFixed`
-- and `toISOString`.
pub mod Length
pub mod Plain
use esphome_gplug.Base.{
  ℕ, zero, suc, ◌+◌, ◌-◌, ◌*◌, ◌/◌, ◌%◌, ◌^◌, Bool, not, ◌&&◌, [], ◌∷◌, ◌++◌, ltb, leb, ◌==◌,
  if◌then◌else◌, length, take, drop, replicate, min,
}
use esphome_gplug.Text.Utf8.{Text, codes}
use esphome_gplug.Text.Decimal.{digits, pad_start}
use esphome_gplug.Template.Data.{Double, Value, missing, not_finite, finite}

-- The integer n for which n / 10 ^ f is closest to mantissa / 2 ^ shift, the larger one of two.
unfoldable pub scaled : ℕ → Double → ℕ
scaled f v = (2 * (v.mantissa * 10 ^ f) + 2 ^ v.shift) / (2 * 2 ^ v.shift)

-- The digits with `f` of them behind a point.
unfoldable pub place_point : ℕ → Text → Text
place_point zero m = m
place_point (suc f) m =
    let m' = pad_start (suc (suc f)) b'0' m in
    let k = length m' - suc f in take k m' ++ b'.' ∷ drop k m'

-- `v.toFixed(f)` of a number below 10 ^ 21. A negative zero has no sign.
unfoldable pub to_fixed : ℕ → Double → Text
unfolding scaled place_point digits pad_start
to_fixed f v =
    let body = place_point f (digits (scaled f v)) in
    if v.neg && not (v.mantissa == 0) then b'-' ∷ body else body

-- `Math.abs(v) >= 1e12`.
unfoldable pub too_large : Double → Bool
too_large v = leb (10 ^ 12 * 2 ^ v.shift) v.mantissa

-- `num`.
unfoldable pub num : Value → ℕ → Text
unfolding to_fixed too_large
num missing prec = codes "null"
num not_finite prec = codes "null"
num (finite v) prec = if too_large v then codes "null" else to_fixed (min prec 6) v

-- The civil date of a day, counted from 1970-01-01: year, month and day of `toISOString`.
pub record Civil : Type 0 where
  pub year : ℕ
  pub month : ℕ
  pub day : ℕ

-- Days are counted from 0000-03-01, in eras of 400 years, so that a leap day ends its year.
unfoldable pub civil : ℕ → Civil
civil days =
    let z = days + 719468 in
    let era = z / 146097 in
    let doe = z % 146097 in
    let yoe = (doe - doe / 1460 + doe / 36524 - doe / 146096) / 365 in
    let doy = doe - (365 * yoe + yoe / 4 - yoe / 100) in
    let mp = (5 * doy + 2) / 153 in
    let m = if ltb mp 10 then mp + 3 else mp - 9 in
    record {
      year = yoe + era * 400 + (if leb m 2 then 1 else 0);
      month = m;
      day = doy - (153 * mp + 2) / 5 + 1;
    }

-- The year has four digits up to 9999, and a sign and six digits from then on.
unfoldable pub iso_year : ℕ → Text
unfolding pad_start digits
iso_year y = if ltb y 10000 then pad_start 4 b'0' (digits y) else b'+' ∷ pad_start 6 b'0' (digits y)

-- A separator and a number of two digits.
unfoldable pub two_digits : ℕ → ℕ → Text → Text
unfolding pad_start digits
two_digits sep n rest = sep ∷ (pad_start 2 b'0' (digits n) ++ rest)

-- `new Date(epoch * 1000).toISOString()`, for an epoch that a Date can hold.
unfoldable pub to_iso_string : ℕ → Text
unfolding civil iso_year two_digits
to_iso_string epoch =
    let c = civil (epoch / 86400) in
    let s = epoch % 86400 in
    let time =
      two_digits b'T' (s / 3600)
        (two_digits b':' (s / 60 % 60) (two_digits b':' (s % 60) (codes ".000Z"))) in
    iso_year c.year ++ two_digits b'-' c.month (two_digits b'-' c.day time)

-- `iso`.
unfoldable pub iso : ℕ → Text
unfolding to_iso_string
iso epoch = take 19 (to_iso_string epoch) ++ codes "Z"
