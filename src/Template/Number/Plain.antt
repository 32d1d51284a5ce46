-- ===== src/Template/Number/Plain.antt =====
-- Which characters stand in printed numbers and times.
use esphome_gplug.Base.{
  ℕ, zero, suc, ◌-◌, ◌/◌, ◌%◌, ◌^◌, ◌<◌, not, ◌&&◌, inl, inr, [], ◌∷◌, arith, ltb, Bool-cases,
  length, take, drop, min, ◌==◌, All, All-append, All-take, All-drop,
}
use esphome_gplug.Text.Utf8.{Text, codes}
use esphome_gplug.Text.Laws.{Plain}
use esphome_gplug.Text.Decimal.{digits, pad_start}
use esphome_gplug.Text.Decimal.Length.{digits-Plain, pad_start-Plain}
use esphome_gplug.Template.Data.{Value, missing, not_finite, finite}
use esphome_gplug.Template.Number.{
  scaled, place_point, to_fixed, too_large, num, civil, iso_year, two_digits, iso, to_iso_string,
}

padded-Plain : (n m : ℕ) → All Plain (pad_start n b'0' (digits m))
padded-Plain n m = pad_start-Plain n b'0' (digits m) (omega arith) (digits-Plain m)

place_point-Plain : (f : ℕ) (m : Text) → All Plain m → All Plain (place_point f m)
unfolding place_point
place_point-Plain zero m h = h
place_point-Plain (suc f) m h =
    let m' = pad_start (suc (suc f)) b'0' m in
    let k = length m' - suc f in
    let plain : All Plain m' = pad_start-Plain (suc (suc f)) b'0' m (omega arith) h in
    All-append Plain (take k m') (b'.' ∷ drop k m') (All-take Plain k m' plain)
      (omega arith, All-drop Plain k m' plain)

pub num-Plain : (v : Value) (prec : ℕ) → All Plain (num v prec)
unfolding num to_fixed
num-Plain missing prec = omega arith
num-Plain not_finite prec = omega arith
num-Plain (finite v) prec =
    let f = min prec 6 in
    let body : All Plain (place_point f (digits (scaled f v))) =
      place_point-Plain f _ (digits-Plain (scaled f v)) in
    elim (Bool-cases (too_large v)) [
      | inl large ↦ rw large (omega arith)
      | inr fits ↦ rw fits (elim (Bool-cases (v.neg && not (v.mantissa == 0))) [
        | inl minus ↦ rw minus (omega arith, body)
        | inr plain ↦ rw plain body
      ])
    ]

-- The years that 32 bits of seconds reach have four digits.
year_lt : (epoch : ℕ) → epoch < 2 ^ 32 → (civil (epoch / 86400)).year < 10000
unfolding civil
year_lt epoch h = ground arith

iso_year-Plain : (y : ℕ) → y < 10000 → All Plain (iso_year y)
unfolding iso_year
iso_year-Plain y h = elim (Bool-cases (ltb y 10000)) [
  | inl small ↦ rw small (padded-Plain 4 y)
  | inr large ↦ absurd (ground arith)
]

separators : Plain b':' × Plain b'T' × Plain b'-'
separators = omega arith

two_digits-Plain :
    (sep n : ℕ) (rest : Text) → Plain sep → All Plain rest → All Plain (two_digits sep n rest)
unfolding two_digits
two_digits-Plain sep n rest h k =
    (h, All-append Plain (pad_start 2 b'0' (digits n)) rest (padded-Plain 2 n) k)

to_iso_string-Plain : (epoch : ℕ) → epoch < 2 ^ 32 → All Plain (to_iso_string epoch)
unfolding to_iso_string
to_iso_string-Plain epoch h =
    let c = civil (epoch / 86400) in
    let year = iso_year-Plain c.year (year_lt epoch h) in
    let sec =
      two_digits-Plain b':' (epoch % 86400 % 60) (codes ".000Z") (omega arith) (omega arith) in
    let minute = two_digits-Plain b':' (epoch % 86400 / 60 % 60) _ separators.0 sec in
    let hour = two_digits-Plain b'T' (epoch % 86400 / 3600) _ separators.1 minute in
    let day = two_digits-Plain b'-' c.day _ separators.2 hour in
    All-append Plain (iso_year c.year) _ year (two_digits-Plain b'-' c.month _ separators.2 day)

pub iso-Plain : (epoch : ℕ) → epoch < 2 ^ 32 → All Plain (iso epoch)
unfolding iso
iso-Plain epoch h =
    All-append Plain _ (b'Z' ∷ []) (All-take Plain 19 _ (to_iso_string-Plain epoch h)) (omega arith)
