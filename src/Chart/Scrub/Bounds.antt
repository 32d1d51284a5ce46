-- ===== src/Chart/Scrub/Bounds.antt =====
-- Where on the chart a selection lies.
use esphome_gplug.Base.{
  ℕ, ◌+◌, ◌-◌, ◌*◌, ◌^◌, ◌≤◌, ◌<◌, ◌≡◌, refl, ap, ◌∙◌, min, Bool, true, false, Option, none, some,
  ltb, ◌==◌, arith,
}
use native.Mathlib.Nat.{mul-lt-mul_of_pos_right, mul-le-mul_right}
use native.Mathlib.Decide.{dec_lt}
use esphome_gplug.Chart.Double.{quotient, times, floor}
use esphome_gplug.Chart.Double.Place.{floor_near}
use esphome_gplug.Chart.Scrub.{
  Selection, clamp, index, sample_at, select, point_at, Key, arrow_left, arrow_right, home, end,
  move, on_key_down, target,
}

index-select :
    (n to : ℕ) (key : Bool) → 0 < n → index n (some (select n to key)) ≡ some (min (n - 1) to)
unfolding index select clamp
index-select n to key pos = rw (is_pos pos) (ap some (omega arith))
  where
    is_pos : 0 < n → ltb 0 n ≡ true
    is_pos h = ground arith

index-lt : (n : ℕ) (st : Option Selection) (i : ℕ) → index n st ≡ some i → i < n
unfolding index clamp
index-lt n none i h = absurd (ground arith)
index-lt n (some st) i h = ground arith

-- Samples that come in at the newest end leave the selection as far from it as it was, unless it was
-- beyond the oldest sample: with `m` more samples its index grows by `m`.
pub index_grows :
    (n m i : ℕ) (st : Selection)
    → st.back < n
    → index n (some st) ≡ some i
    → index (n + m) (some st) ≡ some (i + m)
unfolding index clamp
index_grows n m i st on h = ground arith

-- A chart with samples leaves the keys to `move`.
not_empty : (n : ℕ) → 0 < n → n == 0 ≡ false
not_empty n h = ground arith

moved :
    (n to i : ℕ) (st : Option Selection) (shift : Bool) (k : Key)
    → 0 < n
    → move n st shift k ≡ some (select n to true)
    → index n (on_key_down n st shift k) ≡ some (min (n - 1) to)
unfolding on_key_down
moved n to i st shift k pos h = rw (not_empty n pos, h) (index-select n to true pos)

-- On a chart with samples and a selected one, the left and right arrows move by one sample and stop at
-- the ends, and the keys Home and End go to the oldest and the newest sample.
pub on_key_down_moves :
    (n i : ℕ) (st : Option Selection)
    → 0 < n
    → index n st ≡ some i
    → (index n (on_key_down n st false arrow_left) ≡ some (i - 1))
      × (index n (on_key_down n st false arrow_right) ≡ some (min (n - 1) (i + 1)))
      × (index n (on_key_down n st false home) ≡ some 0)
      × (index n (on_key_down n st false end) ≡ some (n - 1))
unfolding move target
on_key_down_moves n i st pos h =
    let on = index-lt n st i h in
    (
      moved n (i - 1) i st false arrow_left pos (rw h refl) ∙ ap some (omega arith),
      moved n (i + 1) i st false arrow_right pos (rw h refl),
      moved n 0 i st false home pos refl ∙ ap some (omega arith),
      moved n (n - 1) i st false end pos refl ∙ ap some (omega arith),
    )

-- On a bar chart with bars and for a pointer inside its width, as long as the number of bars times the
-- width is below 2 ^ 50, the selected bar is the one under the pointer, or the one to its left when the
-- pointer is just at the edge between the two: bar `k` of `n` equal ones spans the pixels from `k` to
-- `k + 1` parts of the width.
pub point_at_bar :
    (n width x : ℕ)
    → 0 < n
    → x < width
    → n * width < 2 ^ 50
    → (k : ℕ) × (index n (some (point_at true n width x)) ≡ some k)
      × (k * width ≤ x * n)
      × (x * n ≤ (k + 1) * width)
unfolding point_at sample_at
point_at_bar n width x pos inside small =
    let k = floor (times (quotient x width) n) in
    let (low, high) = floor_near x width n pos inside small in
    (
      k,
      rw (not_empty width (omega arith))
          (index-select n k false pos ∙ ap some (unclamped k (on_chart k low))),
      low,
      high,
    )
  where
    beyond : (k : ℕ) → ¬ (k < n) → n ≤ k
    beyond k h = omega (arith, h)

    on_chart : (k : ℕ) → k * width ≤ x * n → k < n
    on_chart k low = elim (dec_lt k n) [
      | yes on ↦ on
      | no off ↦ absurd (
          omega
            (arith, low, mul-lt-mul_of_pos_right inside pos, mul-le-mul_right width (beyond k off)))
    ]

    unclamped : (k : ℕ) → k < n → min (n - 1) k ≡ k
    unclamped k h = omega arith
