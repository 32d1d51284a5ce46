-- ===== src/Chart/Bars/Gaps.antt =====
-- The holes between the bars of a history.
use esphome_gplug.Base.{
  ℕ, zero, suc, ◌+◌, ◌-◌, ◌≤◌, ◌<◌, ◌≡◌, refl, ap, inl, inr, Option, none, some, List, [], ◌∷◌,
  ◌++◌, ltb, ◌==◌, if◌then◌else◌, Bool-cases, arith, length, drop, length-append,
}
use mathlib.Core.Path.{subst, sym}
use esphome_gplug.Text.Utf8.{Text}
use esphome_gplug.Chart.Bars.{
  max_bars, Point, Bar, point_bar, gaps, gaps_before, latest, bars_loop, hist_bars,
}

module _ {V : Type 0} (zero_wh : V) (minus : V → V → V) (bucket_label : ℕ → Text) where
  -- Bars one after the other, each at most a step after the one before it.
  abbrev pub Spaced : ℕ → ℕ → List (Bar zero_wh minus bucket_label) → Type 0
  Spaced step a [] = Unit
  Spaced step a (b ∷ bs) = (q : ℕ) × (b.qh ≡ some q) × (a < q) × (q ≤ a + step) × Spaced step q bs

  -- Records with a time each, in order.
  abbrev pub Ordered : ℕ → List (Point zero_wh minus bucket_label) → Type 0
  Ordered a [] = Unit
  Ordered a (p ∷ pts) = (q : ℕ) × (p.qh ≡ some q) × (a < q) × Ordered q pts

  gaps-Spaced :
      (room step a qh : ℕ) (b : Bar zero_wh minus bucket_label)
      (rest : List (Bar zero_wh minus bucket_label))
      → 0 < step
      → a < qh
      → length (gaps zero_wh minus bucket_label room step (a + step) qh) < room
      → b.qh ≡ some qh
      → Spaced step qh rest
      → Spaced step a (gaps zero_wh minus bucket_label room step (a + step) qh ++ b ∷ rest)
  unfolding gaps
  gaps-Spaced zero step a qh b rest pos lt space at s = absurd (omega arith)
  gaps-Spaced (suc room) step a qh b rest pos lt space at s =
      elim (Bool-cases (ltb (a + step) qh)) [
        | inl hole ↦ rw hole (
          a + step,
          refl,
          omega arith,
          omega arith,
          gaps-Spaced room step (a + step) qh b rest pos (ground arith)
              (omega (arith, rw hole at space)) at s,
        )
        | inr met ↦ rw met (qh, at, lt, ground arith, s)
      ]

  -- The loop at a record with a time.
  bars_loop_timed :
      (step count a q : ℕ) (p : Point zero_wh minus bucket_label)
      (pts : List (Point zero_wh minus bucket_label))
      → p.qh ≡ some q
      → bars_loop zero_wh minus bucket_label step (some a) count (p ∷ pts)
        ≡ gaps zero_wh minus bucket_label (max_bars - count) step (a + step) q
          ++ point_bar zero_wh minus bucket_label p
            ∷ bars_loop zero_wh minus bucket_label step
                (some q)
                (count
                  + length (gaps zero_wh minus bucket_label (max_bars - count) step (a + step) q)
                  + 1)
                pts
  unfolding bars_loop gaps_before
  bars_loop_timed step count a q p pts at =
      ap
        (λ (o : Option ℕ).
          gaps_before zero_wh minus bucket_label step (some a) count o
          ++ point_bar zero_wh minus bucket_label p
            ∷ bars_loop zero_wh minus bucket_label step
                (latest zero_wh minus bucket_label o (some a))
                (count + length (gaps_before zero_wh minus bucket_label step (some a) count o) + 1)
                pts)
        at

  bars_loop-Spaced :
      (step count a : ℕ) (pts : List (Point zero_wh minus bucket_label))
      → 0 < step
      → Ordered a pts
      → count + length (bars_loop zero_wh minus bucket_label step (some a) count pts) < max_bars
      → Spaced step a (bars_loop zero_wh minus bucket_label step (some a) count pts)
  bars_loop-Spaced step count a [] pos inc space = unfold bars_loop in tt
  bars_loop-Spaced step count a (p ∷ pts) pos (q, at, lt, inc) space =
      let before = gaps zero_wh minus bucket_label (max_bars - count) step (a + step) q in
      let after =
        bars_loop zero_wh minus bucket_label step (some q) (count + length before + 1) pts in
      let same = bars_loop_timed step count a q p pts at in
      let counted = length-append before (point_bar zero_wh minus bucket_label p ∷ after) in
      let small = ap length same in
      subst (Spaced step a) (sym same) (
        gaps-Spaced (max_bars - count) step a q (point_bar zero_wh minus bucket_label p) after pos
          lt (omega (arith, space, small, counted)) (unfold point_bar in at)
          (bars_loop-Spaced step (count + length before + 1) q pts pos inc
            (omega (arith, space, small, counted))))

  -- When every record has a time, later than the one before it, and fewer than 400 bars are drawn, no
  -- hole is left: each bar after the first comes at most one bucket after the bar before it, and later.
  pub hist_bars-Spaced :
      (bucket q : ℕ) (p : Point zero_wh minus bucket_label)
      (pts : List (Point zero_wh minus bucket_label))
      → p.qh ≡ some q
      → Ordered q pts
      → length (hist_bars zero_wh minus bucket_label bucket (p ∷ pts)) < max_bars
      → Spaced
          (if bucket == 0 then 1 else bucket)
          q
          (drop 1 (hist_bars zero_wh minus bucket_label bucket (p ∷ pts)))
  unfolding hist_bars bars_loop gaps_before
  hist_bars-Spaced bucket q p pts at inc space =
      let step = if bucket == 0 then 1 else bucket in
      let same =
        ap
          (λ (o : Option ℕ).
            bars_loop zero_wh minus bucket_label step (latest zero_wh minus bucket_label o none) 1
              pts)
          at in
      let small = ap length same in
      subst (Spaced step q) (sym same)
        (bars_loop-Spaced step 1 q pts (positive bucket) inc (omega (arith, space, small)))
    where
      positive : (b : ℕ) → 0 < (if b == 0 then 1 else b)
      positive b = ground arith
