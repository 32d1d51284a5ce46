-- ===== src/Hour/Average.antt =====
-- Which record of the store a slot of the last hour is filled from.
use esphome_gplug.Base.{
  ℕ, suc, ◌+◌, ◌-◌, ◌*◌, ◌/◌, ◌%◌, ◌≤◌, ◌<◌, ◌≡◌, refl, ap, ◌∙◌, inl, inr, Bool, true, false, not,
  ◌&&◌, Option, none, some, List, [], ◌∷◌, ltb, ◌==◌, if◌then◌else◌, Bool-cases, Option-cases, All,
  arith, get_elem?,
}
use esphome_gplug.Hour.{window_s, qh_epoch, Point, no_data, average, stored}

module _ {V : Type 0} (minus : V → V → V) where
  -- A record with data whose quarter hour, counted from the start of 2020, the time of slot `k` of the
  -- window lies in: an hour before now and `k` periods later. All times are in milliseconds.
  pub record Holds (now_ms period k : ℕ) (p : Point minus) : Type 0 where
    pub qh : ℕ
    pub qh_is : p.qh ≡ some qh
    pub has_data : ltb (p.flags % 32) 16 ≡ true
    pub from : 1000 * (qh_epoch + 900 * qh) + 1000 * window_s ≤ now_ms + 1000 * (k * period)
    pub before : now_ms + 1000 * (k * period) < 1000 * (qh_epoch + 900 * (qh + 1)) + 1000 * window_s

  -- What is known of slot `k`: the average of such a record, or nothing if there is none.
  abbrev pub IsAverage : List (Point minus) → ℕ → ℕ → ℕ → Option V → Type 0
  IsAverage pts now_ms period k none = All (λ (p : Point minus). ¬ Holds now_ms period k p) pts
  IsAverage pts now_ms period k (some v) =
      (i : ℕ) × (p : Point minus) × (get_elem? pts i ≡ some p)
      × Holds now_ms period k p
      × (v ≡ p.p_avg)

  -- Whether a record counts for a quarter hour.
  abbrev counts : Point minus → ℕ → Bool
  counts p q = elim p.qh [ none ↦ false | some k ↦ k == q ] && not (no_data minus p.flags)

  record Counts (p : Point minus) (q : ℕ) : Type 0 where
    qh_is : p.qh ≡ some q
    has_data : ltb (p.flags % 32) 16 ≡ true

  Found : List (Point minus) → ℕ → Option V → Type 0
  Found pts q none = All (λ (p : Point minus). ¬ Counts p q) pts
  Found pts q (some v) =
      (i : ℕ) × (p : Point minus) × (get_elem? pts i ≡ some p) × Counts p q × (v ≡ p.p_avg)

  counts-Counts : (p : Point minus) (q : ℕ) → counts p q ≡ true → Counts p q
  unfolding no_data
  counts-Counts p q h = elim (Option-cases p.qh) [
    | inl e ↦ absurd (ground (arith, rw e at h))
    | inr (k, e) ↦ record {
      qh_is = e ∙ ap some (ground (arith, rw e at h));
      has_data = ground (arith, rw e at h);
    }
  ]

  not_counts : (p : Point minus) (q : ℕ) → counts p q ≡ false → ¬ Counts p q
  unfolding no_data
  not_counts p q h c = absurd (ground (arith, rw c.qh_is at h, c.has_data))

  here-Found :
      (p : Point minus) (rest : List (Point minus)) (q : ℕ) (b : Bool)
      → counts p q ≡ b
      → Found rest q none
      → Found (p ∷ rest) q (if b then some p.p_avg else none)
  unfolding Found
  here-Found p rest q true e h = (0, p, refl, counts-Counts p q e, refl)
  here-Found p rest q false e h = (not_counts p q e, h)

  step-Found :
      (p : Point minus) (rest : List (Point minus)) (q : ℕ) (later : Option V)
      → Found rest q later
      → Found
          (p ∷ rest)
          q
          (elim later [ some v ↦ some v | none ↦ if counts p q then some p.p_avg else none ])
  unfolding Found
  step-Found p rest q none h = here-Found p rest q (counts p q) refl h
  step-Found p rest q (some v) (i, x, there, c, e) = (suc i, x, there, c, e)

  average-Found : (pts : List (Point minus)) (q : ℕ) → Found pts q (average minus pts q)
  unfolding average Found
  average-Found [] q = tt
  average-Found (p ∷ rest) q = step-Found p rest q (average minus rest q) (average-Found rest q)

  -- The time of slot `k`, and the start of 2020 an hour later.
  abbrev time : ℕ → ℕ → ℕ → ℕ
  time now_ms period k = now_ms + 1000 * (k * period)

  abbrev epoch_start : ℕ
  epoch_start = 1000 * (window_s + qh_epoch)

  quarter-Holds :
      (now_ms period k : ℕ) (p : Point minus)
      → epoch_start ≤ time now_ms period k
      → Counts p ((time now_ms period k - epoch_start) / 900000)
      → Holds now_ms period k p
  quarter-Holds now_ms period k p after c = record {
    qh = (time now_ms period k - epoch_start) / 900000;
    qh_is = c.qh_is;
    has_data = c.has_data;
    from = omega (arith, after);
    before = omega (arith, after);
  }

  Holds-quarter :
      (now_ms period k : ℕ) (p : Point minus)
      → Holds now_ms period k p
      → Counts p ((time now_ms period k - epoch_start) / 900000)
  Holds-quarter now_ms period k p h = record {
    qh_is = h.qh_is ∙ ap some (omega (arith, h.from, h.before));
    has_data = h.has_data;
  }

  none-Average :
      (now_ms period k : ℕ) (pts : List (Point minus))
      → All (λ (p : Point minus). ¬ Counts p ((time now_ms period k - epoch_start) / 900000)) pts
      → IsAverage pts now_ms period k none
  none-Average now_ms period k [] h = tt
  none-Average now_ms period k (p ∷ pts) (here, there) =
      (λ c. here (Holds-quarter now_ms period k p c), none-Average now_ms period k pts there)

  early-Average :
      (now_ms period k : ℕ) (pts : List (Point minus))
      → time now_ms period k < epoch_start
      → IsAverage pts now_ms period k none
  early-Average now_ms period k [] h = tt
  early-Average now_ms period k (p ∷ pts) h =
      (λ c. absurd (omega (arith, c.from)), early-Average now_ms period k pts h)

  Found-Average :
      (now_ms period k : ℕ) (pts : List (Point minus)) (o : Option V)
      → epoch_start ≤ time now_ms period k
      → Found pts ((time now_ms period k - epoch_start) / 900000) o
      → IsAverage pts now_ms period k o
  unfolding Found
  Found-Average now_ms period k pts none after h = none-Average now_ms period k pts h
  Found-Average now_ms period k pts (some v) after (i, p, there, c, e) =
      (i, p, there, quarter-Holds now_ms period k p after c, e)

  pub stored-Average :
      (pts : List (Point minus)) (now_ms period k : ℕ)
      → IsAverage pts now_ms period k (stored minus pts now_ms period k)
  unfolding stored
  stored-Average pts now_ms period k = elim (Bool-cases (ltb (time now_ms period k) epoch_start)) [
    | inl early ↦ rw early (early-Average now_ms period k pts (ground arith))
    | inr late ↦
        let q = (time now_ms period k - epoch_start) / 900000 in
        rw late (
          Found-Average now_ms period k pts (average minus pts q) (ground arith)
            (average-Found pts q))
  ]
