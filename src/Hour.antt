-- ===== src/Hour.antt =====
-- The last hour of power readings, spa/src/hour.js. The numbers of the device are a type with a
-- difference; a period is a whole number of seconds, and the current time comes in milliseconds.
pub mod Arrays
pub mod Ring
pub mod Average
pub mod Store
pub mod Slots
pub mod Result
pub mod Tests
use esphome_gplug.Base.{
  ℕ, zero, suc, ◌+◌, ◌-◌, ◌*◌, ◌/◌, ◌%◌, min, Bool, true, false, not, ◌&&◌, Option, none, some,
  List, [], ◌∷◌, ltb, leb, ◌==◌, if◌then◌else◌, length, get_elem?, drop, replicate,
}

abbrev pub window_s : ℕ
window_s = 3600

-- `QH_EPOCH`.
abbrev pub qh_epoch : ℕ
qh_epoch = 1577836800

-- `vals[i] = x` on an array that has the index.
abbrev pub set_elem {ℓ} : {A : Type ℓ} → List A → ℕ → A → List A
set_elem [] i x = []
set_elem (a ∷ rest) zero x = x ∷ rest
set_elem (a ∷ rest) (suc i) x = a ∷ set_elem rest i x

module _ {V : Type 0} (minus : V → V → V) where
  -- A point of the history, less what the hour does not read; `qh` is null in a padded row.
  pub record Point : Type 0 where
    pub qh : Option ℕ
    pub p_avg : V
    pub flags : ℕ

  -- `flags & 16`.
  unfoldable pub no_data : ℕ → Bool
  no_data flags = flags / 16 % 2 == 1

  -- `avg.get(q)`: the last point with data for this quarter hour.
  unfoldable pub average : List Point → ℕ → Option V
  unfolding no_data
  average [] q = none
  average (p ∷ rest) q =
      let later = average rest q in
      elim later [
        | some v ↦ some v
        | none ↦
            if elim p.qh [ none ↦ false | some k ↦ k == q ] && not (no_data p.flags)
            then some p.p_avg
            else none
      ]

  unfoldable pub slots_of : ℕ → ℕ
  slots_of period = (2 * window_s + period) / (2 * period)

  -- What the store knows of slot `i`, whose time is counted from the start of the window.
  unfoldable pub stored : List Point → ℕ → ℕ → ℕ → Option V
  unfolding average
  stored pts now_ms period i =
      let t = now_ms + 1000 * (i * period) in
      let start = 1000 * (window_s + qh_epoch) in
      if ltb t start then none else average pts ((t - start) / 900000)

  -- Round `i` and those after it of the loop over the ring, `n` in all.
  unfoldable pub ring_loop : ℕ → ℕ → List (V × V) → List (Option V) → List (Option V)
  ring_loop zero i samples vals = vals
  ring_loop (suc n) i samples vals = elim (get_elem? samples (length samples - 1 - i)) [
    | none ↦ vals
    | some s ↦
        ring_loop n (i + 1) samples (set_elem vals (length vals - 1 - i) (some (minus (s.0) (s.1))))
  ]

  -- One round of the loop over the slots that the ring leaves, with the number that the store fills.
  unfoldable pub store_at : ℕ → Option V → List (Option V) × ℕ → List (Option V) × ℕ
  store_at i none acc = acc
  store_at i (some v) acc = (set_elem acc.0 i (some v), acc.1 + 1)

  unfoldable pub store_loop : ℕ → ℕ → (ℕ → Option V) → List (Option V) × ℕ → List (Option V) × ℕ
  store_loop zero i known acc = acc
  store_loop (suc n) i known acc = store_loop n (i + 1) known (store_at i (known i) acc)

  -- `vals.slice(first)`.
  unfoldable pub drop_nulls : List (Option V) → List (Option V)
  drop_nulls [] = []
  drop_nulls (none ∷ rest) = drop_nulls rest
  drop_nulls (some v ∷ rest) = some v ∷ rest

  pub record Hour : Type 0 where
    pub vals : List (Option V)
    pub from_store : ℕ
    pub live : ℕ
    pub period : ℕ
    pub end_ms : ℕ

  -- `lastHour`, of the ring's period (0 if it names none) and samples and of the points.
  unfoldable pub last_hour : ℕ → List (V × V) → List Point → ℕ → Hour
  last_hour ring_period samples pts now_ms =
      let period = if ring_period == 0 then 10 else ring_period in
      let slots = slots_of period in
      let covered = min (length samples) slots in
      let vals = ring_loop covered 0 samples (replicate slots none) in
      let filled =
        if not (length pts == 0) && ltb covered slots
        then store_loop (slots - covered) 0 (stored pts now_ms period) (vals, 0)
        else (vals, 0) in
      record {
        vals = drop_nulls filled.0;
        from_store = filled.1;
        live = covered;
        period = period;
        end_ms = now_ms;
      }
