-- ===== src/Hour/Result.antt =====
-- The result of `lastHour`.
use esphome_gplug.Base.{
  ℕ, zero, suc, ◌+◌, ◌-◌, ◌*◌, ◌<◌, ◌≡◌, refl, inl, inr, min, Bool, true, false, not, ◌&&◌, Option,
  none, List, [], ◌∷◌, ltb, ◌==◌, if◌then◌else◌, Bool-cases, arith, length,
}
use mathlib.Core.Path.{sym}
use esphome_gplug.Hour.{window_s, qh_epoch, Point, slots_of, stored, store_loop, last_hour}
use esphome_gplug.Hour.Average.{IsAverage, stored-Average}
use esphome_gplug.Hour.Store.{count_known, store_loop_count}
use esphome_gplug.Hour.Slots.{
  from_ring, IsWindow, ring-IsWindow, store-IsWindow, null-IsWindow, IsHour, window-IsHour,
}

module _ {V : Type 0} (minus : V → V → V) where
  stored-nil : (now_ms period k : ℕ) → stored minus [] now_ms period k ≡ none
  unfolding stored
  stored-nil now_ms period k =
      elim (Bool-cases (ltb (now_ms + 1000 * (k * period)) (1000 * (window_s + qh_epoch)))) [
        | inl before ↦ rw before refl
        | inr after ↦ rw after refl
      ]

  null_count :
      (known : ℕ → Option V) (n i : ℕ)
      → ((k : ℕ) → known k ≡ none)
      → count_known minus known n i ≡ 0
  null_count known zero i h = refl
  null_count known (suc n) i h = rw (h i) (omega (arith, null_count known n (i + 1) h))

  -- What the hour makes of the slots that the ring fills, at the condition `fill` on the store.
  abbrev pub filled : Bool → ℕ → (ℕ → Option V) → List (Option V) → List (Option V) × ℕ
  filled fill n known vals = if fill then store_loop minus n 0 known (vals, 0) else (vals, 0)

  module _ (samples : List (V × V)) (slots : ℕ) (known : ℕ → Option V) where
    left : ℕ
    left = slots - min (length samples) slots

    filled-IsWindow :
        (fill : Bool)
        → (fill ≡ false → (k : ℕ) → k + min (length samples) slots < slots → known k ≡ none)
        → IsWindow minus samples slots known
            (filled fill left known (from_ring minus samples slots)).0
    unfolding left
    filled-IsWindow true null =
        store-IsWindow minus samples slots known (from_ring minus samples slots)
          (ring-IsWindow minus samples slots)
    filled-IsWindow false null =
        null-IsWindow minus samples slots known (from_ring minus samples slots) (null refl)
          (ring-IsWindow minus samples slots)

    filled_count :
        (fill : Bool)
        → (fill ≡ false → count_known minus known left 0 ≡ 0)
        → (filled fill left known (from_ring minus samples slots)).1
          ≡ count_known minus known left 0
    filled_count true none_known =
        omega (arith, store_loop_count minus known left 0 (from_ring minus samples slots, 0))
    filled_count false none_known = sym (none_known refl)

abbrev pub period_of : ℕ → ℕ
period_of ring_period = if ring_period == 0 then 10 else ring_period

-- The last hour is a window of slots up to now, less the slots before the first known one: the ring
-- holds the newest ones, as many as it has samples and the window has slots, none of them cut off,
-- and each other slot is what the store knows of it, or null; `live` and `fromStore` count the two. The
-- store knows of slot k the average of a record with data in whose quarter hour the time of the slot
-- lies, k periods after the start of the window an hour ago, and nothing if there is no such record.
pub last_hour-IsHour :
    {V : Type 0} (minus : V → V → V) (ring_period : ℕ) (samples : List (V × V))
    (pts : List (Point minus)) (now_ms : ℕ)
    → IsHour minus samples
        (slots_of minus (period_of ring_period))
        (stored minus pts now_ms (period_of ring_period))
        (last_hour minus ring_period samples pts now_ms).vals
      × ((last_hour minus ring_period samples pts now_ms).live
          ≡ min (length samples) (slots_of minus (period_of ring_period)))
      × ((last_hour minus ring_period samples pts now_ms).from_store
          ≡ count_known minus
              (stored minus pts now_ms (period_of ring_period))
              (slots_of minus (period_of ring_period)
                - (last_hour minus ring_period samples pts now_ms).live)
              0)
      × ((k : ℕ)
          → IsAverage minus pts now_ms
              (period_of ring_period)
              k
              (stored minus pts now_ms (period_of ring_period) k))
unfolding last_hour left
last_hour-IsHour {V} minus ring_period samples pts now_ms = (
  window-IsHour minus samples slots known _
      (filled-IsWindow minus samples slots known fill (null pts)),
  refl,
  filled_count minus samples slots known fill (uncounted pts),
  stored-Average minus pts now_ms (period_of ring_period),
)
  where
    slots : ℕ
    slots = slots_of minus (period_of ring_period)

    known : ℕ → Option V
    known = stored minus pts now_ms (period_of ring_period)

    fill : Bool
    fill = not (length pts == 0) && ltb (min (length samples) slots) slots

    null :
        (ps : List (Point minus))
        → (not (length ps == 0) && ltb (min (length samples) slots) slots) ≡ false
        → (k : ℕ) → k + min (length samples) slots < slots
        → stored minus ps now_ms (period_of ring_period) k ≡ none
    null [] h k l = stored-nil minus now_ms (period_of ring_period) k
    null (p ∷ ps) h k l = absurd (ground arith)

    uncounted :
        (ps : List (Point minus))
        → (not (length ps == 0) && ltb (min (length samples) slots) slots) ≡ false
        → count_known minus
            (stored minus ps now_ms (period_of ring_period))
            (slots - min (length samples) slots)
            0
          ≡ 0
    uncounted [] h =
        null_count minus (stored minus [] now_ms (period_of ring_period))
          (slots - min (length samples) slots) 0 (stored-nil minus now_ms (period_of ring_period))
    uncounted (p ∷ ps) h = no_slots (slots - min (length samples) slots) (ground arith)
      where
        no_slots :
            (n : ℕ)
            → n ≡ 0
            → count_known minus (stored minus (p ∷ ps) now_ms (period_of ring_period)) n 0 ≡ 0
        no_slots zero e = refl
        no_slots (suc n) e = absurd (omega arith)
