-- ===== src/Hour/Tests.antt =====
-- A run of `lastHour` with slots of 20 minutes, and its theorem at it.
use esphome_gplug.Base.{ℕ, ◌-◌, ◌≡◌, refl, min, some, List, [], ◌∷◌, length}
use esphome_gplug.Hour.{
  Point, stored, slots_of, average, no_data, ring_loop, store_loop, store_at, drop_nulls, last_hour,
}
use esphome_gplug.Hour.Average.{IsAverage}
use esphome_gplug.Hour.Store.{count_known}
use esphome_gplug.Hour.Slots.{IsHour}
use esphome_gplug.Hour.Result.{period_of, last_hour-IsHour}

abbrev ring : List (ℕ × ℕ)
ring = (5, 1) ∷ []

abbrev points : List (Point ◌-◌)
points =
    record { qh = some 5; p_avg = 2; flags = 0 }
    ∷ record { qh = some 4; p_avg = 9; flags = 16 }
    ∷ []

abbrev now_ms : ℕ
now_ms = 1577844000000

last_hour_run : last_hour ◌-◌ 1200 ring points now_ms ≡ record {
  vals = some 2 ∷ some 4 ∷ [];
  from_store = 1;
  live = 1;
  period = 1200;
  end_ms = 1577844000000;
}
unfolding last_hour slots_of ring_loop store_loop store_at stored average no_data drop_nulls
last_hour_run = refl

last_hour-IsHour_example :
    IsHour ◌-◌ ring
      (slots_of ◌-◌ (period_of 1200))
      (stored ◌-◌ points now_ms (period_of 1200))
      (last_hour ◌-◌ 1200 ring points now_ms).vals
    × ((last_hour ◌-◌ 1200 ring points now_ms).live
        ≡ min (length ring) (slots_of ◌-◌ (period_of 1200)))
    × ((last_hour ◌-◌ 1200 ring points now_ms).from_store
        ≡ count_known ◌-◌
            (stored ◌-◌ points now_ms (period_of 1200))
            (slots_of ◌-◌ (period_of 1200) - (last_hour ◌-◌ 1200 ring points now_ms).live)
            0)
    × ((k : ℕ)
        → IsAverage ◌-◌ points now_ms
            (period_of 1200)
            k
            (stored ◌-◌ points now_ms (period_of 1200) k))
last_hour-IsHour_example = last_hour-IsHour ◌-◌ 1200 ring points now_ms
