-- ===== src/Chart/Tests.antt =====
-- Runs of the charts, and their theorems at them.
use esphome_gplug.Base.{
  ℕ, ◌*◌, ◌≤◌, ◌+◌, ◌-◌, ◌<◌, ◌≡◌, refl, min, Bool, true, false, none, some, List, [], ◌∷◌,
  if◌then◌else◌, ◌==◌, arith, filter, map, drop, length,
}
use esphome_gplug.Text.Decimal.{digits}
use esphome_gplug.Chart.Scrub.{
  Selection, index, clamp, select, sample_at, point_at, arrow_left, arrow_right, home, end, move,
  target, on_key_down, handle, key_down,
}
use esphome_gplug.Chart.Scrub.Bounds.{index_grows, on_key_down_moves, point_at_bar}
use esphome_gplug.Chart.Double.{quotient, times, floor, round, doublings, halvings, round_even}
use esphome_gplug.Chart.Bars.{
  Point, Bar, point_bar, no_data, gaps, gaps_before, bars_loop, hist_bars, max_bars,
}
use esphome_gplug.Chart.Bars.Records.{has_value, has_data, bar_of, filter-hist_bars}
use esphome_gplug.Chart.Bars.Gaps.{Spaced, Ordered, hist_bars-Spaced}

abbrev selection : Selection
selection = record { back = 2; key = true }

at_seven : index 10 (some selection) ≡ some 7
unfolding index clamp
at_seven = refl

keys :
    handle false 10 300 (some selection) (key_down false arrow_left)
    ≡ some (record { back = 3; key = true })
unfolding handle on_key_down move target select index clamp
keys = refl

grown : index (10 + 5) (some selection) ≡ some (7 + 5)
grown = index_grows 10 5 7 selection (omega arith) at_seven

moved_by_keys :
    (index 10 (on_key_down 10 (some selection) false arrow_left) ≡ some (7 - 1))
    × (index 10 (on_key_down 10 (some selection) false arrow_right) ≡ some (min (10 - 1) (7 + 1)))
    × (index 10 (on_key_down 10 (some selection) false home) ≡ some 0)
    × (index 10 (on_key_down 10 (some selection) false end) ≡ some (10 - 1))
moved_by_keys = on_key_down_moves 10 7 (some selection) (omega arith) at_seven

point_at_bar_example :
    (k : ℕ) × (index 24 (some (point_at true 24 300 155)) ≡ some k)
    × (k * 300 ≤ 155 * 24)
    × (155 * 24 ≤ (k + 1) * 300)
point_at_bar_example = point_at_bar 24 300 155 (omega arith) (omega arith) (omega arith)

-- The edge between two bars may fall to the left one: 5 / 245 * 49 is below 1.
edges :
    (index 24 (some (point_at true 24 300 155)) ≡ some 12)
    × (index 49 (some (point_at true 49 245 5)) ≡ some 0)
    × (index 49 (some (point_at true 49 245 10)) ≡ some 1)
    × (index 49 (some (point_at false 49 245 10)) ≡ some 2)
unfolding point_at sample_at select index clamp quotient times floor round doublings halvings
    round_even
edges = (refl, refl, refl, refl)

-- Two records with a hole of two quarter hours between them, and one without data.
abbrev first_point : Point 0 ◌-◌ digits
first_point = record { qh = some 5; import_wh = some 9; export_wh = some 4; flags = 0 }

abbrev points : List (Point 0 ◌-◌ digits)
points =
    record { qh = some 8; import_wh = some 7; export_wh = none; flags = 0 }
    ∷ record { qh = some 9; import_wh = none; export_wh = none; flags = 16 }
    ∷ []

hist_bars_run :
    map {B = ℕ × Bool}
      (λ (b : Bar 0 ◌-◌ digits). (b.v, b.missing))
      (hist_bars 0 ◌-◌ digits 1 (first_point ∷ points))
    ≡ (5, false) ∷ (0, true) ∷ (0, true) ∷ (7, false) ∷ (0, true) ∷ []
unfolding hist_bars bars_loop gaps_before gaps point_bar no_data
hist_bars_run = refl

filter-hist_bars_example :
    filter (has_value 0 ◌-◌ digits) (hist_bars 0 ◌-◌ digits 1 (first_point ∷ points))
    ≡ map (bar_of 0 ◌-◌ digits) (filter (has_data 0 ◌-◌ digits) (first_point ∷ points))
filter-hist_bars_example = filter-hist_bars 0 ◌-◌ digits 1 (first_point ∷ points)

few : length (hist_bars 0 ◌-◌ digits 1 (first_point ∷ points)) < max_bars
unfolding hist_bars bars_loop gaps_before gaps
few = omega arith

hist_bars-Spaced_example :
    Spaced 0 ◌-◌ digits
      (if 1 == 0 then 1 else 1)
      5
      (drop 1 (hist_bars 0 ◌-◌ digits 1 (first_point ∷ points)))
hist_bars-Spaced_example = hist_bars-Spaced 0 ◌-◌ digits 1 5 first_point points refl in_order few
  where
    in_order : Ordered 0 ◌-◌ digits 5 points
    in_order = (8, refl, omega arith, (9, refl, omega arith, tt))
