-- ===== src/Chart/Ranges/Tests.antt =====
-- Runs of the history tab over its ranges, and its theorems at them.
use esphome_gplug.Base.{◌≡◌, refl, true, false, none, some, List, [], ◌∷◌}
use esphome_gplug.Chart.Ranges.{
  day, week, same_range, History, keep_range, RangeTab, nothing_kept, first_tab, is_day, is_new,
  ask_range, from_kept, effect_in, effect, Happening, choose, day_read, answer, answered_by,
  failed_by, happen, all_happen,
}
use esphome_gplug.Chart.Ranges.Shown.{
  IsOf, IsRight, stays_on_day, hist_tab-IsRight, choose_day-loads,
}

abbrev today : History
today = record { of = day; newest_qh = 40 }

abbrev visit : List Happening
visit = choose week ∷ answer 40 ∷ choose day ∷ day_read 41 ∷ choose week ∷ []

-- The week that was kept is out of date: it is shown while the week is asked for again.
visited : (all_happen visit (effect (first_tab nothing_kept (some today)))).pending ≡ some week
unfolding all_happen happen effect effect_in from_kept ask_range is_day is_new same_range keep_range
    answered_by failed_by
visited = refl

hist_tab-IsRight_example : IsRight (all_happen visit (effect (first_tab nothing_kept (some today))))
unfolding IsOf
hist_tab-IsRight_example = hist_tab-IsRight nothing_kept (some today) visit (λ r. tt) refl

abbrev week_tab : RangeTab
week_tab = record {
  range = week;
  today = none;
  cache = nothing_kept;
  hist = none;
  loading = false;
  err = none;
  pending = some week;
}

choose_day-loads_example :
    (all_happen
      (answer 40 ∷ day_read 41 ∷ [])
      (happen (choose day) (record week_tab { today = some today; loading = true }))).loading
    ≡ true
unfolding is_day stays_on_day
choose_day-loads_example = choose_day-loads week_tab today (answer 40 ∷ day_read 41 ∷ []) refl refl
