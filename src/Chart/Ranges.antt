-- ===== src/Chart/Ranges.antt =====
-- Which history the tab of spa/src/live/hist-tab.js shows: its effect on the range and on the day's
-- history of the live screen, with the request that it starts and the cleanup that drops one.
pub mod Shown
mod Tests
use esphome_gplug.Base.{
  ℕ, Bool, true, false, not, ◌&&◌, Option, none, some, List, [], ◌∷◌, ◌==◌, if◌then◌else◌,
}
use esphome_gplug.Text.Utf8.{Text}

-- `RANGES`.
pub data Range : Type 0 where
  day week month year : Range

unfoldable pub same_range : Range → Range → Bool
same_range day day = true
same_range week week = true
same_range month month = true
same_range year year = true
same_range _ _ = false

-- An answer of /api/history, by the range that it is of and its newest quarter hour.
pub record History : Type 0 where
  pub of : Range
  pub newest_qh : ℕ

abbrev pub Kept : Type 0
Kept = Range → Option History

unfoldable pub keep_range : Range → History → Kept → Kept
unfolding same_range
keep_range r h c q = if same_range q r then some h else c q

-- The state of the tab, with `day` as it comes from the live screen. `pending` is the range of the
-- request that is not stopped, if there is one.
pub record RangeTab : Type 0 where
  pub range : Range
  pub today : Option History
  pub cache : Kept
  pub hist : Option History
  pub loading : Bool
  pub err : Option Text
  pub pending : Option Range

abbrev pub nothing_kept : Kept
nothing_kept r = none

-- The tab before its first effect: what is kept outlives the tab.
abbrev pub first_tab : Kept → Option History → RangeTab
first_tab c d = record {
  range = day;
  today = d;
  cache = c;
  hist = none;
  loading = false;
  err = none;
  pending = none;
}

unfoldable pub is_day : Range → Bool
is_day day = true
is_day _ = false

-- Whether a history that is kept is as new as the day's.
unfoldable pub is_new : History → Option History → Bool
is_new h none = true
is_new h (some d) = h.newest_qh == d.newest_qh

-- The request, with what is kept of the range on the screen meanwhile.
unfoldable pub ask_range : Option History → RangeTab → RangeTab
ask_range none tab = record tab {
  err = none;
  pending = some tab.range;
  loading = true;
  hist = none;
}
ask_range (some h) tab = record tab { err = none; pending = some tab.range; hist = some h }

unfoldable pub from_kept : Option History → RangeTab → RangeTab
unfolding is_new ask_range
from_kept none tab = ask_range none tab
from_kept (some h) tab =
    let asked = ask_range (some h) tab in
    if is_new h tab.today then record tab { hist = some h; err = none } else asked

-- The effect, after the cleanup of the last one, of whether the range is the day.
unfoldable pub effect_in : Bool → Option History → RangeTab → RangeTab
unfolding from_kept keep_range
effect_in true (some d) tab = record tab {
  cache = keep_range day d tab.cache;
  hist = some d;
  err = none;
}
effect_in true none tab = from_kept (tab.cache tab.range) tab
effect_in false d tab = from_kept (tab.cache tab.range) tab

unfoldable pub effect : RangeTab → RangeTab
unfolding effect_in is_day
effect tab = effect_in (is_day tab.range) tab.today (record tab { pending = none })

-- What happens: a range is chosen, the live screen has read the day again, the request that is not
-- stopped is answered or fails. An answer to a stopped request does nothing.
pub data Happening : Type 0 where
  choose : Range → Happening
  day_read : ℕ → Happening
  answer : ℕ → Happening
  failure : Text → Happening

unfoldable pub answered_by : Option Range → ℕ → RangeTab → RangeTab
unfolding keep_range
answered_by none qh tab = tab
answered_by (some r) qh tab =
    let h : History = record { of = r; newest_qh = qh } in
    record tab { cache = keep_range r h tab.cache; hist = some h; loading = false; pending = none }

unfoldable pub failed_by : Option Range → Text → RangeTab → RangeTab
failed_by none m tab = tab
failed_by (some r) m tab = record tab { err = some m; loading = false; pending = none }

unfoldable pub happen : Happening → RangeTab → RangeTab
unfolding effect answered_by failed_by same_range
happen (choose r) tab =
    let next = effect (record tab { range = r }) in if same_range r tab.range then tab else next
happen (day_read qh) tab =
    let d : History = record { of = day; newest_qh = qh } in effect (record tab { today = some d })
happen (answer qh) tab = answered_by tab.pending qh tab
happen (failure m) tab = failed_by tab.pending m tab

unfoldable pub all_happen : List Happening → RangeTab → RangeTab
all_happen [] tab = tab
all_happen (x ∷ rest) tab = all_happen rest (happen x tab)
