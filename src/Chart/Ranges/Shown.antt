-- ===== src/Chart/Ranges/Shown.antt =====
-- Of which range the history on the screen is, and what becomes of the spinner.
use esphome_gplug.Base.{
  ℕ, Bool, true, false, ◌&&◌, Option, none, some, List, [], ◌∷◌, if◌then◌else◌, ◌≡◌, refl, arith,
}
use esphome_gplug.Text.Utf8.{Text}
use esphome_gplug.Chart.Ranges.{
  Range, day, week, month, year, same_range, History, Kept, keep_range, RangeTab, first_tab, is_day,
  is_new, ask_range, from_kept, effect_in, effect, Happening, choose, day_read, answer, failure,
  answered_by, failed_by, happen, all_happen,
}

-- That a history, if there is one, is of the range `r`.
unfoldable pub IsOf : Range → Option History → Type 0
IsOf r none = Unit {0}
IsOf r (some h) = h.of ≡ r

-- That a request, if there is one, is for the range `r`.
unfoldable pub IsFor : Range → Option Range → Type 0
IsFor r none = Unit {0}
IsFor r (some q) = q ≡ r

abbrev pub KeptRight : Kept → Type 0
KeptRight c = (r : Range) → IsOf r (c r)

-- What is kept, what the live screen has, what is shown and what is asked for are of the range that
-- they should be of.
pub record IsRight (tab : RangeTab) : Type 0 where
  pub kept_of : KeptRight (tab.cache)
  pub today_of : IsOf day (tab.today)
  pub shown_of : IsOf (tab.range) (tab.hist)
  pub asked_for : IsFor (tab.range) (tab.pending)

keep-IsOf :
    (q r : Range) (h : History) (c : Kept) → h.of ≡ r → IsOf q (c q) → IsOf q (keep_range r h c q)
unfolding IsOf keep_range same_range
keep-IsOf day day h c e k = e
keep-IsOf day week h c e k = k
keep-IsOf day month h c e k = k
keep-IsOf day year h c e k = k
keep-IsOf week day h c e k = k
keep-IsOf week week h c e k = e
keep-IsOf week month h c e k = k
keep-IsOf week year h c e k = k
keep-IsOf month day h c e k = k
keep-IsOf month week h c e k = k
keep-IsOf month month h c e k = e
keep-IsOf month year h c e k = k
keep-IsOf year day h c e k = k
keep-IsOf year week h c e k = k
keep-IsOf year month h c e k = k
keep-IsOf year year h c e k = e

from_kept-IsRight :
    (kept : Option History) (tab : RangeTab)
    → IsOf (tab.range) kept
    → KeptRight (tab.cache)
    → IsOf day (tab.today)
    → IsFor (tab.range) (tab.pending)
    → IsRight (from_kept kept tab)
unfolding from_kept ask_range IsOf IsFor
from_kept-IsRight none tab e c d p = record {
  kept_of = c;
  today_of = d;
  shown_of = tt;
  asked_for = refl;
}
from_kept-IsRight (some h) tab e c d p = fresh (is_new h (tab.today))
  where
    fresh :
        (b : Bool)
        → IsRight (
            if b
            then record tab { hist = some h; err = none }
            else record tab { err = none; pending = some (tab.range); hist = some h })
    fresh true = record { kept_of = c; today_of = d; shown_of = e; asked_for = p }
    fresh false = record { kept_of = c; today_of = d; shown_of = e; asked_for = refl }

effect-IsRight :
    (r : Range) (t : Option History) (tab : RangeTab)
    → KeptRight (tab.cache)
    → IsOf day t
    → IsRight (effect (record tab { range = r; today = t }))
unfolding effect effect_in is_day IsFor IsOf
effect-IsRight day (some d) tab c e = record {
  kept_of = λ q. keep-IsOf q day d (tab.cache) e (c q);
  today_of = e;
  shown_of = e;
  asked_for = tt;
}
effect-IsRight day none tab c e =
    from_kept-IsRight (tab.cache day) (record tab { range = day; today = none; pending = none })
      (c day) c e tt
effect-IsRight week t tab c e =
    from_kept-IsRight (tab.cache week) (record tab { range = week; today = t; pending = none })
      (c week) c e tt
effect-IsRight month t tab c e =
    from_kept-IsRight (tab.cache month) (record tab { range = month; today = t; pending = none })
      (c month) c e tt
effect-IsRight year t tab c e =
    from_kept-IsRight (tab.cache year) (record tab { range = year; today = t; pending = none })
      (c year) c e tt

answer-IsRight :
    (p : Option Range) (qh : ℕ) (tab : RangeTab)
    → IsFor (tab.range) p
    → IsRight tab
    → IsRight (answered_by p qh tab)
unfolding answered_by IsFor IsOf
answer-IsRight none qh tab e h = h
answer-IsRight (some r) qh tab e h = record {
  kept_of = λ q. keep-IsOf q r (record { of = r; newest_qh = qh }) (tab.cache) refl (h.kept_of q);
  today_of = h.today_of;
  shown_of = e;
  asked_for = tt;
}

failure-IsRight :
    (p : Option Range) (m : Text) (tab : RangeTab) → IsRight tab → IsRight (failed_by p m tab)
unfolding failed_by IsFor
failure-IsRight none m tab h = h
failure-IsRight (some r) m tab h = record {
  kept_of = h.kept_of;
  today_of = h.today_of;
  shown_of = h.shown_of;
  asked_for = tt;
}

if-IsRight : (b : Bool) (x y : RangeTab) → IsRight x → IsRight y → IsRight (if b then x else y)
if-IsRight true x y h k = h
if-IsRight false x y h k = k

happen-IsRight : (x : Happening) (tab : RangeTab) → IsRight tab → IsRight (happen x tab)
unfolding happen IsOf
happen-IsRight (choose r) tab h =
    if-IsRight (same_range r (tab.range)) tab (effect (record tab { range = r })) h
      (effect-IsRight r (tab.today) tab (h.kept_of) (h.today_of))
happen-IsRight (day_read qh) tab h =
    let d : History = record { of = day; newest_qh = qh } in
    effect-IsRight (tab.range) (some d) tab (h.kept_of) refl
happen-IsRight (answer qh) tab h = answer-IsRight (tab.pending) qh tab (h.asked_for) h
happen-IsRight (failure m) tab h = failure-IsRight (tab.pending) m tab h

all_happen-IsRight :
    (xs : List Happening) (tab : RangeTab) → IsRight tab → IsRight (all_happen xs tab)
unfolding all_happen
all_happen-IsRight [] tab h = h
all_happen-IsRight (x ∷ rest) tab h =
    all_happen-IsRight rest (happen x tab) (happen-IsRight x tab h)

-- If the histories that are kept from an earlier visit are each of the range they are kept for, and
-- the live screen has a history of the day or none, then after any choices of a range, readings of
-- the day, answers and failures the history on the screen is of the range that is chosen, the request
-- that is not stopped is for that range, and every history that is kept is of its range.
pub hist_tab-IsRight :
    (c : Kept) (d : Option History) (xs : List Happening)
    → KeptRight c
    → IsOf day d
    → IsRight (all_happen xs (effect (first_tab c d)))
unfolding IsOf IsFor
hist_tab-IsRight c d xs k e = all_happen-IsRight xs _ (effect-IsRight day d (first_tab c d) k e)

-- Whether no other range than the day is chosen.
unfoldable pub stays_on_day : List Happening → Bool
unfolding is_day
stays_on_day [] = true
stays_on_day (choose r ∷ rest) = is_day r && stays_on_day rest
stays_on_day (_ ∷ rest) = stays_on_day rest

-- The tab on the day's history, with a spinner and no request.
abbrev stuck : Kept → Option History → Option Text → History → RangeTab
stuck c h e d = record {
  range = day;
  today = some d;
  cache = c;
  hist = h;
  loading = true;
  err = e;
  pending = none;
}

stuck-stays :
    (xs : List Happening) (c : Kept) (h : Option History) (e : Option Text) (d : History)
    → stays_on_day xs ≡ true
    → (all_happen xs (stuck c h e d)).loading ≡ true
unfolding stays_on_day all_happen happen effect effect_in is_day same_range answered_by failed_by
stuck-stays [] c h e d s = refl
stuck-stays (choose day ∷ rest) c h e d s = stuck-stays rest c h e d s
stuck-stays (choose week ∷ rest) c h e d s = absurd (ground arith)
stuck-stays (choose month ∷ rest) c h e d s = absurd (ground arith)
stuck-stays (choose year ∷ rest) c h e d s = absurd (ground arith)
stuck-stays (day_read qh ∷ rest) c h e d s =
    let n : History = record { of = day; newest_qh = qh } in
    stuck-stays rest (keep_range day n c) (some n) none n s
stuck-stays (answer qh ∷ rest) c h e d s = stuck-stays rest c h e d s
stuck-stays (failure m ∷ rest) c h e d s = stuck-stays rest c h e d s

leaves_by :
    (r : Range) (xs : List Happening) (tab : RangeTab) (d : History)
    → is_day r ≡ false
    → stays_on_day xs ≡ true
    → (all_happen xs
        (happen (choose day) (record tab { range = r; today = some d; loading = true }))).loading
      ≡ true
unfolding happen effect effect_in is_day same_range
leaves_by day xs tab d e s = absurd (ground arith)
leaves_by week xs tab d e s = stuck-stays xs (keep_range day d (tab.cache)) (some d) none d s
leaves_by month xs tab d e s = stuck-stays xs (keep_range day d (tab.cache)) (some d) none d s
leaves_by year xs tab d e s = stuck-stays xs (keep_range day d (tab.cache)) (some d) none d s

-- If another range than the day is loading, the live screen has the day's history, and the day is
-- chosen, then the tab goes on saying that it is loading, whatever is answered, fails or is read of
-- the day, as long as no other range is chosen.
pub choose_day-loads :
    (tab : RangeTab) (d : History) (xs : List Happening)
    → is_day (tab.range) ≡ false
    → stays_on_day xs ≡ true
    → (all_happen xs (happen (choose day) (record tab { today = some d; loading = true }))).loading
      ≡ true
choose_day-loads tab d xs e s = leaves_by (tab.range) xs tab d e s
