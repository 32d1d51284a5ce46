-- ===== src/Chart/Scrub.antt =====
-- `useScrub` of spa/src/scrub.js: which sample of a chart is pointed at. Positions are whole pixels.
pub mod Bounds
use esphome_gplug.Base.{
  ℕ, ◌+◌, ◌-◌, ◌*◌, ◌/◌, min, max, Bool, true, false, not, ◌&&◌, ◌||◌, Option, none, some, ltb,
  ◌==◌, if◌then◌else◌,
}
use esphome_gplug.Chart.Double.{quotient, times, floor, round}

-- `st`: how far the selection is from the newest sample, and whether a key made it.
pub record Selection : Type 0 where
  pub back : ℕ
  pub key : Bool

-- `clamp`, of an index that is not negative; one below 0 becomes 0 by the subtraction that made it.
unfoldable pub clamp : ℕ → ℕ → ℕ
clamp n i = min (n - 1) i

-- `i`.
unfoldable pub index : ℕ → Option Selection → Option ℕ
unfolding clamp
index n none = none
index n (some st) = if ltb 0 n then some (clamp n (n - 1 - st.back)) else none

-- The sample under a pointer `x` pixels from the left edge, 0 if it is further left, of a chart `width`
-- pixels wide.
unfoldable pub sample_at : Bool → ℕ → ℕ → ℕ → ℕ
unfolding quotient times floor round
sample_at bars n width x =
    if width == 0
    then (if bars then n else n - 1)
    else if bars
    then floor (times (quotient x width) n)
    else round (times (quotient x width) (n - 1))

unfoldable pub select : ℕ → ℕ → Bool → Selection
unfolding clamp
select n to key = record { back = n - 1 - clamp n to; key = key }

-- `at`.
unfoldable pub point_at : Bool → ℕ → ℕ → ℕ → Selection
unfolding sample_at select
point_at bars n width x = select n (sample_at bars n width x) false

pub data Key : Type 0 where
  arrow_left arrow_right page_up page_down home end escape other : Key

abbrev pub big : ℕ → ℕ
big n = max 1 ((2 * n + 12) / 24)

-- `to`.
unfoldable pub target : ℕ → ℕ → Bool → Key → Option ℕ
target n cur shift arrow_left = some (cur - (if shift then big n else 1))
target n cur shift arrow_right = some (cur + (if shift then big n else 1))
target n cur shift page_up = some (cur - big n)
target n cur shift page_down = some (cur + big n)
target n cur shift home = some 0
target n cur shift end = some (n - 1)
target n cur shift _ = none

-- `i ?? n - 1`.
abbrev pub or_newest : ℕ → Option ℕ → ℕ
or_newest n none = n - 1
or_newest n (some i) = i

-- The selection that a key moves.
unfoldable pub move : ℕ → Option Selection → Bool → Key → Option Selection
unfolding target select index
move n st shift escape = none
move n st shift k = elim (target n (or_newest n (index n st)) shift k) [
  | none ↦ st
  | some to ↦ some (select n to true)
]

-- `onKeyDown`.
unfoldable pub on_key_down : ℕ → Option Selection → Bool → Key → Option Selection
unfolding move
on_key_down n st shift k = if n == 0 then st else move n st shift k

pub data Pointer : Type 0 where
  mouse touch : Pointer

abbrev pub is_mouse : Pointer → Bool
is_mouse mouse = true
is_mouse touch = false

pub data Event : Type 0 where
  pointer_down : Pointer → ℕ → Event
  pointer_move : Pointer → Bool → ℕ → Event
  pointer_up pointer_leave : Pointer → Event
  pointer_cancel blur : Event
  key_down : Bool → Key → Event

-- The handlers in `props`, on a chart of `n` samples that is `width` pixels wide.
unfoldable pub handle : Bool → ℕ → ℕ → Option Selection → Event → Option Selection
unfolding point_at on_key_down
handle bars n width st (pointer_down p x) = some (point_at bars n width x)
handle bars n width st (pointer_move p pressed x) =
    if is_mouse p || pressed then some (point_at bars n width x) else st
handle bars n width st (pointer_up p) = if is_mouse p then st else none
handle bars n width st (pointer_leave p) = if is_mouse p then none else st
handle bars n width st pointer_cancel = none
handle bars n width none blur = none
handle bars n width (some st) blur = if st.key then none else some st
handle bars n width st (key_down shift k) = on_key_down n st shift k
