-- ===== src/Live/Stream.antt =====
-- The tab with the received frames, spa/src/live/stream-tab.js: its state, what each handler and effect
-- changes and which texts it asks the device for, and the export. A text is keyed by the position of its
-- frame and by its form.
pub mod Rounds
pub mod Moved
pub mod Current
pub mod Export
pub mod Tests
use esphome_gplug.Base.{
  ℕ, ◌+◌, ◌-◌, ◌*◌, Bool, true, false, not, ◌&&◌, ◌||◌, Option, none, some, List, [], ◌∷◌, ◌++◌,
  map, ltb, leb, ◌==◌, any, find, filter, if◌then◌else◌, length,
}
use esphome_gplug.Text.Utf8.{Text, codes}
use esphome_gplug.Text.Decimal.{digits}

pub data Form : Type 0 where
  raw plain : Form

unfoldable pub same_form : Form → Form → Bool
same_form raw raw = true
same_form plain plain = true
same_form _ _ = false

-- One of `frames.frames`.
pub record Frame : Type 0 where
  pub i : ℕ
  pub age : ℕ
  pub ok : Bool
  pub raw_len : ℕ
  pub plain_len : ℕ

-- An answer of /api/frames, as far as the tab's logic reads it.
pub record Listing : Type 0 where
  pub count : ℕ
  pub list : List Frame

-- `head.current`: the newest frame's age and the count at a poll, and the poll's time in milliseconds.
pub record Head : Type 0 where
  pub age : ℕ
  pub count : ℕ
  pub t : ℕ

abbrev pub Cache : Type 0
Cache = ℕ → Form → Option Text

abbrev pub no_texts : Cache
no_texts i k = none

unfoldable pub set_text : ℕ → Form → Text → Cache → Cache
unfolding same_form
set_text i k x c j m = if j == i && same_form m k then some x else c j m

pub record Tab : Type 0 where
  pub frames : Option Listing
  pub err : Option Text
  pub mode : Form
  pub tail : Bool
  pub open_at : Option ℕ
  pub cache : Cache
  pub sel : List ℕ
  pub head : Option Head

abbrev pub opened : Tab
opened = record {
  frames = none;
  err = none;
  mode = plain;
  tail = true;
  open_at = none;
  cache = no_texts;
  sel = [];
  head = none;
}

-- The texts that are asked for.
abbrev pub Asked : Type 0
Asked = List (ℕ × Form)

-- `fetchText(i, kind)`: nothing is asked for that is in the cache.
unfoldable pub ask : Option Text → ℕ → Form → Asked
ask none i k = (i, k) ∷ []
ask (some x) i k = []

-- `fetchText(next, mode)`, where there is a `next`.
unfoldable pub ask_open : Cache → Option ℕ → Form → Asked
unfolding ask
ask_open c none k = []
ask_open c (some i) k = ask (c i k) i k

unfoldable pub is_open : Option ℕ → ℕ → Bool
is_open none i = false
is_open (some j) i = j == i

unfoldable pub toggle_open : Bool → ℕ → Tab → Tab × Asked
unfolding is_open ask_open
toggle_open wide i tab =
    let next = if is_open tab.open_at i && not wide then none else some i in
    (record tab { open_at = next }, ask_open tab.cache next tab.mode)

unfoldable pub pick_mode : Form → Tab → Tab × Asked
unfolding ask_open
pick_mode m tab = (record tab { mode = m }, ask_open tab.cache tab.open_at m)

unfoldable pub toggle_sel : ℕ → Tab → Tab
toggle_sel i tab = record tab {
  sel =
      if any (λ x. x == i) tab.sel then filter (λ x. not (x == i)) tab.sel else tab.sel ++ (i ∷ []);
}

-- The button that selects all frames, or none when all are selected.
unfoldable pub select_all : Listing → Tab → Tab
select_all l tab = record tab {
  sel =
      if not (length l.list == 0) && (length tab.sel == length l.list)
      then []
      else map (λ (f : Frame). f.i) l.list;
}

-- `f0.age + 2 >= expected && frames.count === prev.count`, at the time `now` in milliseconds.
unfoldable pub unmoved : Head → Frame → ℕ → ℕ → Bool
unmoved prev f0 count now =
    leb (prev.age * 1000 + (now - prev.t)) ((f0.age + 2) * 1000) && (count == prev.count)

unfoldable pub head_of : Option Frame → ℕ → ℕ → Option Head
head_of none count now = none
head_of (some f) count now = some (record { age = f.age; count = count; t = now })

unfoldable pub first_of : List Frame → Option Frame
first_of [] = none
first_of (f ∷ rest) = some f

-- Whether the effect on `frames` drops the texts.
unfoldable pub moved : Option Head → Option Frame → ℕ → ℕ → Bool
unfolding unmoved
moved none f count now = false
moved (some prev) none count now = false
moved (some prev) (some f) count now = not (unmoved prev f count now)

-- `fetchText(open, mode, true)`.
unfoldable pub ask_again : Option ℕ → Form → Asked
ask_again none k = []
ask_again (some i) k = (i, k) ∷ []

unfoldable pub drop_texts : Bool → Tab → Tab × Asked
unfolding ask_again
drop_texts true tab = (record tab { cache = no_texts }, ask_again tab.open_at tab.mode)
drop_texts false tab = (tab, [])

-- A poll's answer: `setFrames`, and the effect on `frames`.
unfoldable pub polled : ℕ → Listing → Tab → Tab × Asked
unfolding moved drop_texts head_of first_of
polled now l tab =
    let f0 = first_of l.list in
    drop_texts (moved tab.head f0 l.count now)
      (record tab { frames = some l; err = none; head = head_of f0 l.count now })

unfoldable pub failed : Text → Tab → Tab
failed message tab = record tab { err = some message }

-- The text of a frame has come.
unfoldable pub text_came : ℕ → Form → Text → Tab → Tab
text_came i k x tab = record tab { cache = set_text i k x tab.cache }

-- The effect on `wide` and `hasFrames`.
unfoldable pub fill_pane : Bool → Tab → Tab × Asked
unfolding toggle_open
fill_pane wide tab =
    let has_frames = elim tab.frames as (λ _. Bool) [
      | none ↦ false
      | some l ↦ not (l.count == 0)
    ] in
    let nothing_open = elim tab.open_at as (λ _. Bool) [ none ↦ true | some i ↦ false ] in
    if wide && (has_frames && nothing_open) then toggle_open wide 0 tab else (tab, [])

-- What the page shows below a frame's header; `none` is the spinner.
unfoldable pub shown_text : Tab → ℕ → Option Text
shown_text tab i = tab.cache i tab.mode
