-- ===== src/Live/Stream/Tests.antt =====
-- The stream tab at small devices, and its theorems there.
use esphome_gplug.Base.{
  ℕ, ◌+◌, ◌*◌, ◌≡◌, refl, true, false, Option, some, [], ◌∷◌, arith, any, ◌==◌,
}
use esphome_gplug.Text.Utf8.{Text, codes}
use esphome_gplug.Text.Decimal.{digits}
use esphome_gplug.Language.Spell.{Shows}
use esphome_gplug.Live.Stream.{
  Form, raw, Frame, Listing, opened, moved, unmoved, polled, drop_texts, first_of, head_of,
  set_text, same_form, toggle_open, is_open, ask_open, ask, ask_again, text_came, shown_text,
}
use esphome_gplug.Live.Stream.Rounds.{
  toggle, pick, Round, round, do_acts, do_act, settled, answer_all,
}
use esphome_gplug.Live.Stream.Current.{HasFrames, IsUpToDate, latest, rounds, tab-IsUpToDate}
use esphome_gplug.Live.Stream.Export.{export_as, export_ids, export_as-Shows}

-- A device that gets a frame every ten seconds, the first at 10 s, and keeps five.
abbrev arrival : ℕ → ℕ
arrival n = n * 10000

-- The text of a frame is the number of the frame.
abbrev content : ℕ → ℕ → Form → Text
content n i k = digits (n + 100)

abbrev newest : ℕ → Frame
newest age = record { i = 0; age = age; ok = true; raw_len = 20; plain_len = 10 }

abbrev one_frame : ℕ → Listing
one_frame age = record { count = 5; list = newest age ∷ [] }

abbrev first_round : Round
first_round = record { now = 53500; listing = one_frame 3; n = 5; acts = toggle 0 ∷ pick raw ∷ [] }

abbrev second_round : Round
second_round = record { now = 63600; listing = one_frame 3; n = 6; acts = [] }

first_HasFrames : HasFrames false content arrival first_round
first_HasFrames = record {
  newest = newest 3;
  others = [];
  list_is = refl;
  age_is = record {
    read = 53400;
    arrived_before = omega arith;
    seen_after = omega arith;
    in_time = omega arith;
    whole_seconds = refl;
  };
}

second_HasFrames : HasFrames false content arrival second_round
second_HasFrames = record {
  newest = newest 3;
  others = [];
  list_is = refl;
  age_is = record {
    read = 63400;
    arrived_before = omega arith;
    seen_after = omega arith;
    in_time = omega arith;
    whole_seconds = refl;
  };
}

tab-IsUpToDate_example :
    IsUpToDate false content arrival
      (latest false content arrival first_round (second_round ∷ []))
      (rounds false content arrival (first_round ∷ second_round ∷ []) opened)
tab-IsUpToDate_example =
    tab-IsUpToDate false content arrival (λ k. omega arith) first_round (second_round ∷ [])
      first_HasFrames (omega arith, omega arith, second_HasFrames, tt)

read_again :
    shown_text (rounds false content arrival (first_round ∷ second_round ∷ []) opened) 0
    ≡ some (codes "106")
unfolding shown_text round do_acts do_act settled answer_all polled moved unmoved drop_texts
    first_of head_of set_text same_form toggle_open is_open ask_open ask ask_again text_came digits
read_again = refl

-- A frame that comes one second after the newest one of the last poll, and stays the newest, is not
-- noticed by a device whose ring is full.
unnoticed :
    moved (some (record { age = 0; count = 5; t = 50000 })) (some (newest 9)) 5 60000 ≡ false
unfolding moved unmoved
unnoticed = refl

abbrev texts : ℕ → Option Text
texts i = some (digits i)

all_frames :
    any (λ j. j == 0) (export_ids (codes "ok") (codes "bad") raw (newest 3 ∷ []) texts []) ≡ true
unfolding export_ids
all_frames = refl

exported_newest :
    Shows (digits 0) (export_as (codes "ok") (codes "bad") raw (newest 3 ∷ []) texts []).1
exported_newest =
    export_as-Shows (codes "ok") (codes "bad") raw (newest 3 ∷ []) texts [] 0 (digits 0) refl
      all_frames
