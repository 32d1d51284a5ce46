-- ===== src/Firmware/Tests.antt =====
-- Runs of the firmware card, and its theorems at them.
use esphome_gplug.Base.{
  ◌⊎◌, ◌≡◌, refl, true, false, none, some, List, [], ◌∷◌, ◌++◌, replicate, length, All, arith,
}
use esphome_gplug.Text.Utf8.{Bytes, codes, bytes_eq}
use esphome_gplug.Firmware.Reboot.{
  Status, Poll, is_fresh, wait_for_reboot, BootedAt, wait_for_reboot_old, wait_for_reboot_new,
}
use esphome_gplug.Firmware.Image.{inspect, uint32, str_at, hex_bytes, image}
use esphome_gplug.Firmware.Image.Hash.{IsByte, sha, inspect_app}
use esphome_gplug.Firmware.Install.{
  idle, rconfirm, upload, busy, done, picked, no_msg, fw_auth, replied, verdict, Answers, install,
  authorized, upload_answer, after_upload, says_success,
}
use esphome_gplug.Firmware.Card.{
  Rel, unchecked, checking, available, View, Button, check_release, ask_release, install_release,
  reset, release_button, button_in, button_on, CheckRound, check_answer, check_round, check_loop,
  check,
}
use esphome_gplug.Firmware.Card.Forward.{button_on_forward, is_checking, check_settles}
use esphome_gplug.Firmware.Follow.{Round, State, installing, follow_install}

abbrev old : Status
old = record { uptime_ms = 90000; build = 7; fw = codes "1.0"; app = codes "aa" }

abbrev new : Status
new = record { uptime_ms = 2000; build = 8; fw = codes "1.1"; app = codes "bb" }

abbrev first_poll : Poll
first_poll = record {
  tested = 104000;
  answered = 104500;
  status = some (record old { uptime_ms = 94500 });
}

abbrev silent_poll : Poll
silent_poll = record { tested = 106500; answered = 107000; status = none }

abbrev last_poll : Poll
last_poll = record { tested = 109000; answered = 109100; status = some new }

old-BootedAt : All (BootedAt 100000 10000) (first_poll ∷ silent_poll ∷ [])
old-BootedAt = ((λ s e. ground arith), ((λ s e. absurd (ground arith)), tt))

old_start_waits : wait_for_reboot 100000 120000 (first_poll ∷ silent_poll ∷ []) ≡ none
old_start_waits =
    wait_for_reboot_old 100000 120000 10000 (first_poll ∷ silent_poll ∷ []) (omega arith)
      old-BootedAt

wait_for_reboot_new_example :
    (s' : Status) × (wait_for_reboot 100000 120000
        ((first_poll ∷ silent_poll ∷ []) ++ last_poll ∷ [])
      ≡ some s')
wait_for_reboot_new_example =
    wait_for_reboot_new 100000 120000 (first_poll ∷ silent_poll ∷ []) last_poll [] new
      (refl, (refl, tt)) refl refl (omega arith)

-- The header of an image for the chip, with zeros for the texts.
abbrev file : Bytes
file =
    0xe9 ∷ replicate 11 0
    ++ 5 ∷ replicate 19 0
    ++ 0x32 ∷ 0x54 ∷ 0xcd ∷ 0xab ∷ replicate 140 0
    ++ replicate 8 0xa5
    ++ replicate 24 0

inspected : inspect file ≡ image [] [] (codes "a5a5a5a5a5a5a5a5")
unfolding inspect uint32 str_at hex_bytes
inspected = refl

file-IsByte : All IsByte file
file-IsByte = omega arith

inspect_app_example : (length (codes "a5a5a5a5a5a5a5a5") ≡ 16) × (sha file ≡ sha file)
inspect_app_example =
    inspect_app file file [] [] [] [] (codes "a5a5a5a5a5a5a5a5") file-IsByte file-IsByte inspected
      inspected

abbrev answers : Answers
answers = record {
  status = some old;
  auth = replied true;
  uploaded = replied (200, codes "Update Successful!");
  accepted_at = 100000;
  polls = first_poll ∷ silent_poll ∷ last_poll ∷ [];
}

install_run : install (codes "bb") old (codes "pw") answers ≡ (done, no_msg)
unfolding install authorized upload_answer after_upload verdict wait_for_reboot is_fresh
    says_success bytes_eq
install_run = refl

install_refused :
    install (codes "bb") old (codes "pw") (record answers { auth = replied false })
    ≡ (picked, fw_auth)
unfolding install authorized
install_refused = refl

abbrev rounds : List Round
rounds = record { alive = true; still_alive = true; tested = 101000; state = some installing } ∷ []

follow_install_run :
    follow_install 100000 (codes "aa") (codes "1.1") rounds true (last_poll ∷ []) true
    ≡ some (done, no_msg)
unfolding follow_install wait_for_reboot is_fresh bytes_eq
follow_install_run = refl

abbrev answering : State → Round
answering x = record { alive = true; still_alive = true; tested = 102000; state = some x }

abbrev unanswered : Round
unanswered = record { alive = true; still_alive = true; tested = 101500; state = none }

abbrev offered : Rel
offered = record { state = available; newer = true }

abbrev view : View
view = record {
  phase = idle;
  rel = some offered;
  file_rejected = false;
  ota_auth = true;
  has_password = false;
}

buttons :
    (button_on view ask_release ≡ true)
    × (button_on view check_release ≡ false)
    × (button_on (record view { phase = rconfirm }) install_release ≡ false)
    × (button_on (record view { phase = upload }) reset ≡ false)
unfolding button_on button_in release_button
buttons = (refl, refl, refl, refl)

button_on_forward_example :
    ((busy view.phase ≡ true) × ((b : Button) → button_on view b ≡ false))
    ⊎ ((busy view.phase ≡ false) × (b : Button) × (button_on view b ≡ true))
button_on_forward_example = button_on_forward view

abbrev check_rounds : List CheckRound
check_rounds =
    record {
      alive = true;
      still_alive = true;
      tested = 1500;
      answer = some (record { state = checking; newer = false });
    }
    ∷ record { alive = true; still_alive = true; tested = 3000; answer = some offered }
    ∷ []

check_run : check 0 true (record { state = unchecked; newer = false }) check_rounds ≡ some offered
unfolding check check_loop check_round check_answer
check_run = refl

check_ends : is_checking available ≡ false
check_ends =
    check_settles 0 true (record { state = unchecked; newer = false }) offered check_rounds
      check_run
