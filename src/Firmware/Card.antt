-- ===== src/Firmware/Card.antt =====
-- The card of spa/src/live/firmware-card.js as the user meets it: its buttons by phase, the confirmations
-- that take themselves back, and the check for a release.
pub mod Forward
use esphome_gplug.Base.{
  ℕ, ◌+◌, ◌-◌, Bool, true, false, not, ◌&&◌, ◌||◌, Option, none, some, List, [], ◌∷◌, ltb,
  if◌then◌else◌,
}
use esphome_gplug.Firmware.Install.{
  Phase, idle, picked, upload, download, reboot, done, same, failed, rconfirm, confirm, restarting,
  returned, lost,
}

abbrev pub rel_check_ms : ℕ
rel_check_ms = 75000

-- `rel.state`.
pub data RelState : Type 0 where
  unchecked checking available none_newer error installing unavailable : RelState

-- `rel`, as far as the card decides by it.
pub record Rel : Type 0 where
  pub state : RelState
  pub newer : Bool

-- What the card shows by: the phase, the release if it is known, whether the picked file was rejected,
-- whether the device asks for a password, and whether one is typed.
pub record View : Type 0 where
  pub phase : Phase
  pub rel : Option Rel
  pub file_rejected : Bool
  pub ota_auth : Bool
  pub has_password : Bool

pub data Button : Type 0 where
  check_release ask_release cancel_release install_release : Button
  pick_file ask_restart cancel_restart restart_now : Button
  reset_file install_file reload reset : Button

-- The buttons of `Release`.
unfoldable pub release_button : Rel → Button → Bool
release_button r ask_release = elim r.state [ available ↦ r.newer | _ ↦ false ]
release_button r check_release = elim r.state [
  | none_newer ↦ true
  | error ↦ true
  | unchecked ↦ true
  | _ ↦ false
]
release_button r _ = false

-- A button that waits for a password where one is asked for.
abbrev pub unlocked : View → Bool
unlocked v = not (v.ota_auth && not v.has_password)

abbrev pub of_release : Option Rel → Button → Bool
of_release none b = false
of_release (some r) b = release_button r b

-- The buttons that can be pressed in a phase.
unfoldable pub button_in : Phase → View → Button → Bool
unfolding release_button
button_in idle v check_release = of_release v.rel check_release
button_in idle v ask_release = of_release v.rel ask_release
button_in idle v pick_file = true
button_in idle v ask_restart = true
button_in rconfirm v cancel_release = true
button_in rconfirm v install_release = unlocked v
button_in confirm v cancel_restart = true
button_in confirm v restart_now = true
button_in picked v reset_file = true
button_in picked v install_file = not v.file_rejected && unlocked v
button_in done v reload = true
button_in same v reload = true
button_in returned v reload = true
button_in lost v reset = true
button_in failed v reset = true
button_in _ v _ = false

unfoldable pub button_on : View → Button → Bool
button_on v b = button_in v.phase v b

-- The phase right after a press, before any answer of the device; a file that is picked is inspected
-- first, and the installs ask for the status first.
unfoldable pub after_press : Phase → Button → Phase
after_press p ask_release = rconfirm
after_press p cancel_release = idle
after_press p ask_restart = confirm
after_press p cancel_restart = idle
after_press p restart_now = restarting
after_press p reset_file = idle
after_press p reset = idle
after_press p _ = p

-- The timers of `askRelease` and `askRestart`.
unfoldable pub release_expired : Phase → Phase
release_expired rconfirm = idle
release_expired p = p

unfoldable pub restart_expired : Phase → Phase
restart_expired confirm = idle
restart_expired p = p

-- One round of the loop of `checkRelease`: whether the card is there at its test and after the answer,
-- the time of the test, and the answer.
pub record CheckRound : Type 0 where
  pub alive : Bool
  pub still_alive : Bool
  pub tested : ℕ
  pub answer : Option Rel

abbrev pub failed_check : Bool → Rel
failed_check newer = record { state = error; newer = newer }

-- What a state of the release makes of the loop.
unfoldable pub check_answer : RelState → Rel → Option Rel → Option Rel
check_answer checking u again = again
check_answer _ u again = some u

-- The rest of a round, by its answer.
unfoldable pub check_round : CheckRound → Option Rel → Option Rel → (Rel → Option Rel) → Option Rel
unfolding check_answer
check_round c none silent again = silent
check_round c (some u) silent again =
    if not c.still_alive then none else check_answer u.state u (again u)

-- The loop, with the release shown so far; `none` when the card is gone. When no round is left the time
-- is up.
unfoldable pub check_loop : ℕ → Rel → List CheckRound → Option Rel
check_loop t0 r [] = some (failed_check r.newer)
check_loop t0 r (c ∷ rest) =
    let silent = check_loop t0 r rest in
    let again = λ (u : Rel). check_loop t0 u rest in
    if not c.alive
    then none
    else if not (ltb (c.tested - t0) rel_check_ms)
    then some (failed_check r.newer)
    else check_round c c.answer silent again

-- `checkRelease`; the flag says whether the device took the request.
unfoldable pub check : ℕ → Bool → Rel → List CheckRound → Option Rel
check t0 accepted r rounds =
    if accepted
    then check_loop t0 (record r { state = checking }) rounds
    else some (failed_check r.newer)
