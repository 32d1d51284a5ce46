-- ===== src/Firmware/Follow.antt =====
-- The flows `installRelease` and `followInstall` of spa/src/live/firmware-card.js: the device downloads
-- the release itself, and the card polls it.
pub mod Ends
use esphome_gplug.Base.{
  ℕ, zero, suc, ◌+◌, Bool, true, false, not, ◌&&◌, Option, none, some, List, [], ◌∷◌, leb, ltb,
  ◌==◌, ◌-◌, if◌then◌else◌, length,
}
use esphome_gplug.Text.Utf8.{Text, bytes_eq}
use esphome_gplug.Firmware.Reboot.{Status, Poll, rel_timeout_ms, wait_for_reboot}
use esphome_gplug.Firmware.Install.{
  Phase, download, reboot, done, same, failed, rconfirm, Msg, no_msg, fw_auth, fw_no_return,
  fw_rel_err_install, sentence, Reply, thrown, replied, given,
}

-- `u.state`, as far as the loop tells states apart.
pub data State : Type 0 where
  installing error other : State

-- One round: whether the card is still there at its test and after the answer, the time of the test,
-- and the answer.
pub record Round : Type 0 where
  pub alive : Bool
  pub still_alive : Bool
  pub tested : ℕ
  pub state : Option State

-- How the polling ends: the card is gone, the install failed, or the device restarts.
pub data Outcome : Type 0 where
  gone broken restarts : Outcome

-- The loop after `missed` polls without an answer. When no round is left the time is up.
unfoldable pub poll_loop : ℕ → ℕ → List Round → Outcome
poll_loop t0 missed [] = restarts
poll_loop t0 missed (r ∷ rest) =
    let later = poll_loop t0 0 rest in
    let silent = poll_loop t0 (missed + 1) rest in
    if not r.alive
    then gone
    else if not (ltb (r.tested - t0) rel_timeout_ms)
    then restarts
    else elim r.state [
      | none ↦ if leb 3 (missed + 1) then restarts else silent
      | some s ↦
          if not r.still_alive
          then gone
          else elim s [ installing ↦ later | error ↦ broken | other ↦ restarts ]
    ]

-- Which version came back up.
unfoldable pub release_verdict : Text → Text → Status → Phase
release_verdict target before_app s =
    if given target && given s.fw
    then (if bytes_eq s.fw target then done else same)
    else (if given before_app && bytes_eq s.app before_app then same else done)

-- `followInstall`, begun at `t0`; `none` when the card is gone and nothing is shown any more. `alive`
-- says whether it is there after the loop and after the wait.
unfoldable pub follow_install :
    ℕ → Text → Text → List Round → Bool → List Poll → Bool → Option (Phase × Msg)
unfolding poll_loop release_verdict
follow_install t0 before_app target rounds alive polls still_alive = elim (poll_loop t0 0 rounds) [
  | gone ↦ none
  | broken ↦ some (failed, fw_rel_err_install)
  | restarts ↦
      if not alive
      then none
      else if not still_alive
      then none
      else elim (wait_for_reboot t0 rel_timeout_ms polls) [
        | none ↦ some (failed, fw_no_return)
        | some s ↦ some (release_verdict target before_app s, no_msg)
      ]
]
