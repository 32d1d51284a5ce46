-- ===== src/Firmware/Install.antt =====
-- The flows `install` and `restart` of spa/src/live/firmware-card.js: each ends in a phase, by what the
-- device answers.
pub mod Ends
use esphome_gplug.Base.{
  ℕ, ◌+◌, Bool, true, false, not, ◌&&◌, ◌||◌, Option, none, some, List, [], ◌∷◌, leb, ◌==◌, ltb,
  if◌then◌else◌, length, map,
}
use esphome_gplug.Text.Utf8.{Text, codes, bytes_eq}
use esphome_gplug.Firmware.Reboot.{
  Status, Poll, reboot_timeout_ms, restart_timeout_ms, wait_for_reboot,
}

-- `phase`; `returned` is the source's "back".
pub data Phase : Type 0 where
  idle picked upload download reboot done same failed : Phase
  rconfirm confirm restarting returned lost : Phase

-- `busy`.
unfoldable pub busy : Phase → Bool
busy upload = true
busy download = true
busy reboot = true
busy restarting = true
busy _ = false

-- `msg`: empty, a key of the tables, or a sentence from the client of the web service.
pub data Msg : Type 0 where
  no_msg fw_auth fw_rejected fw_no_return fw_rel_err_install : Msg
  sentence : Text → Msg

-- An answer that may be thrown as an error.
pub data Reply (A : Type 0) : Type 0 where
  thrown : Text → Reply A
  replied : A → Reply A

unfoldable pub lower : ℕ → ℕ
lower c = if leb 65 c && leb c 90 then c + 32 else c

unfoldable pub starts_with : Text → Text → Bool
starts_with [] s = true
starts_with (c ∷ w) [] = false
starts_with (c ∷ w) (d ∷ s) = c == d && starts_with w s

unfoldable pub holds : Text → Text → Bool
unfolding starts_with
holds w [] = starts_with w []
holds w (c ∷ s) = starts_with w (c ∷ s) || holds w s

-- `/success/i.test(text)`.
unfoldable pub says_success : Text → Bool
unfolding holds lower
says_success text = holds (codes "success") (map lower text)

abbrev pub given : Text → Bool
given s = not (length s == 0)

-- Which image came back up; `before` is what ran before the upload.
unfoldable pub verdict : Text → Status → Status → Phase
verdict info_app before s =
    if given s.app && given info_app
    then (if bytes_eq s.app info_app then done else same)
    else if given s.app && given before.app
    then (if bytes_eq s.app before.app then same else done)
    else (if not (s.build == 0) && s.build == before.build then same else done)

-- What the device answers to `install`.
pub record Answers : Type 0 where
  pub status : Option Status
  pub auth : Reply Bool
  pub uploaded : Reply (ℕ × Text)
  pub accepted_at : ℕ
  pub polls : List Poll

-- The wait after the upload.
unfoldable pub after_upload : Text → Status → Answers → Phase × Msg
unfolding verdict
after_upload info_app before a = elim (wait_for_reboot a.accepted_at reboot_timeout_ms a.polls) [
  | none ↦ (failed, fw_no_return)
  | some s ↦ (verdict info_app before s, no_msg)
]

-- What is made of the answer to the upload.
unfoldable pub upload_answer : Text → Status → Answers → Reply (ℕ × Text) → Phase × Msg
upload_answer info_app before a (thrown e) = (failed, sentence e)
upload_answer info_app before a (replied r) =
    if r.0 == 401
    then (picked, fw_auth)
    else if not (r.0 == 200) || not (says_success r.1)
    then (failed, fw_rejected)
    else after_upload info_app before a

abbrev pub uploading : Text → Status → Answers → Phase × Msg
uploading info_app before a = upload_answer info_app before a a.uploaded

-- The check of the password, and what follows.
unfoldable pub authorized : Text → Status → Answers → Reply Bool → Phase × Msg
authorized info_app before a (thrown e) = (failed, sentence e)
authorized info_app before a (replied ok) =
    if ok then uploading info_app before a else (picked, fw_auth)

abbrev pub last_known : Status → Option Status → Status
last_known known (some s) = s
last_known known none = known

-- `install`: `known` is what the page last knew of the running image, `pw` the password, which is empty
-- when the device asks for none.
unfoldable pub install : Text → Status → Text → Answers → Phase × Msg
install info_app known pw a =
    let before = last_known known a.status in
    if given pw then authorized info_app before a a.auth else uploading info_app before a

-- `restart`, begun at `t0`.
unfoldable pub restart : ℕ → Reply (Unit {0}) → List Poll → Phase × Msg
restart t0 request polls = elim (wait_for_reboot t0 restart_timeout_ms polls) [
  | some s ↦ (returned, no_msg)
  | none ↦ (lost, elim request [ thrown e ↦ sentence e | replied u ↦ no_msg ])
]
