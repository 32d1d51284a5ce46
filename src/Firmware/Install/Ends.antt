-- ===== src/Firmware/Install/Ends.antt =====
-- How an upload ends.
use esphome_gplug.Base.{
  ◌≡◌, ◌⊎◌, inl, inr, true, false, if◌then◌else◌, Bool-cases, arith, ℕ, ◌≢◌, ◌≤◌, All, [], ◌∷◌,
}
use mathlib.Core.Path.{subst}
use esphome_gplug.Text.Utf8.{Text, bytes_eq}
use esphome_gplug.Firmware.Reboot.{Status, Poll, reboot_timeout_ms, IsHeard}
use esphome_gplug.Text.Equal.{bytes_eq_refl, bytes_eq→eq}
use esphome_gplug.Firmware.Install.{
  Phase, picked, done, same, failed, replied, says_success, given, Answers,
}

-- `P`, when both texts are known.
abbrev pub IfKnown : Text → Text → Type 0 → Type 0
IfKnown [] t P = Unit {0}
IfKnown (c ∷ s) [] P = Unit {0}
IfKnown (c ∷ s) (d ∷ t) P = P

-- Whether the image of the file runs.
abbrev pub Agrees : Phase → Text → Text → Type 0
Agrees done file running = running ≡ file
Agrees same file running = running ≢ file
Agrees _ file running = Unit {0}

-- What the card has learned when it says that the update is done or that the image is the old one.
pub record IsBack (info_app : Text) (a : Answers) (phase : Phase) : Type 0 where
  pub status : Status
  pub heard : IsHeard a.accepted_at reboot_timeout_ms a.polls status
  pub reply : ℕ × Text
  pub uploaded : a.uploaded ≡ replied reply
  pub code_ok : reply.0 ≡ 200
  pub text_ok : says_success (reply.1) ≡ true
  pub exact : IfKnown info_app status.app (Agrees phase info_app status.app)

abbrev pub EndsWell : Text → Answers → Phase → Type 0
EndsWell info_app a done = IsBack info_app a done
EndsWell info_app a same = IsBack info_app a same
EndsWell info_app a picked = Unit
EndsWell info_app a failed = Unit
EndsWell info_app a _ = ⊥

pub other_text : (s t : Text) → bytes_eq t s ≡ false → t ≢ s
other_text s t h e =
    absurd (ground (arith, bytes_eq_refl s, subst (λ (x : Text). bytes_eq x s ≡ false) e h))

pub exact_branch :
    (file running : Text) → Agrees (if bytes_eq running file then done else same) file running
exact_branch file running = elim (Bool-cases (bytes_eq running file)) [
  | inl e ↦ rw e (bytes_eq→eq running file e)
  | inr e ↦ rw e (other_text file running e)
]

pub given-cons : (c : ℕ) (s : Text) → given (c ∷ s) ≡ true
given-cons c s = ground arith

IsVerdict : Phase → Type 0
IsVerdict p = (p ≡ done) ⊎ (p ≡ same)

-- The device answers after it has accepted the file.
abbrev pub IsAfter : Answers → Type 0
IsAfter a = All (λ (p : Poll). a.accepted_at ≤ p.answered) a.polls
