-- ===== src/Firmware/Follow/Ends.antt =====
-- How a release install is followed.
use esphome_gplug.Base.{ℕ, ◌+◌, ◌-◌, ◌<◌, ◌≤◌, ◌≡◌, true, none, some, List, [], ◌∷◌, ltb, ◌≢◌}
use esphome_gplug.Text.Utf8.{Text}
use esphome_gplug.Firmware.Reboot.{Status, Poll, rel_timeout_ms}
use esphome_gplug.Firmware.Install.{Phase, done, same}
use esphome_gplug.Firmware.Install.Ends.{IfKnown, Agrees}
use esphome_gplug.Firmware.Follow.{State, installing, Round}

-- A round that begins in time, with the card still there.
abbrev pub Begins : ℕ → Round → Type 0
Begins t0 r = (r.alive ≡ true) × (ltb (r.tested - t0) rel_timeout_ms ≡ true)

-- A round that the device answers with the state `x`.
abbrev pub Hears : ℕ → State → Round → Type 0
Hears t0 x r = Begins t0 r × (r.state ≡ some x) × (r.still_alive ≡ true)

-- Rounds after `missed` ones without an answer, in each of which the device either says that it is
-- installing or does not answer, but never three times in a row.
pub data IsWaiting (t0 : ℕ) : ℕ → List Round → Type 0 where
  begun : {missed : ℕ} → IsWaiting t0 missed []
  installs :
      {missed : ℕ} {r : Round} {rest : List Round}
      → Hears t0 installing r
      → IsWaiting t0 0 rest
      → IsWaiting t0 missed (r ∷ rest)
  silent :
      {missed : ℕ} {r : Round} {rest : List Round}
      → Begins t0 r
      → r.state ≡ none
      → missed < 2
      → IsWaiting t0 (missed + 1) rest
      → IsWaiting t0 missed (r ∷ rest)

-- A round of the wait for the restarted device, in time and without an answer.
abbrev pub IsSilent : ℕ → Poll → Type 0
IsSilent t0 p = (ltb (p.tested - t0) rel_timeout_ms ≡ true) × (p.status ≡ none)

-- A round that is answered by a device that has started since.
abbrev pub IsBackWith : ℕ → Status → Poll → Type 0
IsBackWith t0 s p =
    (ltb (p.tested - t0) rel_timeout_ms ≡ true)
    × (p.status ≡ some s)
    × (s.uptime_ms ≤ p.answered - t0)

-- When the version that was asked for, or the one that runs, is not known: whether the image has
-- changed, as far as the identity of the one before is known.
abbrev pub Changed : Phase → Text → Text → Type 0
Changed done [] running = Unit {0}
Changed done (c ∷ before) running = running ≢ (c ∷ before)
Changed same [] running = ⊥
Changed same (c ∷ before) running = running ≡ (c ∷ before)
Changed _ before running = ⊥

abbrev pub IfUnknown : Text → Text → Type 0 → Type 0
IfUnknown [] t P = P
IfUnknown (c ∷ s) [] P = P
IfUnknown (c ∷ s) (d ∷ t) P = Unit {0}

-- What is said of the version that runs.
abbrev pub IsRight : Text → Text → Text → Text → Phase → Type 0
IsRight target before_app fw app phase =
    IfKnown target fw (Agrees phase target fw) × IfUnknown target fw (Changed phase before_app app)
