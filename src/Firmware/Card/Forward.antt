-- ===== src/Firmware/Card/Forward.antt =====
-- The buttons of the firmware card in each of its phases.
use esphome_gplug.Base.{
  ℕ, ◌-◌, ◌≡◌, ◌⊎◌, refl, ap, inl, inr, Bool, true, false, not, Option, none, some, List, [], ◌∷◌,
  ltb, if◌then◌else◌,
}
use esphome_gplug.Firmware.Install.{
  Phase, idle, picked, upload, download, reboot, done, same, failed, rconfirm, confirm, restarting,
  returned, lost, busy,
}
use esphome_gplug.Firmware.Card.{
  Rel, RelState, checking, View, Button, cancel_release, pick_file, cancel_restart, reset_file,
  reload, reset, button_in, button_on, CheckRound, check_answer, check_round, check_loop, check,
  failed_check, rel_check_ms,
}

abbrev pub Forward : Phase → View → Type 0
Forward p v =
    ((busy p ≡ true) × ((b : Button) → button_in p v b ≡ false))
    ⊎ ((busy p ≡ false) × (b : Button) × (button_in p v b ≡ true))

phase-Forward : (p : Phase) (v : View) → Forward p v
unfolding button_in busy
phase-Forward idle v = inr (refl, pick_file, refl)
phase-Forward picked v = inr (refl, reset_file, refl)
phase-Forward upload v = inl (refl, (λ b. refl))
phase-Forward download v = inl (refl, (λ b. refl))
phase-Forward reboot v = inl (refl, (λ b. refl))
phase-Forward restarting v = inl (refl, (λ b. refl))
phase-Forward done v = inr (refl, reload, refl)
phase-Forward same v = inr (refl, reload, refl)
phase-Forward failed v = inr (refl, reset, refl)
phase-Forward rconfirm v = inr (refl, cancel_release, refl)
phase-Forward confirm v = inr (refl, cancel_restart, refl)
phase-Forward returned v = inr (refl, reload, refl)
phase-Forward lost v = inr (refl, reset, refl)

-- While the card is busy no button can be pressed, and in every other phase some button can, whatever
-- is known of the release, the file and the password.
pub button_on_forward :
    (v : View)
    → ((busy v.phase ≡ true) × ((b : Button) → button_on v b ≡ false))
      ⊎ ((busy v.phase ≡ false) × (b : Button) × (button_on v b ≡ true))
unfolding button_on
button_on_forward v = phase-Forward v.phase v

abbrev pub is_checking : RelState → Bool
is_checking checking = true
is_checking _ = false

-- The check for a release, unless the card is gone, ends in a state other than "checking".
abbrev pub Settled : Option Rel → Type 0
Settled none = Unit
Settled (some r) = is_checking r.state ≡ false

check_answer-Settled :
    (s : RelState) (u : Rel) (again : Option Rel)
    → u.state ≡ s
    → Settled again
    → Settled (check_answer s u again)
unfolding check_answer
check_answer-Settled checking u again e h = h
check_answer-Settled _ u again e h = ap is_checking e

if-Settled : (b : Bool) (x y : Option Rel) → Settled x → Settled y → Settled (if b then x else y)
if-Settled true x y h k = h
if-Settled false x y h k = k

check_round-Settled :
    (c : CheckRound) (r : Rel) (a : Option Rel) (silent : Option Rel) (again : Rel → Option Rel)
    → Settled silent
    → ((u : Rel) → Settled (again u))
    → Settled (check_round c a silent again)
unfolding check_round
check_round-Settled c r none silent again h k = h
check_round-Settled c r (some u) silent again h k =
    if-Settled (not c.still_alive) none _ tt (check_answer-Settled u.state u (again u) refl (k u))

check_loop-Settled :
    (t0 : ℕ) (r : Rel) (rounds : List CheckRound) → Settled (check_loop t0 r rounds)
unfolding check_loop
check_loop-Settled t0 r [] = refl
check_loop-Settled t0 r (c ∷ rest) = if-Settled (not c.alive) none _ tt (
    if-Settled (not (ltb (c.tested - t0) rel_check_ms)) (some (failed_check r.newer)) _ refl (
      check_round-Settled c r c.answer (check_loop t0 r rest) (λ (u : Rel). check_loop t0 u rest)
        (check_loop-Settled t0 r rest) (λ u. check_loop-Settled t0 u rest)))

-- A check for a release that starts, unless the card is gone by then, ends in a state other than
-- "checking", whatever the device answers and when.
pub check_settles :
    (t0 : ℕ) (accepted : Bool) (r u : Rel) (rounds : List CheckRound)
    → check t0 accepted r rounds ≡ some u
    → is_checking u.state ≡ false
unfolding check
check_settles t0 accepted r u rounds h = settled_some (check t0 accepted r rounds) u h (
    if-Settled accepted _ (some (failed_check r.newer))
      (check_loop-Settled t0 (record r { state = checking }) rounds) refl)
  where
    settled_some : (o : Option Rel) (w : Rel) → o ≡ some w → Settled o → is_checking w.state ≡ false
    settled_some o w e s = rw e at s
