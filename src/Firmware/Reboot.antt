-- ===== src/Firmware/Reboot.antt =====
-- `waitForReboot` of spa/src/live/firmware-card.js.
use esphome_gplug.Base.{
  ℕ, ◌+◌, ◌-◌, ◌≤◌, ◌≡◌, refl, inl, inr, Bool, true, false, Option, none, some, List, [], ◌∷◌, ltb,
  ◌++◌, if◌then◌else◌, Bool-cases, Option-cases, All, arith, suc, ◌<◌, ap, ◌∙◌, get_elem?,
}
use mathlib.Core.Path.{subst}
use esphome_gplug.Text.Utf8.{Text}

abbrev pub reboot_timeout_ms : ℕ
reboot_timeout_ms = 120000

abbrev pub restart_timeout_ms : ℕ
restart_timeout_ms = 60000

abbrev pub rel_timeout_ms : ℕ
rel_timeout_ms = 300000

-- What the card reads of /api/status, the uptime in ms; `build` is 0 and a text empty where the device sends none.
pub record Status : Type 0 where
  pub uptime_ms : ℕ
  pub build : ℕ
  pub fw : Text
  pub app : Text

-- One round of the loop: the time of its test, the time of the answer, and the answer if one came.
pub record Poll : Type 0 where
  pub tested : ℕ
  pub answered : ℕ
  pub status : Option Status

-- Whether an answer is of a device that has started after `t0`, with 5 s of tolerance.
unfoldable pub is_fresh : ℕ → ℕ → Status → Bool
is_fresh t0 now s = ltb (s.uptime_ms) (now - t0 + 5000)

-- `waitForReboot`; `none` on timeout, and the rounds that come after it are not used.
unfoldable pub wait_for_reboot : ℕ → ℕ → List Poll → Option Status
unfolding is_fresh
wait_for_reboot t0 timeout [] = none
wait_for_reboot t0 timeout (p ∷ rest) =
    let later = wait_for_reboot t0 timeout rest in
    if ltb (p.tested - t0) timeout
    then elim p.status [
      | none ↦ later
      | some s ↦ if is_fresh t0 p.answered s then some s else later
    ]
    else none

-- The answer of a round, if there is one, is of a device that started at the time `boot`.
abbrev pub BootedAt : ℕ → ℕ → Poll → Type 0
BootedAt t0 boot p =
    (s : Status) → p.status ≡ some s → (t0 ≤ p.answered) × (p.answered ≡ boot + s.uptime_ms)

-- While the device that answers is the one that started 5 s or more before the request, no answer is
-- taken for that of a new start.
pub wait_for_reboot_old :
    (t0 timeout boot : ℕ) (polls : List Poll)
    → boot + 5000 ≤ t0
    → All (BootedAt t0 boot) polls
    → wait_for_reboot t0 timeout polls ≡ none
unfolding wait_for_reboot
wait_for_reboot_old t0 timeout boot [] old same = refl
wait_for_reboot_old t0 timeout boot (p ∷ rest) old (here, there) =
    elim (Bool-cases (ltb (p.tested - t0) timeout)) [
      | inr late ↦ rw late refl
      | inl early ↦
          let later = wait_for_reboot_old t0 timeout boot rest old there in
          elim (Option-cases p.status) [
            | inl silent ↦ rw (early, silent) later
            | inr (s, e) ↦ rw (early, e, not_fresh s (here s e)) later
          ]
    ]
  where
    not_fresh :
        (s : Status)
        → (t0 ≤ p.answered) × (p.answered ≡ boot + s.uptime_ms)
        → is_fresh t0 p.answered s ≡ false
    not_fresh s h = unfold is_fresh in ground (arith, h.1)

-- A round before the time is up.
abbrev pub InTime : ℕ → ℕ → Poll → Type 0
InTime t0 timeout p = ltb (p.tested - t0) timeout ≡ true

-- When rounds before the time is up are followed by one in time that is answered by a device that
-- started at the request or later, the wait ends with an answer.
pub wait_for_reboot_new :
    (t0 timeout : ℕ) (before : List Poll) (p : Poll) (after : List Poll) (s : Status)
    → All (InTime t0 timeout) before
    → InTime t0 timeout p
    → p.status ≡ some s
    → s.uptime_ms ≤ p.answered - t0
    → (s' : Status) × (wait_for_reboot t0 timeout (before ++ p ∷ after) ≡ some s')
unfolding wait_for_reboot is_fresh
wait_for_reboot_new t0 timeout [] p after s early now e young = (s, rw (now, e, fresh) refl)
  where
    fresh : ltb s.uptime_ms (p.answered - t0 + 5000) ≡ true
    fresh = ground arith
wait_for_reboot_new t0 timeout (q ∷ before) p after s (first, early) now e young =
    let (s', later) = wait_for_reboot_new t0 timeout before p after s early now e young in
    elim (Option-cases q.status) [
      | inl silent ↦ (s', rw (first, silent) later)
      | inr (r, f) ↦ elim (Bool-cases (ltb r.uptime_ms (q.answered - t0 + 5000))) [
        | inl fresh ↦ (r, rw (first, f, fresh) refl)
        | inr old ↦ (s', rw (first, f, old) later)
      ]
    ]

-- One of the rounds was answered with `s`, in time, by a device that started at most 5 s before the
-- request.
pub record IsHeard (t0 timeout : ℕ) (polls : List Poll) (s : Status) : Type 0 where
  pub place : ℕ
  pub poll : Poll
  pub there : get_elem? polls place ≡ some poll
  pub in_time : poll.tested < t0 + timeout
  pub answered : poll.status ≡ some s
  pub young : s.uptime_ms + t0 < poll.answered + 5000

some_inj : {A : Type 0} {x y : A} → some x ≡ some y → x ≡ y
some_inj h = cc

later-IsHeard :
    (t0 timeout : ℕ) (p : Poll) (polls : List Poll) (s : Status)
    → IsHeard t0 timeout polls s
    → IsHeard t0 timeout (p ∷ polls) s
later-IsHeard t0 timeout p polls s h = record {
  place = suc h.place;
  poll = h.poll;
  there = h.there;
  in_time = h.in_time;
  answered = h.answered;
  young = h.young;
}

-- The answer that ends the wait is one of those of the rounds, and fresh. The clock does not run
-- backwards: answers come after the request.
pub wait_for_reboot-IsHeard :
    (t0 timeout : ℕ) (polls : List Poll) (s : Status)
    → All (λ (p : Poll). t0 ≤ p.answered) polls
    → 0 < timeout
    → wait_for_reboot t0 timeout polls ≡ some s
    → IsHeard t0 timeout polls s
unfolding wait_for_reboot is_fresh
wait_for_reboot-IsHeard t0 timeout [] s after pos h = absurd (ground arith)
wait_for_reboot-IsHeard t0 timeout (p ∷ rest) s (here, there) pos h =
    elim (Bool-cases (ltb (p.tested - t0) timeout)) [
      | inr late ↦ absurd (ground (arith, rw late at h))
      | inl early ↦ elim (Option-cases p.status) [
        | inl silent ↦
            later-IsHeard t0 timeout p rest s
              (wait_for_reboot-IsHeard t0 timeout rest s there pos (rw (early, silent) at h))
        | inr (r, e) ↦ elim (Bool-cases (ltb r.uptime_ms (p.answered - t0 + 5000))) [
          | inr old ↦
              later-IsHeard t0 timeout p rest s
                (wait_for_reboot-IsHeard t0 timeout rest s there pos (rw (early, e, old) at h))
          | inl fresh ↦
              let same : r ≡ s = some_inj (rw (early, e, fresh) at h) in
              record {
                place = 0;
                poll = p;
                there = refl;
                in_time = ground arith;
                answered = e ∙ ap some same;
                young =
                    subst (λ (x : Status). x.uptime_ms + t0 < p.answered + 5000) same
                      (ground arith);
              }
        ]
      ]
    ]
