-- ===== src/Live/Stream/Moved.antt =====
-- When the effect on `frames` notices that frames have come, where the ages are whole seconds, read on
-- the device up to a second before the page sees them.
use esphome_gplug.Base.{ℕ, ◌+◌, ◌-◌, ◌*◌, ◌/◌, ◌≤◌, ◌<◌, ◌≡◌, true, false, some, arith}
use esphome_gplug.Live.Stream.{Frame, Head, unmoved, moved}

-- That `age` is that of a frame that arrived at `arrived`, as seen at the time `now`.
pub record IsAge (arrived now age : ℕ) : Type 0 where
  pub read : ℕ
  pub arrived_before : arrived ≤ read
  pub seen_after : read ≤ now
  pub in_time : now ≤ read + 1000
  pub whole_seconds : age ≡ (read - arrived) / 1000

later_is_younger :
    (a b t now x y : ℕ)
    → IsAge a t x
    → IsAge b now y
    → t ≤ now
    → a + 4000 ≤ b
    → (y + 2) * 1000 < x * 1000 + (now - t)
later_is_younger a b t now x y p q h k = omega arith

same_is_as_old :
    (a t now x y : ℕ)
    → IsAge a t x
    → IsAge a now y
    → t ≤ now
    → x * 1000 + (now - t) ≤ (y + 2) * 1000
same_is_as_old a t now x y p q h = omega arith

-- Frames that come 4 s or more after the newest one of the last poll are noticed.
pub moved-later :
    (a b : ℕ) (prev : Head) (f : Frame) (count now : ℕ)
    → IsAge a prev.t prev.age
    → IsAge b now f.age
    → prev.t ≤ now
    → a + 4000 ≤ b
    → moved (some prev) (some f) count now ≡ true
unfolding moved unmoved
moved-later a b prev f count now p q h k =
    ground (arith, later_is_younger a b prev.t now prev.age f.age p q h k)

-- While no frame comes, nothing is dropped.
pub moved-same :
    (a : ℕ) (prev : Head) (f : Frame) (now : ℕ)
    → IsAge a prev.t prev.age
    → IsAge a now f.age
    → prev.t ≤ now
    → moved (some prev) (some f) prev.count now ≡ false
unfolding moved unmoved
moved-same a prev f now p q h = ground (arith, same_is_as_old a prev.t now prev.age f.age p q h)
