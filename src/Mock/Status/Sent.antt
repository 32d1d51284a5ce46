-- ===== src/Mock/Status/Sent.antt =====
-- What the status of the simulated device says over time.
use esphome_gplug.Base.{
  ℕ, ◌+◌, ◌-◌, ◌*◌, ◌≤◌, ◌<◌, ◌≡◌, refl, inl, inr, Bool, true, false, not, none, ltb, if◌then◌else◌,
  Bool-cases, arith, length, filter,
}
use esphome_gplug.Template.Data.{Fields}
use esphome_gplug.Mock.Mqtt.{Config, Mqtt, Body, ok, compile_error, checked, saved, mqtt_post}
use esphome_gplug.Mock.Mqtt.Post.{checked_inv, Result-cases, mqtt_post_ok, mqtt_post_err}
use esphome_gplug.Mock.Status.{
  Broker, connects, answer, running, Status, off, error, sending, mqtt_status,
}

abbrev pub is_error : Status → Bool
is_error (error code) = true
is_error _ = false

-- Time `run` after the connection: `n` messages, every `period` seconds one, and `ago` seconds since
-- the last of them.
abbrev pub Elapsed : ℕ → ℕ → ℕ → ℕ → Type 0
Elapsed run period n ago =
    (ago < period) × (1000 * (n * period + ago) ≤ run) × (run < 1000 * (n * period + ago + 1))

-- How many messages go out at a time: one for each register that is no text, or one.
abbrev pub per_round : Fields → Config → ℕ
per_round f c = if c.each then length (filter not f.string) else 1

answer_no_error :
    (broker : Broker) (f : Fields) (c : Config) (a : ℕ) → is_error (answer broker f c a) ≡ false
unfolding answer sending
answer_no_error connects f c a = refl
answer_no_error _ f c a = refl

running_no_error :
    (broker : Broker) (f : Fields) (now : ℕ) (m : Mqtt) → is_error (running broker f now m) ≡ false
unfolding running
running_no_error broker f now m = elim (Bool-cases (ltb (now - m.since) 2000)) [
  | inl early ↦ rw early refl
  | inr late ↦ rw late (answer_no_error broker f m.cfg (now - m.since - 2000))
]

unless_off_no_error :
    (on : Bool) (x : Status) → is_error x ≡ false → is_error (if not on then off else x) ≡ false
unless_off_no_error true x h = h
unless_off_no_error false x h = refl

compiles_no_error :
    (broker : Broker) (f : Fields) (now : ℕ) (m : Mqtt)
    → compile_error f m.cfg ≡ ok tt
    → is_error (mqtt_status broker f now m) ≡ false
unfolding mqtt_status
compiles_no_error broker f now m fine =
    rw fine (unless_off_no_error m.cfg.enabled _ (running_no_error broker f now m))

-- After an accepted post, and until the register table changes, no status is an error.
pub mqtt_status_no_error :
    (broker : Broker) (f : Fields) (now later : ℕ) (m : Mqtt) (b : Body)
    → (mqtt_post f now m b).1 ≡ none
    → is_error (mqtt_status broker f later (mqtt_post f now m b).0) ≡ false
mqtt_status_no_error broker f now later m b accepted = elim (Result-cases (checked f m b)) [
  | inl (r, e) ↦
      let (g, named, fine) = checked_inv f m b r e in
      rw (mqtt_post_ok f now m b r e) (compiles_no_error broker f later (saved now m r) fine)
  | inr (a, e) ↦ absurd (ground (arith, rw (mqtt_post_err f now m b a e) at accepted))
]
