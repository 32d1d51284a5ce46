-- ===== src/Mock/Update/Finish.antt =====
-- A simulated download to its end.
use esphome_gplug.Base.{
  ℕ, ◌+◌, ◌*◌, ◌≤◌, ◌<◌, ◌≡◌, refl, ap, ◌∙◌, ◌++◌, ◌/◌, min, Bool, true, false, ◌&&◌, List, [], ◌∷◌,
  ltb, leb, ◌==◌, if◌then◌else◌, arith, length,
}
use mathlib.Core.Path.{subst, sym}
use esphome_gplug.Mock.Update.{
  unchecked, Env, Device, finish, download_ticks, Event, download_timer, handle, run,
}

-- The calls of the timer at the given times.
abbrev pub ticks : List ℕ → List Event
ticks [] = []
ticks (t ∷ ts) = download_timer t ∷ ticks ts

if_true : {A : Type 0} (b : Bool) (x y : A) → b ≡ true → (if b then x else y) ≡ x
if_true true x y h = refl
if_true false x y h = absurd (ground arith)

if_false : {A : Type 0} (b : Bool) (x y : A) → b ≡ false → (if b then x else y) ≡ y
if_false true x y h = absurd (ground arith)
if_false false x y h = refl

abbrev next : Device → ℕ
next d = min 100 (d.progress + 5)

module _ (env : Env) (works : env.update_fail ≡ false) where
  no_failure : (b : Bool) → env.update_fail && b ≡ false
  no_failure b = rw works refl

  tick :
      (d : Device) (t : ℕ)
      → d.downloads ≡ 1
      → handle env d (download_timer t) ≡ download_ticks env t d
  unfolding handle
  tick d t on = if_false (d.downloads == 0) d (download_ticks env t d) (ground arith)

  tick_more :
      (d : Device) (t : ℕ)
      → ltb (next d) 100 ≡ true
      → download_ticks env t d ≡ record d { progress = next d }
  unfolding download_ticks
  tick_more d t h = if_false _ _ _ (no_failure (leb 50 (next d))) ∙ if_true (ltb (next d) 100) _ _ h

  tick_last :
      (d : Device) (t : ℕ)
      → ltb (next d) 100 ≡ false
      → download_ticks env t d ≡ finish env t (record d { progress = next d })
  unfolding download_ticks
  tick_last d t h =
      if_false _ _ _ (no_failure (leb 50 (next d))) ∙ if_false (ltb (next d) 100) _ _ h

  idle_ticks : (d : Device) (ts : List ℕ) → d.downloads ≡ 0 → run env d (ticks ts) ≡ d
  unfolding run handle
  idle_ticks d [] h = refl
  idle_ticks d (t ∷ ts) h =
      ap (λ (e : Device). run env e (ticks ts)) (if_true (d.downloads == 0) d _ (ground arith))
      ∙ idle_ticks d ts h

  -- The device has restarted at the time `t` with the version that `d` was offered: it runs the
  -- version's image, nothing of the update is left, and for 6 s it does not answer.
  pub record Restarted (d : Device) (t : ℕ) (e : Device) : Type 0 where
    pub fw : e.fw ≡ d.latest
    pub app : e.app ≡ env.app_of d.latest
    pub built : e.build ≡ t / 1000
    pub away : e.reboot_until ≡ t + 6000
    pub started : e.t0 ≡ t + 6000
    pub unchecked : e.state ≡ unchecked
    pub no_offer : (e.latest ≡ []) × (e.release_url ≡ [])
    pub never_checked : e.checked_at ≡ 0
    pub no_progress : e.progress ≡ 0
    pub timers : (e.downloads ≡ 0) × (e.checks ≡ d.checks)

  -- When one download runs that does not fail, each call of its timer adds 5 % to a progress below 100,
  -- and `t` is the time of the call that takes it to 100 %, then that call restarts the device with the
  -- version that was offered, its image, and 6 s without an answer; later calls change nothing.
  pub ticks-Restarted :
      (d : Device) (before : List ℕ) (t : ℕ) (after : List ℕ)
      → d.downloads ≡ 1
      → d.progress + 5 * length before < 100
      → 100 ≤ d.progress + 5 * length before + 5
      → Restarted d t (run env d (ticks (before ++ t ∷ after)))
  unfolding run finish
  ticks-Restarted d [] t after on below enough =
      subst (λ (e : Device). Restarted d t (run env e (ticks after)))
        (sym (tick d t on ∙ tick_last d t (ground arith)))
        (subst (Restarted d t)
          (sym (idle_ticks (finish env t (record d { progress = next d })) after (omega arith)))
          (record {
            fw = refl;
            app = refl;
            built = refl;
            away = refl;
            started = refl;
            unchecked = refl;
            no_offer = (refl, refl);
            never_checked = refl;
            no_progress = refl;
            timers = (omega arith, refl);
          }))
  ticks-Restarted d (b ∷ before) t after on below enough =
      subst (λ (e : Device). Restarted d t (run env e (ticks (before ++ t ∷ after))))
        (sym (tick d b on ∙ tick_more d b (ground arith)))
        (again (
          ticks-Restarted (record d { progress = next d }) before t after on (omega arith)
            (omega arith)))
    where
      again : {e : Device} → Restarted (record d { progress = next d }) t e → Restarted d t e
      again r = record {
        fw = r.fw;
        app = r.app;
        built = r.built;
        away = r.away;
        started = r.started;
        unchecked = r.unchecked;
        no_offer = r.no_offer;
        never_checked = r.never_checked;
        no_progress = r.no_progress;
        timers = r.timers;
      }
