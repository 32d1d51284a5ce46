-- ===== src/Mock/Update/Tests.antt =====
-- Runs of the simulated update, and its theorems at them.
use esphome_gplug.Base.{◌≡◌, refl, true, false, List, [], ◌∷◌, ◌++◌, replicate, arith}
use esphome_gplug.Text.Utf8.{codes, bytes_eq}
use esphome_gplug.Mock.Update.{
  unchecked, available, installing, no_error, Env, Device, Event, post_check, check_timer,
  post_update, handle, run, upd_check, check_fires, with_latest, set_offer, newer, post_install,
  upd_install,
}
use esphome_gplug.Mock.Update.Timers.{IsSteady, run-IsSteady}
use esphome_gplug.Mock.Update.Finish.{ticks, Restarted, ticks-Restarted}

abbrev env : Env
env = record { offline = false; mock_update = codes "0.7.0"; update_fail = false; app_of = λ s. s }

abbrev pub device : Device
device = record {
  state = unchecked;
  latest = [];
  release_url = [];
  progress = 0;
  checked_at = 0;
  error = no_error;
  fw = codes "0.6.0";
  app = codes "0f";
  build = 1;
  t0 = 0;
  reboot_until = 0;
  checks = 0;
  downloads = 0;
}

device-IsSteady : IsSteady device
device-IsSteady = record {
  checks_are = refl;
  downloads_are = refl;
  progress_ok = omega arith;
  offer_ok = λ h. absurd (ground arith);
}

abbrev events : List Event
events = post_check 20000 ∷ check_timer 22500 ∷ post_update true ∷ []

offered : (run env device (post_check 20000 ∷ check_timer 22500 ∷ [])).state ≡ available
unfolding run handle upd_check check_fires with_latest set_offer newer bytes_eq
offered = refl

started : (run env device events).downloads ≡ 1
unfolding run handle upd_check check_fires with_latest set_offer newer bytes_eq post_install
    upd_install
started = refl

run-IsSteady_example : IsSteady (run env device events)
run-IsSteady_example = run-IsSteady env device events device-IsSteady

abbrev downloading : Device
downloading = record device { state = installing; latest = codes "0.7.0"; downloads = 1 }

ticks-Restarted_example :
    Restarted env refl downloading 39000
      (run env downloading (ticks (replicate 19 30000 ++ 39000 ∷ 39500 ∷ [])))
ticks-Restarted_example =
    ticks-Restarted env refl downloading (replicate 19 30000) 39000 (39500 ∷ []) refl (omega arith)
      (omega arith)
