-- ===== src/Mock/Update/Timers.antt =====
-- The timers of the simulated update and its state.
use esphome_gplug.Base.{
  ℕ, ◌+◌, ◌-◌, ◌<◌, ◌≡◌, refl, min, Bool, true, false, not, ◌&&◌, ◌||◌, List, [], ◌∷◌, ltb, leb,
  ◌==◌, if◌then◌else◌, arith, ltb→lt,
}
use esphome_gplug.Mock.Update.{
  UpdState, checking, available, up_to_date, installing, Env, Device, newer, busy, upd_check, found,
  with_latest, set_offer, check_fires, upd_install, finish, download_ticks, post_install,
  is_available, Answer, bad_auth, no_update, Event, post_check, check_timer, download_timer,
  post_update, handle, run,
}

-- How many calls of each timer are to come in a state.
abbrev pub checks_in : UpdState → ℕ
checks_in checking = 1
checks_in _ = 0

abbrev pub downloads_in : UpdState → ℕ
downloads_in installing = 1
downloads_in _ = 0

pub record IsSteady (d : Device) : Type 0 where
  pub checks_are : d.checks ≡ checks_in d.state
  pub downloads_are : d.downloads ≡ downloads_in d.state
  pub progress_ok : d.progress < 100
  pub offer_ok : d.state ≡ available → newer d ≡ true

if-IsSteady :
    (b : Bool) (x y : Device)
    → (b ≡ true → IsSteady x)
    → (b ≡ false → IsSteady y)
    → IsSteady (if b then x else y)
if-IsSteady true x y h k = h refl
if-IsSteady false x y h k = k refl

-- A state that is not busy runs no timer, and a timer tells the state.
idle_timers :
    (s : UpdState) (c n : ℕ)
    → busy s ≡ false
    → c ≡ checks_in s
    → n ≡ downloads_in s
    → (c ≡ 0) × (n ≡ 0)
idle_timers checking c n h e f = absurd (ground arith)
idle_timers installing c n h e f = absurd (ground arith)
idle_timers _ c n h e f = (e, f)

in_checking :
    (s : UpdState) (c n : ℕ)
    → c == 0 ≡ false
    → c ≡ checks_in s
    → n ≡ downloads_in s
    → (c ≡ 1) × (n ≡ 0)
in_checking checking c n h e f = (e, f)
in_checking _ c n h e f = absurd (ground arith)

in_installing :
    (s : UpdState) (c n : ℕ)
    → n == 0 ≡ false
    → c ≡ checks_in s
    → n ≡ downloads_in s
    → (c ≡ 0) × (n ≡ 1)
in_installing installing c n h e f = (e, f)
in_installing _ c n h e f = absurd (ground arith)

or_left : (x y : Bool) → x || y ≡ false → x ≡ false
or_left true y h = h
or_left false y h = refl

upd_check-IsSteady : (now : ℕ) (d : Device) → IsSteady d → IsSteady (upd_check now d)
unfolding upd_check
upd_check-IsSteady now d v =
    if-IsSteady (busy d.state || ltb (now - d.checked_at) 10000) d _ (λ h. v)
      (λ h.
        let off =
          idle_timers d.state d.checks d.downloads (or_left _ _ h) v.checks_are v.downloads_are in
        record {
          checks_are = omega (arith, off.0);
          downloads_are = off.1;
          progress_ok = v.progress_ok;
          offer_ok = λ e. absurd (ground arith);
        })

set_offer-IsSteady :
    (d : Device) → d.checks ≡ 0 → d.downloads ≡ 0 → d.progress < 100 → IsSteady (set_offer d)
unfolding set_offer newer
set_offer-IsSteady d c n p = offered (newer d) refl
  where
    offered :
        (b : Bool)
        → newer d ≡ b
        → IsSteady (record d { state = if b then available else up_to_date })
    offered true e = record {
      checks_are = c;
      downloads_are = n;
      progress_ok = p;
      offer_ok = λ h. e;
    }
    offered false e = record {
      checks_are = c;
      downloads_are = n;
      progress_ok = p;
      offer_ok = λ h. absurd (ground arith);
    }

check_fires-IsSteady :
    (env : Env) (now : ℕ) (d : Device)
    → d.checks == 0 ≡ false
    → IsSteady d
    → IsSteady (check_fires env now d)
unfolding check_fires with_latest
check_fires-IsSteady env now d some_due v =
    let on = in_checking d.state d.checks d.downloads some_due v.checks_are v.downloads_are in
    if-IsSteady env.offline _ _
      (λ h. record {
        checks_are = omega (arith, on.0);
        downloads_are = on.1;
        progress_ok = v.progress_ok;
        offer_ok = λ e. absurd (ground arith);
      })
      (λ h.
        set_offer-IsSteady
          (with_latest (found env (record d { checked_at = now; checks = d.checks - 1 }))
            (record d { checked_at = now; checks = d.checks - 1 }))
          (omega (arith, on.0)) (on.1) v.progress_ok)

download_ticks-IsSteady :
    (env : Env) (now : ℕ) (d : Device)
    → d.downloads == 0 ≡ false
    → IsSteady d
    → IsSteady (download_ticks env now d)
unfolding download_ticks finish newer
download_ticks-IsSteady env now d some_due v =
    let on = in_installing d.state d.checks d.downloads some_due v.checks_are v.downloads_are in
    let p = min 100 (d.progress + 5) in
    if-IsSteady (env.update_fail && leb 50 p) _ _
      (λ h. record {
        checks_are = on.0;
        downloads_are = omega (arith, on.1);
        progress_ok = omega arith;
        offer_ok = λ e. absurd (ground arith);
      })
      (λ h.
        if-IsSteady (ltb p 100) _ _
          (λ k. record {
            checks_are = v.checks_are;
            downloads_are = v.downloads_are;
            progress_ok = ltb→lt p 100 k;
            offer_ok = v.offer_ok;
          })
          (λ k. record {
            checks_are = on.0;
            downloads_are = omega (arith, on.1);
            progress_ok = omega arith;
            offer_ok = λ e. absurd (ground arith);
          }))

pair-IsSteady :
    (b : Bool) (x y : Device × Answer)
    → (b ≡ true → IsSteady x.0)
    → (b ≡ false → IsSteady y.0)
    → IsSteady (if b then x else y).0
pair-IsSteady true x y h k = h refl
pair-IsSteady false x y h k = k refl

busy_available : (s : UpdState) (x : Bool) → (not (is_available s) || x) ≡ false → busy s ≡ false
busy_available available x h = refl
busy_available _ x h = absurd (ground arith)

post_install-IsSteady :
    (allowed : Bool) (d : Device) → IsSteady d → IsSteady (post_install allowed d).0
unfolding post_install upd_install
post_install-IsSteady allowed d v =
    pair-IsSteady (not allowed) (d, bad_auth) _ (λ h. v)
      (λ h.
        pair-IsSteady (not (is_available d.state) || not (newer d)) (d, no_update) _ (λ k. v)
          (λ k.
            let off =
              idle_timers d.state d.checks d.downloads (busy_available d.state (not (newer d)) k)
                v.checks_are v.downloads_are in
            record {
              checks_are = off.0;
              downloads_are = omega (arith, off.1);
              progress_ok = omega arith;
              offer_ok = λ e. absurd (ground arith);
            }))

handle-IsSteady : (env : Env) (d : Device) (e : Event) → IsSteady d → IsSteady (handle env d e)
unfolding handle
handle-IsSteady env d (post_check now) v = upd_check-IsSteady now d v
handle-IsSteady env d (check_timer now) v =
    if-IsSteady (d.checks == 0) d _ (λ h. v) (λ h. check_fires-IsSteady env now d h v)
handle-IsSteady env d (download_timer now) v =
    if-IsSteady (d.downloads == 0) d _ (λ h. v) (λ h. download_ticks-IsSteady env now d h v)
handle-IsSteady env d (post_update allowed) v = post_install-IsSteady allowed d v

-- Whatever is posted and whenever the timers fire, a steady device stays steady: the check's timer runs
-- exactly while the state is "checking" and the download's exactly while it is "installing", one of each
-- at most, the progress stays below 100, and an offer is of another version than the running one.
pub run-IsSteady : (env : Env) (d : Device) (es : List Event) → IsSteady d → IsSteady (run env d es)
unfolding run
run-IsSteady env d [] v = v
run-IsSteady env d (e ∷ es) v = run-IsSteady env (handle env d e) es (handle-IsSteady env d e v)
