-- ===== src/Mock/Update.antt =====
-- The release check and install of the simulated device, spa/mock/server.mjs: `upd`, `updNewer`,
-- `updCheck`, `updInstall` and the routes of /api/update. Its timers are the calls that are still to
-- come; the hash of an image is a parameter.
pub mod Timers
pub mod Finish
pub mod Tests
use esphome_gplug.Base.{
  ℕ, ◌+◌, ◌-◌, ◌/◌, min, Bool, true, false, not, ◌&&◌, ◌||◌, Option, none, some, List, [], ◌∷◌,
  ◌++◌, ltb, leb, ◌==◌, if◌then◌else◌, length,
}
use esphome_gplug.Text.Utf8.{Text, codes, bytes_eq}

pub data UpdState : Type 0 where
  unchecked checking available up_to_date error installing : UpdState

pub data Error : Type 0 where
  no_error in_check in_install : Error

-- What the environment of the process sets: `MOCK_UPDATE`, `UPDATE_FAIL`, and the hash.
pub record Env : Type 0 where
  pub offline : Bool
  pub mock_update : Text
  pub update_fail : Bool
  pub app_of : Text → Text

-- `upd`, the part of `state` that an update changes, and how many calls of the two timers are to come.
pub record Device : Type 0 where
  pub state : UpdState
  pub latest : Text
  pub release_url : Text
  pub progress : ℕ
  pub checked_at : ℕ
  pub error : Error
  pub fw : Text
  pub app : Text
  pub build : ℕ
  pub t0 : ℕ
  pub reboot_until : ℕ
  pub checks : ℕ
  pub downloads : ℕ

abbrev pub is_set : Text → Bool
is_set s = not (length s == 0)

-- `updNewer`.
unfoldable pub newer : Device → Bool
newer d = is_set d.latest && not (bytes_eq d.latest d.fw)

-- `busy` in `updCheck`.
abbrev pub busy : UpdState → Bool
busy checking = true
busy installing = true
busy _ = false

-- `updCheck` at the time `now`.
unfoldable pub upd_check : ℕ → Device → Device
upd_check now d =
    if busy d.state || ltb (now - d.checked_at) 10000
    then d
    else record d { state = checking; error = no_error; checks = d.checks + 1 }

-- What the check finds.
abbrev pub found : Env → Device → Text
found env d = if is_set env.mock_update then env.mock_update else d.fw

unfoldable pub with_latest : Text → Device → Device
with_latest s d = record d {
  latest = s;
  release_url = codes "https://github.com/jluthiger/esphome-gplug/releases/tag/v" ++ s;
}

unfoldable pub set_offer : Device → Device
unfolding newer
set_offer d = record d { state = if newer d then available else up_to_date }

-- The timer of `updCheck`.
unfoldable pub check_fires : Env → ℕ → Device → Device
unfolding with_latest set_offer
check_fires env now d =
    let e = record d { checked_at = now; checks = d.checks - 1 } in
    if env.offline
    then record e { state = error; error = in_check }
    else set_offer (with_latest (found env e) e)

-- `updInstall`.
unfoldable pub upd_install : Device → Device
upd_install d = record d { state = installing; progress = 0; downloads = d.downloads + 1 }

-- The end of the download: the device restarts with the new version.
unfoldable pub finish : Env → ℕ → Device → Device
finish env now d = record d {
  state = unchecked;
  latest = [];
  release_url = [];
  progress = 0;
  checked_at = 0;
  fw = d.latest;
  app = env.app_of d.latest;
  build = now / 1000;
  t0 = now + 6000;
  reboot_until = now + 6000;
  downloads = d.downloads - 1;
}

-- One call of the timer of `updInstall`.
unfoldable pub download_ticks : Env → ℕ → Device → Device
unfolding finish
download_ticks env now d =
    let p = min 100 (d.progress + 5) in
    if env.update_fail && leb 50 p
    then record d { state = error; error = in_install; progress = 0; downloads = d.downloads - 1 }
    else if ltb p 100
    then record d { progress = p }
    else finish env now (record d { progress = p })

pub data Answer : Type 0 where
  ok bad_auth no_update : Answer

abbrev pub is_available : UpdState → Bool
is_available available = true
is_available _ = false

-- "POST /api/update/install"; the flag says whether the password is right or none is asked for.
unfoldable pub post_install : Bool → Device → Device × Answer
unfolding newer upd_install
post_install allowed d =
    if not allowed
    then (d, bad_auth)
    else if not (is_available d.state) || not (newer d)
    then (d, no_update)
    else (upd_install d, ok)

-- What happens to the device, with the time where it is read.
pub data Event : Type 0 where
  post_check check_timer download_timer : ℕ → Event
  post_update : Bool → Event

-- A timer runs only while a call of it is to come.
unfoldable pub handle : Env → Device → Event → Device
unfolding upd_check check_fires download_ticks post_install
handle env d (post_check now) = upd_check now d
handle env d (check_timer now) = if d.checks == 0 then d else check_fires env now d
handle env d (download_timer now) = if d.downloads == 0 then d else download_ticks env now d
handle env d (post_update allowed) = (post_install allowed d).0

unfoldable pub run : Env → Device → List Event → Device
unfolding handle
run env d [] = d
run env d (e ∷ es) = run env (handle env d e) es
