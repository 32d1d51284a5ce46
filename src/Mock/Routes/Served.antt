-- ===== src/Mock/Routes/Served.antt =====
-- The client's calls at the simulated device: which part answers each, and what an install needs.
use esphome_gplug.Base.{
  ℕ, All, All-append, ◌≡◌, refl, ap, Bool, true, false, ◌&&◌, some, [], ◌∷◌, ◌++◌, ◌==◌, arith,
  if◌then◌else◌,
}
use mathlib.Core.Path.{◌∙◌}
use esphome_gplug.Text.Utf8.{Text, codes, bytes_eq}
use esphome_gplug.Text.Decimal.{digits}
use esphome_gplug.Text.Decimal.Value.{
  IsDigit, is_digit, digits-Digit, Stops, read_number, read_number-digits,
}
use esphome_gplug.Firmware.Install.{starts_with}
use esphome_gplug.Service.{
  get, request, options, frame_path, credentials, status, presets, wifi_scan, mqtt_config, live,
  ring, frames, log, heap, reboot, update_info, update_check, set_wifi, set_hardware, set_meter,
  set_mqtt, check_key, update_install, frame_raw, frame_plain, firmware, firmware_auth,
  upload_request, auth_request,
}
use esphome_gplug.Service.{Call}
use esphome_gplug.Mock.Routes.{
  Target, upload, offline, history, frame, route, dispatch, dispatch_path, split_query, is_get,
  or_table, match_frame, frame_number, frame_kind, strip, in_table, method_name,
}

-- What is meant to answer a call.
abbrev pub served : Call → Target
served status = route (codes "GET /api/status")
served presets = route (codes "GET /api/presets")
served wifi_scan = route (codes "GET /api/wifi/scan")
served (set_wifi cfg) = route (codes "POST /api/config/wifi")
served (set_hardware cfg) = route (codes "POST /api/config/hardware")
served (set_meter cfg) = route (codes "POST /api/config/meter")
served (check_key key) = route (codes "POST /api/key/check")
served mqtt_config = route (codes "GET /api/config/mqtt")
served (set_mqtt cfg) = route (codes "POST /api/config/mqtt")
served live = route (codes "GET /api/live")
served ring = route (codes "GET /api/ring")
served (Call.history range) = history (codes "?range=" ++ range)
served frames = route (codes "GET /api/frames")
served log = route (codes "GET /api/log")
served heap = route (codes "GET /api/heap")
served (frame_raw i) = frame i (codes "raw")
served (frame_plain i) = frame i (codes "plain")
served reboot = route (codes "POST /api/reboot")
served update_info = route (codes "GET /api/update")
served update_check = route (codes "POST /api/update/check")
served (update_install password) = route (codes "POST /api/update/install")
served (firmware password) = upload
served (firmware_auth password) = upload

-- Whether a call needs the part of the device that is away while it restarts.
abbrev pub needs_api : Call → Bool
needs_api (firmware password) = false
needs_api (firmware_auth password) = false
needs_api _ = true

-- A character that does not begin a query.
abbrev NoQuery : ℕ → Type 0
NoQuery c = (c == 63) ≡ false

digits-NoQuery : (s : Text) → All IsDigit s → All NoQuery s
unfolding is_digit
digits-NoQuery [] h = tt
digits-NoQuery (c ∷ s) (here, there) = (ground arith, digits-NoQuery s there)

split_query-none : (s : Text) → All NoQuery s → split_query s ≡ (s, [])
unfolding split_query
split_query-none [] h = refl
split_query-none (c ∷ s) (here, there) = rw (here, split_query-none s there) refl

-- The path of a frame has no query.
frame_tail :
    (i : ℕ) (kind : Text) → All NoQuery kind → (split_query (digits i ++ kind)).0 ≡ digits i ++ kind
frame_tail i kind h =
    ap (λ (x : Text × Text). x.0)
      (split_query-none (digits i ++ kind)
        (All-append NoQuery (digits i) kind (digits-NoQuery (digits i) (digits-Digit i)) h))

frame_found :
    (i : ℕ) (kind : Text)
    → All NoQuery kind
    → Stops kind
    → read_number false 0 ((split_query (digits i ++ kind)).0) ≡ some (i, kind)
frame_found i kind h stop =
    ap (read_number false 0) (frame_tail i kind h) ∙ read_number-digits i kind stop

dispatched_up : (c : Call) → dispatch false (request c).method (request c).path ≡ served c
unfolding dispatch dispatch_path split_query is_get or_table match_frame frame_number frame_kind
    strip in_table method_name request options frame_path credentials upload_request auth_request
    starts_with bytes_eq is_digit
dispatched_up status = refl
dispatched_up presets = refl
dispatched_up wifi_scan = refl
dispatched_up (set_wifi cfg) = refl
dispatched_up (set_hardware cfg) = refl
dispatched_up (set_meter cfg) = refl
dispatched_up (check_key key) = refl
dispatched_up mqtt_config = refl
dispatched_up (set_mqtt cfg) = refl
dispatched_up live = refl
dispatched_up ring = refl
dispatched_up (Call.history range) = refl
dispatched_up frames = refl
dispatched_up log = refl
dispatched_up heap = refl
dispatched_up (frame_raw i) =
    ap
      (λ o.
        or_table get (codes "/api/frames/" ++ (split_query (digits i ++ codes "/raw")).0)
          (frame_kind o))
      (frame_found i (codes "/raw") (refl, (refl, (refl, (refl, tt)))) refl)
dispatched_up (frame_plain i) =
    ap
      (λ o.
        or_table get (codes "/api/frames/" ++ (split_query (digits i ++ codes "/plain")).0)
          (frame_kind o))
      (frame_found i (codes "/plain") (refl, (refl, (refl, (refl, (refl, (refl, tt)))))) refl)
dispatched_up reboot = refl
dispatched_up update_info = refl
dispatched_up update_check = refl
dispatched_up (update_install password) = refl
dispatched_up (firmware password) = refl
dispatched_up (firmware_auth password) = refl

dispatched_down :
    (c : Call)
    → dispatch true (request c).method (request c).path
      ≡ (if needs_api c then offline else served c)
unfolding dispatch dispatch_path split_query is_get or_table match_frame frame_number frame_kind
    strip in_table method_name request options frame_path credentials upload_request auth_request
    starts_with bytes_eq is_digit
dispatched_down status = refl
dispatched_down presets = refl
dispatched_down wifi_scan = refl
dispatched_down (set_wifi cfg) = refl
dispatched_down (set_hardware cfg) = refl
dispatched_down (set_meter cfg) = refl
dispatched_down (check_key key) = refl
dispatched_down mqtt_config = refl
dispatched_down (set_mqtt cfg) = refl
dispatched_down live = refl
dispatched_down ring = refl
dispatched_down (Call.history range) = refl
dispatched_down frames = refl
dispatched_down log = refl
dispatched_down heap = refl
dispatched_down (frame_raw i) = refl
dispatched_down (frame_plain i) = refl
dispatched_down reboot = refl
dispatched_down update_info = refl
dispatched_down update_check = refl
dispatched_down (update_install password) = refl
dispatched_down (firmware password) = refl
dispatched_down (firmware_auth password) = refl

-- Every call of the page's client is answered by the part of the simulated device that is meant for it,
-- a call for a frame with the number and the form that were asked for; while the device restarts, the
-- upload of an image and the check of its password are answered as ever, and all other calls by none.
pub request-served :
    (down : Bool) (c : Call)
    → dispatch down (request c).method (request c).path
      ≡ (if down && needs_api c then offline else served c)
request-served true c = dispatched_down c
request-served false c = dispatched_up c
