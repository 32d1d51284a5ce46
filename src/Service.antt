-- ===== src/Service.antt =====
-- The client of the device's web service, spa/src/api.js: the requests, what comes of each, the texts
-- of errors, and the firmware's upload.
pub mod Base64
pub mod Worded
pub mod Auth
pub mod Tests
use esphome_gplug.Base.{
  ℕ, ◌+◌, ◌-◌, Bool, true, false, not, ◌&&◌, Option, none, some, List, [], ◌∷◌, ◌++◌, ltb, leb,
  ◌==◌, if◌then◌else◌, get_or, length,
}
use mathlib.Core.Option
use esphome_gplug.Text.Utf8.{Text, Bytes, codes, bytes_eq}
use esphome_gplug.Text.Decimal.{digits}
use esphome_gplug.Language.{Table, Entry, text, function, string_of}
use esphome_gplug.Mock.Json.{Json, str}
use esphome_gplug.Firmware.Install.{holds}
use esphome_gplug.Service.Base64.{basic_auth}

pub data Method : Type 0 where
  get post : Method

abbrev pub Object : Type 0
Object = List (Text × Json)

-- What `fetch` is called with. `body` is the object that `JSON.stringify` writes, and `timeout` the
-- milliseconds after which the request is aborted.
pub record Request : Type 0 where
  pub method : Method
  pub path : Text
  pub body : Option Object
  pub headers : List (Text × Text)
  pub timeout : ℕ

-- The options that `req` makes of its arguments.
unfoldable pub options : Method → Text → Option Object → ℕ → List (Text × Text) → Request
options m path none ms headers = record {
  method = m;
  path = path;
  body = none;
  headers = headers;
  timeout = ms;
}
options m path (some o) ms headers = record {
  method = m;
  path = path;
  body = some o;
  headers = (codes "content-type", codes "application/json") ∷ headers;
  timeout = ms;
}

-- The calls of `api` that send a request: the last two by `XMLHttpRequest`, the others by `req`.
pub data Call : Type 0 where
  status presets wifi_scan mqtt_config live ring frames log heap reboot update_info update_check :
      Call
  set_wifi set_hardware set_meter set_mqtt : Object → Call
  check_key history update_install : Text → Call
  frame_raw frame_plain : ℕ → Call
  firmware firmware_auth : Text → Call

unfoldable pub frame_path : ℕ → Text → Text
frame_path i kind = codes "/api/frames/" ++ digits i ++ kind

unfoldable pub credentials : Text → List (Text × Text)
credentials [] = []
credentials (c ∷ s) = (codes "Authorization", basic_auth (c ∷ s)) ∷ []

-- The request of `uploadFirmware`, less the form with the file.
unfoldable pub upload_request : Text → Request
unfolding credentials
upload_request password = record {
  method = post;
  path = codes "/update";
  body = none;
  headers = credentials password;
  timeout = 180000;
}

-- The request of `checkFirmwareAuth`. The password goes to `open`, from where the browser repeats the
-- request with it if the device asks.
unfoldable pub auth_request : Request
auth_request = record {
  method = post;
  path = codes "/update";
  body = none;
  headers = [];
  timeout = 8000;
}

-- `api`.
unfoldable pub request : Call → Request
unfolding options frame_path credentials upload_request auth_request
request status = options get (codes "/api/status") none 8000 []
request presets = options get (codes "/api/presets") none 8000 []
request wifi_scan = options get (codes "/api/wifi/scan") none 15000 []
request (set_wifi cfg) = options post (codes "/api/config/wifi") (some cfg) 8000 []
request (set_hardware cfg) = options post (codes "/api/config/hardware") (some cfg) 8000 []
request (set_meter cfg) = options post (codes "/api/config/meter") (some cfg) 8000 []
request (check_key key) =
    options post (codes "/api/key/check") (some ((codes "key", str key) ∷ [])) 8000 []
request mqtt_config = options get (codes "/api/config/mqtt") none 8000 []
request (set_mqtt cfg) = options post (codes "/api/config/mqtt") (some cfg) 8000 []
request live = options get (codes "/api/live") none 4000 []
request ring = options get (codes "/api/ring") none 4000 []
request (history range) = options get (codes "/api/history?range=" ++ range) none 10000 []
request frames = options get (codes "/api/frames") none 4000 []
request log = options get (codes "/api/log") none 4000 []
request heap = options get (codes "/api/heap") none 4000 []
request (frame_raw i) = options get (frame_path i (codes "/raw")) none 4000 []
request (frame_plain i) = options get (frame_path i (codes "/plain")) none 4000 []
request reboot = options post (codes "/api/reboot") none 8000 []
request update_info = options get (codes "/api/update") none 4000 []
request update_check = options post (codes "/api/update/check") none 8000 []
request (update_install password) =
    options post (codes "/api/update/install") none 8000 (credentials password)
request (firmware password) = upload_request password
request (firmware_auth password) = auth_request

-- `historyCsvUrl`, of the window if there is one.
unfoldable pub history_csv_url : Option (ℕ × ℕ) → Text
history_csv_url none = codes "/api/history.csv"
history_csv_url (some (a, b)) =
    codes "/api/history.csv" ++ codes "?from=" ++ digits a ++ codes "&to=" ++ digits b

-- The JSON value of an answer: an object, whose key `error` holds a string where it is there, `null`,
-- or another value.
pub data Payload : Type 0 where
  object : Option Text → Object → Payload
  null_value other_value : Payload

-- An answer: its status, its `content-type`, its body as JSON if it is well-formed, and as a text.
pub record Response : Type 0 where
  pub code : ℕ
  pub content_type : Option Text
  pub json : Option Payload
  pub raw : Text

-- What `fetch` comes to: an `AbortError`, another error, or an answer.
pub data Fetched : Type 0 where
  aborted unreachable : Fetched
  answered : Response → Fetched

-- What `req` comes to. `broken` is the exception of `r.json()` on what is no JSON; an error has a
-- message, if there is one, and the body it was read from.
pub data Result : Type 0 where
  json_body : Payload → Result
  text_body : Text → Result
  broken : Result
  failure : Option Text → Option Payload → Result

unfoldable pub is_ok : ℕ → Bool
is_ok code = leb 200 code && ltb code 300

unfoldable pub is_json : Option Text → Bool
is_json none = false
is_json (some ct) = holds (codes "json") ct

-- `DEVICE_ERRORS`, for the keys that the object has of its own.
abbrev pub device_errors : List (Text × Text)
device_errors =
    (codes "no stored key", codes "errNoStoredKey")
    ∷ (codes "key must be 32 hex chars", codes "keyInvalid")
    ∷ (codes "auth_key must be 32 hex chars", codes "keyInvalid")
    ∷ (codes "history disabled", codes "errHistoryOff")
    ∷ (codes "auth", codes "fwAuth")
    ∷ (codes "no update", codes "fwRelGone")
    ∷ (codes "host", codes "errMqttHost")
    ∷ (codes "port", codes "errMqttPort")
    ∷ (codes "period", codes "errMqttPeriod")
    ∷ (codes "client_id", codes "errMqttLong")
    ∷ (codes "user", codes "errMqttLong")
    ∷ (codes "password", codes "errMqttLong")
    ∷ []

unfoldable pub known_in : List (Text × Text) → Text → Option Text
known_in [] detail = none
known_in ((token, key) ∷ rest) detail =
    let later = known_in rest detail in if bytes_eq detail token then some key else later

unfoldable pub known : Text → Option Text
unfolding known_in
known = known_in device_errors

unfoldable pub as_text : Option Entry → Option Text
as_text (some (text s)) = some s
as_text _ = none

-- What is read of a failed answer: `parsed`, and `detail`.
unfoldable pub parsed : Response → Option Payload
parsed r = if is_json r.content_type then r.json else none

unfoldable pub detail : Option Payload → Text
detail (some (object (some e) o)) = e
detail _ = []

-- The texts are those of a language's table, with the German one behind it.
module _ (german t : Table) where
  -- `S[key]`, where it is a text.
  unfoldable pub says_key : Text → Option Text
  unfolding as_text
  says_key key = as_text (string_of german t key)

  unfoldable pub prefixed : Text → Option Text
  unfolding says_key
  prefixed tail = Option.map (λ (s : Text). s ++ tail) (says_key (codes "errServer"))

  unfoldable pub unknown_message : Text → ℕ → Option Text
  unfolding prefixed
  unknown_message [] code = prefixed (codes " (HTTP " ++ digits code ++ codes ")")
  unknown_message (c ∷ s) code = prefixed (codes ": " ++ (c ∷ s))

  -- The message of an answer that is not `ok`, of the key that there is for its `detail`.
  unfoldable pub message : Option Text → Text → ℕ → Option Text
  unfolding says_key unknown_message
  message (some key) d code = says_key key
  message none d code = unknown_message d code

  unfoldable pub refused : Response → Result
  unfolding parsed detail known message
  refused r = let d = detail (parsed r) in failure (message (known d) d r.code) (parsed r)

  unfoldable pub accepted : Bool → Response → Result
  accepted true r = elim r.json [ some p ↦ json_body p | none ↦ broken ]
  accepted false r = text_body r.raw

  -- `req`, of what `fetch` comes to.
  unfoldable pub req : Fetched → Result
  unfolding says_key is_ok is_json refused accepted
  req aborted = failure (says_key (codes "errTimeout")) none
  req unreachable = failure (says_key (codes "errNetwork")) none
  req (answered r) = if is_ok r.code then accepted (is_json r.content_type) r else refused r

-- How an `XMLHttpRequest` ends: loaded, with a status and a text, or by `onerror` or `ontimeout`.
pub data Ending : Type 0 where
  loaded : ℕ → Text → Ending
  xhr_error timed_out : Ending

-- A promise that is kept, or rejected with the message of an error.
pub data Promise (A : Type 0) : Type 0 where
  resolved : A → Promise A
  rejected : Option Text → Promise A

-- `xhr.upload.onprogress`: the fraction that is handed on, where the length can be computed.
unfoldable pub progress : Bool → ℕ → ℕ → Option (ℕ × ℕ)
progress computable sent total = if computable then some (sent, total) else none

module _ (german t : Table) where
  unfoldable pub check_firmware_auth : Ending → Promise Bool
  unfolding says_key
  check_firmware_auth (loaded code raw) = resolved (not (code == 401))
  check_firmware_auth xhr_error = rejected (says_key german t (codes "errNetwork"))
  check_firmware_auth timed_out = rejected (says_key german t (codes "errTimeout"))

  unfoldable pub upload_firmware : Ending → Promise (ℕ × Text)
  unfolding says_key
  upload_firmware (loaded code raw) = resolved (code, raw)
  upload_firmware xhr_error = rejected (says_key german t (codes "fwConnLost"))
  upload_firmware timed_out = rejected (says_key german t (codes "errTimeout"))
