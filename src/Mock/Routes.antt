-- ===== src/Mock/Routes.antt =====
-- Which part of the simulated device answers a request: the handler of `createServer` in
-- spa/mock/server.mjs up to the answer, and the password that two routes ask for.
pub mod Served
pub mod Password
pub mod Tests
use esphome_gplug.Base.{
  ℕ, Bool, true, false, not, ◌&&◌, ◌||◌, Option, none, some, List, [], ◌∷◌, ◌++◌, ◌==◌, any,
  if◌then◌else◌, length,
}
use esphome_gplug.Text.Utf8.{Text, codes, bytes_eq}
use esphome_gplug.Text.Decimal.Value.{read_number}
use esphome_gplug.Firmware.Install.{starts_with}
use esphome_gplug.Service.{Method, get, post}
use esphome_gplug.Service.Base64.{basic_auth}
use esphome_gplug.Mock.Update.{Device, Answer, post_install}

-- The keys of `routes`.
abbrev pub routes : List Text
routes =
    codes "GET /api/status"
    ∷ codes "GET /api/config/mqtt"
    ∷ codes "POST /api/config/mqtt"
    ∷ codes "GET /api/presets"
    ∷ codes "GET /api/frames"
    ∷ codes "GET /api/log"
    ∷ codes "GET /api/heap"
    ∷ codes "GET /api/sockets"
    ∷ codes "GET /api/wifi/scan"
    ∷ codes "POST /api/config/wifi"
    ∷ codes "POST /api/config/hardware"
    ∷ codes "POST /api/config/meter"
    ∷ codes "POST /api/key/check"
    ∷ codes "GET /api/live"
    ∷ codes "GET /api/ring"
    ∷ codes "GET /api/update"
    ∷ codes "POST /api/update/check"
    ∷ codes "POST /api/update/install"
    ∷ codes "POST /api/reboot"
    ∷ []

-- What answers: the upload, nothing while the device restarts, the history or its table with the query,
-- a frame in one of its two forms, a route, a file of the page, or 404.
pub data Target : Type 0 where
  upload offline page missing : Target
  history history_csv : Text → Target
  frame : ℕ → Text → Target
  route : Text → Target

unfoldable pub method_name : Method → Text
method_name get = codes "GET"
method_name post = codes "POST"

-- `pathname` and `search` of a URL.
unfoldable pub split_query : Text → Text × Text
split_query [] = ([], [])
split_query (c ∷ s) =
    let (path, query) = split_query s in if c == 63 then ([], c ∷ s) else (c ∷ path, query)

-- What follows a prefix.
unfoldable pub strip : Text → Text → Option Text
strip [] s = some s
strip (c ∷ w) [] = none
strip (c ∷ w) (d ∷ s) = let rest = strip w s in if c == d then rest else none

unfoldable pub frame_kind : Option (ℕ × Text) → Option (ℕ × Text)
frame_kind none = none
frame_kind (some (i, rest)) =
    if bytes_eq rest (codes "/raw")
    then some (i, codes "raw")
    else if bytes_eq rest (codes "/plain")
    then some (i, codes "plain")
    else none

unfoldable pub frame_number : Option Text → Option (ℕ × Text)
unfolding frame_kind
frame_number none = none
frame_number (some s) = frame_kind (read_number false 0 s)

-- `path.match(/^\/api\/frames\/(\d+)\/(raw|plain)$/)`.
unfoldable pub match_frame : Text → Option (ℕ × Text)
unfolding frame_number strip
match_frame path = frame_number (strip (codes "/api/frames/") path)

unfoldable pub is_get : Method → Bool
is_get get = true
is_get post = false

-- The routes of the table, and behind it the files.
unfoldable pub in_table : Method → Text → Target
unfolding method_name is_get
in_table m path =
    let key = method_name m ++ codes " " ++ path in
    if any (bytes_eq key) routes then route key else if is_get m then page else missing

unfoldable pub or_table : Method → Text → Option (ℕ × Text) → Target
unfolding in_table
or_table m path none = in_table m path
or_table m path (some (i, kind)) = frame i kind

-- The order of the tests; `down` tells that the device restarts.
unfoldable pub dispatch_path : Bool → Method → Text → Text → Target
unfolding is_get or_table match_frame
dispatch_path down m path query =
    if not (is_get m) && bytes_eq path (codes "/update")
    then upload
    else if down && starts_with (codes "/api/") path
    then offline
    else if is_get m && bytes_eq path (codes "/api/history")
    then history query
    else if is_get m && bytes_eq path (codes "/api/history.csv")
    then history_csv query
    else or_table m path (if is_get m then match_frame path else none)

unfoldable pub dispatch : Bool → Method → Text → Target
unfolding dispatch_path split_query
dispatch down m url = let parts = split_query url in dispatch_path down m (parts.0) (parts.1)

-- `req.headers.authorization`.
unfoldable pub authorization : List (Text × Text) → Option Text
authorization [] = none
authorization ((name, v) ∷ rest) =
    let later = authorization rest in
    if bytes_eq name (codes "Authorization") then some v else later

-- Whether the device takes a request's password, its own being `OTA_PASSWORD`.
unfoldable pub allowed : Text → Option Text → Bool
allowed [] header = true
allowed (c ∷ s) none = false
allowed (c ∷ s) (some h) = bytes_eq h (basic_auth (c ∷ s))

-- "POST /api/update/install".
unfoldable pub install_route : Text → List (Text × Text) → Device → Device × Answer
unfolding allowed authorization post_install
install_route ota headers d = post_install (allowed ota (authorization headers)) d
