-- ===== src/Mock/Keys.antt =====
-- The meter's configuration and its key on the simulated device, spa/mock/server.mjs: `statusMeter` and
-- the routes of /api/config/meter and /api/key/check. The hash of a key is a parameter.
pub mod Kept
pub mod Tests
use esphome_gplug.Base.{
  ℕ, ◌+◌, Bool, true, false, not, Option, none, some, List, [], ◌∷◌, map, take, ◌==◌, if◌then◌else◌,
  length,
}
use esphome_gplug.Text.Utf8.{Text, codes, bytes_eq}
use esphome_gplug.Language.{lower}
use esphome_gplug.Setup.Meter.{hex32}
use esphome_gplug.Setup.Save.{MeterRequest, Descriptor}

-- `state.meter`, and the part of `state` that a commit changes.
pub record Stored : Type 0 where
  pub preset : Text
  pub key : Option Text
  pub descriptor : Descriptor

pub record MeterState : Type 0 where
  pub meter : Option Stored
  pub t0 : ℕ
  pub meter_commits : ℕ

-- The status and the `error` of a refusal.
pub record Refusal : Type 0 where
  pub code : ℕ
  pub error : Text

abbrev pub no_stored_key : Refusal
no_stored_key = record { code = 400; error = codes "no stored key" }

abbrev pub bad_key : Refusal
bad_key = record { code = 400; error = codes "key must be 32 hex chars" }

-- `state.meter?.key`, where it is not empty.
unfoldable pub given_key : Option Text → Option Text
given_key (some (c ∷ s)) = some (c ∷ s)
given_key _ = none

unfoldable pub key_of : Option Stored → Option Text
unfolding given_key
key_of none = none
key_of (some m) = given_key m.key

unfoldable pub commit_meter : ℕ → MeterRequest → Option Text → MeterState → MeterState
commit_meter now b key s = record {
  meter = some (record { preset = b.preset; key = key; descriptor = b.descriptor });
  t0 = now;
  meter_commits = s.meter_commits + 1;
}

-- "POST /api/config/meter" at the time `now`, of whether the stored key is to be kept and which it is.
unfoldable pub post_meter_with :
    ℕ → MeterRequest → Bool → Option Text → MeterState → MeterState × Option Refusal
unfolding commit_meter
post_meter_with now b false stored s = (commit_meter now b b.key s, none)
post_meter_with now b true none s = (s, some no_stored_key)
post_meter_with now b true (some key) s = (commit_meter now b (some key) s, none)

unfoldable pub post_meter : ℕ → MeterRequest → MeterState → MeterState × Option Refusal
unfolding post_meter_with key_of
post_meter now b s = post_meter_with now b b.keep_key (key_of s.meter) s

-- What "POST /api/key/check" answers.
pub data Check : Type 0 where
  matches : Bool → Check
  refused : Refusal → Check

unfoldable pub compare_keys : Text → Option Text → Check
compare_keys key none = refused no_stored_key
compare_keys key (some stored) = matches (bytes_eq (map lower key) (map lower stored))

-- `b.key || ""`.
unfoldable pub or_empty : Option Text → Text
or_empty none = []
or_empty (some k) = k

unfoldable pub key_check : Option Text → MeterState → Check
unfolding compare_keys key_of or_empty
key_check key s =
    let k = or_empty key in if hex32 k then compare_keys k (key_of s.meter) else refused bad_key

-- What the status says of the meter.
pub record StatusMeter : Type 0 where
  pub preset : Text
  pub protocol : ℕ
  pub encrypted : Bool
  pub key_hint : Option Text

unfoldable pub protocol_number : Text → ℕ
protocol_number p =
    if bytes_eq p (codes "dsmr") then 1 else if bytes_eq p (codes "dlms") then 2 else 0

-- `key !== undefined`.
unfoldable pub is_given : Option Text → Bool
is_given none = false
is_given (some k) = true

-- `hint` is the start of the hash of a key, in capitals.
unfoldable pub status_meter : (Text → Text) → Option Stored → StatusMeter
unfolding protocol_number is_given
status_meter hint none = record { preset = []; protocol = 0; encrypted = false; key_hint = none }
status_meter hint (some m) = record {
  preset = m.preset;
  protocol = protocol_number m.descriptor.protocol;
  encrypted = is_given m.key;
  key_hint = elim m.key [ some k ↦ some (hint k) | none ↦ none ];
}
