-- ===== src/Setup/Save.antt =====
-- What the wizard sends when its step "meter" is left: `commit` and `toDescriptor` of spa/src/main.js.
pub mod Key
use esphome_gplug.Base.{
  ℕ, ◌≡◌, Bool, true, false, not, ◌&&◌, Option, none, some, List, [], ◌∷◌, ◌==◌, if◌then◌else◌,
  length, find,
}
use esphome_gplug.Text.Utf8.{Text, bytes_eq}
use esphome_gplug.Setup.Meter.{Preset, Obis, Choice, selected, same}

pub record Descriptor : Type 0 where
  pub schema : ℕ
  pub protocol : Text
  pub mode : Text
  pub baud : ℕ
  pub rx : ℕ
  pub serial_flags : Text
  pub buffer : ℕ
  pub obis : List Obis

-- `toDescriptor`, with the pin of the hardware step where there is one.
unfoldable pub to_descriptor : Preset → Option ℕ → Descriptor
to_descriptor p rx = record {
  schema = 1;
  protocol = p.protocol;
  mode = p.mode;
  baud = p.baud;
  rx = elim rx [ some n ↦ n | none ↦ p.rx ];
  serial_flags = p.serial_flags;
  buffer = p.buffer;
  obis = p.obis;
}

-- The body of the request; what is undefined is left out.
pub record MeterRequest : Type 0 where
  pub preset : Text
  pub key : Option Text
  pub keep_key : Bool
  pub descriptor : Descriptor

-- The body that is sent for profile `p`. `stored` is `status.meter.encrypted`.
unfoldable pub meter_body : Preset → Choice → Option ℕ → Bool → Bool → MeterRequest
meter_body p v rx stored with_key =
    let keep = with_key && (stored && v.keep_key) in
    record {
      preset = p.id;
      key = if with_key && (not keep && not (length v.key == 0)) then some v.key else none;
      keep_key = keep;
      descriptor = to_descriptor p rx;
    }

-- The request of `commit("meter", withKey)`; `none` when no profile has the chosen id, where the source
-- throws.
unfoldable pub meter_request : List Preset → Choice → Option ℕ → Bool → Bool → Option MeterRequest
unfolding selected
meter_request presets v rx stored with_key = elim (selected presets v.preset) [
  | none ↦ none
  | some p ↦ some (meter_body p v rx stored with_key)
]
