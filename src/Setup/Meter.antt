-- ===== src/Setup/Meter.antt =====
-- The step "meter" of the wizard, spa/src/steps/meter.js: which profiles are listed, how the selection
-- follows what the device detects, and whether a key is asked for.
pub mod Lists
pub mod Follow
use esphome_gplug.Base.{
  ℕ, ◌-◌, ◌≡◌, min, Bool, true, false, not, ◌&&◌, ◌||◌, Option, none, some, List, [], ◌∷◌, ◌++◌,
  ltb, leb, ◌==◌, if◌then◌else◌, length, get_elem?, filter, find, any,
}
use esphome_gplug.Text.Utf8.{Text, bytes_eq}

-- A register of a profile.
pub record Obis : Type 0 where
  pub obis : Text
  pub name : Text
  pub unit : Text

-- A meter profile of /api/presets.
pub record Preset : Type 0 where
  pub id : Text
  pub variant : Text
  pub protocol : Text
  pub encrypted : Bool
  pub mode : Text
  pub baud : ℕ
  pub rx : ℕ
  pub serial_flags : Text
  pub buffer : ℕ
  pub obis : List Obis

-- `live.detect` of a device that has seen a frame; `none` for a ciphering not known yet.
pub record Detected : Type 0 where
  pub protocol : Text
  pub encrypted : Option Bool

-- `live.detect`: left out by an older firmware, or null.
pub data Detect : Type 0 where
  absent nothing : Detect
  seen : Detected → Detect

-- The wizard's `meter`: the profile, the key that was typed, and whether the stored one is kept.
pub record Choice : Type 0 where
  pub preset : Option Text
  pub key : Text
  pub keep_key : Bool

-- `sniffs`, of an answer of /api/live.
unfoldable pub sniffs : Option Detect → Bool
sniffs none = false
sniffs (some absent) = false
sniffs (some _) = true

-- `det`.
unfoldable pub det : Option Detect → Option Detected
det (some (seen d)) = if length d.protocol == 0 then none else some d
det _ = none

-- `v === w` where `v` may be undefined and `w` is a string.
abbrev pub same : Option Text → Text → Bool
same none w = false
same (some v) w = bytes_eq v w

unfoldable pub mine : List Preset → Option Text → List Preset
mine presets variant = filter (λ (p : Preset). same variant p.variant) presets

-- Whether a profile fits what was detected.
unfoldable pub fits : Detected → Preset → Bool
fits d p =
    bytes_eq p.protocol d.protocol
    && (not (elim d.encrypted [ some b ↦ b | none ↦ false ]) || p.encrypted)

unfoldable pub fit : List Preset → Option Text → Option Detected → List Preset
fit presets variant none = []
fit presets variant (some d) = filter (fits d) (mine presets variant)

-- `sel`.
unfoldable pub selected : List Preset → Option Text → Option Preset
selected presets chosen = find (λ (p : Preset). same chosen p.id) presets

-- The id of the selection, undefined without one.
abbrev pub id_of : Option Preset → Option Text
id_of none = none
id_of (some p) = some p.id

-- The effect that follows the detection.
unfoldable pub follow : Bool → List Preset → List Preset → Choice → Choice
unfolding selected
follow manual presets [] v = v
follow manual presets (p ∷ rest) v =
    if manual || any (λ (x : Preset). same (id_of (selected presets v.preset)) x.id) (p ∷ rest)
    then v
    else record v { preset = some p.id }

-- `pick`, of a click on a card.
unfoldable pub pick : Preset → Choice → Bool × Choice
pick p v = (true, record v { preset = some p.id })

-- `lineEnc`, `none` for null or undefined.
unfoldable pub line_enc : Option Detected → Option Preset → Option Bool
line_enc d none = some false
line_enc d (some p) = if not p.encrypted then some false else elim d [
  | none ↦ none
  | some x ↦ if bytes_eq x.protocol p.protocol then x.encrypted else none
]

pub data KeyMode : Type 0 where
  no_key required optional : KeyMode

unfoldable pub key_mode : Option Bool → KeyMode
key_mode (some false) = no_key
key_mode (some true) = required
key_mode none = optional

abbrev pub asks : KeyMode → Bool
asks no_key = false
asks _ = true

unfoldable pub keeps : KeyMode → Bool → Choice → Bool
keeps mode stored_key v = asks mode && (stored_key && v.keep_key)

abbrev pub is_hex : ℕ → Bool
is_hex c = (leb 48 c && leb c 57) || ((leb 97 c && leb c 102) || (leb 65 c && leb c 70))

unfoldable pub all_hex : Text → Bool
all_hex [] = true
all_hex (c ∷ s) = is_hex c && all_hex s

-- `HEX32`.
unfoldable pub hex32 : Text → Bool
unfolding all_hex
hex32 s = length s == 32 && all_hex s

unfoldable pub key_ok : KeyMode → Bool → Choice → Bool
unfolding keeps
key_ok no_key stored_key v = true
key_ok mode stored_key v =
    keeps mode stored_key v
    || (hex32 v.key || (elim mode [ optional ↦ true | _ ↦ false ] && length v.key == 0))

-- `tiers`.
unfoldable pub tiers : List Preset → List Preset → List Preset → List (List Preset)
tiers fitting of_variant presets =
    let first = if length fitting == 0 then [] else fitting ∷ [] in
    let second =
      if not (length of_variant == 0) && not (length of_variant == length fitting)
      then first ++ of_variant ∷ []
      else first in
    if length presets == last_length second then second else second ++ presets ∷ []
  where
    last_length : List (List Preset) → ℕ
    last_length [] = 0
    last_length (t ∷ []) = length t
    last_length (t ∷ u ∷ rest) = last_length (u ∷ rest)

-- The profiles on screen after `expand`, and whether there are more to show. Without any tier the
-- source reads a list that is undefined.
unfoldable pub level : ℕ → List (List Preset) → ℕ
level expand ts = min expand (length ts - 1)

unfoldable pub shown : ℕ → List (List Preset) → Option (List Preset)
unfolding level
shown expand [] = none
shown expand ts = get_elem? ts (level expand ts)

unfoldable pub more : ℕ → List (List Preset) → Bool
unfolding level
more expand ts = ltb (level expand ts) (length ts - 1)

-- Whether the button "next" can be pressed, and what it hands on: whether a key goes with the profile.
unfoldable pub next_enabled : List Preset → Option Detected → Bool → Choice → Bool
unfolding selected
next_enabled presets d stored_key v = elim (selected presets v.preset) [
  | none ↦ false
  | some p ↦ key_ok (key_mode (line_enc d (some p))) stored_key v
]

unfoldable pub with_key : List Preset → Option Detected → Choice → Bool
with_key presets d v = asks (key_mode (line_enc d (selected presets v.preset)))
