-- ===== src/Setup/Diag.antt =====
-- The diagnosis card, spa/src/diag.js: the firmware's verdict and the steps that fix it. A text of the
-- interface is named by its key in the tables of spa/src/i18n.
pub mod Links
use esphome_gplug.Base.{
  ℕ, ◌≡◌, Bool, true, false, Option, none, some, List, [], ◌∷◌, ◌==◌, if◌then◌else◌, length,
}
use esphome_gplug.Text.Utf8.{Text, codes, bytes_eq}

-- A button of the card: the step and the label.
pub record Fix : Type 0 where
  pub step : Text
  pub label : Text

pub record Entry : Type 0 where
  pub pill : Text
  pub title : Text
  pub hint : Text
  pub fix : List Fix

abbrev pub fix_hardware : Fix
fix_hardware = record { step = codes "hardware"; label = codes "fixHardware" }

abbrev pub fix_meter : Fix
fix_meter = record { step = codes "meter"; label = codes "fixMeter" }

abbrev pub fix_key : Fix
fix_key = record { step = codes "key"; label = codes "fixKey" }

-- `diagTable`, its keys in order.
abbrev pub diag_table : List (Text × Entry)
diag_table =
    (
      codes "silent",
      record {
        pill = codes "noData";
        title = codes "dgSilent";
        hint = codes "dgSilentHint";
        fix = fix_hardware ∷ [];
      },
    )
    ∷ (
      codes "garbled",
      record {
        pill = codes "dgGarbledPill";
        title = codes "dgGarbled";
        hint = codes "dgGarbledHint";
        fix = fix_meter ∷ fix_hardware ∷ [];
      },
    )
    ∷ (
      codes "no_match",
      record {
        pill = codes "dgNoMatchPill";
        title = codes "dgNoMatch";
        hint = codes "dgNoMatchHint";
        fix = fix_meter ∷ [];
      },
    )
    ∷ (
      codes "protocol",
      record {
        pill = codes "dgProtocolPill";
        title = codes "dgProtocol";
        hint = codes "dgProtocolHint";
        fix = fix_meter ∷ [];
      },
    )
    ∷ (
      codes "key",
      record {
        pill = codes "keyWrong";
        title = codes "dgKey";
        hint = codes "dgKeyHint";
        fix = fix_key ∷ [];
      },
    )
    ∷ (
      codes "nodata",
      record {
        pill = codes "noData";
        title = codes "noData";
        hint = codes "noDataHint";
        fix = fix_meter ∷ fix_hardware ∷ [];
      },
    )
    ∷ []

-- What `diagOf` reads of /api/live; a `diag` that is missing or empty is `none` or empty.
pub record Live : Type 0 where
  pub diag : Option Text
  pub key_invalid : Bool
  pub no_data : Bool
  pub age : Option ℕ

-- The verdict of a firmware that sends none.
unfoldable pub old_verdict : Live → Text
old_verdict l =
    if l.key_invalid
    then codes "key"
    else if l.no_data
    then codes "nodata"
    else elim l.age [ some a ↦ codes "ok" | none ↦ codes "waiting" ]

unfoldable pub diag_of : Option Live → Option Text
unfolding old_verdict
diag_of none = none
diag_of (some l) = elim l.diag [
  | none ↦ some (old_verdict l)
  | some d ↦ if length d == 0 then some (old_verdict l) else some d
]

unfoldable pub lookup : Text → List (Text × Entry) → Option Entry
lookup d [] = none
lookup d ((name, e) ∷ rest) = let later = lookup d rest in if bytes_eq d name then some e else later

-- `diagInfo`.
unfoldable pub diag_info : Text → Option Entry
unfolding lookup
diag_info d = lookup d diag_table
