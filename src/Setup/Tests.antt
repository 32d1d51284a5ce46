-- ===== src/Setup/Tests.antt =====
-- Runs of the setup wizard, and its theorems at them.
use esphome_gplug.Base.{◌≡◌, ◌≢◌, refl, true, false, Option, none, some, List, [], ◌∷◌, arith, All}
use esphome_gplug.Text.Utf8.{codes, bytes_eq}
use esphome_gplug.Setup.Meter.{
  Preset, Detected, Choice, mine, fit, fits, follow, tiers, shown, level, more, selected, line_enc,
  key_mode, key_ok, keeps, hex32, next_enabled, with_key,
}
use esphome_gplug.Setup.Meter.Lists.{shown_all}
use esphome_gplug.Setup.Meter.Follow.{picks, follow_fits}
use esphome_gplug.Setup.Route.{live, wizard, parse_hash}
use esphome_gplug.Setup.Save.{MeterRequest, meter_request}
use esphome_gplug.Setup.Save.Key.{KeyRule, meter_request-KeyRule}
use esphome_gplug.Setup.Diag.{Entry, diag_info, fix_key}
use esphome_gplug.Setup.Diag.Links.{Leads, diag_info-Leads}
use esphome_gplug.Setup.Wizard.{
  App, Event, hardware, meter, press_start, press_next, answer, handle, press, answered, settle,
  remove, page_in, step_page, run,
}
use esphome_gplug.Setup.Wizard.Patient.{IsOrderly, Patient, run-IsOrderly, double_next}

abbrev dsmr : Preset
dsmr = record {
  id = codes "d";
  variant = codes "gPlugD";
  protocol = codes "dsmr";
  encrypted = false;
  mode = codes "8N1";
  baud = 115200;
  rx = 7;
  serial_flags = codes "i";
  buffer = 2048;
  obis = [];
}

abbrev dlms : Preset
dlms = record dsmr {
  id = codes "m";
  variant = codes "gPlugM";
  protocol = codes "dlms";
  encrypted = true;
}

abbrev pub presets : List Preset
presets = dsmr ∷ dlms ∷ []

abbrev pub ciphered : Option Detected
ciphered = some (record { protocol = codes "dlms"; encrypted = some true })

abbrev choice : Choice
choice = record { preset = none; key = codes "0123456789abcdef0123456789ABCDEF"; keep_key = true }

abbrev pub chosen : Choice
chosen = record choice { preset = some (codes "m") }

lists :
    (shown 0 (
        tiers
          (fit presets (some (codes "gPlugM")) ciphered)
          (mine presets (some (codes "gPlugM")))
          presets)
      ≡ some (dlms ∷ []))
    × (more 0 (
          tiers
            (fit presets (some (codes "gPlugM")) ciphered)
            (mine presets (some (codes "gPlugM")))
            presets)
        ≡ true)
unfolding shown level more tiers fit fits mine bytes_eq
lists = (refl, refl)

shown_all_example :
    ((l : List Preset) × (shown 1 (
          tiers
            (fit presets (some (codes "gPlugM")) ciphered)
            (mine presets (some (codes "gPlugM")))
            presets)
        ≡ some l))
    × (more 1 (
            tiers
              (fit presets (some (codes "gPlugM")) ciphered)
              (mine presets (some (codes "gPlugM")))
              presets)
          ≡ false
        → shown 1 (
            tiers
              (fit presets (some (codes "gPlugM")) ciphered)
              (mine presets (some (codes "gPlugM")))
              presets)
          ≡ some presets)
shown_all_example = shown_all presets (some (codes "gPlugM")) ciphered 1 (omega arith)

one_fits : fit presets (some (codes "gPlugM")) ciphered ≡ dlms ∷ []
unfolding fit fits mine bytes_eq
one_fits = refl

follow_fits_example :
    picks presets
      (follow false presets (fit presets (some (codes "gPlugM")) ciphered) choice)
      (fit presets (some (codes "gPlugM")) ciphered)
    ≡ true
follow_fits_example = follow_fits presets (some (codes "gPlugM")) ciphered choice dlms [] one_fits

enabled : next_enabled presets ciphered false chosen ≡ true
unfolding next_enabled selected line_enc key_mode key_ok keeps hex32 bytes_eq
enabled = refl

meter_request-KeyRule_example :
    (p : Preset) × (r : MeterRequest) × (selected presets chosen.preset ≡ some p)
    × (meter_request presets chosen (some 7) false (with_key presets ciphered chosen) ≡ some r)
    × (r.preset ≡ p.id)
    × KeyRule ciphered p false r
meter_request-KeyRule_example = meter_request-KeyRule presets ciphered chosen (some 7) false enabled

hashes :
    (parse_hash (codes "live") ≡ record { route = some live; step = 0; new_key = false })
    × (parse_hash (codes "setup/key") ≡ record { route = some wizard; step = 2; new_key = true })
    × (parse_hash (codes "setup") ≡ record { route = some wizard; step = 0; new_key = false })
    × (parse_hash [] ≡ record { route = none; step = 0; new_key = false })
unfolding parse_hash bytes_eq
hashes = (refl, refl, refl, refl)

abbrev key_entry : Entry
key_entry = record {
  pill = codes "keyWrong";
  title = codes "dgKey";
  hint = codes "dgKeyHint";
  fix = fix_key ∷ [];
}

key_info : diag_info (codes "key") ≡ some key_entry
unfolding diag_info bytes_eq
key_info = refl

diag_info-Leads_example : All Leads key_entry.fix × (key_entry.fix ≢ [])
diag_info-Leads_example = diag_info-Leads (codes "key") key_entry key_info

abbrev fresh : App
fresh = record { route = some wizard; step = 0; choice = choice; pending = []; saved = [] }

fresh-IsOrderly : IsOrderly fresh
fresh-IsOrderly = record {
  in_steps = omega arith;
  pending_at = tt;
  done_saved = λ h. absurd (omega arith);
}

abbrev events : List Event
events =
    press_start
    ∷ press_next hardware
    ∷ answer hardware true
    ∷ press_next meter
    ∷ answer meter false
    ∷ press_next meter
    ∷ answer meter true
    ∷ []

events-Patient : Patient fresh events
unfolding handle press answered settle remove page_in step_page Patient
events-Patient = (tt, (tt, (refl, (tt, (refl, (tt, (refl, tt)))))))

run-IsOrderly_example : IsOrderly (run fresh events)
run-IsOrderly_example = run-IsOrderly fresh events events-Patient fresh-IsOrderly

abbrev at_hardware : App
at_hardware = record fresh { step = 1 }

double_next_example :
    run at_hardware
      (press_next hardware ∷ press_next hardware ∷ answer hardware true ∷ answer hardware true ∷ [])
    ≡ record at_hardware { step = 3; pending = []; saved = hardware ∷ hardware ∷ [] }
double_next_example = double_next at_hardware refl refl refl
