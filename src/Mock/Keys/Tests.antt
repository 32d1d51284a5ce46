-- ===== src/Mock/Keys/Tests.antt =====
-- The key on the simulated device, and the theorem at it.
use esphome_gplug.Base.{◌≡◌, refl, true, none, some}
use esphome_gplug.Text.Utf8.{codes, bytes_eq}
use esphome_gplug.Setup.Meter.{
  hex32, next_enabled, with_key, selected, line_enc, key_mode, key_ok, keeps,
}
use esphome_gplug.Setup.Save.{MeterRequest, meter_request}
use esphome_gplug.Setup.Tests.{presets, ciphered, chosen}
use esphome_gplug.Mock.Keys.{MeterState, status_meter, key_check, bad_key, refused, or_empty}
use esphome_gplug.Mock.Keys.Kept.{Took, next-Took}

abbrev fresh : MeterState
fresh = record { meter = none; t0 = 0; meter_commits = 0 }

enabled :
    next_enabled presets ciphered ((status_meter (λ k. k) fresh.meter).encrypted) chosen ≡ true
unfolding next_enabled selected line_enc key_mode key_ok keeps hex32 bytes_eq status_meter
enabled = refl

next-Took_example :
    (r : MeterRequest) × (meter_request presets chosen
        (some 7)
        ((status_meter (λ k. k) fresh.meter).encrypted)
        (with_key presets ciphered chosen)
      ≡ some r)
    × Took 5000 r fresh
next-Took_example = next-Took presets ciphered chosen (some 7) (λ k. k) 5000 fresh tt enabled

too_short : key_check (some (codes "ab")) fresh ≡ refused bad_key
unfolding key_check hex32 or_empty
too_short = refl
