-- ===== src/Setup/Save/Key.antt =====
-- What becomes of the key when the step "meter" is left.
use esphome_gplug.Base.{
  ◌≡◌, refl, ap, ◌⊎◌, inl, inr, Bool, true, false, ◌&&◌, ◌||◌, Option, none, some, List, ◌==◌,
  Bool-cases, Option-cases, arith, ℕ, length, if◌then◌else◌,
}
use esphome_gplug.Text.Utf8.{Text, bytes_eq}
use esphome_gplug.Setup.Meter.{
  Preset, Detected, Choice, KeyMode, no_key, required, optional, key_mode, line_enc, asks, keeps,
  hex32, key_ok, selected, next_enabled, with_key,
}
use esphome_gplug.Setup.Save.{MeterRequest, meter_body, meter_request}

abbrev pub Keeps : Bool → MeterRequest → Type 0
Keeps stored r = (r.key ≡ none) × (r.keep_key ≡ true) × (stored ≡ true)

abbrev pub SendsKey : MeterRequest → Type 0
SendsKey r = (k : Text) × (r.key ≡ some k) × (hex32 k ≡ true) × (r.keep_key ≡ false)

abbrev pub SendsNone : MeterRequest → Type 0
SendsNone r = (r.key ≡ none) × (r.keep_key ≡ false)

-- Whether the device has seen what a line of the profile's protocol pushes, and that it is ciphered or
-- plain.
abbrev pub HasSeen : Option Detected → Preset → Bool → Type 0
HasSeen d p ciphered =
    (x : Detected) × (d ≡ some x)
    × (bytes_eq x.protocol p.protocol ≡ true)
    × (x.encrypted ≡ some ciphered)

-- Whether the device has seen nothing, another protocol, or not yet whether the line is ciphered.
abbrev pub HasNotSeen : Option Detected → Preset → Type 0
HasNotSeen d p =
    (d ≡ none)
    ⊎ ((x : Detected) × (d ≡ some x)
        × ((bytes_eq x.protocol p.protocol ≡ false) ⊎ (x.encrypted ≡ none)))

-- What may be sent about the key, by the profile and what the device has detected.
pub data KeyRule (d : Option Detected) (p : Preset) (stored : Bool) (r : MeterRequest)
    : Type 0 where
  plain_profile : p.encrypted ≡ false → SendsNone r → KeyRule d p stored r
  plain_line : p.encrypted ≡ true → HasSeen d p false → SendsNone r → KeyRule d p stored r
  ciphered_line :
      p.encrypted ≡ true → HasSeen d p true → Keeps stored r ⊎ SendsKey r → KeyRule d p stored r
  unknown_line :
      p.encrypted ≡ true
      → HasNotSeen d p
      → Keeps stored r ⊎ (SendsKey r ⊎ SendsNone r)
      → KeyRule d p stored r

-- What may be sent when the step asks for no key, for one, or for one if there is one.
abbrev ModeRule : KeyMode → Bool → MeterRequest → Type 0
ModeRule no_key stored r = SendsNone r
ModeRule required stored r = Keeps stored r ⊎ SendsKey r
ModeRule optional stored r = Keeps stored r ⊎ (SendsKey r ⊎ SendsNone r)

hex32-length : (s : Text) → hex32 s ≡ true → (length s == 0) ≡ false
unfolding hex32
hex32-length s h = ground arith

module _ (p : Preset) (v : Choice) (rx : Option ℕ) (stored : Bool) where
  sends_key :
      hex32 v.key ≡ true → stored && v.keep_key ≡ false → SendsKey (meter_body p v rx stored true)
  unfolding meter_body
  sends_key is_hex apart = (v.key, rw (apart, hex32-length v.key is_hex) refl, is_hex, apart)

  -- The request when the key that was typed goes along, or none.
  typed_key :
      (hex : Bool)
      → hex32 v.key ≡ hex
      → hex || (length v.key == 0) ≡ true
      → stored && v.keep_key ≡ false
      → SendsKey (meter_body p v rx stored true) ⊎ SendsNone (meter_body p v rx stored true)
  unfolding meter_body
  typed_key true is_hex h apart = inl (sends_key is_hex apart)
  typed_key false not_hex h apart = inr (rw (apart, h) refl, apart)

  body-ModeRule :
      (mode : KeyMode)
      → key_ok mode stored v ≡ true
      → ModeRule mode stored (meter_body p v rx stored (asks mode))
  unfolding key_ok keeps meter_body
  body-ModeRule no_key h = (refl, refl)
  body-ModeRule required h = elim (Bool-cases (stored && v.keep_key)) [
    | inl kept ↦ inl (rw kept refl, kept, ground arith)
    | inr apart ↦ inr (sends_key (ground (arith, rw apart at h)) apart)
  ]
  body-ModeRule optional h = elim (Bool-cases (stored && v.keep_key)) [
    | inl kept ↦ inl (rw kept refl, kept, ground arith)
    | inr apart ↦ inr (typed_key (hex32 v.key) refl (ground (arith, rw apart at h)) apart)
  ]

-- The step on a line of the profile's protocol.
tag-KeyRule :
    (p : Preset) (stored : Bool) (r : MeterRequest) (x : Detected) (e : Option Bool)
    → p.encrypted ≡ true
    → bytes_eq x.protocol p.protocol ≡ true
    → x.encrypted ≡ e
    → ModeRule (key_mode e) stored r
    → KeyRule (some x) p stored r
unfolding key_mode
tag-KeyRule p stored r x none ciphers same t h = unknown_line ciphers (inr (x, refl, inr t)) h
tag-KeyRule p stored r x (some true) ciphers same t h = ciphered_line ciphers (x, refl, same, t) h
tag-KeyRule p stored r x (some false) ciphers same t h = plain_line ciphers (x, refl, same, t) h

-- The step asks by what the device has detected.
mode-KeyRule :
    (d : Option Detected) (p : Preset) (stored : Bool) (r : MeterRequest)
    → ModeRule (key_mode (line_enc d (some p))) stored r
    → KeyRule d p stored r
unfolding line_enc key_mode
mode-KeyRule d p stored r h = elim (Bool-cases p.encrypted) [
  | inr plain ↦ plain_profile plain (rw plain at h)
  | inl ciphers ↦ by_detected ciphers d (rw ciphers at h)
]
  where
    by_detected :
        p.encrypted ≡ true
        → (d : Option Detected)
        → ModeRule
            (key_mode (elim d [
              | none ↦ none
              | some x ↦ if bytes_eq x.protocol p.protocol then x.encrypted else none
            ]))
            stored
            r
        → KeyRule d p stored r
    by_detected ciphers none h = unknown_line ciphers (inl refl) h
    by_detected ciphers (some x) h = elim (Bool-cases (bytes_eq x.protocol p.protocol)) [
      | inr other ↦ unknown_line ciphers (inr (x, refl, inl other)) (rw other at h)
      | inl same ↦ tag-KeyRule p stored r x x.encrypted ciphers same refl (rw same at h)
    ]

-- When the button "next" of the step "meter" can be pressed, the request that follows exists and
-- names the selected profile. For a profile that is not ciphered, and on a line of the profile's
-- protocol that the device has seen to be plain, it holds no key; on one that it has seen to be
-- ciphered the stored key is kept, which the device then has, or 32 hexadecimal digits are sent; while
-- the device has seen nothing, another protocol or not yet whether the line is ciphered, it is one of
-- these three.
pub meter_request-KeyRule :
    (presets : List Preset) (d : Option Detected) (v : Choice) (rx : Option ℕ) (stored : Bool)
    → next_enabled presets d stored v ≡ true
    → (p : Preset) × (r : MeterRequest) × (selected presets v.preset ≡ some p)
      × (meter_request presets v rx stored (with_key presets d v) ≡ some r)
      × (r.preset ≡ p.id)
      × KeyRule d p stored r
unfolding next_enabled with_key meter_request meter_body
meter_request-KeyRule presets d v rx stored h = elim (Option-cases (selected presets v.preset)) [
  | inl missing ↦ absurd (ground (arith, rw (missing, next_enabled) at h))
  | inr (p, found) ↦
      let mode = key_mode (line_enc d (some p)) in
      (
        p,
        meter_body p v rx stored (asks mode),
        found,
        sent p found,
        refl,
        mode-KeyRule d p stored (meter_body p v rx stored (asks mode))
            (body-ModeRule p v rx stored mode (rw (found, next_enabled) at h)),
      )
]
  where
    same_mode :
        (p : Preset)
        → selected presets v.preset ≡ some p
        → with_key presets d v ≡ asks (key_mode (line_enc d (some p)))
    same_mode p found = ap (λ (q : Option Preset). asks (key_mode (line_enc d q))) found

    sent :
        (p : Preset)
        → selected presets v.preset ≡ some p
        → meter_request presets v rx stored (with_key presets d v)
          ≡ some (meter_body p v rx stored (asks (key_mode (line_enc d (some p)))))
    sent p found =
        rw (found, meter_request)
          (ap (λ (b : Bool). some (meter_body p v rx stored b)) (same_mode p found))
