-- ===== src/Mock/Keys/Kept.antt =====
-- The step "meter" of the wizard and the simulated device together: what becomes of the stored key.
use esphome_gplug.Base.{
  ℕ, ◌≡◌, refl, ap, ap₂, sym, ◌⊎◌, inl, inr, Bool, true, false, Option, none, some, List, arith,
  if◌then◌else◌, [], ◌∷◌,
}
use mathlib.Core.Path.{subst, ◌∙◌}
use esphome_gplug.Text.Utf8.{Text}
use esphome_gplug.Setup.Meter.{Preset, Detected, Choice, hex32, next_enabled, with_key}
use esphome_gplug.Setup.Save.{MeterRequest, meter_request}
use esphome_gplug.Setup.Save.Key.{
  Keeps, SendsKey, SendsNone, KeyRule, plain_profile, plain_line, ciphered_line, unknown_line,
  meter_request-KeyRule,
}
use esphome_gplug.Mock.Keys.{
  Stored, MeterState, given_key, is_given, key_of, commit_meter, post_meter_with, post_meter,
  status_meter,
}

-- That a key, if there is one, has 32 hexadecimal digits.
abbrev pub KeyIsHex : Option Text → Type 0
KeyIsHex none = Unit {0}
KeyIsHex (some k) = hex32 k ≡ true

abbrev pub MeterIsKeyed : Option Stored → Type 0
MeterIsKeyed none = Unit {0}
MeterIsKeyed (some m) = KeyIsHex m.key

abbrev pub IsKeyed : MeterState → Type 0
IsKeyed s = MeterIsKeyed s.meter

-- What the device did with an accepted request.
abbrev pub Took : ℕ → MeterRequest → MeterState → Type 0
Took now r s =
    (s' : MeterState) × (post_meter now r s ≡ (s', none))
    × IsKeyed s'
    × (key_of s'.meter ≡ (if r.keep_key then key_of s.meter else r.key))

hex-given_key : (k : Text) → hex32 k ≡ true → given_key (some k) ≡ some k
unfolding hex32 given_key
hex-given_key [] h = absurd (ground arith)
hex-given_key (c ∷ k) h = refl

is_given-key :
    (o : Option Text)
    → KeyIsHex o
    → is_given o ≡ true
    → (k : Text) × (given_key o ≡ some k) × (hex32 k ≡ true)
unfolding is_given
is_given-key none keyed h = absurd (ground arith)
is_given-key (some k) keyed h = (k, hex-given_key k keyed, keyed)

-- A key that the status tells of is one that the device has.
encrypted-key_of :
    (hint : Text → Text) (m : Option Stored)
    → MeterIsKeyed m
    → (status_meter hint m).encrypted ≡ true
    → (k : Text) × (key_of m ≡ some k) × (hex32 k ≡ true)
unfolding status_meter key_of is_given
encrypted-key_of hint none keyed h = absurd (ground arith)
encrypted-key_of hint (some m) keyed h = is_given-key m.key keyed h

-- The three ways in which the step sends a key.
abbrev Sends : Bool → MeterRequest → Type 0
Sends stored r = Keeps stored r ⊎ (SendsKey r ⊎ SendsNone r)

rule-Sends :
    (d : Option Detected) (p : Preset) (stored : Bool) (r : MeterRequest)
    → KeyRule d p stored r
    → Sends stored r
rule-Sends d p stored r (plain_profile e h) = inr (inr h)
rule-Sends d p stored r (plain_line e seen h) = inr (inr h)
rule-Sends d p stored r (ciphered_line e seen (inl h)) = inl h
rule-Sends d p stored r (ciphered_line e seen (inr h)) = inr (inl h)
rule-Sends d p stored r (unknown_line e unseen h) = h

given_key-hex : (o : Option Text) → KeyIsHex o → given_key o ≡ o
unfolding given_key
given_key-hex none h = refl
given_key-hex (some k) h = hex-given_key k h

then_taken : (b : Bool) (x y : Option Text) → b ≡ true → (if b then x else y) ≡ x
then_taken b x y h = rw h refl

else_taken : (b : Bool) (x y : Option Text) → b ≡ false → (if b then x else y) ≡ y
else_taken b x y h = rw h refl

module _ (now : ℕ) (r : MeterRequest) (s : MeterState) where
  keeps-Took :
      (k : Text) → key_of s.meter ≡ some k → hex32 k ≡ true → r.keep_key ≡ true → Took now r s
  unfolding post_meter post_meter_with commit_meter key_of
  keeps-Took k stored hex keep = (
    commit_meter now r (some k) s,
    ap₂ (λ (b : Bool) (o : Option Text). post_meter_with now r b o s) keep stored,
    hex,
    hex-given_key k hex ∙ sym (then_taken r.keep_key (key_of s.meter) r.key keep ∙ stored),
  )

  sends-Took : KeyIsHex r.key → r.keep_key ≡ false → Took now r s
  unfolding post_meter post_meter_with commit_meter key_of
  sends-Took hex keep = (
    commit_meter now r r.key s,
    ap (λ (b : Bool). post_meter_with now r b (key_of s.meter) s) keep,
    hex,
    given_key-hex r.key hex ∙ sym (else_taken r.keep_key (key_of s.meter) r.key keep),
  )

  Sends-Took :
      (hint : Text → Text)
      → IsKeyed s
      → Sends ((status_meter hint s.meter).encrypted) r
      → Took now r s
  Sends-Took hint keyed (inl (none_sent, keep, stored)) =
      let (k, found, hex) = encrypted-key_of hint s.meter keyed stored in
      keeps-Took k found hex keep
  Sends-Took hint keyed (inr (inl (k, sent, hex, apart))) =
      sends-Took (subst KeyIsHex (sym sent) hex) apart
  Sends-Took hint keyed (inr (inr (none_sent, apart))) =
      sends-Took (subst KeyIsHex (sym none_sent) tt) apart

-- When the status that the wizard goes by is the device's own, and a key on the device has 32
-- hexadecimal digits, then the request that follows the button "next" of the step "meter" is accepted,
-- a key on the device has 32 hexadecimal digits again, and it is the old one where the user keeps it
-- and otherwise the one that is sent, or none.
pub next-Took :
    (presets : List Preset) (d : Option Detected) (v : Choice) (rx : Option ℕ) (hint : Text → Text)
    (now : ℕ) (s : MeterState)
    → IsKeyed s
    → next_enabled presets d ((status_meter hint s.meter).encrypted) v ≡ true
    → (r : MeterRequest) × (meter_request presets v rx
          ((status_meter hint s.meter).encrypted)
          (with_key presets d v)
        ≡ some r)
      × Took now r s
next-Took presets d v rx hint now s keyed h =
    let stored = (status_meter hint s.meter).encrypted in
    let (p, r, found, sent, named, rule) = meter_request-KeyRule presets d v rx stored h in
    (r, sent, Sends-Took now r s hint keyed (rule-Sends d p stored r rule))
