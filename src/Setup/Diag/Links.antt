-- ===== src/Setup/Diag/Links.antt =====
-- Where the buttons of the diagnosis card lead.
use esphome_gplug.Base.{◌≡◌, ◌≢◌, refl, inl, inr, some, List, [], ◌∷◌, ◌++◌, Bool-cases, All, arith}
use mathlib.Core.Path.{subst}
use esphome_gplug.Text.Utf8.{Text, codes, bytes_eq}
use esphome_gplug.Setup.Route.{wizard, parse_hash}
use esphome_gplug.Setup.Diag.{
  Fix, fix_hardware, fix_meter, fix_key, Entry, diag_table, lookup, diag_info,
}

-- A button leads into the wizard, past its first page, and asks for a new key exactly when it is the
-- one about the key.
pub record Leads (f : Fix) : Type 0 where
  pub to_wizard : (parse_hash (codes "setup/" ++ f.step)).route ≡ some wizard
  pub past_first : (parse_hash (codes "setup/" ++ f.step)).step ≢ 0
  pub key_asked : (parse_hash (codes "setup/" ++ f.step)).new_key ≡ bytes_eq f.step (codes "key")

hardware-Leads : Leads fix_hardware
unfolding parse_hash bytes_eq
hardware-Leads = record { to_wizard = refl; past_first = omega arith; key_asked = refl }

meter-Leads : Leads fix_meter
unfolding parse_hash bytes_eq
meter-Leads = record { to_wizard = refl; past_first = omega arith; key_asked = refl }

key-Leads : Leads fix_key
unfolding parse_hash bytes_eq
key-Leads = record { to_wizard = refl; past_first = omega arith; key_asked = refl }

AllLead : Entry → Type 0
AllLead e = All Leads e.fix × (e.fix ≢ [])

table-AllLead : All (λ (x : Text × Entry). AllLead (x.1)) diag_table
unfolding AllLead
table-AllLead = (
  ((hardware-Leads, tt), (λ h. cc)),
  (
    ((meter-Leads, (hardware-Leads, tt)), (λ h. cc)),
    (
      ((meter-Leads, tt), (λ h. cc)),
      (
        ((meter-Leads, tt), (λ h. cc)),
        (((key-Leads, tt), (λ h. cc)), (((meter-Leads, (hardware-Leads, tt)), (λ h. cc)), tt)),
      ),
    ),
  ),
)

lookup-AllLead :
    (d : Text) (l : List (Text × Entry)) (e : Entry)
    → All (λ (x : Text × Entry). AllLead (x.1)) l
    → lookup d l ≡ some e
    → AllLead e
unfolding lookup
lookup-AllLead d [] e a h = absurd (ground arith)
lookup-AllLead d ((name, x) ∷ rest) e (a, later) h = elim (Bool-cases (bytes_eq d name)) [
  | inl hit ↦ subst AllLead (ground (arith, rw hit at h)) a
  | inr miss ↦ lookup-AllLead d rest e later (rw miss at h)
]

-- Every verdict that has a card has a button, and each of its buttons opens the wizard past its first
-- page, with the stored key given up exactly for the step about the key.
pub diag_info-Leads : (d : Text) (e : Entry) → diag_info d ≡ some e → All Leads e.fix × (e.fix ≢ [])
unfolding diag_info AllLead
diag_info-Leads d e h = lookup-AllLead d diag_table e table-AllLead h
