-- ===== src/Template/Render/Room.antt =====
-- The room for each token of a compiled template, and for the whole rendering.
use mathlib.Core.Option
use esphome_gplug.Base.{
  ℕ, ◌*◌, ◌%◌, ◌^◌, ◌≤◌, ◌<◌, ◌≡◌, refl, true, false, inl, inr, Option, none, some, List, [], ◌∷◌,
  arith, if◌then◌else◌, Bool-cases, length, get_or, get_elem?, get_elem?-get_or, All,
}
use esphome_gplug.Text.Utf8.{Text, Bytes, utf8, decode, codes}
use esphome_gplug.Text.Laws.{utf8-Plain}
use esphome_gplug.Text.Decimal.{digits}
use esphome_gplug.Text.Decimal.Length.{length-digits, digits-Plain}
use esphome_gplug.Template.Data.{
  num_max, smid_max, Esc, Snapshot, missing, Kind, lit, device, mac, meter, ts, iso, values,
  values_lp, i_name, i_obis, i_value, i_unit, val, unit, is_lit,
}
use esphome_gplug.Template.Escape.{esc_len, esc_str, esc_meter}
use esphome_gplug.Template.Escape.Length.{length-esc_str, esc_meter-length}
use esphome_gplug.Template.Number
use esphome_gplug.Template.Number.{num}
use esphome_gplug.Template.Number.Length.{IsDouble, length-iso}
use esphome_gplug.Template.Number.Plain.{iso-Plain}
use esphome_gplug.Template.Keys.{Ctx, esc_of}
use esphome_gplug.Template.Keys.Valid.{IsTable, KindValid, kind_bound}
use esphome_gplug.Template.Keys.Registers.{Bounds-maxima}
use esphome_gplug.Template.Render.{render_kind, get_at}
use esphome_gplug.Template.Render.Lists.{value_list_room, length-utf8-num, get_or-IsDouble}

-- The device's values: doubles, a clock of 32 bits, and an id of the meter that the device's own field can hold.
pub record IsSnapshot (s : Snapshot) : Type 0 where
  pub doubles : All IsDouble s.v
  pub clock : s.epoch < 2 ^ 32
  pub short_id : length (utf8 s.smid) ≤ smid_max

-- In the mode "each" a rendering is for one register that is no string.
abbrev pub IsItem : Ctx → Option ℕ → Type 0
IsItem c item =
    c.each ≡ true
    → (i : ℕ) × (item ≡ some i)
      × (i < length c.fields.names)
      × (get_or c.fields.string i false ≡ false)

pub length-decode : (b : Bytes) → length (decode b) ≤ length b
unfolding decode
length-decode [] = omega arith
length-decode (x ∷ []) = omega arith
length-decode (x ∷ y ∷ []) = omega arith
length-decode (x ∷ y ∷ z ∷ rest) = ground arith

-- A rendering that does not throw and fits in `room`.
abbrev pub Fits : Option Bytes → ℕ → Type 0
Fits o room = (b : Bytes) × (o ≡ some b) × (length b ≤ room)

ts_room : (n : ℕ) → length (utf8 (digits (n % 2 ^ 32))) ≤ 10
ts_room n =
    rw (utf8-Plain _ (digits-Plain (n % 2 ^ 32))) (length-digits 9 (n % 2 ^ 32) (omega arith))

module _ (c : Ctx) (s : Snapshot) (table : IsTable c.fields) (ok : IsSnapshot s) (slice : Bytes)
    (idx len : ℕ) where
  item_room :
      (i : ℕ) (xs : List Text) (e : Esc) {bound : ℕ}
      → i < length xs
      → esc_len (utf8 (get_or xs i [])) e ≤ bound
      → Fits (Option.map (λ t. utf8 (esc_str t e)) (get_elem? xs i)) bound
  item_room i xs e lt room = (
    utf8 (esc_str (get_or xs i []) e),
    rw (get_elem?-get_or xs i [] lt) refl,
    rw length-esc_str room,
  )

  meter_room :
      length (utf8 (esc_meter s.smid (esc_of c))) ≤ (if c.topic then smid_max else 2 * smid_max)
  meter_room = elim (Bool-cases c.topic) [
    | inl t ↦ rw t (omega (arith, esc_meter-length s.smid, ok.short_id))
    | inr p ↦ rw p (omega (arith, esc_meter-length s.smid, ok.short_id))
  ]

  get_at-IsDouble : (item : Option ℕ) → IsDouble (get_at s.v item missing)
  get_at-IsDouble none = tt
  get_at-IsDouble (some i) = get_or-IsDouble s.v i ok.doubles

  val_room :
      length (
        utf8 (
          if get_or s.have idx false
          then num (get_or s.v idx missing) (get_or c.fields.prec idx 0)
          else codes "null"))
      ≤ num_max
  val_room = elim (Bool-cases (get_or s.have idx false)) [
    | inl there ↦ rw there (
        length-utf8-num (get_or s.v idx missing) (get_or c.fields.prec idx 0)
          (get_or-IsDouble s.v idx ok.doubles))
    | inr absent ↦ rw absent (unfold utf8 in omega arith)
  ]

  pub kind_room :
      (item : Option ℕ) (kind : Kind)
      → IsItem c item
      → is_lit kind ≡ false
      → KindValid c kind idx
      → Fits (render_kind c.topic c.fields s item slice idx kind) (kind_bound c kind idx len)
  unfolding render_kind kind_bound
  kind_room item lit it h v = cc
  kind_room item device it h v = (_, refl, rw length-esc_str (omega arith))
  kind_room item mac it h v = (_, refl, omega arith)
  kind_room item meter it h v = (_, refl, meter_room)
  kind_room item ts it h v = (_, refl, ts_room s.epoch)
  kind_room item iso it h v = (
    _,
    refl,
    rw (utf8-Plain (Number.iso s.epoch) (iso-Plain s.epoch ok.clock)) (length-iso s.epoch),
  )
  kind_room item values it h v = (_, refl, (value_list_room c s ok.doubles).0)
  kind_room item values_lp it h v = (_, refl, (value_list_room c s ok.doubles).1)
  kind_room item i_name it h v =
      let (i, e, lt, number) = it v in
      rw e (item_room i c.fields.names (esc_of c) lt (Bounds-maxima c i lt number).0)
  kind_room item i_obis it h v =
      let (i, e, lt, number) = it v in
      rw e (
        item_room i c.fields.obis (esc_of c) (omega (arith, table.same_obis))
          (Bounds-maxima c i lt number).1)
  kind_room item i_value it h v = (
    _,
    refl,
    length-utf8-num (get_at s.v item missing) (get_at c.fields.prec item 0) (get_at-IsDouble item),
  )
  kind_room item i_unit it h v =
      let (i, e, lt, number) = it v in
      rw e (
        item_room i c.fields.units (esc_of c) (omega (arith, table.same_units))
          (Bounds-maxima c i lt number).2)
  kind_room item val it h v = (_, refl, val_room)
  kind_room item unit it h v =
      item_room idx c.fields.units (esc_of c) (omega (arith, table.same_obis, table.same_units, v))
        (omega arith)
