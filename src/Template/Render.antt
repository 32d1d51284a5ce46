-- ===== src/Template/Render.antt =====
-- `render`, `itemOk` and `toFields` of spa/src/live/mqtt-template.js. A rendering is the UTF-8 form of
-- the string that the source builds; `none` is the TypeError for iterating over `undefined`.
pub mod Lists
pub mod Room
pub mod Fits
pub mod Clean
pub mod Fixed
use mathlib.Core.Option
use esphome_gplug.Base.{
  ℕ, suc, ◌%◌, ◌^◌, Bool, true, false, not, ◌&&◌, Option, none, some, List, [], ◌∷◌, ◌++◌, map,
  if◌then◌else◌, take, drop, get_or, get_elem?,
}
use esphome_gplug.Text.Utf8.{Text, Bytes, codes, utf8, decode}
use esphome_gplug.Text.Decimal.{digits}
use esphome_gplug.Template.Data.{
  Esc, json, lp, Fields, Value, missing, Snapshot, Kind, lit, device, mac, meter, ts, iso, values,
  values_lp, i_name, i_obis, i_value, i_unit, val, unit, Token, Template,
}
use esphome_gplug.Template.Escape.{esc_str, esc_meter}
use esphome_gplug.Template.Number
use esphome_gplug.Template.Number.{num}

-- `itemOk`.
unfoldable pub item_ok : Fields → Snapshot → ℕ → Bool
item_ok f s i = not (get_or f.string i false) && get_or s.have i false

-- One register in `{values}` and in `{values_lp}`.
unfoldable pub list_entry : Bool → Fields → Snapshot → ℕ → Text → Text
list_entry true f s i n = esc_str n lp ++ (b'=' ∷ num (get_or s.v i missing) (get_or f.prec i 0))
list_entry false f s i n =
    b'"' ∷ (esc_str n json ++ (b'"' ∷ b':' ∷ num (get_or s.v i missing) (get_or f.prec i 0)))

-- The entries of the registers from `i` on that have a value.
unfoldable pub list_entries : Bool → Fields → Snapshot → ℕ → List Text → List Text
list_entries is_lp f s i [] = []
list_entries is_lp f s i (n ∷ rest) =
    let later = list_entries is_lp f s (suc i) rest in
    if item_ok f s i then list_entry is_lp f s i n ∷ later else later

-- `join(",")`.
unfoldable pub join_comma : List Text → Text
join_comma [] = []
join_comma (x ∷ []) = x
join_comma (x ∷ y ∷ rest) = x ++ (b',' ∷ join_comma (y ∷ rest))

-- `list`.
unfoldable pub value_list : Bool → Fields → Snapshot → Text
value_list is_lp f s = join_comma (list_entries is_lp f s 0 f.names)

-- An element of an array at the item's index; -1 and what is out of range are `undefined`.
abbrev pub at_item {ℓ} : {A : Type ℓ} → List A → Option ℕ → Option A
at_item xs none = none
at_item xs (some i) = get_elem? xs i

abbrev pub get_at {ℓ} : {A : Type ℓ} → List A → Option ℕ → A → A
get_at xs none d = d
get_at xs (some i) d = get_or xs i d

-- `escStr` of what may be `undefined`, as bytes.
abbrev pub escaped_text : Option Text → Esc → Option Bytes
escaped_text o e = Option.map (λ s. utf8 (esc_str s e)) o

-- The cases of the switch.
unfoldable pub render_kind : Bool → Fields → Snapshot → Option ℕ → Bytes → ℕ → Kind → Option Bytes
render_kind topic f s item slice idx kind =
    let esc = if topic then Esc.topic else json in
    elim kind [
      | lit ↦ some (decode slice)
      | device ↦ some (utf8 (esc_str f.device esc))
      | mac ↦ some (utf8 f.mac)
      | meter ↦ some (utf8 (esc_meter s.smid esc))
      | ts ↦ some (utf8 (digits (s.epoch % 2 ^ 32)))
      | iso ↦ some (utf8 (Number.iso s.epoch))
      | val ↦ some (
          utf8 (
            if get_or s.have idx false
            then num (get_or s.v idx missing) (get_or f.prec idx 0)
            else codes "null"))
      | unit ↦ escaped_text (get_elem? f.units idx) esc
      | values ↦ some (utf8 (b'{' ∷ (value_list false f s ++ b'}' ∷ [])))
      | values_lp ↦ some (utf8 (value_list true f s))
      | i_name ↦ escaped_text (at_item f.names item) esc
      | i_obis ↦ escaped_text (at_item f.obis item) esc
      | i_unit ↦ escaped_text (at_item f.units item) esc
      | i_value ↦ some (utf8 (num (get_at s.v item missing) (get_at f.prec item 0)))
    ]

-- The bytes of the text that a token stands for.
abbrev pub slice_of : Bytes → Token → Bytes
slice_of text k = take k.len (drop k.off text)

-- `o += …`, where either part may throw.
unfoldable pub shown_then : Option Bytes → Option Bytes → Option Bytes
shown_then none rest = none
shown_then (some o) rest = Option.map (λ later. o ++ later) rest

-- The loop over the tokens.
unfoldable pub render_tokens :
    Bool → Fields → Snapshot → Option ℕ → Bytes → List Token → Option Bytes
render_tokens topic f s item text [] = some []
render_tokens topic f s item text (k ∷ rest) =
    shown_then (render_kind topic f s item (slice_of text k) k.idx k.key)
      (render_tokens topic f s item text rest)

-- `render`.
unfoldable pub render : Template → Bool → Fields → Snapshot → Option ℕ → Option Bytes
render c topic f s item = render_tokens topic f s item c.text c.tok

-- One element of the `fields` that the device sends.
pub record FieldConfig : Type 0 where
  pub name : Text
  pub obis : Text
  pub unit : Option Text
  pub prec : Option ℕ
  pub string : Option Bool

-- `toFields`; what the device leaves out is `none`.
unfoldable pub to_fields : List FieldConfig → Option Text → Option Text → Fields
to_fields fl device_name mac_address = record {
  names = map (λ (x : FieldConfig). x.name) fl;
  obis = map (λ (x : FieldConfig). x.obis) fl;
  units = map (λ (x : FieldConfig). Option.get_or x.unit []) fl;
  prec = map (λ (x : FieldConfig). Option.get_or x.prec 0) fl;
  string = map (λ (x : FieldConfig). Option.get_or x.string false) fl;
  device = Option.get_or device_name [];
  mac = Option.get_or mac_address [];
}
