-- ===== src/Template/Keys.antt =====
-- The registers' bounds and the keys of `compile` in spa/src/live/mqtt-template.js, with `findReg`.
-- Strings that the source compares are compared by their UTF-8 bytes.
pub mod Valid
pub mod Registers
use mathlib.Core.Option
use esphome_gplug.Base.{
  ℕ, zero, suc, ◌+◌, ◌-◌, ◌*◌, max, Bool, true, false, not, ◌&&◌, ◌||◌, Option, none, some, List,
  [], ◌∷◌, ◌++◌, map, ltb, leb, ◌==◌, if◌then◌else◌, length, drop, get_or, get_elem?,
}
use esphome_gplug.Text.Utf8.{Text, Bytes, codes, utf8, bytes_eq}
use esphome_gplug.Template.Data.{
  topic_tpl_max, payload_tpl_max, max_tokens, topic_buf, payload_buf, num_max, smid_max, key_max,
  quote, plus, hash, lbr, rbr, Esc, json, lp, Fields, Kind, lit, device, mac, meter, ts, iso,
  values, values_lp, i_name, i_obis, i_value, i_unit, val, unit, Token, Code, tpl_too_long,
  tpl_empty, tpl_syntax, tpl_topic, tpl_unknown, tpl_context, tpl_overflow, Template, CompileResult,
  failed, compiled, diverged,
}
use esphome_gplug.Template.Escape.{esc_len}

-- What one call of `compile` is given, less the text.
pub record Ctx : Type 0 where
  pub each : Bool
  pub topic : Bool
  pub fields : Fields

abbrev pub esc_of : Ctx → Esc
esc_of c = if c.topic then Esc.topic else json

-- The bounds collected over the registers before the loop.
pub record Maxima : Type 0 where
  pub max_name : ℕ
  pub max_obis : ℕ
  pub max_unit : ℕ
  pub values : ℕ
  pub values_lp : ℕ

-- One round of `f.names.forEach`, for register `i`.
unfoldable pub widen : Fields → Esc → ℕ → Text → Maxima → Maxima
widen f e i name m = if get_or f.string i false then m else record {
  max_name = max m.max_name (esc_len (utf8 name) e);
  max_obis = max m.max_obis (esc_len (utf8 (get_or f.obis i [])) e);
  max_unit = max m.max_unit (esc_len (utf8 (get_or f.units i [])) e);
  values = m.values + (1 + esc_len (utf8 name) json + 3 + num_max);
  values_lp = m.values_lp + (1 + esc_len (utf8 name) lp + 1 + num_max);
}

unfoldable pub register_bounds : Fields → Esc → ℕ → List Text → Maxima → Maxima
unfolding widen
register_bounds f e i [] m = m
register_bounds f e i (name ∷ rest) m = register_bounds f e (suc i) rest (widen f e i name m)

-- The bounds before the first register.
abbrev pub no_registers : Maxima
no_registers = record { max_name = 0; max_obis = 0; max_unit = 0; values = 2; values_lp = 0 }

unfoldable pub maxima : Ctx → Maxima
unfolding register_bounds
maxima c = register_bounds c.fields (esc_of c) 0 c.fields.names no_registers

-- `array.indexOf(x)`, with `none` for -1.
unfoldable pub index_of : Bytes → List Text → Option ℕ
unfolding bytes_eq
index_of x [] = none
index_of x (s ∷ ss) =
    let later = Option.map suc (index_of x ss) in if bytes_eq (utf8 s) x then some 0 else later

-- `findReg`.
unfoldable pub find_reg : Fields → Bytes → Option ℕ
unfolding index_of
find_reg f x = elim (index_of x f.names) [ some i ↦ some i | none ↦ index_of x f.obis ]

-- What the chain of tests on the key comes to.
pub data Lookup : Type 0 where
  refused : Code → Lookup
  found : Kind → ℕ → ℕ → Lookup

-- The branch of `{v:…}` and `{u:…}`; the flag says which of the two.
unfoldable pub register_key : Ctx → Bool → Bytes → Lookup
unfolding find_reg
register_key c is_v x = elim (find_reg c.fields x) [
  | none ↦ refused tpl_unknown
  | some r ↦
      if is_v
      then if get_or c.fields.string r false then refused tpl_unknown else found val r num_max
      else found unit r (esc_len (utf8 (get_or c.fields.units r [])) (esc_of c))
]

-- The last two branches: a key of more than two bytes that begins with `v:` or `u:`, or an unknown one.
unfoldable pub prefixed_key : Ctx → Bytes → Lookup
unfolding register_key
prefixed_key c (a ∷ b ∷ x ∷ xs) =
    if (a == b'v' || a == b'u') && b == b':'
    then register_key c (a == b'v') (x ∷ xs)
    else refused tpl_unknown
prefixed_key c _ = refused tpl_unknown

-- The keys `{name}`, `{obis}`, `{value}` and `{unit}` of the mode "each".
unfoldable pub item_key : Ctx → Kind → ℕ → Lookup
item_key c kind bound = if c.each then found kind 0 bound else refused tpl_context

-- The keys `{values}` and `{values_lp}`.
unfoldable pub list_key : Ctx → Kind → ℕ → Lookup
list_key c kind bound = if c.each || c.topic then refused tpl_context else found kind 0 bound

unfoldable pub classify : Ctx → Maxima → Bytes → Lookup
unfolding item_key list_key prefixed_key bytes_eq
classify c m key =
    if bytes_eq key (codes "device")
    then found device 0 (esc_len (utf8 c.fields.device) (esc_of c))
    else if bytes_eq key (codes "mac")
    then found mac 0 (length (utf8 c.fields.mac))
    else if bytes_eq key (codes "meter")
    then found meter 0 (if c.topic then smid_max else 2 * smid_max)
    else if bytes_eq key (codes "ts")
    then found ts 0 10
    else if bytes_eq key (codes "iso")
    then found iso 0 20
    else if bytes_eq key (codes "values")
    then list_key c values m.values
    else if bytes_eq key (codes "values_lp")
    then list_key c values_lp m.values_lp
    else if bytes_eq key (codes "name")
    then item_key c i_name m.max_name
    else if bytes_eq key (codes "obis")
    then item_key c i_obis m.max_obis
    else if bytes_eq key (codes "value")
    then item_key c i_value num_max
    else if bytes_eq key (codes "unit")
    then item_key c i_unit m.max_unit
    else prefixed_key c key
