-- ===== src/Template/Keys/Valid.antt =====
-- What the keys of a template are allowed to be, and the room that `compile` counts for each.
use esphome_gplug.Base.{
  ℕ, ◌*◌, ◌<◌, ◌≡◌, refl, Bool, true, false, ◌&&◌, ◌||◌, ◌⊎◌, inl, inr, some, List, [], ◌∷◌, arith,
  ◌==◌, if◌then◌else◌, Bool-cases, Option-cases, length, get_or,
}
use esphome_gplug.Text.Utf8.{Text, Bytes, codes, utf8, bytes_eq}
use esphome_gplug.Template.Data.{
  num_max, smid_max, Fields, Kind, lit, device, mac, meter, ts, iso, values, values_lp, i_name,
  i_obis, i_value, i_unit, val, unit, is_lit, Code,
}
use esphome_gplug.Template.Escape.{esc_len}
use esphome_gplug.Template.Keys.{
  Ctx, esc_of, maxima, index_of, find_reg, Lookup, refused, found, register_key, prefixed_key,
  item_key, list_key, classify,
}

-- As many abbreviations and units as names, which is how `toFields` builds the table.
pub record IsTable (f : Fields) : Type 0 where
  pub same_obis : length f.obis ≡ length f.names
  pub same_units : length f.units ≡ length f.names

-- Where a kind may stand, and what its register must be.
abbrev pub KindValid : Ctx → Kind → ℕ → Type 0
KindValid c values idx = (c.each ≡ false) × (c.topic ≡ false)
KindValid c values_lp idx = (c.each ≡ false) × (c.topic ≡ false)
KindValid c i_name idx = c.each ≡ true
KindValid c i_obis idx = c.each ≡ true
KindValid c i_value idx = c.each ≡ true
KindValid c i_unit idx = c.each ≡ true
KindValid c val idx = get_or c.fields.string idx false ≡ false
KindValid c unit idx = (idx < length c.fields.names) ⊎ (idx < length c.fields.obis)
KindValid c _ idx = Unit

-- The room for each kind, `len` bytes for a literal of that length.
unfoldable pub kind_bound : Ctx → Kind → ℕ → ℕ → ℕ
kind_bound c lit idx len = len
kind_bound c device idx len = esc_len (utf8 c.fields.device) (esc_of c)
kind_bound c mac idx len = length (utf8 c.fields.mac)
kind_bound c meter idx len = if c.topic then smid_max else 2 * smid_max
kind_bound c ts idx len = 10
kind_bound c iso idx len = 20
kind_bound c values idx len = (maxima c).values
kind_bound c values_lp idx len = (maxima c).values_lp
kind_bound c i_name idx len = (maxima c).max_name
kind_bound c i_obis idx len = (maxima c).max_obis
kind_bound c i_value idx len = num_max
kind_bound c i_unit idx len = (maxima c).max_unit
kind_bound c val idx len = num_max
kind_bound c unit idx len = esc_len (utf8 (get_or c.fields.units idx [])) (esc_of c)

pub data LookupOk (c : Ctx) : Lookup → Type 0 where
  is_refused : {code : Code} → LookupOk c (refused code)
  is_found :
      {kind : Kind} {idx bound : ℕ}
      → KindValid c kind idx
      → is_lit kind ≡ false
      → ((len : ℕ) → bound ≡ kind_bound c kind idx len)
      → LookupOk c (found kind idx bound)

index_of-lt : (x : Bytes) (ss : List Text) (i : ℕ) → index_of x ss ≡ some i → i < length ss
unfolding index_of
index_of-lt x [] i h = cc
index_of-lt x (s ∷ ss) i h = elim (Bool-cases (bytes_eq (utf8 s) x)) [
  | inl here ↦ ground arith
  | inr on ↦ elim (Option-cases (index_of x ss)) [
    | inl nowhere ↦ ground arith
    | inr (j, e) ↦ ground (arith, index_of-lt x ss j e)
  ]
]

find_reg-lt :
    (f : Fields) (x : Bytes) (i : ℕ)
    → find_reg f x ≡ some i
    → (i < length f.names) ⊎ (i < length f.obis)
unfolding find_reg
find_reg-lt f x i h = elim (Option-cases (index_of x f.names)) [
  | inl nowhere ↦ inr (index_of-lt x f.obis i (ground arith))
  | inr (j, e) ↦ inl (ground (arith, index_of-lt x f.names j e))
]

register_key-LookupOk : (c : Ctx) (is_v : Bool) (x : Bytes) → LookupOk c (register_key c is_v x)
unfolding register_key kind_bound
register_key-LookupOk c is_v x = elim (Option-cases (find_reg c.fields x)) [
  | inl nowhere ↦ rw (nowhere, register_key) is_refused
  | inr (i, e) ↦
      rw (e, register_key)
        (elim (Bool-cases is_v) [
          | inl v ↦ rw v (elim (Bool-cases (get_or c.fields.string i false)) [
            | inl string ↦ rw string is_refused
            | inr number ↦ rw number (is_found number refl (λ len. refl))
          ])
          | inr u ↦ rw u (is_found (find_reg-lt c.fields x i e) refl (λ len. refl))
        ])
]

prefixed_key-LookupOk : (c : Ctx) (key : Bytes) → LookupOk c (prefixed_key c key)
unfolding prefixed_key
prefixed_key-LookupOk c (a ∷ b ∷ x ∷ xs) =
    elim (Bool-cases ((a == b'v' || a == b'u') && b == b':')) [
      | inl h ↦ rw h (register_key-LookupOk c (a == b'v') (x ∷ xs))
      | inr h ↦ rw h is_refused
    ]
prefixed_key-LookupOk c _ = is_refused

list_key-LookupOk :
    (c : Ctx)
    → LookupOk c (list_key c values (maxima c).values)
      × LookupOk c (list_key c values_lp (maxima c).values_lp)
unfolding list_key kind_bound
list_key-LookupOk c = elim (Bool-cases (c.each || c.topic)) [
  | inl h ↦ rw h (is_refused, is_refused)
  | inr h ↦
      rw h
        ((is_found (ground arith) refl (λ len. refl)), (is_found (ground arith) refl (λ len. refl)))
]

item_key-LookupOk :
    (c : Ctx)
    → LookupOk c (item_key c i_name (maxima c).max_name)
      × LookupOk c (item_key c i_obis (maxima c).max_obis)
      × LookupOk c (item_key c i_value num_max)
      × LookupOk c (item_key c i_unit (maxima c).max_unit)
unfolding item_key kind_bound
item_key-LookupOk c = elim (Bool-cases c.each) [
  | inl h ↦ rw h (
    (is_found refl refl (λ len. refl)),
    (is_found refl refl (λ len. refl)),
    (is_found refl refl (λ len. refl)),
    (is_found refl refl (λ len. refl)),
  )
  | inr h ↦ rw h (is_refused, is_refused, is_refused, is_refused)
]

-- Taking one branch of a test on the key, or going on.
if-LookupOk :
    {c : Ctx} (b : Bool) {x y : Lookup}
    → LookupOk c x
    → LookupOk c y
    → LookupOk c (if b then x else y)
if-LookupOk true h k = h
if-LookupOk false h k = k

-- A key that the tests accept stands in a mode that allows it, names a register that is there, and
-- counts with the room of its kind.
pub classify-LookupOk : (c : Ctx) (key : Bytes) → LookupOk c (classify c (maxima c) key)
unfolding classify kind_bound
classify-LookupOk c key =
    let (list, list_lp) = list_key-LookupOk c in
    let (name, obis, value, unit') = item_key-LookupOk c in
    let is = λ (name : Text). bytes_eq key name in
    if-LookupOk (is (codes "device")) (is_found tt refl (λ len. refl)) (
      if-LookupOk (is (codes "mac")) (is_found tt refl (λ len. refl)) (
        if-LookupOk (is (codes "meter")) (is_found tt refl (λ len. refl)) (
          if-LookupOk (is (codes "ts")) (is_found tt refl (λ len. refl)) (
            if-LookupOk (is (codes "iso")) (is_found tt refl (λ len. refl)) (
              if-LookupOk (is (codes "values")) list (
                if-LookupOk (is (codes "values_lp")) list_lp (
                  if-LookupOk (is (codes "name")) name (
                    if-LookupOk (is (codes "obis")) obis (
                      if-LookupOk (is (codes "value")) value (
                        if-LookupOk (is (codes "unit")) unit'
                          (prefixed_key-LookupOk c key)))))))))))

LookupOk-found :
    {c : Ctx} {kind : Kind} {idx bound : ℕ}
    → LookupOk c (found kind idx bound)
    → KindValid c kind idx
LookupOk-found (is_found v _ _) = v

-- What a key stands for is valid.
pub classify-KindValid :
    (c : Ctx) (key : Bytes) {kind : Kind} {idx bound : ℕ}
    → classify c (maxima c) key ≡ found kind idx bound
    → KindValid c kind idx
classify-KindValid c key h = LookupOk-found (rw h at (classify-LookupOk c key))
