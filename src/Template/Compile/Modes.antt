-- ===== src/Template/Compile/Modes.antt =====
-- Which keys a compiled template holds, by its mode and its use.
use esphome_gplug.Base.{
  ℕ, ◌+◌, ◌≡◌, refl, Bool, true, false, ◌||◌, ◌⊎◌, inl, inr, List, [], ◌∷◌, length,
}
use esphome_gplug.Text.Utf8.{Text, Bytes, utf8}
use esphome_gplug.Template.Data.{
  Fields, Kind, values, values_lp, i_name, i_obis, i_value, i_unit, is_time, names_item, Token,
  Template, compiled,
}
use esphome_gplug.Template.Keys.{Ctx}
use esphome_gplug.Template.Keys.Valid.{KindValid, classify-KindValid}
use esphome_gplug.Template.Compile.{compile}
use esphome_gplug.Template.Compile.Covers.{Literal, Placeholder, Covers, any_key}
use esphome_gplug.Template.Compile.Result.{ctx, compile-IsCompiled}

-- The keys that list all registers, and those about one register.
abbrev pub is_list : Kind → Bool
is_list values = true
is_list values_lp = true
is_list _ = false

abbrev pub is_item : Kind → Bool
is_item i_name = true
is_item i_obis = true
is_item i_value = true
is_item i_unit = true
is_item _ = false

valid_list :
    (c : Ctx) (k : Kind) (idx : ℕ)
    → KindValid c k idx
    → is_list k ≡ true
    → (c.each ≡ false) × (c.topic ≡ false)
valid_list c values idx v h = v
valid_list c values_lp idx v h = v
valid_list c _ idx v h = cc

valid_item : (c : Ctx) (k : Kind) (idx : ℕ) → KindValid c k idx → is_item k ≡ true → c.each ≡ true
valid_item c i_name idx v h = v
valid_item c i_obis idx v h = v
valid_item c i_value idx v h = v
valid_item c i_unit idx v h = v
valid_item c _ idx v h = cc

both : {A : Type 0} (x y : Bool) → (x ≡ true → A) → (y ≡ true → A) → x || y ≡ true → A
both true y f g h = f refl
both false y f g h = g h

module _ (c : Ctx) where
  token_modes :
      (t : Token) (q : Bytes)
      → Literal c t q ⊎ Placeholder c t q
      → (is_list t.key ≡ true → (c.each ≡ false) × (c.topic ≡ false))
        × (is_item t.key ≡ true → c.each ≡ true)
  token_modes t q (inl l) = rw l.key_is ((λ h. cc), (λ h. cc))
  token_modes t q (inr p) =
      let v = classify-KindValid c p.key p.known in
      (valid_list c t.key t.idx v, valid_item c t.key t.idx v)

  Covers-modes :
      (tok : List Token) (o : ℕ) (b : Bytes)
      → Covers c tok o b
      → (any_key is_list tok ≡ true → (c.each ≡ false) × (c.topic ≡ false))
        × (any_key is_item tok ≡ true → c.each ≡ true)
  Covers-modes [] o b h = ((λ e. cc), (λ e. cc))
  Covers-modes (t ∷ rest) o b (q, r, split, off, len, src, cov) =
      let here = token_modes t q src in
      let later = Covers-modes rest (o + length q) r cov in
      (both (is_list t.key) _ here.0 later.0, both (is_item t.key) _ here.1 later.1)

-- A compiled template lists all registers only in the mode "period" and outside a topic, has keys
-- about one register only in the mode "each", has one that tells the registers apart if it is the
-- topic of that mode, and is marked as reading the clock exactly when one of its keys does.
pub compile_modes :
    (text : Text) (each topic : Bool) (f : Fields) (k : Template)
    → compile text each topic f ≡ compiled k
    → (any_key is_list k.tok ≡ true → (each ≡ false) × (topic ≡ false))
      × (any_key is_item k.tok ≡ true → each ≡ true)
      × (topic ≡ true → each ≡ true → any_key names_item k.tok ≡ true)
      × (k.uses_time ≡ any_key is_time k.tok)
compile_modes text each topic f k h =
    let v = compile-IsCompiled text each topic f h in
    let modes = Covers-modes (ctx each topic f) k.tok 0 (utf8 text) v.covers in
    (modes.0, modes.1, v.item_is, v.time_is)
