-- ===== src/Template/Keys/Registers.antt =====
-- The bounds over the registers, at one register.
use esphome_gplug.Base.{
  ℕ, zero, suc, ◌+◌, ◌≤◌, ◌<◌, ◌≡◌, false, List, [], ◌∷◌, arith, length, get_or,
}
use esphome_gplug.Text.Utf8.{Text, utf8}
use esphome_gplug.Template.Data.{Esc, Fields}
use esphome_gplug.Template.Escape.{esc_len}
use esphome_gplug.Template.Keys.{Ctx, esc_of, Maxima, widen, register_bounds, no_registers, maxima}

abbrev pub Below : Maxima → Maxima → Type 0
Below m n =
    (m.max_name ≤ n.max_name)
    × (m.max_obis ≤ n.max_obis)
    × (m.max_unit ≤ n.max_unit)
    × (m.values ≤ n.values)
    × (m.values_lp ≤ n.values_lp)

abbrev pub Bounds : Fields → Esc → ℕ → Text → Maxima → Type 0
Bounds f e i name m =
    (esc_len (utf8 name) e ≤ m.max_name)
    × (esc_len (utf8 (get_or f.obis i [])) e ≤ m.max_obis)
    × (esc_len (utf8 (get_or f.units i [])) e ≤ m.max_unit)

module _ (f : Fields) (e : Esc) where
  pub Below-widen : (i : ℕ) (name : Text) (m : Maxima) → Below m (widen f e i name m)
  unfolding widen
  Below-widen i name m = ground arith

  Below-register_bounds :
      (i : ℕ) (names : List Text) (m : Maxima) → Below m (register_bounds f e i names m)
  unfolding register_bounds
  Below-register_bounds i [] m = omega arith
  Below-register_bounds i (name ∷ rest) m =
      omega (arith, Below-widen i name m, Below-register_bounds (suc i) rest (widen f e i name m))

  Bounds-widen :
      (i : ℕ) (name : Text) (m : Maxima)
      → get_or f.string i false ≡ false
      → Bounds f e i name (widen f e i name m)
  unfolding widen
  Bounds-widen i name m h = rw h (omega arith)

  -- The register `j` places behind `i`.
  Bounds-register_bounds :
      (i j : ℕ) (names : List Text) (m : Maxima)
      → j < length names
      → get_or f.string (i + j) false ≡ false
      → Bounds f e (i + j) (get_or names j []) (register_bounds f e i names m)
  unfolding register_bounds
  Bounds-register_bounds i j [] m lt h = absurd (omega arith)
  Bounds-register_bounds i zero (name ∷ rest) m lt h =
      let at : i + 0 ≡ i = omega arith in
      let here = Bounds-widen i name m (rw at at h) in
      rw at (omega (arith, here, Below-register_bounds (suc i) rest (widen f e i name m)))
  Bounds-register_bounds i (suc j) (name ∷ rest) m lt h =
      let at : i + suc j ≡ suc i + j = omega arith in
      rw at (Bounds-register_bounds (suc i) j rest (widen f e i name m) (omega arith) (rw at at h))

-- Every register that is no string fits the bounds of its name, abbreviation and unit.
pub Bounds-maxima :
    (c : Ctx) (i : ℕ)
    → i < length c.fields.names
    → get_or c.fields.string i false ≡ false
    → Bounds c.fields (esc_of c) i (get_or c.fields.names i []) (maxima c)
unfolding maxima
Bounds-maxima c i lt h =
    let at : 0 + i ≡ i = omega arith in
    rw at at (
      Bounds-register_bounds c.fields (esc_of c) 0 i c.fields.names no_registers lt
        (rw (← at) at h))
