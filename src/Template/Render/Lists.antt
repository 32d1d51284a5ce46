-- ===== src/Template/Render/Lists.antt =====
-- The room for `{values}` and `{values_lp}`.
use esphome_gplug.Base.{
  ℕ, zero, suc, ◌+◌, ◌≤◌, ◌<◌, ◌≡◌, refl, true, false, inl, inr, List, [], ◌∷◌, ◌++◌, arith,
  Bool-cases, length, length-append, get_or, All,
}
use esphome_gplug.Text.Utf8.{Text, utf8}
use esphome_gplug.Text.Laws.{utf8-append, utf8-Plain, utf8_char-ascii}
use esphome_gplug.Template.Data.{num_max, Esc, json, lp, Fields, Value, missing, Snapshot}
use esphome_gplug.Template.Escape.{esc_len, esc_str}
use esphome_gplug.Template.Escape.Length.{length-esc_str}
use esphome_gplug.Template.Number.{num}
use esphome_gplug.Template.Number.Length.{IsDouble, num-le-num_max}
use esphome_gplug.Template.Number.Plain.{num-Plain}
use esphome_gplug.Template.Keys.{Ctx, esc_of, Maxima, widen, register_bounds, no_registers, maxima}
use esphome_gplug.Template.Keys.Registers.{Below-widen}
use esphome_gplug.Template.Render.{item_ok, list_entry, list_entries, join_comma, value_list}

-- What the entries of a list take, with a comma for each.
abbrev list_room : List Text → ℕ
list_room [] = 0
list_room (x ∷ xs) = length (utf8 x) + 1 + list_room xs

length-utf8-cons : (c : ℕ) (s : Text) → c < 0x80 → length (utf8 (c ∷ s)) ≡ suc (length (utf8 s))
unfolding utf8
length-utf8-cons c s h = rw (utf8_char-ascii c h) refl

length-utf8-nil : length (utf8 []) ≡ 0
unfolding utf8
length-utf8-nil = refl

length-join_comma : (xs : List Text) → length (utf8 (join_comma xs)) ≤ list_room xs
unfolding join_comma
length-join_comma [] = unfold utf8 in omega arith
length-join_comma (x ∷ []) = omega arith
length-join_comma (x ∷ y ∷ rest) = rw (utf8-append x (b',' ∷ join_comma (y ∷ rest))) (
    omega (
      arith,
      length-append (utf8 x) (utf8 (b',' ∷ join_comma (y ∷ rest))),
      length-utf8-cons b',' (join_comma (y ∷ rest)) (omega arith),
      length-join_comma (y ∷ rest),
    ))

pub get_or-IsDouble : (vs : List Value) (i : ℕ) → All IsDouble vs → IsDouble (get_or vs i missing)
get_or-IsDouble [] i h = tt
get_or-IsDouble (v ∷ vs) zero h = h.0
get_or-IsDouble (v ∷ vs) (suc i) h = get_or-IsDouble vs i h.1

pub length-utf8-num : (v : Value) (prec : ℕ) → IsDouble v → length (utf8 (num v prec)) ≤ num_max
length-utf8-num v prec h = rw (utf8-Plain (num v prec) (num-Plain v prec)) (num-le-num_max v prec h)

item_ok-number :
    (f : Fields) (s : Snapshot) (i : ℕ) → item_ok f s i ≡ true → get_or f.string i false ≡ false
unfolding item_ok
item_ok-number f s i h = ground arith

widen_values :
    (f : Fields) (e : Esc) (i : ℕ) (n : Text) (m : Maxima)
    → get_or f.string i false ≡ false
    → ((widen f e i n m).values ≡ m.values + (1 + esc_len (utf8 n) json + 3 + num_max))
      × ((widen f e i n m).values_lp ≡ m.values_lp + (1 + esc_len (utf8 n) lp + 1 + num_max))
unfolding widen
widen_values f e i n m h = rw h (refl, refl)

module _ (f : Fields) (s : Snapshot) (doubles : All IsDouble s.v) where
  entry_room :
      (i : ℕ) (n : Text)
      → (length (utf8 (list_entry false f s i n)) ≤ esc_len (utf8 n) json + 3 + num_max)
        × (length (utf8 (list_entry true f s i n)) ≤ esc_len (utf8 n) lp + 1 + num_max)
  unfolding list_entry
  entry_room i n =
      let v = num (get_or s.v i missing) (get_or f.prec i 0) in
      let short =
        length-utf8-num (get_or s.v i missing) (get_or f.prec i 0)
          (get_or-IsDouble s.v i doubles) in
      (
        rw (length-utf8-cons b'"' (esc_str n json ++ (b'"' ∷ b':' ∷ v)) (omega arith)) (
            rw (utf8-append (esc_str n json) (b'"' ∷ b':' ∷ v)) (
              omega (
                arith,
                length-append (utf8 (esc_str n json)) (utf8 (b'"' ∷ b':' ∷ v)),
                length-utf8-cons b'"' (b':' ∷ v) (omega arith),
                length-utf8-cons b':' v (omega arith),
                length-esc_str n json,
                short,
              ))),
        rw (utf8-append (esc_str n lp) (b'=' ∷ v)) (
            omega (
              arith,
              length-append (utf8 (esc_str n lp)) (utf8 (b'=' ∷ v)),
              length-utf8-cons b'=' v (omega arith),
              length-esc_str n lp,
              short,
            )),
      )

  entries_room :
      (e : Esc) (i : ℕ) (names : List Text) (m : Maxima)
      → (m.values + list_room (list_entries false f s i names)
          ≤ (register_bounds f e i names m).values)
        × (m.values_lp + list_room (list_entries true f s i names)
            ≤ (register_bounds f e i names m).values_lp)
  unfolding list_entries register_bounds
  entries_room e i [] m = omega arith
  entries_room e i (n ∷ rest) m =
      let later = entries_room e (suc i) rest (widen f e i n m) in
      let one = entry_room i n in
      elim (Bool-cases (item_ok f s i)) [
        | inl there ↦
            rw there
              (let wider = widen_values f e i n m (item_ok-number f s i there) in omega arith)
        | inr absent ↦ rw absent (omega (arith, Below-widen f e i n m))
      ]

-- `{values}` and `{values_lp}` take no more than the room counted for them before the loop.
pub value_list_room :
    (c : Ctx) (s : Snapshot)
    → All IsDouble s.v
    → (length (utf8 (b'{' ∷ (value_list false c.fields s ++ b'}' ∷ []))) ≤ (maxima c).values)
      × (length (utf8 (value_list true c.fields s)) ≤ (maxima c).values_lp)
unfolding value_list maxima
value_list_room c s doubles =
    let room = entries_room c.fields s doubles (esc_of c) 0 c.fields.names no_registers in
    let json_list = list_entries false c.fields s 0 c.fields.names in
    let braced = length-utf8-cons b'{' (join_comma json_list ++ b'}' ∷ []) (omega arith) in
    (
      rw braced (
          rw (utf8-append (join_comma json_list) (b'}' ∷ [])) (
            omega (
              arith,
              length-append (utf8 (join_comma json_list)) (utf8 (b'}' ∷ [])),
              length-utf8-cons b'}' [] (omega arith),
              length-utf8-nil,
              length-join_comma json_list,
            ))),
      omega (arith, length-join_comma (list_entries true c.fields s 0 c.fields.names)),
    )
