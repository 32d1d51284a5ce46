-- ===== src/Live/Mqtt/Preview.antt =====
-- The preview of the MQTT card: whether it comes, and the room of its messages.
use esphome_gplug.Base.{
  ℕ, suc, ◌+◌, ◌^◌, ◌≤◌, ◌<◌, ◌≡◌, refl, ap, ap₂, ◌∙◌, min, take, length-take, Bool, true, false,
  Bool-cases, Option, some, List, [], ◌∷◌, ◌++◌, map, filter, length, get_or, All, All-take, inl,
  inr, arith,
}
use mathlib.Core.Option
use esphome_gplug.Text.Utf8.{Text, Bytes, utf8, bytes_eq}
use esphome_gplug.Template.Data.{Fields, Value, missing, Snapshot, Template, compiled, smid_max}
use esphome_gplug.Template.Compile.{compile}
use esphome_gplug.Template.Compile.Result.{ctx}
use esphome_gplug.Template.Keys.Valid.{IsTable}
use esphome_gplug.Template.Number.Length.{IsDouble}
use esphome_gplug.Template.Render.{item_ok}
use esphome_gplug.Template.Render.Room.{IsSnapshot, IsItem}
use esphome_gplug.Template.Render.Fits.{render_fits}
use esphome_gplug.Live.Mqtt.{
  value_of, snapshot_of, indices, preview_items, preview_message, glued, joined, preview,
}

-- The registers that a preview may name.
abbrev IsNumber : Fields → ℕ → Type 0
IsNumber f i = (i < length f.names) × (get_or f.string i false ≡ false)

indices-lt :
    (n i : ℕ) (names : List Text) → i + length names ≡ n → All (λ k. k < n) (indices i names)
unfolding indices
indices-lt n i [] h = tt
indices-lt n i (x ∷ rest) h = (omega arith, indices-lt n (suc i) rest (omega arith))

no_string :
    (f : Fields) (s : Snapshot) (i : ℕ) → item_ok f s i ≡ true → get_or f.string i false ≡ false
unfolding item_ok
no_string f s i h = ground arith

filter-IsNumber :
    (f : Fields) (s : Snapshot) (l : List ℕ)
    → All (λ k. k < length f.names) l
    → All (IsNumber f) (filter (item_ok f s) l)
filter-IsNumber f s [] h = tt
filter-IsNumber f s (i ∷ rest) (here, there) = elim (Bool-cases (item_ok f s i)) [
  | inl ok ↦ rw ok ((here, no_string f s i ok), filter-IsNumber f s rest there)
  | inr other ↦ rw other (filter-IsNumber f s rest there)
]

-- An item that either template may be rendered for.
abbrev IsFor : Bool → Fields → Option ℕ → Type 0
IsFor each f i = IsItem (ctx each true f) i × IsItem (ctx each false f) i

number-IsFor : (f : Fields) (l : List ℕ) → All (IsNumber f) l → All (IsFor true f) (map some l)
number-IsFor f [] h = tt
number-IsFor f (i ∷ rest) ((lt, number), there) =
    ((λ e. (i, refl, lt, number), λ e. (i, refl, lt, number)), number-IsFor f rest there)

items-IsFor :
    (each : Bool) (f : Fields) (s : Snapshot) → All (IsFor each f) (preview_items each f s)
unfolding preview_items
items-IsFor true f s = number-IsFor f _ (
    All-take (IsNumber f) 3 (filter (item_ok f s) (indices 0 f.names)) (
      filter-IsNumber f s (indices 0 f.names)
        (indices-lt (length f.names) 0 f.names (omega arith))))
items-IsFor false f s = ((λ e. absurd (ground arith), λ e. absurd (ground arith)), tt)

-- Messages, each a topic and a payload, as the card shows them: a line break between the two, and a
-- blank line between messages.
abbrev pub preview_text : List (Bytes × Bytes) → Bytes
preview_text [] = []
preview_text (m ∷ []) = m.0 ++ (10 ∷ m.1)
preview_text (m ∷ x ∷ rest) = (m.0 ++ (10 ∷ m.1)) ++ (10 ∷ 10 ∷ preview_text (x ∷ rest))

-- A message in the room for its templates.
abbrev pub IsShort : Template → Template → Bytes × Bytes → Type 0
IsShort t p m = (length m.0 ≤ t.worst) × (length m.1 ≤ p.worst)

module _ (each : Bool) (topic payload : Text) (t p : Template) (f : Fields) (s : Snapshot) where
  -- The messages for some items.
  IsShown : List (Option ℕ) → Option Bytes → Type 0
  IsShown l o =
      (ms : List (Bytes × Bytes)) × (o ≡ some (preview_text ms))
      × (length ms ≡ length l)
      × All (IsShort t p) ms

  message-Short :
      compile topic each true f ≡ compiled t
      → compile payload each false f ≡ compiled p
      → IsTable f
      → IsSnapshot s
      → (i : Option ℕ) → IsFor each f i
      → (m : Bytes × Bytes) × (preview_message t p f s i ≡ some (m.0 ++ (10 ∷ m.1))) × IsShort t p m
  unfolding preview_message glued
  message-Short ct cp table snap i (it, ip) =
      let (a, e, le, _) = render_fits topic each true f t s i ct table snap it in
      let (b, g, lt, _) = render_fits payload each false f p s i cp table snap ip in
      ((a, b), ap₂ (glued (10 ∷ [])) e g, (le, lt))

  messages-Shown :
      compile topic each true f ≡ compiled t
      → compile payload each false f ≡ compiled p
      → IsTable f
      → IsSnapshot s
      → (l : List (Option ℕ)) → All (IsFor each f) l
      → IsShown l (joined (map (preview_message t p f s) l))
  unfolding joined glued IsShown
  messages-Shown ct cp table snap [] h = ([], refl, refl, tt)
  messages-Shown ct cp table snap (i ∷ []) (here, _) =
      let (m, e, short) = message-Short ct cp table snap i here in (m ∷ [], e, refl, (short, tt))
  messages-Shown ct cp table snap (i ∷ j ∷ rest) (here, there) =
      let (m, e, short) = message-Short ct cp table snap i here in
      let (ms, g, same, shorts) = messages-Shown ct cp table snap (j ∷ rest) there in
      longer m ms e g same (short, shorts)
    where
      longer :
          (m : Bytes × Bytes) (ms : List (Bytes × Bytes))
          → preview_message t p f s i ≡ some (m.0 ++ (10 ∷ m.1))
          → joined (map (preview_message t p f s) (j ∷ rest)) ≡ some (preview_text ms)
          → length ms ≡ suc (length rest)
          → All (IsShort t p) (m ∷ ms)
          → IsShown (i ∷ j ∷ rest) (
              glued
                (10 ∷ 10 ∷ [])
                (preview_message t p f s i)
                (joined (map (preview_message t p f s) (j ∷ rest))))
      longer m [] e g same shorts = absurd (omega arith)
      longer m (x ∷ ms) e g same shorts =
          (m ∷ x ∷ ms, ap₂ (glued (10 ∷ 10 ∷ [])) e g, ap suc same, shorts)

-- That the values that the page has polled are numbers as JSON gives them.
abbrev pub AreDoubles : List (Text × Value) → Type 0
AreDoubles values = All (λ (x : Text × Value). IsDouble (x.1)) values

value_of-IsDouble :
    (values : List (Text × Value)) (n : Text)
    → AreDoubles values
    → IsDouble (Option.get_or (value_of values n) missing)
unfolding value_of
value_of-IsDouble [] n h = tt
value_of-IsDouble ((name, v) ∷ rest) n (here, there) = elim (Bool-cases (bytes_eq n name)) [
  | inl hit ↦ rw hit here
  | inr miss ↦ rw miss (value_of-IsDouble rest n there)
]

values-IsDouble :
    (values : List (Text × Value)) (names : List Text)
    → AreDoubles values
    → All IsDouble (map (λ n. Option.get_or (value_of values n) missing) names)
values-IsDouble values [] h = tt
values-IsDouble values (n ∷ rest) h = (value_of-IsDouble values n h, values-IsDouble values rest h)

length-map : {A B : Type 0} (g : A → B) (l : List A) → length (map g l) ≡ length l
length-map g [] = refl
length-map g (a ∷ l) = ap suc (length-map g l)

-- How many messages a preview has: one, or one for each register that has a value, at most three.
abbrev pub count : Bool → Fields → Snapshot → ℕ
count true f s = min 3 (length (filter (item_ok f s) (indices 0 f.names)))
count false f s = 1

length-preview_items :
    (each : Bool) (f : Fields) (s : Snapshot) → length (preview_items each f s) ≡ count each f s
unfolding preview_items
length-preview_items true f s =
    let l = filter (item_ok f s) (indices 0 f.names) in length-map some (take 3 l) ∙ length-take 3 l
length-preview_items false f s = refl

-- When both templates of the draft compile, the values that were polled are doubles, the clock has 32
-- bits and the meter's id at most 39 bytes, the preview comes, without an exception: it is one message,
-- or in the mode for each register one for each number that has a value, but no more than three; each
-- is a topic and a payload below it, no longer than the worst case that is shown for its template.
pub preview_fits :
    (each : Bool) (topic payload : Text) (t p : Template) (f : Fields)
    (values : List (Text × Value)) (smid : Text) (epoch : ℕ)
    → compile topic each true f ≡ compiled t
    → compile payload each false f ≡ compiled p
    → IsTable f
    → AreDoubles values
    → epoch < 2 ^ 32
    → length (utf8 smid) ≤ smid_max
    → let s = snapshot_of f values smid epoch in
      (ms : List (Bytes × Bytes)) × (preview each t p f s ≡ some (preview_text ms))
      × (length ms ≡ count each f s)
      × All (IsShort t p) ms
unfolding preview snapshot_of IsShown
preview_fits each topic payload t p f values smid epoch ct cp table doubles clock short_id =
    let s = snapshot_of f values smid epoch in
    let snap : IsSnapshot s = record {
      doubles = values-IsDouble values f.names doubles;
      clock = clock;
      short_id = short_id;
    } in
    let (ms, e, same, shorts) =
      messages-Shown each topic payload t p f s ct cp table snap (preview_items each f s)
        (items-IsFor each f s) in
    (ms, e, same ∙ length-preview_items each f s, shorts)
