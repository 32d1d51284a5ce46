-- ===== src/Template/Render/Clean.antt =====
-- Wildcards and control bytes in a rendered topic.
use mathlib.Core.Option
use esphome_gplug.Base.{
  ℕ, ◌%◌, ◌^◌, ◌≤◌, ◌<◌, ◌≡◌, refl, sym, ◌∙◌, Bool, true, false, ◌⊎◌, inl, inr, Option, none, some,
  List, [], ◌∷◌, ◌++◌, map, append_assoc, arith, Bool-cases, length, length-append, get_or, All,
  All-append,
}
use esphome_gplug.Text.Utf8.{Text, Bytes, utf8, utf8_char, decode, codes}
use esphome_gplug.Text.Laws.{Plain, utf8-Plain, utf8-append, utf8_char-HighOrSelf}
use esphome_gplug.Text.Decimal.Length.{digits-Plain}
use esphome_gplug.Template.Data.{
  Esc, Fields, Snapshot, missing, Kind, lit, device, mac, meter, ts, iso, values, values_lp, i_name,
  i_obis, i_value, i_unit, val, unit, is_lit, Token, Template, compiled,
}
use esphome_gplug.Template.Escape.{esc_char, esc_str, esc_meter, meter_char}
use esphome_gplug.Template.Escape.Length.{esc_char_high}
use esphome_gplug.Template.Number.Plain.{num-Plain, iso-Plain}
use esphome_gplug.Template.Keys.Valid.{KindValid, classify-KindValid}
use esphome_gplug.Template.Compile.{compile}
use esphome_gplug.Template.Compile.Covers.{CleanByte, Literal, Placeholder, Covers}
use esphome_gplug.Template.Compile.Result.{ctx, compile-IsCompiled}
use esphome_gplug.Template.Compile.Tiles.{slice_is}
use esphome_gplug.Template.Render.{render_kind, shown_then, render_tokens, render, slice_of, get_at}

abbrev Clean : Bytes → Type 0
Clean = All CleanByte

high-Clean : (bs : Bytes) → All (λ b. 0x80 ≤ b) bs → Clean bs
high-Clean [] h = tt
high-Clean (b ∷ bs) h = (omega arith, high-Clean bs h.1)

-- A character that is escaped for a topic.
esc_char-low : (c : ℕ) → c < 0x80 → Clean (utf8 (esc_char c Esc.topic))
unfolding esc_char utf8
esc_char-low c h = ground arith

esc_char-high :
    (c : ℕ) → 0x80 ≤ c → All (λ b. 0x80 ≤ b) (utf8_char c) → Clean (utf8 (esc_char c Esc.topic))
unfolding utf8
esc_char-high c h high =
    rw (esc_char_high c Esc.topic h)
      (All-append CleanByte (utf8_char c) [] (high-Clean (utf8_char c) high) tt)

esc_str-Clean : (s : Text) → Clean (utf8 (esc_str s Esc.topic))
unfolding esc_str
esc_str-Clean [] = unfold utf8 in tt
esc_str-Clean (c ∷ s) = rw (utf8-append (esc_char c Esc.topic) (esc_str s Esc.topic)) (
    All-append CleanByte (utf8 (esc_char c Esc.topic)) _
      (elim (utf8_char-HighOrSelf c) [
        | inl low ↦ esc_char-low c low.0
        | inr high ↦ esc_char-high c high.0 high.1
      ])
      (esc_str-Clean s))

Plain-Clean : (s : Text) → All Plain s → Clean (utf8 s)
Plain-Clean s h = rw (utf8-Plain s h) (go s h)
  where
    go : (s : Text) → All Plain s → Clean s
    go [] h = tt
    go (c ∷ s) h = (omega arith, go s h.1)

decode-Clean : (b : Bytes) → Clean b → Clean (decode b)
unfolding decode
decode-Clean [] h = h
decode-Clean (x ∷ []) h = h
decode-Clean (x ∷ y ∷ []) h = h
decode-Clean (x ∷ y ∷ z ∷ rest) h = ground arith

-- What is shown, if it is shown at all, is clean.
abbrev CleanIf : Option Bytes → Type 0
CleanIf none = Unit
CleanIf (some b) = Clean b

esc_meter-Clean : (s : Text) → Clean (utf8 (esc_meter s Esc.topic))
unfolding esc_meter
esc_meter-Clean s = esc_str-Clean (map (meter_char Esc.topic) (utf8 s))

then-CleanIf : (o rest : Option Bytes) → CleanIf o → CleanIf rest → CleanIf (shown_then o rest)
unfolding shown_then
then-CleanIf none rest h k = tt
then-CleanIf (some a) none h k = tt
then-CleanIf (some a) (some b) h k = All-append CleanByte a b h k

map-CleanIf : (o : Option Text) → CleanIf (Option.map (λ s. utf8 (esc_str s Esc.topic)) o)
map-CleanIf none = tt
map-CleanIf (some s) = esc_str-Clean s

kind-CleanIf :
    (f : Fields) (s : Snapshot) (item : Option ℕ) (slice : Bytes) (idx : ℕ) (each : Bool)
    (kind : Kind)
    → Clean (utf8 f.mac)
    → s.epoch < 2 ^ 32
    → is_lit kind ≡ false
    → KindValid (ctx each true f) kind idx
    → CleanIf (render_kind true f s item slice idx kind)
unfolding render_kind
kind-CleanIf f s item slice idx each lit mac_clean clock h v = cc
kind-CleanIf f s item slice idx each device mac_clean clock h v = esc_str-Clean f.device
kind-CleanIf f s item slice idx each mac mac_clean clock h v = mac_clean
kind-CleanIf f s item slice idx each meter mac_clean clock h v = esc_meter-Clean s.smid
kind-CleanIf f s item slice idx each ts mac_clean clock h v =
    Plain-Clean _ (digits-Plain (s.epoch % 2 ^ 32))
kind-CleanIf f s item slice idx each iso mac_clean clock h v =
    Plain-Clean _ (iso-Plain s.epoch clock)
kind-CleanIf f s item slice idx each values mac_clean clock h v = absurd (ground arith)
kind-CleanIf f s item slice idx each values_lp mac_clean clock h v = absurd (ground arith)
kind-CleanIf f s item slice idx each i_name mac_clean clock h v = map-CleanIf _
kind-CleanIf f s item slice idx each i_obis mac_clean clock h v = map-CleanIf _
kind-CleanIf f s item slice idx each i_value mac_clean clock h v =
    Plain-Clean _ (num-Plain (get_at s.v item missing) (get_at f.prec item 0))
kind-CleanIf f s item slice idx each i_unit mac_clean clock h v = map-CleanIf _
kind-CleanIf f s item slice idx each val mac_clean clock h v =
    elim (Bool-cases (get_or s.have idx false)) [
      | inl there ↦
          rw there (Plain-Clean _ (num-Plain (get_or s.v idx missing) (get_or f.prec idx 0)))
      | inr absent ↦ rw absent (Plain-Clean (codes "null") (omega arith))
    ]
kind-CleanIf f s item slice idx each unit mac_clean clock h v = map-CleanIf _

module _ (each : Bool) (f : Fields) (s : Snapshot) (item : Option ℕ) (text : Bytes)
    (mac_clean : Clean (utf8 f.mac)) (clock : s.epoch < 2 ^ 32) where
  token-CleanIf :
      (t : Token) (q : Bytes)
      → slice_of text t ≡ q
      → Literal (ctx each true f) t q ⊎ Placeholder (ctx each true f) t q
      → CleanIf (render_kind true f s item (slice_of text t) t.idx t.key)
  token-CleanIf t q slice (inl l) =
      rw l.key_is (unfold render_kind in rw slice (decode-Clean q (l.clean refl)))
  token-CleanIf t q slice (inr p) =
      kind-CleanIf f s item (slice_of text t) t.idx each t.key mac_clean clock p.not_lit
        (classify-KindValid (ctx each true f) p.key p.known)

  cons-CleanIf :
      (t : Token) (rest : List Token)
      → CleanIf (render_kind true f s item (slice_of text t) t.idx t.key)
      → CleanIf (render_tokens true f s item text rest)
      → CleanIf (render_tokens true f s item text (t ∷ rest))
  unfolding render_tokens
  cons-CleanIf t rest h k = then-CleanIf _ (render_tokens true f s item text rest) h k

  tokens-CleanIf :
      (tok : List Token) (pre b : Bytes)
      → pre ++ b ≡ text
      → Covers (ctx each true f) tok (length pre) b
      → CleanIf (render_tokens true f s item text tok)
  tokens-CleanIf [] pre b e h = unfold render_tokens in tt
  tokens-CleanIf (t ∷ rest) pre b e (q, r, split, off, len, src, cov) =
      let whole : pre ++ (q ++ r) ≡ text = rw (← split) e in
      cons-CleanIf t rest (token-CleanIf t q (slice_is t pre q r text whole off len) src)
        (tokens-CleanIf rest (pre ++ q) r (append_assoc pre q r ∙ whole) (rw length-append cov))

-- Whatever the names, units, values and the meter's id are: a rendered topic holds no `+`, no `#`
-- and no byte below a blank, as long as the MAC address holds none and the clock has 32 bits.
pub render-Clean :
    (text : Text) (each : Bool) (f : Fields) (k : Template) (s : Snapshot) (item : Option ℕ)
    (b : Bytes)
    → compile text each true f ≡ compiled k
    → All CleanByte (utf8 f.mac)
    → s.epoch < 2 ^ 32
    → render k true f s item ≡ some b
    → All CleanByte b
unfolding render
render-Clean text each f k s item b h mac_clean clock shown =
    let v = compile-IsCompiled text each true f h in
    rw shown at (
      tokens-CleanIf each f s item k.text mac_clean clock k.tok [] (utf8 text) (sym v.text_is)
        v.covers)
