-- ===== src/Template/Render/Fits.antt =====
-- The rendering of a compiled template and the room that `compile` has counted for it.
use esphome_gplug.Base.{
  ℕ, ◌+◌, ◌≤◌, ◌≡◌, refl, sym, ap, ap₂, ◌∙◌, Bool, ◌⊎◌, inl, inr, Option, some, List, [], ◌∷◌, ◌++◌,
  append_assoc, arith, length, length-append,
}
use esphome_gplug.Text.Utf8.{Text, Bytes, utf8, decode}
use esphome_gplug.Template.Data.{Fields, Snapshot, Token, Template, compiled}
use esphome_gplug.Template.Keys.{Ctx}
use esphome_gplug.Template.Keys.Valid.{IsTable, kind_bound, classify-KindValid}
use esphome_gplug.Template.Compile.{compile}
use esphome_gplug.Template.Compile.Covers.{Literal, Placeholder, Covers, total}
use esphome_gplug.Template.Compile.Result.{ctx, buf_limit, compile-IsCompiled}
use esphome_gplug.Template.Compile.Tiles.{slice_is}
use esphome_gplug.Template.Render.{render_kind, shown_then, render_tokens, render, slice_of}
use esphome_gplug.Template.Render.Room.{IsSnapshot, IsItem, Fits, length-decode, kind_room}

module _ (c : Ctx) (s : Snapshot) (item : Option ℕ) (text : Bytes) (table : IsTable c.fields)
    (ok : IsSnapshot s) (it : IsItem c item) where
  token_room :
      (t : Token) (q : Bytes)
      → slice_of text t ≡ q
      → t.len ≡ length q
      → Literal c t q ⊎ Placeholder c t q
      → Fits
          (render_kind c.topic c.fields s item (slice_of text t) t.idx t.key)
          (kind_bound c t.key t.idx t.len)
  token_room t q slice len (inl l) = rw l.key_is (
      unfold render_kind kind_bound in
      (
        decode (slice_of text t),
        refl,
        omega (arith, length-decode (slice_of text t), ap length slice),
      ))
  token_room t q slice len (inr p) =
      kind_room c s table ok (slice_of text t) t.idx t.len item t.key it p.not_lit
        (classify-KindValid c p.key p.known)

  Fits-cons :
      (t : Token) (rest : List Token) {m n : ℕ}
      → Fits (render_kind c.topic c.fields s item (slice_of text t) t.idx t.key) m
      → Fits (render_tokens c.topic c.fields s item text rest) n
      → Fits (render_tokens c.topic c.fields s item text (t ∷ rest)) (m + n)
  unfolding render_tokens shown_then
  Fits-cons t rest (b, e, le) (d, e', le') =
      (b ++ d, ap₂ shown_then e e', omega (arith, length-append b d))

  tokens_room :
      (tok : List Token) (pre b : Bytes)
      → pre ++ b ≡ text
      → Covers c tok (length pre) b
      → Fits (render_tokens c.topic c.fields s item text tok) (total c tok)
  tokens_room [] pre b e h = ([], unfold render_tokens in refl, omega arith)
  tokens_room (t ∷ rest) pre b e (q, r, split, off, len, src, cov) =
      let whole : pre ++ (q ++ r) ≡ text = rw (← split) e in
      let here = token_room t q (slice_is t pre q r text whole off len) len src in
      let later =
        tokens_room rest (pre ++ q) r (append_assoc pre q r ∙ whole) (rw length-append cov) in
      Fits-cons t rest here later

-- For every compiled template, snapshot of the device's values and, in the mode "each", register
-- that is no string: `render` does not throw, and the rendering takes at most `worst` bytes, which
-- with the closing NUL fits the buffer for topics or for payloads.
pub render_fits :
    (text : Text) (each topic : Bool) (f : Fields) (k : Template) (s : Snapshot) (item : Option ℕ)
    → compile text each topic f ≡ compiled k
    → IsTable f
    → IsSnapshot s
    → IsItem (ctx each topic f) item
    → (b : Bytes) × (render k topic f s item ≡ some b)
      × (length b ≤ k.worst)
      × (length b + 1 ≤ buf_limit topic)
unfolding render
render_fits text each topic f k s item h table ok it =
    let c = ctx each topic f in
    let v = compile-IsCompiled text each topic f h in
    let whole =
      tokens_room c s item k.text table ok it k.tok [] (utf8 text) (sym v.text_is) v.covers in
    (
      whole.0,
      whole.1,
      omega (arith, whole.2, v.worst_is),
      omega (arith, whole.2, v.worst_is, v.fits),
    )
