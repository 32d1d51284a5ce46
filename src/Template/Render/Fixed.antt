-- ===== src/Template/Render/Fixed.antt =====
-- The status and availability topics, rendered.
use esphome_gplug.Base.{
  ℕ, ◌≡◌, refl, ap₂, Bool, true, false, inl, inr, Option, none, List, [], ◌∷◌, arith, Bool-cases,
  Option-cases, All,
}
use esphome_gplug.Text.Utf8.{Text, Bytes}
use esphome_gplug.Template.Data.{
  Fields, Snapshot, Kind, lit, device, mac, Token, Template, CompileResult, failed, compiled,
  diverged,
}
use esphome_gplug.Template.Compile.{compile, compile_fixed, fixed_result, find_bad, is_fixed}
use esphome_gplug.Template.Render.{render_kind, shown_then, render_tokens, render, slice_of}

abbrev pub AllFixed : List Token → Type 0
AllFixed = All (λ (t : Token). is_fixed t.key ≡ true)

find_bad-AllFixed : (tok : List Token) → find_bad tok ≡ none → AllFixed tok
unfolding find_bad
find_bad-AllFixed [] h = tt
find_bad-AllFixed (t ∷ rest) h = elim (Bool-cases (is_fixed t.key)) [
  | inl good ↦ (good, find_bad-AllFixed rest (rw good at h))
  | inr bad ↦ absurd (ground (arith, rw bad at h))
]

fixed_result-AllFixed :
    (r : CompileResult) {k : Template}
    → fixed_result r ≡ compiled k
    → (r ≡ compiled k) × AllFixed k.tok
unfolding fixed_result
fixed_result-AllFixed (failed code pos worst) h = cc
fixed_result-AllFixed diverged h = cc
fixed_result-AllFixed (compiled t) {k} h = elim (Option-cases (find_bad t.tok)) [
  | inl good ↦
      let e : compiled t ≡ compiled k = rw (good, fixed_result) at h in
      let same : t ≡ k = cc in (e, rw (← same) (find_bad-AllFixed t.tok good))
  | inr (bad, e) ↦ absurd (ground arith)
]

render_kind-fixed :
    (topic : Bool) (f : Fields) (s s' : Snapshot) (item item' : Option ℕ) (slice : Bytes) (idx : ℕ)
    (kind : Kind)
    → is_fixed kind ≡ true
    → render_kind topic f s item slice idx kind ≡ render_kind topic f s' item' slice idx kind
unfolding render_kind
render_kind-fixed topic f s s' item item' slice idx lit h = refl
render_kind-fixed topic f s s' item item' slice idx device h = refl
render_kind-fixed topic f s s' item item' slice idx mac h = refl
render_kind-fixed topic f s s' item item' slice idx _ h = cc

render_tokens-fixed :
    (topic : Bool) (f : Fields) (s s' : Snapshot) (item item' : Option ℕ) (text : Bytes)
    (tok : List Token)
    → AllFixed tok
    → render_tokens topic f s item text tok ≡ render_tokens topic f s' item' text tok
unfolding render_tokens
render_tokens-fixed topic f s s' item item' text [] h = refl
render_tokens-fixed topic f s s' item item' text (t ∷ rest) h =
    let here = render_kind-fixed topic f s s' item item' (slice_of text t) t.idx t.key h.0 in
    let later = render_tokens-fixed topic f s s' item item' text rest h.1 in
    ap₂ shown_then here later

-- A topic that `compileFixed` accepts is one that `compile` accepts as a topic of the mode "period",
-- and it renders to the same bytes from every snapshot and for every register.
pub render-compile_fixed :
    (text : Text) (f : Fields) (k : Template) (s s' : Snapshot) (item item' : Option ℕ)
    → compile_fixed text f ≡ compiled k
    → (compile text false true f ≡ compiled k) × (render k true f s item ≡ render k true f s' item')
unfolding compile_fixed render
render-compile_fixed text f k s s' item item' h =
    let (same, fixed) = fixed_result-AllFixed (compile text false true f) h in
    (same, render_tokens-fixed true f s s' item item' k.text k.tok fixed)
