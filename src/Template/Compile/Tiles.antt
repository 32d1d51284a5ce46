-- ===== src/Template/Compile/Tiles.antt =====
-- The tokens of a template and its text.
use mathlib.Core.List.{flat_map}
use esphome_gplug.Base.{
  ◌≡◌, refl, sym, ◌∙◌, Bool, List, [], ◌∷◌, ◌++◌, append_assoc, length, length-append, take-append,
  drop-append,
}
use esphome_gplug.Text.Utf8.{Text, Bytes, utf8}
use esphome_gplug.Template.Data.{Fields, Token, Template, compiled}
use esphome_gplug.Template.Keys.{Ctx}
use esphome_gplug.Template.Compile.{compile}
use esphome_gplug.Template.Compile.Covers.{Covers}
use esphome_gplug.Template.Compile.Result.{ctx, compile-IsCompiled}
use esphome_gplug.Template.Render.{slice_of}

pub slice_is :
    (t : Token) (pre q r text : Bytes)
    → pre ++ (q ++ r) ≡ text
    → t.off ≡ length pre
    → t.len ≡ length q
    → slice_of text t ≡ q
slice_is t pre q r text e off len =
    rw (← e) (rw (drop-append t.off pre (q ++ r) off) (take-append t.len q r len))

slices-Covers :
    (c : Ctx) (tok : List Token) (pre b text : Bytes)
    → pre ++ b ≡ text
    → Covers c tok (length pre) b
    → flat_map (slice_of text) tok ≡ b
unfolding flat_map
slices-Covers c [] pre b text e h = sym h
slices-Covers c (t ∷ rest) pre b text e (q, r, split, off, len, src, cov) =
    let whole : pre ++ (q ++ r) ≡ text = rw (← split) e in
    let here = slice_is t pre q r text whole off len in
    let later =
      slices-Covers c rest (pre ++ q) r text (append_assoc pre q r ∙ whole)
        (rw length-append cov) in
    rw (here, later) (sym split)

-- For every compiled template, the slices of the text that its tokens stand for, one after the
-- other, are the whole text: no byte is left out and none is read twice.
pub slices-compile :
    (text : Text) (each topic : Bool) (f : Fields) (k : Template)
    → compile text each topic f ≡ compiled k
    → flat_map (slice_of k.text) k.tok ≡ utf8 text
slices-compile text each topic f k h =
    let v = compile-IsCompiled text each topic f h in
    rw v.text_is (slices-Covers (ctx each topic f) k.tok [] (utf8 text) (utf8 text) refl v.covers)
