-- ===== src/Template/Compile/Result.antt =====
-- What `compile` and `compileFixed` return.
use esphome_gplug.Base.{
  ℕ, ◌+◌, ◌≤◌, ◌<◌, ◌≡◌, refl, Bool, true, not, ◌&&◌, ◌⊎◌, inl, inr, [], arith, ltb, ◌==◌,
  if◌then◌else◌, Bool-cases, length,
}
use esphome_gplug.Text.Utf8.{Text, Bytes, utf8}
use esphome_gplug.Template.Data.{
  topic_tpl_max, payload_tpl_max, topic_buf, payload_buf, max_tokens, Code, Fields, is_time,
  names_item, Template, CompileResult, failed, compiled, diverged,
}
use esphome_gplug.Template.Keys.{Ctx}
use esphome_gplug.Template.Compile.{
  start, Outcome, halted, finished, no_fuel, conclude, compile_bytes, compile,
}
use esphome_gplug.Template.Compile.Covers.{Covers, total, any_key}
use esphome_gplug.Template.Compile.Invariant.{Inv}
use esphome_gplug.Template.Compile.Loop.{OutcomeOk, loop-OutcomeOk}

-- The sizes of the template and of the buffer that its rendering goes to.
abbrev pub tpl_limit : Bool → ℕ
tpl_limit topic = if topic then topic_tpl_max else payload_tpl_max

abbrev pub buf_limit : Bool → ℕ
buf_limit topic = if topic then topic_buf else payload_buf

-- A template that `compile` made of the bytes `t`.
pub record IsCompiled (c : Ctx) (t : Bytes) (k : Template) : Type 0 where
  pub text_is : k.text ≡ t
  pub covers : Covers c k.tok 0 t
  pub worst_is : k.worst ≡ total c k.tok
  pub few : length k.tok ≤ max_tokens
  pub time_is : k.uses_time ≡ any_key is_time k.tok
  pub item_is : c.topic ≡ true → c.each ≡ true → any_key names_item k.tok ≡ true
  pub small : length t ≤ tpl_limit c.topic
  pub fits : k.worst < buf_limit c.topic

abbrev pub ResultOk : Ctx → Bytes → CompileResult → Type 0
ResultOk c t diverged = ⊥
ResultOk c t (failed code pos worst) = pos ≤ length t
ResultOk c t (compiled k) = IsCompiled c t k

start-Inv : (c : Ctx) → Inv c [] start
start-Inv c = record {
  covers = refl;
  worst_is = refl;
  few = omega arith;
  time_is = refl;
  item_is = ground arith;
}

conclude-ResultOk :
    (c : Ctx) (t : Bytes) (o : Outcome)
    → length t ≤ tpl_limit c.topic
    → OutcomeOk c t o
    → ResultOk c t (conclude c t o)
unfolding conclude
conclude-ResultOk c t no_fuel small ok = ok
conclude-ResultOk c t (halted code pos) small ok = omega arith
conclude-ResultOk c t (finished st) small v =
    elim (Bool-cases (c.topic && (c.each && not st.item_topic))) [
      | inl same ↦ rw same (omega arith)
      | inr apart ↦ rw apart (elim (Bool-cases (ltb (buf_limit c.topic) (st.worst + 1))) [
        | inl over ↦ rw over (omega arith)
        | inr within ↦ rw within (record {
          text_is = refl;
          covers = v.covers;
          worst_is = v.worst_is;
          few = v.few;
          time_is = v.time_is;
          item_is = λ h k. ground (arith, v.item_is);
          small = small;
          fits = ground arith;
        })
      ])
    ]

compile_bytes-ResultOk : (c : Ctx) (t : Bytes) → ResultOk c t (compile_bytes c t)
unfolding compile_bytes
compile_bytes-ResultOk c t = elim (Bool-cases (ltb (tpl_limit c.topic) (length t))) [
  | inl long ↦ rw long (omega arith)
  | inr short ↦ rw short (elim (Bool-cases (length t == 0)) [
    | inl empty ↦ rw empty (omega arith)
    | inr filled ↦ rw filled (
        conclude-ResultOk c t _ (ground arith)
          (loop-OutcomeOk c (length t) 0 t [] t start refl refl (omega arith) (start-Inv c)))
  ])
]

abbrev pub ctx : Bool → Bool → Fields → Ctx
ctx each topic f = record { each = each; topic = topic; fields = f }

pub compile-ResultOk :
    (text : Text) (each topic : Bool) (f : Fields)
    → ResultOk (ctx each topic f) (utf8 text) (compile text each topic f)
unfolding compile
compile-ResultOk text each topic f = compile_bytes-ResultOk (ctx each topic f) (utf8 text)

pub compile-IsCompiled :
    (text : Text) (each topic : Bool) (f : Fields) {k : Template}
    → compile text each topic f ≡ compiled k
    → IsCompiled (ctx each topic f) (utf8 text) k
compile-IsCompiled text each topic f h = rw h at (compile-ResultOk text each topic f)

-- For every text, mode and register table, the loop ends: either a template comes back, or an error
-- whose position is at most the length of the text in bytes.
pub compile_returns :
    (text : Text) (each topic : Bool) (f : Fields)
    → ((k : Template) × (compile text each topic f ≡ compiled k))
      ⊎ ((code : Code) × (pos : ℕ) × (worst : ℕ) × (compile text each topic f
            ≡ failed code pos worst)
          × (pos ≤ length (utf8 text)))
compile_returns text each topic f =
    go (compile text each topic f) refl (compile-ResultOk text each topic f)
  where
    go :
        (r : CompileResult)
        → compile text each topic f ≡ r
        → ResultOk (ctx each topic f) (utf8 text) r
        → ((k : Template) × (compile text each topic f ≡ compiled k))
          ⊎ ((code : Code) × (pos : ℕ) × (worst : ℕ) × (compile text each topic f
                ≡ failed code pos worst)
              × (pos ≤ length (utf8 text)))
    go diverged e ok = absurd ok
    go (failed code pos worst) e ok = inr (code, pos, worst, e, ok)
    go (compiled k) e ok = inl (k, e)
