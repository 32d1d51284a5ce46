-- ===== src/Template/Compile.antt =====
-- The loop of `compile` in spa/src/live/mqtt-template.js, `compile` itself and `compileFixed`.
pub mod Covers
pub mod Invariant
pub mod Loop
pub mod Result
pub mod Tiles
pub mod Modes
use esphome_gplug.Base.{
  ℕ, zero, suc, ◌+◌, ◌-◌, ◌*◌, max, Bool, true, false, not, ◌&&◌, ◌||◌, Option, none, some, List,
  [], ◌∷◌, ◌++◌, map, ltb, leb, ◌==◌, if◌then◌else◌, length, drop, get_or, get_elem?,
}
use esphome_gplug.Text.Utf8.{Text, Bytes, codes, utf8, bytes_eq}
use esphome_gplug.Template.Data.{
  topic_tpl_max, payload_tpl_max, max_tokens, topic_buf, payload_buf, num_max, smid_max, key_max,
  quote, plus, hash, lbr, rbr, Esc, json, lp, Fields, Kind, lit, device, mac, meter, ts, iso,
  values, values_lp, i_name, i_obis, i_value, i_unit, val, unit, Token, is_lit, is_time, names_item,
  Code, tpl_too_long, tpl_empty, tpl_syntax, tpl_topic, tpl_unknown, tpl_context, tpl_overflow,
  Template, CompileResult, failed, compiled, diverged,
}
use esphome_gplug.Template.Escape.{esc_len}
use esphome_gplug.Template.Keys.{Ctx, Maxima, maxima, Lookup, refused, found, classify}

-- The variables of the loop.
pub record Scan : Type 0 where
  pub tok : List Token
  pub worst : ℕ
  pub uses_time : Bool
  pub item_topic : Bool

abbrev pub ends_at : Token → ℕ → Bool
ends_at t off = t.off + t.len == off

-- Whether `push` lengthens the last token.
unfoldable pub extends : List Token → Token → Bool
extends [] new = false
extends (t ∷ []) new = is_lit new.key && (is_lit t.key && ends_at t new.off)
extends (_ ∷ t ∷ rest) new = extends (t ∷ rest) new

unfoldable pub lengthen : List Token → ℕ → List Token
lengthen [] l = []
lengthen (t ∷ []) l = record t { len = t.len + l } ∷ []
lengthen (t ∷ u ∷ rest) l = t ∷ lengthen (u ∷ rest) l

-- `push`; `none` when the table of tokens is full.
unfoldable pub push : List Token → Token → Option (List Token)
unfolding extends lengthen
push tok new =
    if extends tok new
    then some (lengthen tok new.len)
    else if leb max_tokens (length tok)
    then none
    else some (tok ++ new ∷ [])

-- One round of the loop: an error at a position, or the variables after it and how many bytes it
-- has taken, less one.
pub data Round : Type 0 where
  stop : Code → ℕ → Round
  advance : ℕ → Scan → Round

-- Whether the byte after a brace is a lower case letter.
unfoldable pub starts_key : Bytes → Bool
starts_key [] = false
starts_key (d ∷ _) = leb 97 d && leb d 122

unfoldable pub literal : Ctx → ℕ → ℕ → Scan → Round
unfolding push
literal c ch i st =
    if c.topic && (ch == plus || (ch == hash || ltb ch 0x20))
    then stop tpl_topic i
    else elim (push st.tok (record { key = lit; idx = 0; off = i; len = 1 })) [
      | none ↦ stop tpl_too_long i
      | some tok ↦ advance 0 (record st { tok = tok; worst = st.worst + 1 })
    ]

-- The bytes of the key, up to a brace, a quote, a blank or a control byte.
unfoldable pub key_span : Bytes → Bytes
key_span [] = []
key_span (b ∷ bs) =
    if not (b == rbr) && (not (b == lbr) && (not (b == quote) && ltb 0x20 b))
    then b ∷ key_span bs
    else []

unfoldable pub closes : Bytes → Bool
closes [] = false
closes (b ∷ _) = b == rbr

-- What is done with a key that the tests accept; `kl` is its length.
unfoldable pub accept : Ctx → ℕ → ℕ → Scan → Lookup → Round
unfolding push
accept c i kl st (refused code) = stop code i
accept c i kl st (found kind idx bound) =
    elim (push st.tok (record { key = kind; idx = idx; off = i; len = kl + 2 })) [
      | none ↦ stop tpl_too_long i
      | some tok ↦ advance (kl + 1) (record {
        tok = tok;
        worst = st.worst + bound;
        uses_time = st.uses_time || is_time kind;
        item_topic = st.item_topic || (c.topic && names_item kind);
      })
    ]

unfoldable pub placeholder : Ctx → Maxima → Bytes → ℕ → Scan → Round
placeholder c m after i st =
    let key = key_span after in
    if not (closes (drop (length key) after))
    then stop tpl_syntax i
    else if ltb key_max (length key)
    then stop tpl_unknown i
    else accept c i (length key) st (classify c m key)

unfoldable pub round : Ctx → Maxima → ℕ → Bytes → ℕ → Scan → Round
round c m ch after i st =
    if ch == 0
    then stop tpl_syntax i
    else if not (ch == lbr) || not (starts_key after)
    then literal c ch i st
    else placeholder c m after i st

-- The loop, over the bytes from position `i` on.
pub data Outcome : Type 0 where
  halted : Code → ℕ → Outcome
  finished : Scan → Outcome
  no_fuel : Outcome

unfoldable pub loop : ℕ → Ctx → Maxima → Bytes → ℕ → Scan → Outcome
loop fuel c m [] i st = finished st
loop zero c m (ch ∷ after) i st = no_fuel
loop (suc fuel) c m (ch ∷ after) i st = elim (round c m ch after i st) [
  | stop code pos ↦ halted code pos
  | advance n st' ↦ loop fuel c m (drop n after) (i + 1 + n) st'
]

abbrev pub start : Scan
start = record { tok = []; worst = 0; uses_time = false; item_topic = false }

-- What follows the loop.
unfoldable pub conclude : Ctx → Bytes → Outcome → CompileResult
conclude c t no_fuel = diverged
conclude c t (halted code pos) = failed code pos 0
conclude c t (finished st) =
    if c.topic && (c.each && not st.item_topic)
    then failed tpl_topic 0 0
    else if ltb (if c.topic then topic_buf else payload_buf) (st.worst + 1)
    then failed tpl_overflow 0 st.worst
    else compiled (record { tok = st.tok; worst = st.worst; uses_time = st.uses_time; text = t })

-- `compile` of the bytes of a text.
unfoldable pub compile_bytes : Ctx → Bytes → CompileResult
compile_bytes c t =
    let len = length t in
    if ltb (if c.topic then topic_tpl_max else payload_tpl_max) len
    then failed tpl_too_long len 0
    else if len == 0
    then failed tpl_empty 0 0
    else conclude c t (loop len c (maxima c) t 0 start)

unfoldable pub compile : Text → Bool → Bool → Fields → CompileResult
compile text each topic f =
    compile_bytes (record { each = each; topic = topic; fields = f }) (utf8 text)

-- The first token that a fixed topic may not hold.
abbrev pub is_fixed : Kind → Bool
is_fixed lit = true
is_fixed device = true
is_fixed mac = true
is_fixed _ = false

unfoldable pub find_bad : List Token → Option Token
find_bad [] = none
find_bad (t ∷ rest) = if not (is_fixed t.key) then some t else find_bad rest

unfoldable pub fixed_result : CompileResult → CompileResult
unfolding find_bad
fixed_result (compiled t) = elim (find_bad t.tok) [
  | some bad ↦ failed tpl_context bad.off 0
  | none ↦ compiled t
]
fixed_result r = r

-- `compileFixed`.
unfoldable pub compile_fixed : Text → Fields → CompileResult
compile_fixed text f = fixed_result (compile text false true f)
