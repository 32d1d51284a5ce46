-- ===== src/Template/Compile/Invariant.antt =====
-- The invariant of the loop of `compile`: where the tokens lie in the bytes read, how the worst case
-- comes from their rooms, and what the flags say.
use esphome_gplug.Base.{
  ℕ, suc, ◌+◌, ◌≤◌, ◌<◌, ◌≡◌, refl, sym, ◌∙◌, true, false, ◌&&◌, ◌||◌, ◌⊎◌, inl, inr, some, List,
  [], ◌∷◌, ◌++◌, arith, ltb, ◌==◌, Bool-cases, Option-cases, length, length-append, take,
}
use esphome_gplug.Text.Utf8.{Bytes}
use esphome_gplug.Template.Data.{
  max_tokens, plus, hash, lbr, rbr, Kind, lit, is_lit, is_time, names_item, Token,
}
use esphome_gplug.Template.Keys.{Ctx, maxima, Lookup, refused, found, classify}
use esphome_gplug.Template.Keys.Valid.{kind_bound, LookupOk, is_found}
use esphome_gplug.Template.Compile.{
  Scan, extends, lengthen, push, Round, stop, advance, literal, accept,
}
use esphome_gplug.Template.Compile.Covers.{
  CleanByte, Covers, total, any_key, Covers-snoc, Covers-lengthen, total-snoc, total-lengthen,
  any_key-snoc, any_key-lengthen, length-lengthen,
}

pub record Inv (c : Ctx) (read : Bytes) (st : Scan) : Type 0 where
  pub covers : Covers c st.tok 0 read
  pub worst_is : st.worst ≡ total c st.tok
  pub few : length st.tok ≤ max_tokens
  pub time_is : st.uses_time ≡ any_key is_time st.tok
  pub item_is : st.item_topic ≡ c.topic && any_key names_item st.tok

-- What `push` gives, when there is room.
push-cases :
    (tok : List Token) (new : Token) {tok' : List Token}
    → push tok new ≡ some tok'
    → ((extends tok new ≡ true) × (tok' ≡ lengthen tok new.len))
      ⊎ ((length tok < max_tokens) × (tok' ≡ tok ++ new ∷ []))
unfolding push
push-cases tok new h = ground arith

extends-is_lit : (tok : List Token) (new : Token) → extends tok new ≡ true → is_lit new.key ≡ true
unfolding extends
extends-is_lit [] new h = cc
extends-is_lit (t ∷ []) new h = ground arith
extends-is_lit (t ∷ u ∷ rest) new h = extends-is_lit (u ∷ rest) new h

abbrev lit_token : ℕ → Token
lit_token i = record { key = lit; idx = 0; off = i; len = 1 }

module _ (c : Ctx) where
  push_lit-Inv :
      (ch : ℕ) (st : Scan) (tok' : List Token) (read : Bytes)
      → Inv c read st
      → push st.tok (lit_token (length read)) ≡ some tok'
      → (c.topic ≡ true → CleanByte ch)
      → Inv c (read ++ ch ∷ []) (record st { tok = tok'; worst = st.worst + 1 })
  push_lit-Inv ch st tok' read v e k = elim (push-cases st.tok (lit_token (length read)) e) [
    | inl (x, t) ↦ record {
      covers = rw t (Covers-lengthen c st.tok _ 0 read ch v.covers x k);
      worst_is = rw t (omega (arith, v.worst_is, total-lengthen c st.tok _ 1 x));
      few = rw t (omega (arith, v.few, length-lengthen st.tok 1));
      time_is = rw t (v.time_is ∙ sym (any_key-lengthen is_time st.tok 1));
      item_is = rw t (rw any_key-lengthen v.item_is);
    }
    | inr (room, t) ↦ record {
      covers = rw t (
          Covers-snoc c st.tok 0 read (lit_token (length read)) (ch ∷ []) v.covers (omega arith)
            refl (inl (record { key_is = refl; not_empty = omega arith; clean = λ h. (k h, tt) })));
      worst_is =
          rw t
            (omega (arith, v.worst_is, total-snoc c st.tok (lit_token (length read)), lit_bound));
      few = rw t (omega (arith, length-append st.tok (lit_token (length read) ∷ [])));
      time_is =
          rw t (ground (arith, v.time_is, any_key-snoc is_time st.tok (lit_token (length read))));
      item_is =
          rw t
            (ground (arith, v.item_is, any_key-snoc names_item st.tok (lit_token (length read))));
    }
  ]
    where
      lit_bound : kind_bound c lit 0 1 ≡ 1
      lit_bound = unfold kind_bound in refl

  -- The round stops where it began, or takes bytes that are there and keeps the invariant.
  abbrev pub RoundOk : Bytes → Bytes → Round → Type 0
  RoundOk read rest (stop code pos) = pos ≡ length read
  RoundOk read rest (advance n st') = (suc n ≤ length rest) × Inv c (read ++ take (suc n) rest) st'

  pub literal-RoundOk :
      (ch : ℕ) (after : Bytes) (st : Scan) (read : Bytes)
      → Inv c read st
      → RoundOk read (ch ∷ after) (literal c ch (length read) st)
  unfolding literal
  literal-RoundOk ch after st read v =
      elim (Bool-cases (c.topic && (ch == plus || (ch == hash || ltb ch 0x20)))) [
        | inl bad ↦ rw bad refl
        | inr good ↦ rw good (elim (Option-cases (push st.tok (lit_token (length read)))) [
          | inl full ↦ rw full refl
          | inr (tok', e) ↦ rw e (omega arith, push_lit-Inv ch st tok' read v e (λ t. ground arith))
        ])
      ]

  abbrev key_token : ℕ → Bytes → Kind → ℕ → Token
  key_token i key kind idx = record { key = kind; idx = idx; off = i; len = length key + 2 }

  push_key-Inv :
      (key : Bytes) (st : Scan) (tok' : List Token) (kind : Kind) (idx bound : ℕ) (read : Bytes)
      → Inv c read st
      → classify c (maxima c) key ≡ found kind idx bound
      → is_lit kind ≡ false
      → ((len : ℕ) → bound ≡ kind_bound c kind idx len)
      → push st.tok (key_token (length read) key kind idx) ≡ some tok'
      → Inv c (read ++ lbr ∷ (key ++ rbr ∷ [])) (record {
        tok = tok';
        worst = st.worst + bound;
        uses_time = st.uses_time || is_time kind;
        item_topic = st.item_topic || (c.topic && names_item kind);
      })
  push_key-Inv key st tok' kind idx bound read v known not_lit room e =
      let new = key_token (length read) key kind idx in
      elim (push-cases st.tok new e) [
        | inl (x, t) ↦ absurd (ground (arith, extends-is_lit st.tok new x))
        | inr (few, t) ↦ record {
          covers = rw t (
              Covers-snoc c st.tok 0 read new (lbr ∷ (key ++ rbr ∷ [])) v.covers (omega arith)
                (omega (arith, length-append key (rbr ∷ [])))
                (inr (record {
                  key = key;
                  bound = bound;
                  spelled = refl;
                  known = known;
                  not_lit = not_lit;
                })));
          worst_is =
              rw t (omega (arith, v.worst_is, total-snoc c st.tok new, room (length key + 2)));
          few = rw t (omega (arith, length-append st.tok (new ∷ [])));
          time_is = rw t (ground (arith, v.time_is, any_key-snoc is_time st.tok new));
          item_is = rw t (ground (arith, v.item_is, any_key-snoc names_item st.tok new));
        }
      ]

  pub accept-RoundOk :
      (key after : Bytes) (st : Scan) (read : Bytes) (l : Lookup)
      → Inv c read st
      → take (length key + 1) after ≡ key ++ rbr ∷ []
      → length key + 1 ≤ length after
      → classify c (maxima c) key ≡ l
      → LookupOk c l
      → RoundOk read (lbr ∷ after) (accept c (length read) (length key) st l)
  unfolding accept
  accept-RoundOk key after st read (refused code) v whole fits e ok = refl
  accept-RoundOk key after st read (found kind idx bound) v whole fits e
        (is_found valid not_lit room) =
      elim (Option-cases (push st.tok (key_token (length read) key kind idx))) [
        | inl full ↦ rw (full, RoundOk, accept) refl
        | inr (tok', pushed) ↦
            rw (pushed, RoundOk, accept)
              (
                omega arith,
                rw whole (push_key-Inv key st tok' kind idx bound read v e not_lit room pushed),
              )
      ]
