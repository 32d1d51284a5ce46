-- ===== src/Template/Compile/Loop.antt =====
-- The loop of `compile` as a whole, and what a compiled template has from it.

use esphome_gplug.Base.{
  ℕ, zero, suc, ◌+◌, ◌≤◌, ◌<◌, ◌≡◌, refl, sym, ap, ◌∙◌, true, not, ◌&&◌, ◌||◌, inl, inr, [], ◌∷◌,
  ◌++◌, append-nil, append_assoc, arith, ltb, ◌==◌, Bool-cases, length, length-append, length-drop,
  length-take, take, drop, take-append-drop, take-append,
}
use esphome_gplug.Text.Utf8.{Bytes}
use esphome_gplug.Template.Data.{key_max, quote, lbr, rbr}
use esphome_gplug.Template.Keys.{Ctx, maxima, classify}
use esphome_gplug.Template.Keys.Valid.{classify-LookupOk}
use esphome_gplug.Template.Compile.{
  Scan, Round, stop, advance, key_span, closes, placeholder, round, starts_key, loop, Outcome,
  halted, finished, no_fuel,
}
use esphome_gplug.Template.Compile.Invariant.{Inv, RoundOk, literal-RoundOk, accept-RoundOk}

-- The key is a prefix of what follows the brace.
key_span-prefix : (after : Bytes) → key_span after ++ drop (length (key_span after)) after ≡ after
unfolding key_span
key_span-prefix [] = refl
key_span-prefix (b ∷ bs) =
    elim (Bool-cases (not (b == rbr) && (not (b == lbr) && (not (b == quote) && ltb 0x20 b)))) [
      | inl go ↦ rw go (ap (◌∷◌ b) (key_span-prefix bs))
      | inr end ↦ rw end refl
    ]

-- Where the key is closed, the bytes up to the brace are the key and the brace.
closed :
    (key rest after : Bytes)
    → key ++ rest ≡ after
    → closes rest ≡ true
    → (take (length key + 1) after ≡ key ++ rbr ∷ []) × (length key + 1 ≤ length after)
unfolding closes
closed key [] after e h = cc
closed key (b ∷ rest) after e h =
    let b_is : b ≡ rbr = ground arith in
    let whole : (key ++ rbr ∷ []) ++ rest ≡ after =
      append_assoc key (rbr ∷ []) rest ∙ ap (λ x. key ++ x ∷ rest) (sym b_is) ∙ e in
    (
      rw (← whole) (
          take-append (length key + 1) (key ++ rbr ∷ []) rest
            (omega (arith, length-append key (rbr ∷ [])))),
      omega (arith, ap length e, length-append key (b ∷ rest)),
    )

module _ (c : Ctx) where
  placeholder-RoundOk :
      (after : Bytes) (st : Scan) (read : Bytes)
      → Inv c read st
      → RoundOk c read (lbr ∷ after) (placeholder c (maxima c) after (length read) st)
  unfolding placeholder
  placeholder-RoundOk after st read v =
      let key = key_span after in
      elim (Bool-cases (closes (drop (length key) after))) [
        | inr open_ ↦ rw open_ refl
        | inl shut ↦ rw shut (
            let whole = closed key (drop (length key) after) after (key_span-prefix after) shut in
            elim (Bool-cases (ltb key_max (length key))) [
              | inl long ↦ rw long refl
              | inr fits ↦ rw fits (
                  accept-RoundOk c key after st read (classify c (maxima c) key) v whole.0 whole.1
                    refl (classify-LookupOk c key))
            ])
      ]

  round-RoundOk :
      (ch : ℕ) (after : Bytes) (st : Scan) (read : Bytes)
      → Inv c read st
      → RoundOk c read (ch ∷ after) (round c (maxima c) ch after (length read) st)
  unfolding round
  round-RoundOk ch after st read v = elim (Bool-cases (ch == 0)) [
    | inl nul ↦ rw nul refl
    | inr not_nul ↦ rw not_nul (elim (Bool-cases (not (ch == lbr) || not (starts_key after))) [
      | inl lit ↦ rw lit (literal-RoundOk c ch after st read v)
      | inr key ↦
          let e : ch ≡ lbr = ground arith in rw key (rw e (placeholder-RoundOk after st read v))
    ])
  ]

  -- With as much fuel as bytes, the loop stops at an error inside the bytes left, or reads them all.
  abbrev pub OutcomeOk : Bytes → Outcome → Type 0
  OutcomeOk all no_fuel = ⊥
  OutcomeOk all (halted code pos) = pos < length all
  OutcomeOk all (finished st) = Inv c all st

  -- Going on after a round, where the rest of the loop is known to be in order.
  continue_OutcomeOk :
      (fuel i ch : ℕ) (after read all : Bytes) (r : Round)
      → i ≡ length read
      → read ++ ch ∷ after ≡ all
      → length after ≤ fuel
      → RoundOk c read (ch ∷ after) r
      → ((n : ℕ) (st : Scan)
          → i + 1 + n ≡ length (read ++ take (suc n) (ch ∷ after))
          → (read ++ take (suc n) (ch ∷ after)) ++ drop n after ≡ all
          → length (drop n after) ≤ fuel
          → Inv c (read ++ take (suc n) (ch ∷ after)) st
          → OutcomeOk all (loop fuel c (maxima c) (drop n after) (i + 1 + n) st))
      → OutcomeOk all (elim r [
        | stop code pos ↦ halted code pos
        | advance n st' ↦ loop fuel c (maxima c) (drop n after) (i + 1 + n) st'
      ])
  continue_OutcomeOk fuel i ch after read all (stop code pos) at whole enough ok later =
      omega (arith, ap length whole, length-append read (ch ∷ after))
  continue_OutcomeOk fuel i ch after read all (advance n st) at whole enough (fits, inv) later =
      later n st
        (omega
          (arith, length-append read (take (suc n) (ch ∷ after)), length-take (suc n) (ch ∷ after)))
        (append_assoc read (take (suc n) (ch ∷ after)) (drop n after)
          ∙ ap (λ x. read ++ ch ∷ x) (take-append-drop n after)
          ∙ whole)
        (omega (arith, length-drop n after)) inv

  pub loop-OutcomeOk :
      (fuel i : ℕ) (rest read all : Bytes) (st : Scan)
      → i ≡ length read
      → read ++ rest ≡ all
      → length rest ≤ fuel
      → Inv c read st
      → OutcomeOk all (loop fuel c (maxima c) rest i st)
  unfolding loop
  loop-OutcomeOk zero i [] read all st at whole enough v = rw (← whole) (rw append-nil v)
  loop-OutcomeOk (suc fuel) i [] read all st at whole enough v = rw (← whole) (rw append-nil v)
  loop-OutcomeOk zero i (ch ∷ after) read all st at whole enough v = absurd (omega arith)
  loop-OutcomeOk (suc fuel) i (ch ∷ after) read all st at whole enough v =
      continue_OutcomeOk fuel i ch after read all (round c (maxima c) ch after i st) at whole
        (omega arith) (rw at (round-RoundOk ch after st read v))
        (λ n st' at' whole' enough' v'.
          loop-OutcomeOk fuel (i + 1 + n) (drop n after) (read ++ take (suc n) (ch ∷ after)) all st'
            at' whole' enough' v')
