-- ===== src/Hour/Slots.antt =====
-- What stands in the slots of the last hour.
use esphome_gplug.Base.{
  ℕ, ◌+◌, ◌-◌, ◌≤◌, ◌<◌, ◌≡◌, ◌⊎◌, refl, sym, ap, ◌∙◌, inl, inr, min, Option, none, some, List,
  arith, length, get_elem?, replicate, length-replicate,
}
use mathlib.Core.Path.{subst}
use native.Mathlib.Decide.{dec_lt}
use esphome_gplug.Hour.{ring_loop, store_loop, drop_nulls}
use esphome_gplug.Hour.Arrays.{
  get-replicate, length-drop_nulls, get-drop_nulls, head-drop_nulls, keeps-drop_nulls,
}
use esphome_gplug.Hour.Ring.{FromRing, length-ring_loop, ring_loop_other, ring_loop_written}
use esphome_gplug.Hour.Store.{overlay, length-store_loop, store_loop_other, store_loop_known}

module _ {V : Type 0} (minus : V → V → V) (samples : List (V × V)) (slots : ℕ) where
  abbrev pub covered : ℕ
  covered = min (length samples) slots

  abbrev pub from_ring : List (Option V)
  from_ring = ring_loop minus covered 0 samples (replicate slots none)

  -- The slots of the window, before the leading nulls are cut off: the newest ones come from the ring,
  -- the others from `known`.
  pub record IsWindow (known : ℕ → Option V) (vals : List (Option V)) : Type 0 where
    pub whole : length vals ≡ slots
    pub old : (k : ℕ) → k + min (length samples) slots < slots → get_elem? vals k ≡ some (known k)
    pub recent :
        (k : ℕ)
        → k < slots
        → slots ≤ k + min (length samples) slots
        → FromRing minus samples slots k vals

  pub ring-IsWindow : IsWindow (λ k. none) from_ring
  ring-IsWindow = record {
    whole = length-ring_loop minus samples covered 0 blank (omega arith) ∙ size;
    old = λ k h.
        ring_loop_other minus samples covered 0 blank k (omega arith) (omega (arith, size))
          (inl (omega (arith, size)))
        ∙ get-replicate slots k none (omega arith);
    recent = λ k h l.
        subst (λ (n : ℕ). FromRing minus samples n k from_ring) size
          (ring_loop_written minus samples covered 0 blank k (omega arith) (omega (arith, size))
            (omega (arith, size)) (omega (arith, size)));
  }
    where
      blank : List (Option V)
      blank = replicate slots none

      size : length blank ≡ slots
      size = length-replicate slots none

  overlay_null : (o : Option V) → overlay minus (λ i. o) o (some none) ≡ some o
  overlay_null none = refl
  overlay_null (some v) = refl

  pub store-IsWindow :
      (known : ℕ → Option V) (vals : List (Option V))
      → IsWindow (λ k. none) vals
      → IsWindow known (store_loop minus (slots - min (length samples) slots) 0 known (vals, 0)).0
  store-IsWindow known vals w = record {
    whole = length-store_loop minus known n 0 (vals, 0) ∙ w.whole;
    old = λ k h.
        store_loop_known minus known n 0 (vals, 0) k (omega arith) (omega arith)
          (omega (arith, w.whole))
        ∙ ap (overlay minus known (known k)) (w.old k h)
        ∙ overlay_null (known k);
    recent = λ k h l.
        let r = w.recent k h l in
        record {
          sample = r.sample;
          there = r.there;
          written = store_loop_other minus known n 0 (vals, 0) k (inr (omega arith)) ∙ r.written;
        };
  }
    where
      n : ℕ
      n = slots - min (length samples) slots

  pub null-IsWindow :
      (known : ℕ → Option V) (vals : List (Option V))
      → ((k : ℕ) → k + min (length samples) slots < slots → known k ≡ none)
      → IsWindow (λ k. none) vals
      → IsWindow known vals
  null-IsWindow known vals null w = record {
    whole = w.whole;
    old = λ k h. w.old k h ∙ ap some (sym (null k h));
    recent = w.recent;
  }

  -- The result, after the leading nulls are cut off: slot `j` is the one of the window that is as far
  -- from its end.
  pub record IsHour (known : ℕ → Option V) (vals : List (Option V)) : Type 0 where
    pub not_longer : length vals ≤ slots
    pub ring_kept : min (length samples) slots ≤ length vals
    pub starts : (length vals ≡ 0) ⊎ ((v : V) × (get_elem? vals 0 ≡ some (some v)))
    pub old :
        (j : ℕ)
        → slots - length vals + j + min (length samples) slots < slots
        → get_elem? vals j ≡ some (known (slots - length vals + j))
    pub recent :
        (j : ℕ)
        → j < length vals
        → slots ≤ slots - length vals + j + min (length samples) slots
        → (s : V × V) × (get_elem? samples (length samples + j - length vals) ≡ some s)
          × (get_elem? vals j ≡ some (some (minus (s.0) (s.1))))

  pub window-IsHour :
      (known : ℕ → Option V) (vals : List (Option V))
      → IsWindow known vals
      → IsHour known (drop_nulls minus vals)
  window-IsHour known vals w = record {
    not_longer = omega (arith, shorter, w.whole);
    ring_kept = kept (dec_lt 0 (min (length samples) slots));
    starts = head-drop_nulls minus vals;
    old = λ j h.
        get-drop_nulls minus vals j ∙ ap (get_elem? vals) (place j) ∙ w.old (slots - n + j) h;
    recent = λ j h l.
        let r = w.recent (slots - n + j) (omega (arith, shorter, w.whole)) l in
        (
          r.sample,
          ap (get_elem? samples) (sample_place j) ∙ r.there,
          get-drop_nulls minus vals j ∙ ap (get_elem? vals) (place j) ∙ r.written,
        );
  }
    where
      n : ℕ
      n = length (drop_nulls minus vals)

      shorter : length (drop_nulls minus vals) ≤ length vals
      shorter = length-drop_nulls minus vals

      place : (j : ℕ) → length vals - n + j ≡ slots - n + j
      place j = omega (arith, w.whole)

      sample_place : (j : ℕ) → length samples + j - n ≡ length samples + (slots - n + j) - slots
      sample_place j = omega (arith, shorter, w.whole)

      kept : Dec (0 < min (length samples) slots) → min (length samples) slots ≤ n
      kept (no none_there) = omega (arith, none_there)
      kept (yes some_there) =
          let r = w.recent (slots - min (length samples) slots) (omega arith) (omega arith) in
          let cut = keeps-drop_nulls minus vals (slots - min (length samples) slots) _ r.written in
          omega (arith, cut, shorter, w.whole)
