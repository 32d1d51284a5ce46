-- ===== src/Hour/Store.antt =====
-- What the loop of `lastHour` over the stored points writes.
use esphome_gplug.Base.{
  ℕ, zero, suc, ◌+◌, ◌≤◌, ◌<◌, ◌≡◌, ◌≢◌, ◌⊎◌, refl, sym, ap, ◌∙◌, inl, inr, Option, none, some,
  List, arith, length, get_elem?,
}
use mathlib.Core.Path.{subst}
use native.Mathlib.Decide.{ℕ_discrete}
use esphome_gplug.Hour.{store_at, store_loop}
use esphome_gplug.Hour.Arrays.{length-set_elem, get-set_same, get-set_other}

module _ {V : Type 0} (minus : V → V → V) (known : ℕ → Option V) where
  length-store_at :
      (i : ℕ) (o : Option V) (acc : List (Option V) × ℕ)
      → length (store_at minus i o acc).0 ≡ length acc.0
  unfolding store_at
  length-store_at i none acc = refl
  length-store_at i (some v) acc = length-set_elem (acc.0) i (some v)

  pub length-store_loop :
      (n i : ℕ) (acc : List (Option V) × ℕ)
      → length (store_loop minus n i known acc).0 ≡ length acc.0
  unfolding store_loop
  length-store_loop zero i acc = refl
  length-store_loop (suc n) i acc =
      length-store_loop n (i + 1) (store_at minus i (known i) acc) ∙ length-store_at i (known i) acc

  -- What stands in a slot after the store has had its say.
  abbrev pub overlay : Option V → Option (Option V) → Option (Option V)
  overlay none old = old
  overlay (some v) old = some (some v)

  get-store_at_other :
      (i k : ℕ) (o : Option V) (acc : List (Option V) × ℕ)
      → k ≢ i
      → get_elem? (store_at minus i o acc).0 k ≡ get_elem? (acc.0) k
  unfolding store_at
  get-store_at_other i k none acc h = refl
  get-store_at_other i k (some v) acc h = get-set_other (acc.0) i k (some v) h

  get-store_at_same :
      (i : ℕ) (o : Option V) (acc : List (Option V) × ℕ)
      → i < length acc.0
      → get_elem? (store_at minus i o acc).0 i ≡ overlay o (get_elem? (acc.0) i)
  unfolding store_at
  get-store_at_same i none acc h = refl
  get-store_at_same i (some v) acc h = get-set_same (acc.0) i (some v) h

  pub store_loop_other :
      (n i : ℕ) (acc : List (Option V) × ℕ) (k : ℕ)
      → (k < i) ⊎ (i + n ≤ k)
      → get_elem? (store_loop minus n i known acc).0 k ≡ get_elem? (acc.0) k
  unfolding store_loop
  store_loop_other zero i acc k out = refl
  store_loop_other (suc n) i acc k out =
      store_loop_other n (i + 1) (store_at minus i (known i) acc) k (further out)
      ∙ get-store_at_other i k (known i) acc (apart out)
    where
      further : (k < i) ⊎ (i + suc n ≤ k) → (k < i + 1) ⊎ (i + 1 + n ≤ k)
      further (inl x) = inl (omega arith)
      further (inr x) = inr (omega arith)

      apart : (k < i) ⊎ (i + suc n ≤ k) → k ≢ i
      apart (inl x) = omega arith
      apart (inr x) = omega arith

  pub store_loop_known :
      (n i : ℕ) (acc : List (Option V) × ℕ) (k : ℕ)
      → i ≤ k
      → k < i + n
      → i + n ≤ length acc.0
      → get_elem? (store_loop minus n i known acc).0 k ≡ overlay (known k) (get_elem? (acc.0) k)
  unfolding store_loop
  store_loop_known zero i acc k low high l = absurd (omega arith)
  store_loop_known (suc n) i acc k low high l = elim (ℕ_discrete k i) [
    | yes same ↦
        store_loop_other n (i + 1) (store_at minus i (known i) acc) k (inl (omega arith))
        ∙ subst
            (λ (j : ℕ).
              get_elem? (store_at minus i (known i) acc).0 j
              ≡ overlay (known j) (get_elem? (acc.0) j))
            (sym same) (get-store_at_same i (known i) acc (omega arith))
    | no apart ↦
        store_loop_known n (i + 1) (store_at minus i (known i) acc) k (omega (arith, apart))
          (omega arith) (omega (arith, length-store_at i (known i) acc))
        ∙ ap (overlay (known k)) (get-store_at_other i k (known i) acc apart)
  ]

  abbrev one : Option V → ℕ
  one none = 0
  one (some v) = 1

  count-store_at :
      (i : ℕ) (o : Option V) (acc : List (Option V) × ℕ)
      → (store_at minus i o acc).1 ≡ acc.1 + one o
  unfolding store_at
  count-store_at i none acc = omega arith
  count-store_at i (some v) acc = refl

  -- How many of `n` slots from `i` on the store knows.
  abbrev pub count_known : ℕ → ℕ → ℕ
  count_known zero i = 0
  count_known (suc n) i = one (known i) + count_known n (i + 1)

  pub store_loop_count :
      (n i : ℕ) (acc : List (Option V) × ℕ)
      → (store_loop minus n i known acc).1 ≡ acc.1 + count_known n i
  unfolding store_loop
  store_loop_count zero i acc = omega arith
  store_loop_count (suc n) i acc = omega (
    arith,
    store_loop_count n (i + 1) (store_at minus i (known i) acc),
    count-store_at i (known i) acc,
  )
