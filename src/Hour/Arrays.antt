-- ===== src/Hour/Arrays.antt =====
-- Writing to an array, and cutting off its first nulls.
use esphome_gplug.Base.{
  ℕ, zero, suc, ◌+◌, ◌-◌, ◌≤◌, ◌<◌, ◌≡◌, ◌≢◌, ◌⊎◌, refl, ap, ◌∙◌, inl, inr, Option, none, some,
  List, [], ◌∷◌, arith, length, get_elem?, replicate,
}
use esphome_gplug.Hour.{set_elem, drop_nulls}

module _ {A : Type 0} where
  pub length-set_elem : (l : List A) (i : ℕ) (x : A) → length (set_elem l i x) ≡ length l
  length-set_elem [] i x = refl
  length-set_elem (a ∷ l) zero x = refl
  length-set_elem (a ∷ l) (suc i) x = ap suc (length-set_elem l i x)

  pub get-set_same :
      (l : List A) (i : ℕ) (x : A) → i < length l → get_elem? (set_elem l i x) i ≡ some x
  get-set_same [] i x h = absurd (omega arith)
  get-set_same (a ∷ l) zero x h = refl
  get-set_same (a ∷ l) (suc i) x h = get-set_same l i x (omega arith)

  pub get-set_other :
      (l : List A) (i k : ℕ) (x : A) → k ≢ i → get_elem? (set_elem l i x) k ≡ get_elem? l k
  get-set_other [] i k x h = refl
  get-set_other (a ∷ l) zero zero x h = absurd (h refl)
  get-set_other (a ∷ l) zero (suc k) x h = refl
  get-set_other (a ∷ l) (suc i) zero x h = refl
  get-set_other (a ∷ l) (suc i) (suc k) x h = get-set_other l i k x (λ e. h (ap suc e))

  pub get-replicate : (n k : ℕ) (a : A) → k < n → get_elem? (replicate n a) k ≡ some a
  get-replicate zero k a h = absurd (omega arith)
  get-replicate (suc n) zero a h = refl
  get-replicate (suc n) (suc k) a h = get-replicate n k a (omega arith)

none_cut : (a j : ℕ) → j ≡ suc a - suc a + j
none_cut a j = omega arith

shift : (a b j : ℕ) → b ≤ a → suc (a - b + j) ≡ suc a - b + j
shift a b j h = omega arith

module _ {V : Type 0} (minus : V → V → V) where
  pub length-drop_nulls : (l : List (Option V)) → length (drop_nulls minus l) ≤ length l
  unfolding drop_nulls
  length-drop_nulls [] = omega arith
  length-drop_nulls (none ∷ l) = omega (arith, length-drop_nulls l)
  length-drop_nulls (some v ∷ l) = omega arith

  pub get-drop_nulls :
      (l : List (Option V)) (j : ℕ)
      → get_elem? (drop_nulls minus l) j ≡ get_elem? l (length l - length (drop_nulls minus l) + j)
  unfolding drop_nulls
  get-drop_nulls [] j = refl
  get-drop_nulls (none ∷ l) j =
      get-drop_nulls l j
      ∙ ap (get_elem? (none ∷ l))
          (shift (length l) (length (drop_nulls minus l)) j (length-drop_nulls l))
  get-drop_nulls (some v ∷ l) j = ap (get_elem? (some v ∷ l)) (none_cut (length l) j)

  -- The first slot that is left is not null.
  pub head-drop_nulls :
      (l : List (Option V))
      → (length (drop_nulls minus l) ≡ 0)
        ⊎ ((v : V) × (get_elem? (drop_nulls minus l) 0 ≡ some (some v)))
  unfolding drop_nulls
  head-drop_nulls [] = inl refl
  head-drop_nulls (none ∷ l) = head-drop_nulls l
  head-drop_nulls (some v ∷ l) = inr (v, refl)

  -- A slot that is not null is not cut off.
  pub keeps-drop_nulls :
      (l : List (Option V)) (k : ℕ) (v : V)
      → get_elem? l k ≡ some (some v)
      → length l - length (drop_nulls minus l) ≤ k
  unfolding drop_nulls
  keeps-drop_nulls [] k v h = omega arith
  keeps-drop_nulls (none ∷ l) zero v h = absurd (ground arith)
  keeps-drop_nulls (none ∷ l) (suc k) v h = omega (arith, keeps-drop_nulls l k v h)
  keeps-drop_nulls (some w ∷ l) k v h = omega arith
