-- ===== src/Base/Search.antt =====
-- `filter`, `find` and `some` of a Boolean test.
use Prim.Native.Nat.{◌≤◌}
use mathlib.Core.Path.{◌≡◌, refl, ap}
use mathlib.Core.Bool.{Bool, true, false, ◌||◌}
use mathlib.Core.List.{List, [], ◌∷◌}
use mathlib.Core.Option.{Option, none, some}
use native.Mathlib.Omega.{arith}
use esphome_gplug.Base.Tests.{if◌then◌else◌, Bool-cases}
use esphome_gplug.Base.Lists.{length}
use mathlib.Core.Logic.{inl, inr}

module _ {ℓ} {A : Type ℓ} (p : A → Bool) where
  abbrev pub filter : List A → List A
  filter [] = []
  filter (x ∷ xs) = let rest = filter xs in if p x then x ∷ rest else rest

  abbrev pub find : List A → Option A
  find [] = none
  find (x ∷ xs) = let later = find xs in if p x then some x else later

  abbrev pub any : List A → Bool
  any [] = false
  any (x ∷ xs) = p x || any xs

  pub length-filter : (xs : List A) → length (filter xs) ≤ length xs
  length-filter [] = omega arith
  length-filter (x ∷ xs) = elim (Bool-cases (p x)) [
    | inl e ↦ rw e (omega (arith, length-filter xs))
    | inr e ↦ rw e (omega (arith, length-filter xs))
  ]

  -- A filter that drops nothing in number drops nothing.
  pub filter_whole : (xs : List A) → length (filter xs) ≡ length xs → filter xs ≡ xs
  filter_whole [] h = refl
  filter_whole (x ∷ xs) h = elim (Bool-cases (p x)) [
    | inl e ↦ rw e (ap (◌∷◌ x) (filter_whole xs (omega (arith, rw e at h))))
    | inr e ↦ absurd (omega (arith, rw e at h, length-filter xs))
  ]

  pub find-true : (xs : List A) (x : A) → find xs ≡ some x → p x ≡ true
  find-true [] x h = absurd (ground arith)
  find-true (y ∷ ys) x h = elim (Bool-cases (p y)) [
    | inl e ↦ ground (arith, rw e at h)
    | inr e ↦ find-true ys x (rw e at h)
  ]

  pub any-find : (xs : List A) → any xs ≡ true → (x : A) × (find xs ≡ some x)
  any-find [] h = absurd (ground arith)
  any-find (y ∷ ys) h = elim (Bool-cases (p y)) [
    | inl e ↦ rw e (y, refl)
    | inr e ↦ rw e (any-find ys (rw e at h))
  ]

module _ {ℓ} {A : Type ℓ} (p q : A → Bool) where
  -- What is found in a filtered list is found in the whole one.
  pub any-filter : (xs : List A) → any p (filter q xs) ≡ true → any p xs ≡ true
  any-filter [] h = h
  any-filter (x ∷ xs) h = elim (Bool-cases (p x)) [
    | inl e ↦ rw e refl
    | inr e ↦ rw e (any-filter xs (without x xs e h))
  ]
    where
      without :
          (x : A) (xs : List A)
          → p x ≡ false
          → any p (filter q (x ∷ xs)) ≡ true
          → any p (filter q xs) ≡ true
      without x xs e h = elim (Bool-cases (q x)) [ inl f ↦ rw e at (rw f at h) | inr f ↦ rw f at h ]
