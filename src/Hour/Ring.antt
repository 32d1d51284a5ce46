-- ===== src/Hour/Ring.antt =====
-- What the loop of `lastHour` over the ring writes.
use esphome_gplug.Base.{
  ℕ, zero, suc, ◌+◌, ◌-◌, ◌≤◌, ◌<◌, ◌≡◌, ◌≢◌, ◌⊎◌, refl, sym, ap, ◌∙◌, inl, inr, Option, some, List,
  arith, length, get_elem?, get_elem?-lt,
}
use mathlib.Core.Path.{subst}
use native.Mathlib.Decide.{dec_lt}
use esphome_gplug.Hour.{set_elem, ring_loop}
use esphome_gplug.Hour.Arrays.{length-set_elem, get-set_same, get-set_other}

module _ {V : Type 0} (minus : V → V → V) (samples : List (V × V)) where
  -- Slot `k` of `size` ones holds the sample that is as far from the newest one.
  pub record FromRing (size k : ℕ) (new : List (Option V)) : Type 0 where
    pub sample : V × V
    pub there : get_elem? samples (length samples + k - size) ≡ some sample
    pub written : get_elem? new k ≡ some (some (minus (sample.0) (sample.1)))

  write : V × V → ℕ → List (Option V) → List (Option V)
  write s i vals = set_elem vals (length vals - 1 - i) (some (minus (s.0) (s.1)))

  length-write :
      (s : V × V) (i : ℕ) (vals : List (Option V)) → length (write s i vals) ≡ length vals
  unfolding write
  length-write s i vals = length-set_elem vals (length vals - 1 - i) (some (minus (s.0) (s.1)))

  ring_step :
      (n i : ℕ) (vals : List (Option V)) (s : V × V)
      → get_elem? samples (length samples - 1 - i) ≡ some s
      → ring_loop minus (suc n) i samples vals ≡ ring_loop minus n (i + 1) samples (write s i vals)
  unfolding ring_loop write
  ring_step n i vals s e = rw (e, ring_loop) refl

  sample_at :
      (i : ℕ)
      → i < length samples
      → (s : V × V) × (get_elem? samples (length samples - 1 - i) ≡ some s)
  sample_at i h = get_elem?-lt samples (length samples - 1 - i) (omega arith)

  pub length-ring_loop :
      (n i : ℕ) (vals : List (Option V))
      → i + n ≤ length samples
      → length (ring_loop minus n i samples vals) ≡ length vals
  unfolding ring_loop
  length-ring_loop zero i vals h = refl
  length-ring_loop (suc n) i vals h =
      let (s, e) = sample_at i (omega arith) in
      ap length (ring_step n i vals s e)
      ∙ length-ring_loop n (i + 1) (write s i vals) (omega arith)
      ∙ length-write s i vals

  pub ring_loop_other :
      (n i : ℕ) (vals : List (Option V)) (k : ℕ)
      → i + n ≤ length samples
      → i + n ≤ length vals
      → (k + (i + n) < length vals) ⊎ (length vals ≤ k + i)
      → get_elem? (ring_loop minus n i samples vals) k ≡ get_elem? vals k
  unfolding ring_loop write
  ring_loop_other zero i vals k h l out = refl
  ring_loop_other (suc n) i vals k h l out =
      let (s, e) = sample_at i (omega arith) in
      let same = length-write s i vals in
      ap (λ (a : List (Option V)). get_elem? a k) (ring_step n i vals s e)
      ∙ ring_loop_other n (i + 1) (write s i vals) k (omega arith) (omega (arith, same))
          (outside s same out)
      ∙ get-set_other vals (length vals - 1 - i) k (some (minus (s.0) (s.1))) (apart out)
    where
      apart : (k + (i + suc n) < length vals) ⊎ (length vals ≤ k + i) → k ≢ length vals - 1 - i
      apart (inl x) = omega arith
      apart (inr x) = omega arith

      outside :
          (s : V × V)
          → length (write s i vals) ≡ length vals
          → (k + (i + suc n) < length vals) ⊎ (length vals ≤ k + i)
          → (k + (i + 1 + n) < length (write s i vals)) ⊎ (length (write s i vals) ≤ k + (i + 1))
      outside s same (inl x) = inl (omega arith)
      outside s same (inr x) = inr (omega arith)

  -- The slot that round `i` writes.
  ring_loop_first :
      (n i : ℕ) (vals : List (Option V)) (k : ℕ) (s : V × V)
      → get_elem? samples (length samples - 1 - i) ≡ some s
      → i + suc n ≤ length samples
      → i + suc n ≤ length vals
      → k ≡ length vals - 1 - i
      → FromRing (length vals) k (ring_loop minus n (i + 1) samples (write s i vals))
  unfolding write
  ring_loop_first n i vals k s e h l at = record {
    sample = s;
    there = ap (get_elem? samples) same_place ∙ e;
    written =
        ring_loop_other n (i + 1) (write s i vals) k (omega arith)
          (omega (arith, length-write s i vals)) (inr (omega (arith, length-write s i vals)))
        ∙ ap (get_elem? (write s i vals)) at
        ∙ get-set_same vals (length vals - 1 - i) (some (minus (s.0) (s.1))) (omega arith);
  }
    where
      same_place : length samples + k - length vals ≡ length samples - 1 - i
      same_place = omega arith

  pub ring_loop_written :
      (n i : ℕ) (vals : List (Option V)) (k : ℕ)
      → i + n ≤ length samples
      → i + n ≤ length vals
      → k + i < length vals
      → length vals ≤ k + (i + n)
      → FromRing (length vals) k (ring_loop minus n i samples vals)
  ring_loop_written zero i vals k h l below above = absurd (omega arith)
  ring_loop_written (suc n) i vals k h l below above =
      let (s, e) = sample_at i (omega arith) in
      let same = length-write s i vals in
      subst (FromRing (length vals) k) (sym (ring_step n i vals s e))
        (elim (dec_lt (k + (i + 1)) (length vals)) [
          | yes x ↦
              subst
                (λ (size : ℕ). FromRing size k (ring_loop minus n (i + 1) samples (write s i vals)))
                same
                (ring_loop_written n (i + 1) (write s i vals) k (omega arith) (omega (arith, same))
                  (omega (arith, same)) (omega (arith, same)))
          | no x ↦ ring_loop_first n i vals k s e (omega arith) (omega arith) (omega (arith, x))
        ])
