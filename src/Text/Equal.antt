-- ===== src/Text/Equal.antt =====
-- `===` on two strings, by their bytes or by their code points.
use esphome_gplug.Base.{◌≡◌, refl, true, [], ◌∷◌, ◌==◌, arith, Bool-cases, inl, inr, ap₂}
use esphome_gplug.Text.Utf8.{Bytes, bytes_eq}

pub bytes_eq_refl : (s : Bytes) → bytes_eq s s ≡ true
unfolding bytes_eq
bytes_eq_refl [] = refl
bytes_eq_refl (c ∷ s) = ground (arith, bytes_eq_refl s)

pub bytes_eq→eq : (s t : Bytes) → bytes_eq s t ≡ true → s ≡ t
unfolding bytes_eq
bytes_eq→eq [] [] h = refl
bytes_eq→eq [] (d ∷ t) h = absurd (ground arith)
bytes_eq→eq (c ∷ s) [] h = absurd (ground arith)
bytes_eq→eq (c ∷ s) (d ∷ t) h = elim (Bool-cases (c == d)) [
  | inl e ↦ ap₂ ◌∷◌ (ground arith) (bytes_eq→eq s t (rw e at h))
  | inr e ↦ absurd (ground (arith, rw e at h))
]
