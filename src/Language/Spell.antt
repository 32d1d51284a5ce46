-- ===== src/Language/Spell.antt =====
-- What a template of the tables of spa/src/i18n shows: its pieces one after another, with an argument
-- that is not passed as `undefined`.
use esphome_gplug.Base.{
  ℕ, zero, suc, ◌<◌, ◌≡◌, refl, Bool, true, false, ◌&&◌, Bool-cases, Option, none, some, List, [],
  ◌∷◌, ◌++◌, ◌==◌, append_assoc, if◌then◌else◌, get_elem?, length, inl, inr, arith, ap, sym,
}
use esphome_gplug.Text.Utf8.{Text, codes, bytes_eq}
use mathlib.Core.Path.{subst, ◌∙◌}
use esphome_gplug.Language.Agree.{entry_inj}
use esphome_gplug.Language.{Part, lit, arg, Entry, text, function, Table, lookup}

unfoldable pub argument : Option Text → Text
argument none = codes "undefined"
argument (some x) = x

unfoldable pub spell : List Part → List Text → Text
unfolding argument
spell [] xs = []
spell (lit s ∷ ps) xs = codes s ++ spell ps xs
spell (arg i ∷ ps) xs = argument (get_elem? xs i) ++ spell ps xs

-- Whether a template has the argument `i`, and whether it has the first `n` of them.
unfoldable pub uses : ℕ → List Part → Bool
uses i [] = false
uses i (lit s ∷ ps) = uses i ps
uses i (arg k ∷ ps) = if k == i then true else uses i ps

unfoldable pub uses_all : ℕ → List Part → Bool
unfolding uses
uses_all zero ps = true
uses_all (suc n) ps = uses n ps && uses_all n ps

unfoldable pub is_complete : Entry → Bool
unfolding uses_all
is_complete (text s) = true
is_complete (function n ps) = uses_all n ps

unfoldable pub complete : Table → Bool
unfolding is_complete
complete [] = true
complete ((k, e) ∷ t) = is_complete e && complete t

-- That `x` stands somewhere in `s`.
abbrev pub Shows : Text → Text → Type 0
Shows x s = (before : Text) × (after : Text) × (s ≡ before ++ (x ++ after))

pub Shows-after : (a x s : Text) → Shows x s → Shows x (a ++ s)
Shows-after a x s (b, c, e) = (a ++ b, c, ap (◌++◌ a) e ∙ sym (append_assoc a b (x ++ c)))

pub Shows-before : (x s t : Text) → Shows x s → Shows x (s ++ t)
Shows-before x s t (b, c, e) = (
  b,
  c ++ t,
  ap (λ (l : Text). l ++ t) e ∙ append_assoc b (x ++ c) t ∙ ap (◌++◌ b) (append_assoc x c t),
)

-- An argument that the template has is first_shown.
pub uses-Shows :
    (ps : List Part) (xs : List Text) (i : ℕ) (x : Text)
    → uses i ps ≡ true
    → get_elem? xs i ≡ some x
    → Shows x (spell ps xs)
unfolding uses spell argument
uses-Shows [] xs i x u h = absurd (ground arith)
uses-Shows (lit s ∷ ps) xs i x u h =
    Shows-after (codes s) x (spell ps xs) (uses-Shows ps xs i x u h)
uses-Shows (arg k ∷ ps) xs i x u h = elim (Bool-cases (k == i)) [
  | inl e ↦ ([], spell ps xs, first_shown (ground arith))
  | inr e ↦
      Shows-after (argument (get_elem? xs k)) x (spell ps xs) (uses-Shows ps xs i x (rw e at u) h)
]
  where
    first_shown : k ≡ i → argument (get_elem? xs k) ++ spell ps xs ≡ x ++ spell ps xs
    first_shown e = rw (e, h) refl

pub get_elem?-bound : (xs : List Text) (i : ℕ) (x : Text) → get_elem? xs i ≡ some x → i < length xs
get_elem?-bound [] i x h = absurd (ground arith)
get_elem?-bound (y ∷ xs) zero x h = omega arith
get_elem?-bound (y ∷ xs) (suc i) x h = omega (arith, get_elem?-bound xs i x h)

pub uses_all-uses :
    (n : ℕ) (ps : List Part) (i : ℕ) → uses_all n ps ≡ true → i < n → uses i ps ≡ true
unfolding uses_all
uses_all-uses zero ps i u h = absurd (omega arith)
uses_all-uses (suc n) ps i u h = elim (Bool-cases (i == n)) [
  | inl e ↦ subst (λ (j : ℕ). uses j ps ≡ true) (sym (last e)) (ground arith)
  | inr e ↦ uses_all-uses n ps i (ground arith) (ground arith)
]
  where
    last : (i == n) ≡ true → i ≡ n
    last e = ground arith

pub complete-lookup :
    (t : Table) (k : Text) (e : Entry)
    → complete t ≡ true
    → lookup k t ≡ some e
    → is_complete e ≡ true
unfolding complete lookup
complete-lookup [] k e c h = absurd (ground arith)
complete-lookup ((name, d) ∷ t) k e c h = elim (Bool-cases (bytes_eq k name)) [
  | inl hit ↦ subst (λ (y : Entry). is_complete y ≡ true) (entry_inj (rw hit at h)) (ground arith)
  | inr miss ↦ complete-lookup t k e (ground arith) (rw miss at h)
]
