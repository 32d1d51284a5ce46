-- ===== src/Template/Compile/Covers.antt =====
-- How the tokens of a template lie in its text, and what `push` does to that.
use esphome_gplug.Base.{
  ℕ, suc, ◌+◌, ◌≤◌, ◌<◌, ◌≡◌, ◌≢◌, refl, sym, ap, Bool, true, false, ◌||◌, ◌⊎◌, inl, inr, List, [],
  ◌∷◌, ◌++◌, append-nil, append_assoc, arith, length, length-append, All, All-append,
}
use esphome_gplug.Text.Utf8.{Bytes}
use esphome_gplug.Template.Data.{plus, hash, lbr, rbr, Kind, lit, is_lit, Token}
use esphome_gplug.Template.Keys.{Ctx, maxima, found, classify}
use esphome_gplug.Template.Keys.Valid.{kind_bound}
use esphome_gplug.Template.Compile.{extends, lengthen}

-- A byte that may stand in a topic: no wildcard, no control byte.
abbrev pub CleanByte : ℕ → Type 0
CleanByte c = (0x20 ≤ c) × (c ≢ plus) × (c ≢ hash)

-- The token stands for `{key}`, and `key` is one that `compile` knows.
pub record Placeholder (c : Ctx) (t : Token) (q : Bytes) : Type 0 where
  pub key : Bytes
  pub bound : ℕ
  pub spelled : q ≡ lbr ∷ (key ++ rbr ∷ [])
  pub known : classify c (maxima c) key ≡ found t.key t.idx bound
  pub not_lit : is_lit t.key ≡ false

-- A stretch of literal text; in a topic it holds none of the bytes that are refused there.
pub record Literal (c : Ctx) (t : Token) (q : Bytes) : Type 0 where
  pub key_is : t.key ≡ lit
  pub not_empty : 0 < length q
  pub clean : c.topic ≡ true → All CleanByte q

-- The bytes `b`, which begin at `o`, are the slices of the tokens, one after the other.
abbrev pub Covers : Ctx → List Token → ℕ → Bytes → Type 0
Covers c [] o b = b ≡ []
Covers c (t ∷ rest) o b =
    (q r : Bytes) × (b ≡ q ++ r)
    × (t.off ≡ o)
    × (t.len ≡ length q)
    × (Literal c t q ⊎ Placeholder c t q)
    × Covers c rest (o + length q) r

abbrev pub total : Ctx → List Token → ℕ
total c [] = 0
total c (t ∷ rest) = kind_bound c t.key t.idx t.len + total c rest

abbrev pub any_key : (Kind → Bool) → List Token → Bool
any_key p [] = false
any_key p (t ∷ rest) = p t.key || any_key p rest

is_lit→lit : (k : Kind) → is_lit k ≡ true → k ≡ lit
is_lit→lit lit h = refl
is_lit→lit _ h = cc

module _ (c : Ctx) where
  pub Covers-snoc :
      (tok : List Token) (o : ℕ) (b : Bytes) (t : Token) (q : Bytes)
      → Covers c tok o b
      → t.off ≡ o + length b
      → t.len ≡ length q
      → Literal c t q ⊎ Placeholder c t q
      → Covers c (tok ++ t ∷ []) o (b ++ q)
  Covers-snoc [] o b t q h off len src =
      (q, [], rw h (sym (append-nil q)), omega (arith, ap length h), len, src, refl)
  Covers-snoc (u ∷ rest) o b t q (p, r, e, uo, ul, us, cov) off len src = (
    p,
    r ++ q,
    rw e (append_assoc p r q),
    uo,
    ul,
    us,
    Covers-snoc rest (o + length p) r t q cov (omega (arith, ap length e, length-append p r)) len
        src,
  )

  longer-Literal :
      (t : Token) (q : Bytes) (ch : ℕ)
      → Literal c t q
      → (c.topic ≡ true → CleanByte ch)
      → Literal c (record t { len = t.len + 1 }) (q ++ ch ∷ [])
  longer-Literal t q ch l k = record {
    key_is = l.key_is;
    not_empty = omega (arith, length-append q (ch ∷ []));
    clean = λ h. All-append CleanByte q (ch ∷ []) (l.clean h) (k h, tt);
  }

  pub Covers-lengthen :
      (tok : List Token) (new : Token) (o : ℕ) (b : Bytes) (ch : ℕ)
      → Covers c tok o b
      → extends tok new ≡ true
      → (c.topic ≡ true → CleanByte ch)
      → Covers c (lengthen tok 1) o (b ++ ch ∷ [])
  unfolding extends lengthen
  Covers-lengthen [] new o b ch h x k = cc
  Covers-lengthen (t ∷ []) new o b ch (q, r, e, to, tl, inl l, cov) x k = (
    q ++ ch ∷ [],
    [],
    rw (e, cov) (simp append-nil),
    to,
    omega (arith, length-append q (ch ∷ [])),
    inl (longer-Literal t q ch l k),
    refl,
  )
  Covers-lengthen (t ∷ []) new o b ch (q, r, e, to, tl, inr p, cov) x k =
      absurd (ground (arith, p.not_lit))
  Covers-lengthen (t ∷ u ∷ rest) new o b ch (q, r, e, to, tl, s, cov) x k = (
    q,
    r ++ ch ∷ [],
    rw e (append_assoc q r (ch ∷ [])),
    to,
    tl,
    s,
    Covers-lengthen (u ∷ rest) new (o + length q) r ch cov x k,
  )

  pub total-snoc :
      (tok : List Token) (t : Token)
      → total c (tok ++ t ∷ []) ≡ total c tok + kind_bound c t.key t.idx t.len
  total-snoc [] t = omega arith
  total-snoc (u ∷ rest) t = omega (arith, total-snoc rest t)

  pub total-lengthen :
      (tok : List Token) (new : Token) (l : ℕ)
      → extends tok new ≡ true
      → total c (lengthen tok l) ≡ total c tok + l
  unfolding extends lengthen kind_bound
  total-lengthen [] new l x = cc
  total-lengthen (t ∷ []) new l x =
      let e : t.key ≡ lit = is_lit→lit t.key (ground arith) in ground arith
  total-lengthen (t ∷ u ∷ rest) new l x = omega (arith, total-lengthen (u ∷ rest) new l x)

pub any_key-snoc :
    (p : Kind → Bool) (tok : List Token) (t : Token)
    → any_key p (tok ++ t ∷ []) ≡ any_key p tok || p t.key
any_key-snoc p [] t = ground arith
any_key-snoc p (u ∷ rest) t = ground (arith, any_key-snoc p rest t)

pub any_key-lengthen :
    (p : Kind → Bool) (tok : List Token) (l : ℕ) → any_key p (lengthen tok l) ≡ any_key p tok
unfolding lengthen
any_key-lengthen p [] l = refl
any_key-lengthen p (t ∷ []) l = refl
any_key-lengthen p (t ∷ u ∷ rest) l = ap (λ b. p t.key || b) (any_key-lengthen p (u ∷ rest) l)

pub length-lengthen : (tok : List Token) (l : ℕ) → length (lengthen tok l) ≡ length tok
unfolding lengthen
length-lengthen [] l = refl
length-lengthen (t ∷ []) l = refl
length-lengthen (t ∷ u ∷ rest) l = ap suc (length-lengthen (u ∷ rest) l)
