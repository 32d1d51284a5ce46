-- ===== src/Text/Laws.antt =====
-- The bytes of a string, below 0x80 and from there on.
use esphome_gplug.Base.{
  ℕ, ◌≤◌, ◌<◌, ◌≡◌, ◌≢◌, refl, sym, ◌⊎◌, [], ◌∷◌, ◌++◌, append_assoc, arith, All,
}
use esphome_gplug.Text.Utf8.{Text, Bytes, utf8_char, utf8}

pub utf8-append : (s t : Text) → utf8 (s ++ t) ≡ utf8 s ++ utf8 t
unfolding utf8
utf8-append [] t = refl
utf8-append (c ∷ s) t = rw (utf8-append s t) (sym (append_assoc (utf8_char c) (utf8 s) (utf8 t)))

-- The bytes of the character `c`: `c` itself if it is ASCII, bytes from 0x80 on if not.
abbrev pub HighOrSelf : ℕ → Bytes → Type 0
HighOrSelf c bs = ((c < 0x80) × (bs ≡ c ∷ [])) ⊎ ((0x80 ≤ c) × All (λ b. 0x80 ≤ b) bs)

pub utf8_char-HighOrSelf : (c : ℕ) → HighOrSelf c (utf8_char c)
unfolding utf8_char
utf8_char-HighOrSelf c = ground arith

abbrev pub Ascii : ℕ → Type 0
Ascii c = c < 0x80

pub utf8-Ascii : (s : Text) → All Ascii s → utf8 s ≡ s
unfolding utf8 utf8_char
utf8-Ascii [] h = refl
utf8-Ascii (c ∷ s) h = rw (utf8-Ascii s h.1) (ground (arith, h.0))

-- A printable ASCII character that is none of the wildcards of MQTT.
abbrev pub Plain : ℕ → Type 0
Plain c = (0x20 ≤ c) × (c < 0x80) × (c ≢ b'+') × (c ≢ b'#')

pub Plain-Ascii : (s : Text) → All Plain s → All Ascii s
Plain-Ascii [] h = tt
Plain-Ascii (c ∷ s) h = (omega arith, Plain-Ascii s h.1)

pub utf8-Plain : (s : Text) → All Plain s → utf8 s ≡ s
utf8-Plain s h = utf8-Ascii s (Plain-Ascii s h)

pub utf8_char-ascii : (c : ℕ) → c < 0x80 → utf8_char c ≡ c ∷ []
unfolding utf8_char
utf8_char-ascii c h = ground arith
