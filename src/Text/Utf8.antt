-- ===== src/Text/Utf8.antt =====
-- `bytes`, `enc` and `dec` of spa/src/live/mqtt-template.js.
use Prim.Native.Char.{code}
use Prim.Native.String.{String}
use esphome_gplug.Base.{
  ℕ, ◌+◌, ◌/◌, ◌%◌, Bool, true, false, ◌&&◌, List, [], ◌∷◌, ◌++◌, ltb, leb, ◌==◌, if◌then◌else◌,
}

-- A string, as the list of its code points; bytes; both are lists of numbers.
abbrev pub Text : Type 0
Text = List ℕ

abbrev pub Bytes : Type 0
Bytes = List ℕ

-- The code points of a literal.
abbrev pub codes : String → Text
codes String.[] = []
codes (String.◌∷◌ c s) = code c ∷ codes s

-- The UTF-8 form of one code point. A lone surrogate, which `for (const ch of s)` hands over as it
-- is, is encoded as U+FFFD.
unfoldable pub utf8_char : ℕ → Bytes
utf8_char c =
    if ltb c 0x80
    then c ∷ []
    else if ltb c 0x800
    then (0xc0 + c / 64) ∷ (0x80 + c % 64) ∷ []
    else if leb 0xd800 c && leb c 0xdfff
    then 0xef ∷ 0xbf ∷ 0xbd ∷ []
    else if ltb c 0x10000
    then (0xe0 + c / 4096) ∷ (0x80 + (c / 64) % 64) ∷ (0x80 + c % 64) ∷ []
    else (0xf0 + c / 262144)
      ∷ (0x80 + (c / 4096) % 64)
      ∷ (0x80 + (c / 64) % 64)
      ∷ (0x80 + c % 64)
      ∷ []

-- `bytes(s)`: what `TextEncoder` makes of the string.
unfoldable pub utf8 : Text → Bytes
unfolding utf8_char
utf8 [] = []
utf8 (c ∷ s) = utf8_char c ++ utf8 s

-- `TextDecoder.decode` on well-formed UTF-8, with the string again written as its bytes: a byte
-- order mark at the start is dropped, and the rest stays.
unfoldable pub decode : Bytes → Bytes
decode (a ∷ b ∷ c ∷ rest) = if a == 0xef && (b == 0xbb && c == 0xbf) then rest else a ∷ b ∷ c ∷ rest
decode bs = bs

unfoldable pub bytes_eq : Bytes → Bytes → Bool
bytes_eq [] [] = true
bytes_eq (x ∷ xs) (y ∷ ys) = x == y && bytes_eq xs ys
bytes_eq _ _ = false
