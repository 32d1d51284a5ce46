-- ===== src/Template/Escape.antt =====
-- `escLen`, `escStr` and `escMeter` of spa/src/live/mqtt-template.js.
pub mod Length
use esphome_gplug.Base.{
  ℕ, ◌+◌, Bool, false, ◌||◌, [], ◌∷◌, ◌++◌, map, ltb, leb, ◌==◌, if◌then◌else◌,
}
use esphome_gplug.Text.Utf8.{Text, Bytes, utf8}
use esphome_gplug.Template.Data.{Esc, topic, json, lp, quote, bsl, comma, equals, space, plus, hash}

-- Whether a byte, or a character, is written with a backslash before it.
unfoldable pub escaped : ℕ → Esc → Bool
escaped c json = c == quote || c == bsl
escaped c lp = c == comma || (c == equals || c == space)
escaped c topic = false

-- `escLen`: how many bytes the escaped form of `b` takes.
unfoldable pub esc_len : Bytes → Esc → ℕ
unfolding escaped
esc_len [] e = 0
esc_len (c ∷ b) e = (if escaped c e then 2 else 1) + esc_len b e

-- One round of `escStr`.
unfoldable pub esc_char : ℕ → Esc → Text
unfolding escaped
esc_char c topic = if c == plus || (c == hash || ltb c 0x20) then b'_' ∷ [] else c ∷ []
esc_char c e = if ltb c 0x20 then b'?' ∷ [] else if escaped c e then bsl ∷ c ∷ [] else c ∷ []

-- `escStr`.
unfoldable pub esc_str : Text → Esc → Text
unfolding esc_char
esc_str [] e = []
esc_str (c ∷ s) e = esc_char c e ++ esc_str s e

-- The character that `escMeter` puts for one byte of the meter's id.
unfoldable pub meter_char : Esc → ℕ → ℕ
meter_char topic c = if leb 0x80 c then b'_' else c
meter_char _ c = if leb 0x80 c then b'?' else c

-- `escMeter`.
unfoldable pub esc_meter : Text → Esc → Text
unfolding esc_str meter_char
esc_meter s e = esc_str (map (meter_char e) (utf8 s)) e
