-- ===== src/Firmware/Image.antt =====
-- `inspect` of spa/src/live/firmware-card.js: what the header of an image file says.
pub mod Hash
use esphome_gplug.Base.{
  ℕ, ◌+◌, ◌-◌, ◌*◌, ◌/◌, ◌%◌, Bool, true, false, not, ◌||◌, List, [], ◌∷◌, ◌++◌, ltb, ◌==◌,
  if◌then◌else◌, length, get_or, take, drop,
}
use esphome_gplug.Text.Utf8.{Text, Bytes, codes, decode}
use esphome_gplug.Text.Decimal.{pad_start}

abbrev pub app_slot : ℕ
app_slot = 0x160000

abbrev pub chip_esp32c3 : ℕ
chip_esp32c3 = 5

abbrev pub app_desc_magic : ℕ
app_desc_magic = 0xabcd5432

abbrev pub elf_sha_off : ℕ
elf_sha_off = 0xb0

abbrev pub byte_at : Bytes → ℕ → ℕ
byte_at b i = get_or b i 0

-- `getUint32(i, true)`.
unfoldable pub uint32 : Bytes → ℕ → ℕ
uint32 b i =
    byte_at b i + 256 * byte_at b (i + 1) + 65536 * byte_at b (i + 2) + 16777216 * byte_at b (i + 3)

abbrev pub subarray : Bytes → ℕ → ℕ → Bytes
subarray b i j = take (j - i) (drop i b)

-- `replace(/\0[\s\S]*$/, "")`.
unfoldable pub until_nul : Bytes → Bytes
until_nul [] = []
until_nul (c ∷ b) = let rest = until_nul b in if c == 0 then [] else c ∷ rest

-- `str(o)`, as its bytes.
unfoldable pub str_at : Bytes → ℕ → Bytes
unfolding until_nul decode
str_at b o = until_nul (decode (subarray b o (o + 32)))

unfoldable pub hex_digit : ℕ → ℕ
hex_digit d = if ltb d 10 then 48 + d else 87 + d

-- `x.toString(16)` of a byte.
unfoldable pub to_hex : ℕ → Text
unfolding hex_digit
to_hex x = if ltb x 16 then hex_digit x ∷ [] else hex_digit (x / 16) ∷ hex_digit (x % 16) ∷ []

unfoldable pub hex_bytes : Bytes → Text
unfolding to_hex pad_start
hex_bytes [] = []
hex_bytes (x ∷ b) = pad_start 2 48 (to_hex x) ++ hex_bytes b

pub data Rejection : Type 0 where
  too_big not_image factory wrong_chip : Rejection

pub data Inspected : Type 0 where
  rejected : Rejection → Inspected
  image : Bytes → Bytes → Text → Inspected

-- `inspect` of the content of a file.
unfoldable pub inspect : Bytes → Inspected
unfolding uint32 str_at
inspect file =
    let b = take 0xd0 file in
    if ltb app_slot (length file)
    then rejected too_big
    else if ltb (length b) 0xd0 || not (byte_at b 0 == 0xe9)
    then rejected not_image
    else if not (uint32 b 0x20 == app_desc_magic)
    then rejected factory
    else if not (byte_at b 12 + 256 * byte_at b 13 == chip_esp32c3)
    then rejected wrong_chip
    else image (str_at b 0x30) (str_at b 0x50)
        (hex_bytes (subarray b elf_sha_off (elf_sha_off + 8)))
