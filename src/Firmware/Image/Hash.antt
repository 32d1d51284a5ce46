-- ===== src/Firmware/Image/Hash.antt =====
-- The identity of an image: sixteen hexadecimal digits that stand for eight bytes of its hash.
use esphome_gplug.Base.{
  ℕ, ◌+◌, ◌*◌, ◌/◌, ◌%◌, ◌≤◌, ◌<◌, ◌≡◌, refl, sym, ap, ap₂, ◌∙◌, inl, inr, Bool, true, false, not,
  ◌||◌, [], ◌∷◌, ltb, ◌==◌, Bool-cases, arith, min, length, take, drop, All, All-take, All-drop,
  length-take, length-drop,
}
use esphome_gplug.Text.Utf8.{Text, Bytes}
use esphome_gplug.Text.Decimal.{pad_start}
use esphome_gplug.Firmware.Image.{
  app_slot, elf_sha_off, byte_at, uint32, subarray, hex_digit, to_hex, hex_bytes, image, inspect,
}

abbrev pub IsByte : ℕ → Type 0
IsByte c = c < 256

-- Every byte is written as its two digits.
two_digits :
    (x : ℕ) → x < 256 → pad_start 2 48 (to_hex x) ≡ hex_digit (x / 16) ∷ hex_digit (x % 16) ∷ []
unfolding pad_start to_hex hex_digit
two_digits x h = elim (Bool-cases (ltb x 16)) [
  | inl small ↦
      rw small
        (ap₂ (λ (a b : ℕ). a ∷ b ∷ []) (zero_digit x (ground arith)) (same_digit x (ground arith)))
  | inr large ↦ rw large refl
]
  where
    zero_digit : (y : ℕ) → y < 16 → 48 ≡ hex_digit (y / 16)
    zero_digit y l = ap hex_digit {x = 0} (omega arith)

    same_digit : (y : ℕ) → y < 16 → hex_digit y ≡ hex_digit (y % 16)
    same_digit y l = ap hex_digit (omega arith)

digit_inj : (d e : ℕ) → d < 16 → e < 16 → hex_digit d ≡ hex_digit e → d ≡ e
unfolding hex_digit
digit_inj d e h k same = ground arith

pub hex_bytes_inj :
    (a b : Bytes)
    → All IsByte a
    → All IsByte b
    → length a ≡ length b
    → hex_bytes a ≡ hex_bytes b
    → a ≡ b
unfolding hex_bytes
hex_bytes_inj [] [] p q l h = refl
hex_bytes_inj [] (y ∷ b) p q l h = absurd (omega arith)
hex_bytes_inj (x ∷ a) [] p q l h = absurd (omega arith)
hex_bytes_inj (x ∷ a) (y ∷ b) (px, pa) (py, pb) l h =
    let same = rw (two_digits x px, two_digits y py) at h in
    ap₂ ◌∷◌ (same_byte (first same) (second same))
      (hex_bytes_inj a b pa pb (omega arith) (others same))
  where
    first : {c d e f : ℕ} {s t : Text} → c ∷ d ∷ s ≡ e ∷ f ∷ t → c ≡ e
    first same = cc

    second : {c d e f : ℕ} {s t : Text} → c ∷ d ∷ s ≡ e ∷ f ∷ t → d ≡ f
    second same = cc

    others : {c d e f : ℕ} {s t : Text} → c ∷ d ∷ s ≡ e ∷ f ∷ t → s ≡ t
    others same = cc

    same_byte :
        hex_digit (x / 16) ≡ hex_digit (y / 16) → hex_digit (x % 16) ≡ hex_digit (y % 16) → x ≡ y
    same_byte h k =
        let high = digit_inj (x / 16) (y / 16) (omega arith) (omega arith) h in
        let low = digit_inj (x % 16) (y % 16) (omega arith) (omega arith) k in
        omega (arith, high, low)

pub length-hex_bytes : (b : Bytes) → All IsByte b → length (hex_bytes b) ≡ 2 * length b
unfolding hex_bytes
length-hex_bytes [] p = refl
length-hex_bytes (x ∷ b) (px, pb) = rw (two_digits x px) (omega (arith, length-hex_bytes b pb))

abbrev pub header : Bytes → Bytes
header file = take 0xd0 file

abbrev pub sha : Bytes → Bytes
sha file = subarray (header file) elf_sha_off (elf_sha_off + 8)

-- What a file is that is accepted.
pub record IsImage (file : Bytes) (app : Text) : Type 0 where
  pub fits_slot : length file ≤ app_slot
  pub has_header : length (header file) ≡ 0xd0
  pub for_chip : byte_at (header file) 12 + 256 * byte_at (header file) 13 ≡ 5
  pub app_is : app ≡ hex_bytes (sha file)

at_most : (a b : ℕ) → ltb a b ≡ false → b ≤ a
at_most a b h = ground arith

equal : (a b : ℕ) → not (a == b) ≡ false → a ≡ b
equal a b h = ground arith

or_left : (a b : Bool) → a || b ≡ false → a ≡ false
or_left true b h = h
or_left false b h = refl

whole : (n m : ℕ) → m ≡ min 0xd0 n → 0xd0 ≤ m → m ≡ 0xd0
whole n m h l = omega arith

pub inspect-IsImage :
    (file version name : Bytes) (app : Text)
    → inspect file ≡ image version name app
    → IsImage file app
unfolding inspect
inspect-IsImage file version name app h = elim (Bool-cases (ltb app_slot (length file))) [
  | inl big ↦ absurd (ground (arith, rw big at h))
  | inr small ↦
      elim (Bool-cases (ltb (length (header file)) 0xd0 || not (byte_at (header file) 0 == 0xe9))) [
        | inl other ↦ absurd (ground (arith, rw (small, other) at h))
        | inr magic ↦ elim (Bool-cases (not (uint32 (header file) 0x20 == 0xabcd5432))) [
          | inl boot ↦ absurd (ground (arith, rw (small, magic, boot) at h))
          | inr desc ↦
              elim (Bool-cases
                (not (byte_at (header file) 12 + 256 * byte_at (header file) 13 == 5))) [
                  | inl chip ↦ absurd (ground (arith, rw (small, magic, desc, chip) at h))
                  | inr right ↦ record {
                    fits_slot = at_most app_slot (length file) small;
                    has_header =
                        whole (length file) (length (header file)) (length-take 0xd0 file)
                          (at_most (length (header file)) 0xd0 (or_left _ _ magic));
                    for_chip =
                        equal (byte_at (header file) 12 + 256 * byte_at (header file) 13) 5 right;
                    app_is = sym (same_app (rw (small, magic, desc, right) at h));
                  }
                ]
        ]
      ]
]
  where
    same_app : {v w n o : Bytes} {a b : Text} → image v n a ≡ image w o b → a ≡ b
    same_app e = cc

-- Two files of bytes below 256 that are accepted with the same identity hold the same eight bytes
-- of the hash, and an identity has sixteen digits.
pub inspect_app :
    (f g : Bytes) (version version' name name' : Bytes) (app : Text)
    → All IsByte f
    → All IsByte g
    → inspect f ≡ image version name app
    → inspect g ≡ image version' name' app
    → (length app ≡ 16) × (sha f ≡ sha g)
inspect_app f g version version' name name' app bytes_f bytes_g h k =
    let v = inspect-IsImage f version name app h in
    let w = inspect-IsImage g version' name' app k in
    let size_f = sha_size f v.has_header in
    let size_g = sha_size g w.has_header in
    (
      ap length v.app_is
          ∙ length-hex_bytes (sha f) (sha_bytes f bytes_f)
          ∙ ap (λ (n : ℕ). 2 * n) size_f,
      hex_bytes_inj (sha f) (sha g) (sha_bytes f bytes_f) (sha_bytes g bytes_g)
          (size_f ∙ sym size_g) (sym v.app_is ∙ w.app_is),
    )
  where
    sha_bytes : (file : Bytes) → All IsByte file → All IsByte (sha file)
    sha_bytes file b =
        All-take IsByte 8 (drop 0xb0 (header file))
          (All-drop IsByte 0xb0 (header file) (All-take IsByte 0xd0 file b))

    sha_size : (file : Bytes) → length (header file) ≡ 0xd0 → length (sha file) ≡ 8
    sha_size file h =
        omega (arith, length-take 8 (drop 0xb0 (header file)), length-drop 0xb0 (header file))
