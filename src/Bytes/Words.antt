-- ===== src/Bytes/Words.antt =====
-- `encoding/binary`: fixed-width numbers as bytes.
use multiplayer.Prelude.{
  ℕ, ◌+◌, ◌*◌, ◌/◌, ◌%◌, ◌^◌, ◌<◌, ◌≡◌, List, [], ◌∷◌, Result, ok, panic, arith, length, refl,
}

abbrev pub IsU8 : ℕ → Type 0
IsU8 v = v < 256

abbrev pub IsU16 : ℕ → Type 0
IsU16 v = v < 2 ^ 16

abbrev pub IsU32 : ℕ → Type 0
IsU32 v = v < 2 ^ 32

-- LittleEndian.PutUint16, AppendUint16, PutUint32, AppendUint32: the bytes that they write.
unfoldable pub le16 : ℕ → List ℕ
le16 v = v % 256 ∷ v / 256 % 256 ∷ []

unfoldable pub le32 : ℕ → List ℕ
le32 v = v % 256 ∷ v / 256 % 256 ∷ v / 65536 % 256 ∷ v / 16777216 % 256 ∷ []

-- BigEndian.PutUint16, PutUint32.
unfoldable pub be16 : ℕ → List ℕ
be16 v = v / 256 % 256 ∷ v % 256 ∷ []

unfoldable pub be32 : ℕ → List ℕ
be32 v = v / 16777216 % 256 ∷ v / 65536 % 256 ∷ v / 256 % 256 ∷ v % 256 ∷ []

-- LittleEndian.Uint16, Uint32.
unfoldable pub le_uint16 : List ℕ → Result ℕ
le_uint16 (a ∷ b ∷ s) = ok (a + b * 256)
le_uint16 _ = panic

unfoldable pub le_uint32 : List ℕ → Result ℕ
le_uint32 (a ∷ b ∷ c ∷ d ∷ s) = ok (a + b * 256 + c * 65536 + d * 16777216)
le_uint32 _ = panic

-- BigEndian.Uint16, Uint32.
unfoldable pub be_uint16 : List ℕ → Result ℕ
be_uint16 (a ∷ b ∷ s) = ok (b + a * 256)
be_uint16 _ = panic

unfoldable pub be_uint32 : List ℕ → Result ℕ
be_uint32 (a ∷ b ∷ c ∷ d ∷ s) = ok (d + c * 256 + b * 65536 + a * 16777216)
be_uint32 _ = panic

-- The digits of a number below the width give the number back.
pub le16_value : (v : ℕ) → IsU16 v → v % 256 + v / 256 % 256 * 256 ≡ v
le16_value v h = omega arith

pub le32_value :
    (v : ℕ)
    → IsU32 v
    → v % 256 + v / 256 % 256 * 256 + v / 65536 % 256 * 65536 + v / 16777216 % 256 * 16777216 ≡ v
le32_value v h = omega arith

-- Two and four bytes are the digits of the number that they spell.
pub le16_digits : (a b : ℕ) → IsU8 a → IsU8 b → le16 (a + b * 256) ≡ a ∷ b ∷ []
unfolding le16
le16_digits a b ha hb = ground arith

pub le32_digits :
    (a b c d : ℕ)
    → IsU8 a
    → IsU8 b
    → IsU8 c
    → IsU8 d
    → le32 (a + b * 256 + c * 65536 + d * 16777216) ≡ a ∷ b ∷ c ∷ d ∷ []
unfolding le32
le32_digits a b c d ha hb hc hd = ground arith

pub be16_digits : (a b : ℕ) → IsU8 a → IsU8 b → be16 (b + a * 256) ≡ a ∷ b ∷ []
unfolding be16
be16_digits a b ha hb = ground arith

pub be32_digits :
    (a b c d : ℕ)
    → IsU8 a
    → IsU8 b
    → IsU8 c
    → IsU8 d
    → be32 (d + c * 256 + b * 65536 + a * 16777216) ≡ a ∷ b ∷ c ∷ d ∷ []
unfolding be32
be32_digits a b c d ha hb hc hd = ground arith

-- Reading back what was written.
pub le_uint32-le32 : (v : ℕ) → IsU32 v → le_uint32 (le32 v) ≡ ok v
unfolding le32 le_uint32
le_uint32-le32 v h = rw (le32_value v h)

pub le_uint16-le16 : (v : ℕ) → IsU16 v → le_uint16 (le16 v) ≡ ok v
unfolding le16 le_uint16
le_uint16-le16 v h = rw (le16_value v h)

pub length-le32 : (v : ℕ) → 4 ≡ length (le32 v)
unfolding le32
length-le32 v = refl
