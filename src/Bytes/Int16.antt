-- ===== src/Bytes/Int16.antt =====
-- Signed 16-bit numbers, and the conversions between int16 and uint16.
use multiplayer.Prelude.{arith, if◌then◌else◌, ltb, ℕ, ◌%◌, ◌-◌, ◌<◌, ◌^◌, ◌≡◌}
use multiplayer.Bytes.Words.{IsU16}

-- An int16. `negsuc n` is -(n + 1).
pub data ℤ : Type 0 where
  pos : ℕ → ℤ
  negsuc : ℕ → ℤ

abbrev pub IsI16 : ℤ → Type 0
IsI16 (pos n) = n < 2 ^ 15
IsI16 (negsuc n) = n < 2 ^ 15

-- `int16(u)`
unfoldable pub to_int16 : ℕ → ℤ
to_int16 u = if ltb u 32768 then pos u else negsuc (65535 - u)

-- `uint16(i)`
unfoldable pub to_uint16 : ℤ → ℕ
to_uint16 (pos n) = n % 65536
to_uint16 (negsuc n) = 65535 - n % 65536

pub to_uint16-IsU16 : (i : ℤ) → IsI16 i → IsU16 (to_uint16 i)
unfolding to_uint16
to_uint16-IsU16 (pos n) h = omega arith
to_uint16-IsU16 (negsuc n) h = omega arith

pub to_int16-to_uint16 : (i : ℤ) → IsI16 i → to_int16 (to_uint16 i) ≡ i
unfolding to_int16 to_uint16
to_int16-to_uint16 (pos n) h = ground arith
to_int16-to_uint16 (negsuc n) h = ground arith

pub to_int16-IsI16 : (u : ℕ) → IsU16 u → IsI16 (to_int16 u)
unfolding to_int16
to_int16-IsI16 u h = ground arith

pub to_uint16-to_int16 : (u : ℕ) → IsU16 u → to_uint16 (to_int16 u) ≡ u
unfolding to_int16 to_uint16
to_uint16-to_int16 u h = ground arith
