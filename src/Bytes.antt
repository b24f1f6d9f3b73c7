-- ===== src/Bytes.antt =====
-- Go's byte slices and byte arrays, as far as the program uses them. A byte slice is a list of
-- numbers below 256. A `[n]byte` is a tuple of n numbers, so its length is part of its type.
pub mod Hex
pub mod Words
pub mod Int16
pub mod Laws
use multiplayer.Prelude.{
  ℕ, zero, suc, ◌-◌, ◌<◌, Bool, true, ◌&&◌, List, [], ◌∷◌, ltb, ◌==◌, take, drop, replicate, Result,
  ok, panic, if◌then◌else◌, false,
}

abbrev pub IsByte : ℕ → Type 0
IsByte b = b < 256

abbrev pub ByteArray : ℕ → Type 0
ByteArray zero = Unit {0}
ByteArray (suc n) = ℕ × ByteArray n

-- `a[:]`
abbrev pub bytes : (n : ℕ) → ByteArray n → List ℕ
bytes zero a = []
bytes (suc n) a = a.0 ∷ bytes n a.1

-- `copy(a[:], s)` for an array `a` that holds zeros.
abbrev pub to_array : (n : ℕ) → List ℕ → ByteArray n
to_array zero s = tt
to_array (suc n) [] = (0, to_array n [])
to_array (suc n) (b ∷ s) = (b, to_array n s)

-- `a == b` on arrays.
unfoldable pub array_eq : (n : ℕ) → ByteArray n → ByteArray n → Bool
array_eq zero a b = true
array_eq (suc n) a b = a.0 == b.0 && array_eq n a.1 b.1

-- `len(s) < n`, read off the list, so that it computes on a list whose end is a variable.
unfoldable pub shorter : List ℕ → ℕ → Bool
shorter s zero = false
shorter [] (suc n) = true
shorter (b ∷ s) (suc n) = shorter s n

-- `s[i]`
unfoldable pub index : List ℕ → ℕ → Result ℕ
index [] i = panic
index (b ∷ s) zero = ok b
index (b ∷ s) (suc i) = index s i

-- `s[lo:hi]` of a slice whose capacity is its length.
unfoldable pub slice : List ℕ → ℕ → ℕ → Result (List ℕ)
unfolding shorter
slice s lo hi =
    if ltb hi lo then panic else if shorter s hi then panic else ok (take (hi - lo) (drop lo s))

-- `s[lo:]`
unfoldable pub slice_from : List ℕ → ℕ → Result (List ℕ)
unfolding shorter
slice_from s lo = if shorter s lo then panic else ok (drop lo s)

-- What `copy` leaves in its destination.
abbrev pub overwrite : List ℕ → List ℕ → List ℕ
overwrite [] src = []
overwrite (b ∷ dst) [] = b ∷ dst
overwrite (b ∷ dst) (s ∷ src) = s ∷ overwrite dst src

-- A write of the bytes `src` into `dst[off:]`.
abbrev pub write_at : ℕ → List ℕ → List ℕ → List ℕ
write_at zero src dst = overwrite dst src
write_at (suc off) src [] = []
write_at (suc off) src (b ∷ dst) = b ∷ write_at off src dst

-- The writes into a buffer, in their order: each a pair of the offset and the bytes.
abbrev pub write_all : List (ℕ × List ℕ) → List ℕ → List ℕ
write_all [] dst = dst
write_all ((off, src) ∷ rest) dst = write_all rest (write_at off src dst)

-- `make([]byte, n)`
abbrev pub make_bytes : ℕ → List ℕ
make_bytes n = replicate n 0
