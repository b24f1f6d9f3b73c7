-- ===== src/Bytes/Laws.antt =====
-- Laws of arrays and of reads at an offset.
use mathlib.Core.Bool.{false≢true}
use multiplayer.Prelude.{
  ℕ, zero, suc, ◌≤◌, ◌≡◌, refl, ap, ◌↔◌, true, List, [], ◌∷◌, ◌++◌, length, arith, ltb, false, sym,
}
use multiplayer.Bytes.{ByteArray, bytes, to_array, array_eq, shorter, make_bytes, overwrite}

pub to_array-bytes : (n : ℕ) (a : ByteArray n) (s : List ℕ) → to_array n (bytes n a ++ s) ≡ a
to_array-bytes zero a s = refl
to_array-bytes (suc n) a s = ap (λ (r : ByteArray n). (a.0, r)) (to_array-bytes n a.1 s)

pub length-bytes : (n : ℕ) (a : ByteArray n) → length (bytes n a) ≡ n
length-bytes zero a = refl
length-bytes (suc n) a = ap suc (length-bytes n a.1)

pub array_eq_iff : (n : ℕ) (a b : ByteArray n) → (array_eq n a b ≡ true) ↔ (a ≡ b)
unfolding array_eq
array_eq_iff zero a b = (λ h. refl, λ h. refl)
array_eq_iff (suc n) (x, a) (y, b) = ground (arith, array_eq_iff n a b)

-- A slice of at least n bytes, split into an array and the rest.
pub split_array :
    (n : ℕ) (s : List ℕ) → n ≤ length s → (a : ByteArray n) × (r : List ℕ) × (s ≡ bytes n a ++ r)
split_array zero s h = (tt, s, refl)
split_array (suc n) [] h = absurd (omega arith)
split_array (suc n) (b ∷ s) h =
    let (a, r, e) = split_array n s (omega arith) in ((b, a), r, ap (◌∷◌ b) e)

-- `shorter` is the test on the length.
pub shorter-eq-ltb : (s : List ℕ) (n : ℕ) → shorter s n ≡ ltb (length s) n
unfolding shorter
shorter-eq-ltb [] zero = refl
shorter-eq-ltb [] (suc n) = ground arith
shorter-eq-ltb (b ∷ s) zero = ground arith
shorter-eq-ltb (b ∷ s) (suc n) = ground (arith, shorter-eq-ltb s n)

-- A test on the length that fails splits an array off.
pub split_shorter :
    (n : ℕ) (s : List ℕ)
    → shorter s n ≡ false
    → (a : ByteArray n) × (r : List ℕ) × (s ≡ bytes n a ++ r)
unfolding shorter
split_shorter zero s h = (tt, s, refl)
split_shorter (suc n) [] h = absurd (false≢true (sym h))
split_shorter (suc n) (b ∷ s) h = let (a, r, e) = split_shorter n s h in ((b, a), r, ap (◌∷◌ b) e)

pub array_eq_comm : (n : ℕ) (a b : ByteArray n) → array_eq n a b ≡ array_eq n b a
unfolding array_eq
array_eq_comm zero a b = refl
array_eq_comm (suc n) (x, a) (y, b) = ground (arith, array_eq_comm n a b)

pub shorter-zero : (s : List ℕ) → shorter s 0 ≡ false
unfolding shorter
shorter-zero [] = refl
shorter-zero (b ∷ s) = refl

pub shorter-append : (s t : List ℕ) {n : ℕ} → n ≡ length s → shorter (s ++ t) n ≡ false
unfolding shorter
shorter-append [] t {n = zero} h = shorter-zero t
shorter-append [] t {n = suc n} h = absurd (omega arith)
shorter-append (b ∷ s) t {n = zero} h = absurd (omega arith)
shorter-append (b ∷ s) t {n = suc n} h = shorter-append s t (omega arith)

pub overwrite-nil : (s : List ℕ) → overwrite s [] ≡ s
overwrite-nil [] = refl
overwrite-nil (b ∷ s) = refl

pub overwrite-make : (d : List ℕ) → overwrite (make_bytes (length d)) d ≡ d
overwrite-make [] = refl
overwrite-make (b ∷ d) = ap (◌∷◌ b) (overwrite-make d)

-- Keys that are tested equal are equal, so a test of either against a third has the same result.
pub array_eq_left :
    (n : ℕ) (j k i : ByteArray n) → array_eq n j k ≡ true → array_eq n j i ≡ array_eq n k i
array_eq_left n j k i h = rw ((array_eq_iff n j k).0 h) refl
