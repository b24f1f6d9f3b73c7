-- ===== src/Prelude/Outcome.antt =====
-- What a Go call ends in: a value, an error value, or a run-time panic (an index out of range).
use mathlib.Core.Path.{◌≡◌, refl}
use mathlib.Core.Logic.{◌≢◌}
use native.Mathlib.Omega.{arith}
use Prim.Native.Nat.{ℕ}

-- The errors that the modelled code returns, told apart by what they report.
pub data Error : Type 0 where
  too_short item_too_short event_too_short bad_length : Error
  unknown_type : ℕ → Error
  io_error eof unexpected_eof : Error
  too_large bad_op bad_magic bad_version bad_secret bad_sequence unexpected_hello bad_mode : Error
  bad_session bad_world : Error
  unhandled_type : Error

pub data Result {ℓ} (A : Type ℓ) : Type ℓ where
  ok : A → Result A
  err : Error → Result A
  panic : Result A

module _ {ℓ κ} {A : Type ℓ} {B : Type κ} where
  infixl 5 ◌>>=◌ ◌>>◌
  -- Go on with the value of a call; an error or a panic ends what follows.
  abbrev pub ◌>>=◌ : (r : Result A) (next : A → Result B) → Result B
  panic >>= next = panic
  err x >>= next = err x
  ok x >>= next = next x

  -- The same for a call whose value is not looked at.
  abbrev pub ◌>>◌ : (r : Result A) (rest : Result B) → Result B
  r >> rest = r >>= λ _. rest

  -- What follows from the success of two calls in turn.
  pub >>=-eq-ok :
      (r : Result A) (next : A → Result B) {y : B}
      → (r >>= next) ≡ ok y
      → (x : A) × (r ≡ ok x) × (next x ≡ ok y)
  >>=-eq-ok panic next q = cc
  >>=-eq-ok (err x) next q = cc
  >>=-eq-ok (ok x) next q = (x, refl, q)

  pub >>=-ne-panic :
      (r : Result A) (next : A → Result B)
      → r ≢ panic
      → ((x : A) → next x ≢ panic)
      → (r >>= next) ≢ panic
  >>=-ne-panic panic next n h = absurd (n refl)
  >>=-ne-panic (err x) next n h = ground arith
  >>=-ne-panic (ok x) next n h = h x

pub ok-injective {ℓ} : {A : Type ℓ} {x y : A} → ok x ≡ ok y → x ≡ y
ok-injective q = cc
