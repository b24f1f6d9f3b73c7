-- ===== src/Prelude/Lists.antt =====
-- Lists measured and indexed by native numbers, under the library's names.
use Prim.Native.Nat.{ℕ, zero, suc, ◌+◌, ◌-◌, ◌≤◌}
use mathlib.Core.Path.{◌≡◌, refl, ap, sym, ◌∙◌}
use mathlib.Core.List.{List, [], ◌∷◌, ◌++◌, append_assoc}
use mathlib.Core.Option.{Option, none, some}
use native.Mathlib.Omega.{arith}

module _ {ℓ} {A : Type ℓ} where
  abbrev pub length : List A → ℕ
  length [] = 0
  length (x ∷ xs) = suc (length xs)

  abbrev pub get_elem? : List A → ℕ → Option A
  get_elem? [] i = none
  get_elem? (x ∷ xs) zero = some x
  get_elem? (x ∷ xs) (suc i) = get_elem? xs i

  abbrev pub take : ℕ → List A → List A
  take zero xs = []
  take (suc n) [] = []
  take (suc n) (x ∷ xs) = x ∷ take n xs

  abbrev pub drop : ℕ → List A → List A
  drop zero xs = xs
  drop (suc n) [] = []
  drop (suc n) (x ∷ xs) = drop n xs

  abbrev pub replicate : ℕ → A → List A
  replicate zero a = []
  replicate (suc n) a = a ∷ replicate n a

  abbrev pub All {κ} : (A → Type κ) → List A → Type κ
  All P [] = Unit {κ}
  All P (x ∷ xs) = P x × All P xs

  pub length-append : (xs ys : List A) → length (xs ++ ys) ≡ length xs + length ys
  length-append [] ys = omega arith
  length-append (x ∷ xs) ys = omega (arith, length-append xs ys)

  pub take-append : (xs ys : List A) {n : ℕ} → n ≡ length xs → take n (xs ++ ys) ≡ xs
  take-append [] ys {n = zero} h = refl
  take-append [] ys {n = suc n} h = absurd (omega arith)
  take-append (x ∷ xs) ys {n = zero} h = absurd (omega arith)
  take-append (x ∷ xs) ys {n = suc n} h = ap (◌∷◌ x) (take-append xs ys (omega arith))

  pub drop-append : (xs ys : List A) {n : ℕ} → n ≡ length xs → drop n (xs ++ ys) ≡ ys
  drop-append [] ys {n = zero} h = refl
  drop-append [] ys {n = suc n} h = absurd (omega arith)
  drop-append (x ∷ xs) ys {n = zero} h = absurd (omega arith)
  drop-append (x ∷ xs) ys {n = suc n} h = drop-append xs ys (omega arith)

  pub take-length : (xs : List A) {n : ℕ} → length xs ≤ n → take n xs ≡ xs
  take-length [] {n = zero} h = refl
  take-length [] {n = suc n} h = refl
  take-length (x ∷ xs) {n = zero} h = absurd (omega arith)
  take-length (x ∷ xs) {n = suc n} h = ap (◌∷◌ x) (take-length xs (omega arith))

  pub drop-length : (xs : List A) {n : ℕ} → length xs ≤ n → drop n xs ≡ []
  drop-length [] {n = zero} h = refl
  drop-length [] {n = suc n} h = refl
  drop-length (x ∷ xs) {n = zero} h = absurd (omega arith)
  drop-length (x ∷ xs) {n = suc n} h = drop-length xs (omega arith)

  pub All-append {κ} : (P : A → Type κ) (xs ys : List A) → All P xs → All P ys → All P (xs ++ ys)
  All-append P [] ys hx hy = hy
  All-append P (x ∷ xs) ys hx hy = (hx.0, All-append P xs ys hx.1 hy)

  pub All-right {κ} : (P : A → Type κ) (xs ys : List A) → All P (xs ++ ys) → All P ys
  All-right P [] ys h = h
  All-right P (x ∷ xs) ys h = All-right P xs ys h.1

  pub All-left {κ} : (P : A → Type κ) (xs ys : List A) → All P (xs ++ ys) → All P xs
  All-left P [] ys h = tt
  All-left P (x ∷ xs) ys h = (h.0, All-left P xs ys h.1)

  pub All-drop {κ} : (P : A → Type κ) (n : ℕ) (xs : List A) → All P xs → All P (drop n xs)
  All-drop P zero xs h = h
  All-drop P (suc n) [] h = h
  All-drop P (suc n) (x ∷ xs) h = All-drop P n xs h.1

  pub All-take {κ} : (P : A → Type κ) (n : ℕ) (xs : List A) → All P xs → All P (take n xs)
  All-take P zero xs h = tt
  All-take P (suc n) [] h = tt
  All-take P (suc n) (x ∷ xs) h = (h.0, All-take P n xs h.1)

  pub length-drop : (n : ℕ) (xs : List A) → length (drop n xs) ≡ length xs - n
  length-drop zero xs = omega arith
  length-drop (suc n) [] = omega arith
  length-drop (suc n) (x ∷ xs) = omega (arith, length-drop n xs)

  pub get_elem?-append :
      (xs ys : List A) (n : ℕ) → n ≡ length xs → get_elem? (xs ++ ys) n ≡ get_elem? ys 0
  get_elem?-append [] ys zero h = refl
  get_elem?-append [] ys (suc n) h = absurd (omega arith)
  get_elem?-append (x ∷ xs) ys zero h = absurd (omega arith)
  get_elem?-append (x ∷ xs) ys (suc n) h = get_elem?-append xs ys n (omega arith)

  -- The first of what follows, moved to the end of what precedes.
  pub append_snoc : (xs ys zs : List A) (x : A) → xs ++ ys ++ x ∷ zs ≡ xs ++ (ys ++ x ∷ []) ++ zs
  append_snoc xs ys zs x =
      rw (sym (append_assoc xs ys (x ∷ [])), append_assoc (xs ++ ys) (x ∷ []) zs) refl

  pub drop-append_past :
      (n : ℕ) (xs ys : List A) → drop n (xs ++ ys) ≡ drop n xs ++ drop (n - length xs) ys
  drop-append_past zero xs ys =
      let h : 0 ≡ 0 - length xs = omega arith in ap (λ (m : ℕ). xs ++ drop m ys) h
  drop-append_past (suc n) [] ys =
      let h : suc n ≡ suc n - 0 = omega arith in ap (λ (m : ℕ). drop m ys) h
  drop-append_past (suc n) (x ∷ xs) ys =
      let h : n - length xs ≡ suc n - suc (length xs) = omega arith in
      drop-append_past n xs ys ∙ ap (λ (m : ℕ). drop n xs ++ drop m ys) h

  pub get_elem?-drop_at : (n i : ℕ) (xs : List A) → get_elem? xs (n + i) ≡ get_elem? (drop n xs) i
  get_elem?-drop_at zero i xs = let h : 0 + i ≡ i = omega arith in ap (get_elem? xs) h
  get_elem?-drop_at (suc n) i [] = refl
  get_elem?-drop_at (suc n) i (x ∷ xs) =
      let h : suc n + i ≡ suc (n + i) = omega arith in
      ap (get_elem? (x ∷ xs)) h ∙ get_elem?-drop_at n i xs
