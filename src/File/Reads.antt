-- ===== src/File/Reads.antt =====
-- What io.ReadFull returns.
use multiplayer.Prelude.{
  Bool-cases, List, Result, arith, drop, eof, err, inl, inr, length, ltb, ok, refl, take,
  unexpected_eof, ℕ, ◌==◌, ◌≡◌, ◌⊎◌, ◌≤◌, ==_iff, sym, Error, ap, io_error, suc, zero, [], ◌∷◌,
}
use multiplayer.File.{
  File, Outcome, after_call, fails, next_outcome, read_full, read_here, resume, works,
}

-- Exactly n bytes, or an error.
abbrev pub IsFull : ℕ → Result (List ℕ) × File → Type 0
IsFull n r = ((d : List ℕ) × (r.0 ≡ ok d) × (length d ≡ n)) ⊎ ((e : Error) × (r.0 ≡ err e))

length-take_some : (n : ℕ) (s : List ℕ) → n ≤ length s → length (take n s) ≡ n
length-take_some zero s h = refl
length-take_some (suc n) [] h = absurd (omega arith)
length-take_some (suc n) (b ∷ s) h = ap suc (length-take_some n s (omega arith))

read_here-IsFull : (n : ℕ) (f : File) → IsFull n (read_here n f)
unfolding read_here
read_here-IsFull n f =
    let rest = drop f.pos f.content in
    elim (Bool-cases (n == 0)) [
      | inl z ↦ rw z (inl ([], refl, sym ((==_iff n 0).0 z)))
      | inr z ↦ elim (Bool-cases (length rest == 0)) [
        | inl l ↦ rw z (rw l (inr (eof, refl)))
        | inr l ↦ elim (Bool-cases (ltb (length rest) n)) [
          | inl s ↦ rw z (rw l (rw s (inr (unexpected_eof, refl))))
          | inr s ↦
              rw z
                (rw l (rw s (inl (take n rest, refl, length-take_some n rest (ground (arith, s))))))
        ]
      ]
    ]

outcome-IsFull :
    (n : ℕ) (o : Outcome × File) → IsFull n (resume (λ _ g. read_here n g) (after_call (λ g. g) o))
unfolding after_call
outcome-IsFull n (works, f) = read_here-IsFull n f
outcome-IsFull n (fails k, f) = inr (io_error, refl)

pub read_full-IsFull : (n : ℕ) (f : File) → IsFull n (read_full n f)
unfolding read_full
read_full-IsFull n f = outcome-IsFull n (next_outcome f)
