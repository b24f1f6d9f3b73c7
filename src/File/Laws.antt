-- ===== src/File/Laws.antt =====
-- What the calls on a file do at its end, and while no call fails.
use native.Mathlib.Nat.{le-add_right}
use multiplayer.Prelude.{
  List, [], append_assoc, drop-length, false, length, refl, take-append, ℕ, ◌++◌, ◌∷◌, ◌≡◌, ap,
  append-nil, length-append, ok, sym, eof, err, inl, inr, io_error, take, ◌⊎◌, arith, drop-append,
  ltb-false, suc, zero, drop, ◌+◌, ◌∙◌, ◌≤◌, length-drop,
}
use multiplayer.File.{
  File, Outcome, fails, works, put, resize, truncate, read_full, seek_current, seek_start, sync,
  write, read_here, after_call, next_outcome, resume, take_outcome,
}

-- At most one of the coming calls fails.
abbrev pub OneFault : List Outcome → Type 0
OneFault [] = Unit {0}
OneFault (works ∷ os) = OneFault os
OneFault (fails n ∷ os) = os ≡ []

-- The file that has `content` and stands at its end.
abbrev pub at_end : List ℕ → List Outcome → File
at_end content os = record {
  content = content;
  pos = length content;
  closed = false;
  outcomes = os;
}

pub resize-length : (s t : List ℕ) → resize (length s) (s ++ t) ≡ s
unfolding resize
resize-length s t = rw append_assoc (take-append s _ refl)

pub resize_self : (s : List ℕ) → resize (length s) s ≡ s
unfolding resize
resize_self s = take-append s _ refl

put_end : (s d : List ℕ) (os : List Outcome) → put d (at_end s os) ≡ at_end (s ++ d) os
unfolding put
put_end s d os =
    rw (resize_self s, drop-length s (le-add_right (length s) (length d)), append-nil (s ++ d))
      (ap (λ (n : ℕ). record { content = s ++ d; pos = n; closed = false; outcomes = os })
        (sym (length-append s d)))

-- What a write at the end leaves: all the bytes, or some of them and an error.
pub write_cases :
    (s d : List ℕ) (os : List Outcome)
    → OneFault os
    → ((os' : List Outcome) × (write d (at_end s os) ≡ (ok tt, at_end (s ++ d) os')) × OneFault os')
      ⊎ ((t : List ℕ) × (write d (at_end s os) ≡ (err io_error, at_end (s ++ t) [])))
unfolding write
write_cases s d [] h = inl ([], ap (λ (f : File). (ok tt, f)) (put_end s d []), tt)
write_cases s d (works ∷ os) h = inl (os, ap (λ (f : File). (ok tt, f)) (put_end s d os), h)
write_cases s d (fails n ∷ os) h =
    inr (take n d, ap (λ (f : File). (err io_error, f)) (rw h (put_end s (take n d) [])))

pub sync_cases :
    (s : List ℕ) (os : List Outcome)
    → OneFault os
    → ((os' : List Outcome) × (sync (at_end s os) ≡ (ok tt, at_end s os')) × OneFault os')
      ⊎ (sync (at_end s os) ≡ (err io_error, at_end s []))
unfolding sync
sync_cases s [] h = inl ([], refl, tt)
sync_cases s (works ∷ os) h = inl (os, refl, h)
sync_cases s (fails n ∷ os) h = inr (rw h)

pub seek_current_cases :
    (s : List ℕ) (os : List Outcome)
    → OneFault os
    → ((os' : List Outcome) × (seek_current (at_end s os) ≡ (ok (length s), at_end s os'))
        × OneFault os')
      ⊎ (seek_current (at_end s os) ≡ (err io_error, at_end s []))
unfolding seek_current
seek_current_cases s [] h = inl ([], refl, tt)
seek_current_cases s (works ∷ os) h = inl (os, refl, h)
seek_current_cases s (fails n ∷ os) h = inr (rw h)

-- Cutting the file off where a write began, and going back there, undoes the write.
pub truncate_seek :
    (s t : List ℕ)
    → (seek_start (length s) (truncate (length s) (at_end (s ++ t) [])).1).1 ≡ at_end s []
unfolding truncate seek_start
truncate_seek s t = rw (resize-length s t)

-- A read of the next bytes, while no call fails.
abbrev pub standing : List ℕ → List ℕ → File
standing before after = record {
  content = before ++ after;
  pos = length before;
  closed = false;
  outcomes = [];
}

pub read_full-standing :
    (b d r : List ℕ) (n : ℕ)
    → n ≡ length d
    → read_full n (standing b (d ++ r)) ≡ (ok d, standing (b ++ d) r)
unfolding read_full read_here
read_full-standing b [] r n h = ground (arith, drop-append b r {n = length b} refl, append-nil b)
read_full-standing b (x ∷ d) r zero h = absurd (omega arith)
read_full-standing b (x ∷ d) r (suc n) h =
    rw
      (
        drop-append b (x ∷ d ++ r) {n = length b} refl,
        ltb-false (suc (length (d ++ r))) (suc n) (omega (arith, length-append d r)),
        take-append d r {n = n} (omega arith),
      )
      (ground (arith, append_assoc b (x ∷ d) r, length-append b (x ∷ d)))

pub read_full-eof :
    (b : List ℕ) (n : ℕ) → read_full (suc n) (standing b []) ≡ (err eof, standing b [])
unfolding read_full read_here
read_full-eof b n = rw (drop-append b [] {n = length b} refl) (ground arith)

-- The bytes behind the position.
abbrev pub left : File → ℕ
left f = length (drop f.pos f.content)

read_here-left :
    (n : ℕ) (f : File) {d : List ℕ} {g : File} → read_here n f ≡ (ok d, g) → left g + n ≡ left f
unfolding read_here
read_here-left n f {g = g} h =
    ground (arith, length-drop f.pos f.content, length-drop g.pos g.content)

next_outcome-left : (f : File) → left (next_outcome f).1 ≡ left f
unfolding next_outcome take_outcome
next_outcome-left f = ground arith

after_outcome-left :
    (n : ℕ) (o : Outcome × File) {d : List ℕ} {g : File}
    → resume (λ _ g. read_here n g) (after_call (λ g. g) o) ≡ (ok d, g)
    → left g + n ≡ left o.1
unfolding after_call
after_outcome-left n (works, f) h = read_here-left n f h
after_outcome-left n (fails m, f) h = cc

-- A read that succeeds leaves as many bytes fewer as it gives.
pub read_full-left :
    (n : ℕ) (f : File) {d : List ℕ} {g : File} → read_full n f ≡ (ok d, g) → left g + n ≡ left f
unfolding read_full
read_full-left n f h = after_outcome-left n (next_outcome f) h ∙ next_outcome-left f

read_here-left-le : (n : ℕ) (f : File) → left (read_here n f).1 ≤ left f
unfolding read_here
read_here-left-le n f = ground (
  arith,
  length-drop f.pos f.content,
  length-drop (f.pos + n) f.content,
  length-drop (f.pos + length (drop f.pos f.content)) f.content,
)

after_outcome-left-le :
    (n : ℕ) (o : Outcome × File)
    → left (resume (λ _ g. read_here n g) (after_call (λ g. g) o)).1 ≤ left o.1
unfolding after_call
after_outcome-left-le n (works, f) = read_here-left-le n f
after_outcome-left-le n (fails m, f) = omega arith

-- No read leaves more bytes than there were.
pub read_full-left-le : (n : ℕ) (f : File) → left (read_full n f).1 ≤ left f
unfolding read_full
read_full-left-le n f = omega (arith, after_outcome-left-le n (next_outcome f), next_outcome-left f)
