-- ===== src/File/Success.antt =====
-- What a call on a file has done once it has returned without an error, whatever was to come after it.
use native.Mathlib.Nat.{le-add_right}
use multiplayer.Prelude.{
  List, ok, Result, arith, err, length, panic, refl, ℕ, ◌++◌, ◌≡◌, ap, append-nil, drop,
  drop-length, length-append, sym, ◌+◌, ◌∙◌, [], ◌⊎◌,
}
use multiplayer.File.{
  Io, write, put, File, Outcome, after_call, after_write, fails, next_outcome, resume, seek_end,
  sync, works, resize, seek_start, truncate,
}
use multiplayer.File.Laws.{resize_self}

-- The first call of a sequence that succeeds has succeeded, and the rest has from where it left.
pub resume-eq-ok :
    {A B : Type 0} (k : A → Io B) (r : Result A × File) {b : B} {g : File}
    → resume k r ≡ (ok b, g)
    → (a : A) × (f : File) × (r ≡ (ok a, f)) × (k a f ≡ (ok b, g))
resume-eq-ok k (ok a, f) h = (a, f, refl, h)
resume-eq-ok k (err e, f) h = absurd (cc)
resume-eq-ok k (panic, f) h = absurd (cc)

-- A call leaves the bytes and the position as they are, but for what it is made for.
next_outcome-content :
    (f : File) → ((next_outcome f).1.content ≡ f.content) × ((next_outcome f).1.pos ≡ f.pos)
unfolding next_outcome
next_outcome-content f = ground arith

splice_end :
    (p : ℕ) (s d : List ℕ) → p ≡ length s → resize p s ++ d ++ drop (p + length d) s ≡ s ++ d
splice_end p s d h =
    rw h
      (rw (resize_self s, drop-length s (le-add_right (length s) (length d))) (append-nil (s ++ d)))

put-content :
    (d : List ℕ) (f : File)
    → f.pos ≡ length f.content
    → ((put d f).content ≡ f.content ++ d) × ((put d f).pos ≡ length (put d f).content)
unfolding put
put-content d f h =
    let c = splice_end f.pos f.content d h in
    (c, omega (arith, ap length c, length-append f.content d))

after_write-ok :
    (d : List ℕ) (o : Outcome × File) {g : File}
    → o.1.pos ≡ length o.1.content
    → after_write d o ≡ (ok tt, g)
    → (g.content ≡ o.1.content ++ d) × (g.pos ≡ length g.content)
unfolding after_write
after_write-ok d (works, f) {g} h e = let q : put d f ≡ g = cc in rw q at (put-content d f h)
after_write-ok d (fails n, f) h e = absurd (cc)

-- A write at the end of the file that succeeds has added its bytes there.
pub write-ok :
    (d : List ℕ) (f : File) {g : File}
    → f.pos ≡ length f.content
    → write d f ≡ (ok tt, g)
    → (g.content ≡ f.content ++ d) × (g.pos ≡ length g.content)
unfolding write
write-ok d f {g} h e =
    let (c, p) = next_outcome-content f in
    rw c at (after_write-ok d (next_outcome f) (p ∙ h ∙ ap length (sym c)) e)

after_call-ok :
    (k : File → File) (o : Outcome × File) {g : File} → after_call k o ≡ (ok tt, g) → g ≡ k o.1
unfolding after_call
after_call-ok k (works, f) e = cc
after_call-ok k (fails n, f) e = absurd (cc)

pub seek_end-ok :
    (f : File) {g : File}
    → seek_end f ≡ (ok tt, g)
    → (g.content ≡ f.content) × (g.pos ≡ length g.content)
unfolding seek_end
seek_end-ok f {g} e =
    let (c, p) = next_outcome-content f in
    let q = after_call-ok _ (next_outcome f) e in
    (
      ap (λ (x : File). x.content) q ∙ c,
      ap (λ (x : File). x.pos) q ∙ ap (λ (x : File). length x.content) (sym q),
    )

after_call-content : (o : Outcome × File) → (after_call (λ g. g) o).1.content ≡ o.1.content
unfolding after_call
after_call-content (works, f) = refl
after_call-content (fails n, f) = refl

pub sync-content : (f : File) → ((sync f).1.content ≡ f.content)
unfolding sync
sync-content f = after_call-content (next_outcome f) ∙ (next_outcome-content f).0

pub seek_start-content : (n : ℕ) (f : File) → ((seek_start n f).1.content ≡ f.content)
unfolding seek_start after_call next_outcome
seek_start-content n f = ground arith

pub truncate-content :
    (f : File) → ((truncate 0 f).1.content ≡ []) ⊎ ((truncate 0 f).1.content ≡ f.content)
unfolding truncate after_call next_outcome resize
truncate-content f = ground arith
