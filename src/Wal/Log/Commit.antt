-- ===== src/Wal/Log/Commit.antt =====
-- What the file part of Append leaves behind, whichever of its calls fails.
use multiplayer.Prelude.{
  List, ok, Result, [], ap, err, inl, inr, io_error, length, refl, ℕ, ◌%◌, ◌++◌, ◌^◌, ◌≡◌, ◌⊎◌,
  append-nil, append_assoc,
}
use multiplayer.Bytes.Words.{le32}
use multiplayer.File.{File, Outcome, Io, resume, sync, write}
use multiplayer.File.Laws.{
  OneFault, at_end, seek_current_cases, truncate_seek, write_cases, sync_cases,
}
use multiplayer.Wal.Log.{commit, or_rollback, rollback, undo}

-- The bytes of one entry in the file: its length and itself.
unfoldable pub framed : List ℕ → List ℕ
framed d = le32 (length d % 2 ^ 32) ++ d

-- Undoing a write at the end, all of it or a part, leaves what was there.
undo_err :
    (s t : List ℕ)
    → undo (length s) (err io_error, at_end (s ++ t) []) ≡ (err io_error, at_end s [])
unfolding undo rollback
undo_err s t = ap (λ (f : File). (err io_error, f)) (truncate_seek s t)

-- How a part of Append ends that has the bytes t to write behind s: with t written, or with s back.
abbrev pub Writes : List ℕ → List ℕ → Result (Unit {0}) × File → Type 0
Writes s t r =
    ((os : List Outcome) × (r ≡ (ok tt, at_end (s ++ t) os)) × OneFault os)
    ⊎ (r ≡ (err io_error, at_end s []))

resume-Writes :
    (s u t : List ℕ) {r : Result (Unit {0}) × File} (k : Unit {0} → Io (Unit {0}))
    → Writes s u r
    → ((os : List Outcome) → OneFault os → Writes s t (k tt (at_end (s ++ u) os)))
    → Writes s t (resume k r)
resume-Writes s u t k (inl (os, e, h)) next = rw e (next os h)
resume-Writes s u t k (inr e) next = inr (rw e refl)

write-Writes :
    (s u d : List ℕ) (os : List Outcome)
    → OneFault os
    → Writes s (u ++ d) (or_rollback (length s) (write d) (at_end (s ++ u) os))
unfolding or_rollback
write-Writes s u d os h = elim (write_cases (s ++ u) d os h) [
  | inl (os', e, h') ↦
      inl (os', rw e (ap (λ (c : List ℕ). (ok tt, at_end c os')) (append_assoc s u d)), h')
  | inr (t, e) ↦ inr (rw (e, append_assoc s u t) (undo_err s (u ++ t)))
]

sync-Writes :
    (s u : List ℕ) (os : List Outcome)
    → OneFault os
    → Writes s u (or_rollback (length s) sync (at_end (s ++ u) os))
unfolding or_rollback
sync-Writes s u os h = elim (sync_cases (s ++ u) os h) [
  | inl (os', e, h') ↦ inl (os', rw e refl, h')
  | inr e ↦ inr (rw e (undo_err s u))
]

-- If at most one of the calls fails, the entry is in the file behind what was there, or the file is
-- as it was: no part of an entry is left.
pub commit_cases :
    (s d : List ℕ) (os : List Outcome) → OneFault os → Writes s (framed d) (commit d (at_end s os))
unfolding commit framed
commit_cases s d os h = elim (seek_current_cases s os h) [
  | inr e ↦ inr (rw e refl)
  | inl (os1, e, h1) ↦ rw e (
      resume-Writes s (le32 (length d % 2 ^ 32)) (framed d) _
        (rw append-nil at (write-Writes s [] (le32 (length d % 2 ^ 32)) os1 h1))
        λ os2 h2.
          resume-Writes s (framed d) (framed d) _
            (write-Writes s (le32 (length d % 2 ^ 32)) d os2 h2)
            λ os3 h3. sync-Writes s (framed d) os3 h3)
]
