-- ===== src/Wal/Log/Invariant.antt =====
-- The invariant of the log: the file, the list, the set and the count say the same thing.
use multiplayer.Prelude.{
  List, ok, map, All, Result, [], append-nil, append_assoc, err, false, io_error, length, panic,
  suc, true, ℕ, ◌%◌, ◌++◌, ◌^◌, ◌∷◌, ◌≡◌, ◌⊎◌, arith, sym, All-append, Bool-cases, inl, inr,
  length-append, refl, map-append, ◌≤◌,
}
use multiplayer.Bytes.{ByteArray, to_array}
use multiplayer.File.{Outcome}
use multiplayer.File.Laws.{OneFault, at_end}
use multiplayer.Wal.Entry.{WalEntry, IsValid, active, serialize, wal_event, wal_item}
use multiplayer.Wal.Log.{Wal, append, append_locked, contains, next_u32, commit}
use multiplayer.Wal.Log.Commit.{framed, Writes, commit_cases}
use multiplayer.Wal.Key.{dedup_key}
use multiplayer.Bytes.Words.{le32}

-- An entry as it is in the log: its fields are in range, its type is known, and the half that its
-- type does not select is zero.
pub record IsStored (e : WalEntry) : Type 0 where
  pub valid : IsValid e
  pub typed : (e.type ≡ wal_item) ⊎ (e.type ≡ wal_event)
  pub is_active : active e ≡ e

abbrev value_or_nil : Result (List ℕ) → List ℕ
value_or_nil (ok d) = d
value_or_nil (err e) = []
value_or_nil panic = []

abbrev key_or_zero : Result (ByteArray 16) → ByteArray 16
key_or_zero (ok k) = k
key_or_zero (err e) = to_array 16 []
key_or_zero panic = to_array 16 []

-- The bytes of entries in the file.
pub frames : List WalEntry → List ℕ
frames [] = []
frames (e ∷ es) = framed (value_or_nil (serialize e)) ++ frames es

pub frames-cons :
    (e : WalEntry) (es : List WalEntry) {d : List ℕ}
    → serialize e ≡ ok d
    → frames (e ∷ es) ≡ framed d ++ frames es
unfolding frames
frames-cons e es h = rw h refl

pub frames-nil : frames [] ≡ []
unfolding frames
frames-nil = refl

pub length-frames : (es : List WalEntry) → length es ≤ length (frames es)
unfolding frames framed le32
length-frames [] = omega arith
length-frames (e ∷ es) =
    omega (arith, length-append (framed (value_or_nil (serialize e))) (frames es), length-frames es)

pub frames-append :
    (es : List WalEntry) (e : WalEntry) {d : List ℕ}
    → serialize e ≡ ok d
    → frames (es ++ e ∷ []) ≡ frames es ++ framed d
unfolding frames
frames-append [] e h = rw h (append-nil _)
frames-append (x ∷ es) e {d} h =
    rw (frames-append es e h) (sym (append_assoc _ (frames es) (framed d)))

pub record IsWal (w : Wal) : Type 0 where
  pub file : w.file ≡ at_end (frames w.entries) w.file.outcomes
  pub count : w.count ≡ length w.entries % 2 ^ 32
  pub set : map dedup_key w.entries ≡ map ok w.set
  pub entries : All IsStored w.entries

pub serialize-IsStored : (e : WalEntry) → IsStored e → (d : List ℕ) × (serialize e ≡ ok d)
unfolding serialize
serialize-IsStored e h = (value_or_nil (serialize e), ground arith)

pub dedup_key-IsStored : (e : WalEntry) → IsStored e → (k : ByteArray 16) × (dedup_key e ≡ ok k)
unfolding dedup_key
dedup_key-IsStored e h = (key_or_zero (dedup_key e), ground arith)

-- The log with one entry more, in the file too.
abbrev pub extended : Wal → WalEntry → ByteArray 16 → List Outcome → Wal
extended w e k os = record w {
  file = at_end (frames (w.entries ++ e ∷ [])) os;
  set = w.set ++ k ∷ [];
  entries = w.entries ++ e ∷ [];
  count = next_u32 w.count;
  notify = suc w.notify;
}

-- The log with the same entries, and no failure to come.
abbrev pub restored : Wal → Wal
restored w = record w { file = at_end (frames w.entries) [] }

commit_here :
    (w : Wal) (d : List ℕ)
    → IsWal w
    → OneFault w.file.outcomes
    → Writes (frames w.entries) (framed d) (commit d w.file)
commit_here w d v h = rw v.file (commit_cases (frames w.entries) d w.file.outcomes h)

-- Append of an entry that has bytes and a key, to a log in good order, when at most one of the
-- coming calls on the file fails: it finds the key in the set and does nothing, or the key was
-- not there and the entry is in the file and in memory, or it was not there, the call fails, and
-- the entries, the set, the count and the content of the file are as before.
pub append_cases :
    (w : Wal) (e : WalEntry) (d : List ℕ) (k : ByteArray 16)
    → IsWal w
    → OneFault w.file.outcomes
    → serialize e ≡ ok d
    → dedup_key e ≡ ok k
    → ((contains k w.set ≡ true) × (append e w ≡ (ok tt, w)))
      ⊎ ((contains k w.set ≡ false)
          × (os : List Outcome) × (append e w ≡ (ok tt, extended w e k os))
          × OneFault os)
      ⊎ ((contains k w.set ≡ false) × (append e w ≡ (err io_error, restored w)))
unfolding append append_locked
append_cases w e d k v h s t =
    rw (s, append)
      (rw t (elim (Bool-cases (contains k w.set)) [
        | inl c ↦ inl (c, rw c refl)
        | inr c ↦ elim (commit_here w d v h) [
          | inl (os, p, q) ↦
              inr (inl (c, os, rw c (rw p (rw (frames-append w.entries e s) refl)), q))
          | inr p ↦ inr (inr (c, rw c (rw p refl)))
        ]
      ]))

-- An entry more, and its key.
pub set-snoc :
    (es : List WalEntry) (ks : List (ByteArray 16)) (e : WalEntry) (k : ByteArray 16)
    → map dedup_key es ≡ map ok ks
    → dedup_key e ≡ ok k
    → map dedup_key (es ++ e ∷ []) ≡ map ok (ks ++ k ∷ [])
set-snoc es ks e k h q =
    rw
      (
        map-append dedup_key es (e ∷ []),
        map-append {B = Result (ByteArray 16)} ok ks (k ∷ []),
        h,
        q,
      )
      refl

extended-IsWal :
    (w : Wal) (e : WalEntry) (k : ByteArray 16) (os : List Outcome)
    → IsWal w
    → IsStored e
    → dedup_key e ≡ ok k
    → IsWal (extended w e k os)
extended-IsWal w e k os v s t = record {
  file = refl;
  count = omega (arith, v.count, length-append w.entries (e ∷ []));
  set = set-snoc w.entries w.set e k v.set t;
  entries = All-append IsStored w.entries (e ∷ []) v.entries (s, tt);
}

restored-IsWal : (w : Wal) → IsWal w → IsWal (restored w)
restored-IsWal w v = record { file = refl; count = v.count; set = v.set; entries = v.entries }

-- Append of an entry that the log may hold leaves a log in good order behind if it found one, on
-- success and on failure, when at most one of the coming calls on the file fails.
pub append-IsWal :
    (w : Wal) (e : WalEntry)
    → IsWal w
    → OneFault w.file.outcomes
    → IsStored e
    → IsWal (append e w).1
append-IsWal w e v h s =
    let (d, q) = serialize-IsStored e s in
    let (k, t) = dedup_key-IsStored e s in
    elim (append_cases w e d k v h q t) [
      | inl (c, r) ↦ rw r v
      | inr (inl (c, os, r, f)) ↦ rw r (extended-IsWal w e k os v s t)
      | inr (inr (c, r)) ↦ rw r (restored-IsWal w v)
    ]
