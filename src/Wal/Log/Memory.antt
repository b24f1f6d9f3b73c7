-- ===== src/Wal/Log/Memory.antt =====
-- The log in memory, whatever becomes of its file.
use multiplayer.Prelude.{
  All, All-append, Bool-cases, Error, List, Result, [], arith, err, false, inl, inr, length,
  length-append, map, ok, panic, suc, true, ℕ, ◌-◌, ◌<◌, ◌^◌, ◌∷◌, ◌≡◌, refl, sym, ◌++◌, ◌∙◌,
  append-nil,
}
use multiplayer.Wal.Log.{Wal, append, append_locked, after_commit, remember, contains, commit}
use multiplayer.Wal.Entry.{WalEntry}
use multiplayer.File.{File}
use multiplayer.Bytes.{ByteArray}
use multiplayer.Wal.Log.Invariant.{serialize-IsStored, IsStored, dedup_key-IsStored, set-snoc}
use multiplayer.Wal.Key.{dedup_key}
use multiplayer.Wal.Log.Keys.{Distinct-snoc, Distinct, contains-append}

-- The entries may be stored and have different keys, which are those of the set, and the count is
-- their number.
pub record IsMemory (w : Wal) : Type 0 where
  pub entries : All IsStored w.entries
  pub set : map dedup_key w.entries ≡ map ok w.set
  pub distinct : Distinct w.set
  pub count : w.count ≡ length w.entries
  pub small : length w.entries < 2 ^ 32

-- The log with an entry more, on some file.
abbrev pub with_entry : Wal → WalEntry → ByteArray 16 → File → Wal
with_entry w e k f = record (remember k e w) { file = f; notify = suc w.notify }

-- What Append may come to, for an entry with bytes and a key.
pub data Appended (w : Wal) (e : WalEntry) (k : ByteArray 16)
    : Result (Unit {0}) × Wal → Type 0 where
  known : contains k w.set ≡ true → Appended w e k (ok tt, w)
  grown : (f : File) → contains k w.set ≡ false → Appended w e k (ok tt, with_entry w e k f)
  failed :
      (x : Error) (f : File)
      → contains k w.set ≡ false
      → Appended w e k (err x, record w { file = f })
  crashed : (f : File) → contains k w.set ≡ false → Appended w e k (panic, record w { file = f })

after_commit-Appended :
    (w : Wal) (e : WalEntry) (k : ByteArray 16) (r : Result (Unit {0}) × File)
    → contains k w.set ≡ false
    → Appended w e k (after_commit k e w r)
unfolding after_commit
after_commit-Appended w e k (ok _, f) c = grown f c
after_commit-Appended w e k (err x, f) c = failed x f c
after_commit-Appended w e k (panic, f) c = crashed f c

append_locked-Appended :
    (d : List ℕ) (w : Wal) (e : WalEntry) (k : ByteArray 16)
    → Appended w e k (append_locked d k e w)
unfolding append_locked
append_locked-Appended d w e k = elim (Bool-cases (contains k w.set)) [
  | inl c ↦ rw c (known c)
  | inr c ↦ rw c (after_commit-Appended w e k (commit d w.file) c)
]

pub append-Appended :
    (w : Wal) (e : WalEntry) (k : ByteArray 16)
    → IsStored e
    → dedup_key e ≡ ok k
    → Appended w e k (append e w)
unfolding append
append-Appended w e k s q =
    let (d, p) = serialize-IsStored e s in rw p (rw q (append_locked-Appended d w e k))

pub with_entry-IsMemory :
    (w : Wal) (e : WalEntry) (k : ByteArray 16) (f : File)
    → IsMemory w
    → IsStored e
    → dedup_key e ≡ ok k
    → contains k w.set ≡ false
    → length w.entries < 2 ^ 32 - 1
    → IsMemory (with_entry w e k f)
unfolding remember
with_entry-IsMemory w e k f v s q c l = record {
  entries = All-append IsStored w.entries (e ∷ []) v.entries (s, tt);
  set = set-snoc w.entries w.set e k v.set q;
  distinct = Distinct-snoc w.set k v.distinct c;
  count = omega (arith, v.count, length-append w.entries (e ∷ []));
  small = omega (arith, length-append w.entries (e ∷ []));
}

pub same-IsMemory : (w : Wal) (f : File) → IsMemory w → IsMemory (record w { file = f })
same-IsMemory w f v = record {
  entries = v.entries;
  set = v.set;
  distinct = v.distinct;
  count = v.count;
  small = v.small;
}

-- What a log may gain at once: nothing, or one entry whose key is new to it.
pub data Growth (w : Wal) : List WalEntry → Type 0 where
  nothing : Growth w []
  fresh :
      (e : WalEntry) (k : ByteArray 16)
      → dedup_key e ≡ ok k
      → contains k w.set ≡ false
      → Growth w (e ∷ [])

-- A log that has gone on: at most one entry behind, and no key less.
pub record Further (w v : Wal) : Type 0 where
  pub more : List WalEntry
  pub growth : Growth w more
  pub entries : v.entries ≡ w.entries ++ more
  pub keys : (k : ByteArray 16) → contains k w.set ≡ true → contains k v.set ≡ true

pub same-Further : (w v : Wal) → v.entries ≡ w.entries → v.set ≡ w.set → Further w v
same-Further w v p q = record {
  more = [];
  growth = nothing;
  entries = p ∙ sym (append-nil w.entries);
  keys = λ k h. rw q h;
}

Appended-Further :
    (w : Wal) (e : WalEntry) (k : ByteArray 16) (r : Result (Unit {0}) × Wal)
    → dedup_key e ≡ ok k
    → Appended w e k r
    → Further w r.1
unfolding remember
Appended-Further w e k _ q (known c) = same-Further w w refl refl
Appended-Further w e k _ q (grown f c) = record {
  more = e ∷ [];
  growth = fresh e k q c;
  entries = refl;
  keys = λ j h. ground (arith, contains-append j w.set (k ∷ []));
}
Appended-Further w e k _ q (failed x f c) = same-Further w (record w { file = f }) refl refl
Appended-Further w e k _ q (crashed f c) = same-Further w (record w { file = f }) refl refl

Appended-IsMemory :
    (w : Wal) (e : WalEntry) (k : ByteArray 16) (r : Result (Unit {0}) × Wal)
    → IsMemory w
    → IsStored e
    → dedup_key e ≡ ok k
    → length w.entries < 2 ^ 32 - 1
    → Appended w e k r
    → IsMemory r.1
Appended-IsMemory w e k _ v s q l (known c) = v
Appended-IsMemory w e k _ v s q l (grown f c) = with_entry-IsMemory w e k f v s q c l
Appended-IsMemory w e k _ v s q l (failed x f c) = same-IsMemory w f v
Appended-IsMemory w e k _ v s q l (crashed f c) = same-IsMemory w f v

-- However the calls on the file end, Append of an entry that may be stored leaves a log that has gone
-- on and is in order in memory, while there is room.
pub append-IsMemory :
    (w : Wal) (e : WalEntry)
    → IsMemory w
    → IsStored e
    → length w.entries < 2 ^ 32 - 1
    → IsMemory (append e w).1 × Further w (append e w).1
append-IsMemory w e v s l =
    let (k, q) = dedup_key-IsStored e s in
    let a = append-Appended w e k s q in
    (Appended-IsMemory w e k (append e w) v s q l a, Appended-Further w e k (append e w) q a)
