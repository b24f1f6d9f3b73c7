-- ===== src/Wal/Log.antt =====
-- shared/wal/wal.go: the log, its file, and the streams that follow it.
pub mod Commit
pub mod Invariant
pub mod Load
pub mod Keys
pub mod History
pub mod Parsed
pub mod Memory
pub mod Prefixes
pub mod Working
pub mod Growth
pub mod Examples
use multiplayer.Prelude.{
  Bool, List, Result, [], err, false, length, ok, panic, ℕ, ◌%◌, ◌++◌, ◌+◌, ◌^◌, ◌||◌, ◌∷◌, Option,
  get_elem?, if◌then◌else◌, leb, none, suc, true,
}
use multiplayer.Bytes.{ByteArray, array_eq, index}
use multiplayer.Bytes.Words.{le32}
use multiplayer.File.{◌>>=◌, ◌>>◌, File, Io, seek_current, seek_start, sync, truncate, write, close}
use multiplayer.Wal.Entry.{WalEntry, serialize}
use multiplayer.Wal.Key.{dedup_key}

-- type WAL. The map `set` is the list of its keys. `notify` counts the channels that Append has
-- closed: a channel taken at one count is closed when the count has grown. `canceled` is `ctx`.
pub record Wal : Type 0 where
  pub canceled : Bool
  pub file : File
  pub set : List (ByteArray 16)
  pub entries : List WalEntry
  pub count : ℕ
  pub notify : ℕ

pub contains : ByteArray 16 → List (ByteArray 16) → Bool
contains k [] = false
contains k (l ∷ ls) = array_eq 16 l k || contains k ls

-- A uint32 goes back to 0 after its largest value.
abbrev pub next_u32 : ℕ → ℕ
next_u32 n = (n + 1) % 2 ^ 32

-- Adding to the in-memory set and list.
unfoldable pub remember : ByteArray 16 → WalEntry → Wal → Wal
remember key entry wal = record wal {
  set = wal.set ++ key ∷ [];
  entries = wal.entries ++ entry ∷ [];
  count = next_u32 wal.count;
}

-- What Append does when a write or the sync fails; the errors of these calls are not looked at.
rollback : ℕ → File → File
rollback pos f = (seek_start pos (truncate pos f).1).1

undo : ℕ → Result (Unit {0}) × File → Result (Unit {0}) × File
undo pos (ok a, f) = (ok a, f)
undo pos (err e, f) = (err e, rollback pos f)
undo pos (panic, f) = (panic, f)

or_rollback : ℕ → Io (Unit {0}) → Io (Unit {0})
unfolding rollback undo
or_rollback pos m f = undo pos (m f)

-- The part of Append that works on the file: seek, write the length, write the entry, sync.
pub commit : List ℕ → Io (Unit {0})
unfolding or_rollback
commit d = do
  pos ← seek_current
  or_rollback pos (write (le32 (length d % 2 ^ 32)))
  or_rollback pos (write d)
  or_rollback pos sync

after_commit : ByteArray 16 → WalEntry → Wal → Result (Unit {0}) × File → Result (Unit {0}) × Wal
after_commit key entry wal (ok _, f) =
    (ok tt, record (remember key entry wal) { file = f; notify = suc wal.notify })
after_commit key entry wal (err e, f) = (err e, record wal { file = f })
after_commit key entry wal (panic, f) = (panic, record wal { file = f })

-- Append from the lock on: a key that is there is no error, and changes nothing.
append_locked : List ℕ → ByteArray 16 → WalEntry → Wal → Result (Unit {0}) × Wal
unfolding after_commit remember
append_locked d key entry wal =
    if contains key wal.set then (ok tt, wal) else after_commit key entry wal (commit d wal.file)

pub with_ok :
    {A : Type 0} → Result A → Wal → (A → Result (Unit {0}) × Wal) → Result (Unit {0}) × Wal
with_ok (ok a) wal k = k a
with_ok (err e) wal k = (err e, wal)
with_ok panic wal k = (panic, wal)

-- func (wal *WAL) Append
unfoldable pub append : WalEntry → Wal → Result (Unit {0}) × Wal
unfolding append_locked with_ok
append entry wal =
    with_ok (serialize entry) wal
      λ d. with_ok (dedup_key entry) wal λ key. append_locked d key entry wal

-- func (wal *WAL) Get
unfoldable pub get : ℕ → Wal → Option WalEntry
get index wal = if leb wal.count index then none else get_elem? wal.entries index

-- func (wal *WAL) Close
unfoldable pub close_wal : Wal → Wal
close_wal wal = record wal { canceled = true; file = close wal.file }
