-- ===== src/Client/SendQueue.antt =====
-- client/internal/game/send_queue.go: the entries that the server has not acknowledged yet, in memory
-- and in a file.
pub mod Reload
pub mod Acks
pub mod Durable
use mathlib.Core.Option
use multiplayer.Prelude.{
  List, ok, Option, Result, [], eof, err, if◌then◌else◌, length, map, none, panic, some, suc, zero,
  ℕ, ◌%◌, ◌+◌, ◌^◌, ◌∷◌,
}
use multiplayer.Bytes.{ByteArray, array_eq, bytes, to_array}
use multiplayer.Bytes.Words.{le32, le_uint32}
use multiplayer.File.{◌>>=◌, ◌>>◌, Io, File, read_full, seek_end, seek_start, sync, truncate, write}

abbrev pub Entries : Type 0
Entries = List (ByteArray 16 × List ℕ)

-- type SendQueue; the map `entries` is an association list with each key once.
pub record SendQueue : Type 0 where
  pub file : File
  pub entries : Entries

unfoldable pub lookup : ByteArray 16 → Entries → Option (List ℕ)
lookup k [] = none
lookup k ((j, d) ∷ es) = if array_eq 16 j k then some d else lookup k es

-- `entries[k] = d`
unfoldable pub put : ByteArray 16 → List ℕ → Entries → Entries
put k d [] = (k, d) ∷ []
put k d ((j, c) ∷ es) = if array_eq 16 j k then (k, d) ∷ es else (j, c) ∷ put k d es

-- `delete(entries, k)`
unfoldable pub remove : ByteArray 16 → Entries → Entries
remove k [] = []
remove k ((j, d) ∷ es) = let rest = remove k es in if array_eq 16 j k then rest else (j, d) ∷ rest

-- The file part of Add. Nothing is taken back when a call fails.
unfoldable pub write_entry : ByteArray 16 → List ℕ → Io (Unit {0})
write_entry id d = do seek_end; write (bytes 16 id); write (le32 (length d % 2 ^ 32)); write d; sync

after_write :
    ByteArray 16 → List ℕ → SendQueue → Result (Unit {0}) × File → Result (Unit {0}) × SendQueue
after_write id d sq (ok _, f) = (ok tt, record { file = f; entries = put id d sq.entries })
after_write id d sq (err e, f) = (err e, record sq { file = f })
after_write id d sq (panic, f) = (panic, record sq { file = f })

add_new : Option (List ℕ) → ByteArray 16 → List ℕ → SendQueue → Result (Unit {0}) × SendQueue
unfolding after_write
add_new (some c) id d sq = (ok tt, sq)
add_new none id d sq = after_write id d sq (write_entry id d sq.file)

-- func (sq *SendQueue) Add
unfoldable pub add : ByteArray 16 → List ℕ → SendQueue → Result (Unit {0}) × SendQueue
unfolding add_new
add id d sq = add_new (lookup id sq.entries) id d sq

rewind : Result (Unit {0}) × File → File
rewind (ok _, f) = (seek_start 0 f).1
rewind (err e, f) = f
rewind (panic, f) = f

-- What Ack does to the file when the last entry is gone; the errors are only printed.
empty_file : Entries → File → File
unfolding rewind
empty_file [] f = rewind (truncate 0 f)
empty_file (e ∷ es) f = f

ack_some : Entries → ByteArray 16 → SendQueue → SendQueue
ack_some [] id sq = sq
ack_some (e ∷ es) id sq =
    let rest = remove id sq.entries in
    record { file = (sync (empty_file rest sq.file)).1; entries = rest }

-- func (sq *SendQueue) Ack
unfoldable pub ack : ByteArray 16 → SendQueue → SendQueue
unfolding ack_some empty_file rewind
ack id sq = ack_some sq.entries id sq

-- func (sq *SendQueue) Pending: Go's order of a map is not fixed; here it is that of the list.
unfoldable pub pending : SendQueue → List (List ℕ)
pending sq = map (λ e. e.1) sq.entries

-- loadSendQueue. `none` is no outcome of the program: the fuel of the model ran out.
lift : {A : Type 0} → Result A → Io A
lift r f = (r, f)

-- The length and the bytes of a record whose key has been read.
read_rest : Io (List ℕ)
unfolding lift
read_rest = do b ← read_full 4; n ← lift (le_uint32 b); read_full n

abbrev Continue : Type 0
Continue = SendQueue → Option (Result (Unit {0}) × SendQueue)

on_record :
    Continue
    → SendQueue
    → ByteArray 16
    → Result (List ℕ) × File
    → Option (Result (Unit {0}) × SendQueue)
on_record again sq id (ok d, f) = again (record { file = f; entries = put id d sq.entries })
on_record again sq id (err e, f) = some (err e, record sq { file = f })
on_record again sq id (panic, f) = some (panic, record sq { file = f })

-- The end of the file before a key ends the loop, and is no error.
on_id : Continue → SendQueue → Result (List ℕ) × File → Option (Result (Unit {0}) × SendQueue)
unfolding on_record read_rest
on_id again sq (ok b, f) = on_record again sq (to_array 16 b) (read_rest f)
on_id again sq (err eof, f) = some (ok tt, record sq { file = f })
on_id again sq (err e, f) = some (err e, record sq { file = f })
on_id again sq (panic, f) = some (panic, record sq { file = f })

unfoldable pub load : ℕ → Continue
unfolding on_id
load zero sq = none
load (suc n) sq = on_id (load n) sq (read_full 16 sq.file)

on_load : Result (Unit {0}) × SendQueue → Result SendQueue
on_load (ok _, sq) = ok sq
on_load (err e, sq) = err e
on_load (panic, sq) = panic

-- func OpenSendQueue, from the file that os.OpenFile gives. Each round takes sixteen bytes at least,
-- so as many rounds as the file has bytes, and one for the end, are enough.
unfoldable pub open_send_queue : File → Option (Result SendQueue)
unfolding load on_load
open_send_queue f =
    Option.map on_load (load (length f.content + 1) (record { file = f; entries = [] }))
