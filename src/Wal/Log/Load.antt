-- ===== src/Wal/Log/Load.antt =====
-- shared/wal/wal.go: `load` and `OpenWAL`, which read the file back when the log is opened.
pub mod Fuel
pub mod Recovery
use mathlib.Core.Option
use multiplayer.Prelude.{
  List, ok, Result, [], eof, err, false, length, panic, suc, zero, ℕ, ◌+◌, ◌>>=◌, Option, map, none,
  some, ◌>>◌,
}
use multiplayer.File.{File, read_full}
use multiplayer.Wal.Log.{Wal, remember}
use multiplayer.Bytes.Words.{le_uint32}
use multiplayer.Wal.Entry.{WalEntry, parse}
use multiplayer.Bytes.{ByteArray}
use multiplayer.Wal.Key.{dedup_key}

-- Parse and DedupKey of one entry's bytes.
decode : List ℕ → Result (WalEntry × ByteArray 16)
decode d = do entry ← parse d; key ← dedup_key entry; ok (entry, key)

-- How the loop goes on. `none` is no outcome of the program: the fuel of the model ran out.
abbrev Continue : Type 0
Continue = Wal → Option (Result (Unit {0}) × Wal)

on_entry :
    Continue → Wal → File → Result (WalEntry × ByteArray 16) → Option (Result (Unit {0}) × Wal)
unfolding remember
on_entry again wal f (ok (entry, key)) = again (record (remember key entry wal) { file = f })
on_entry again wal f (err e) = some (err e, record wal { file = f })
on_entry again wal f panic = some (panic, record wal { file = f })

on_data : Continue → Wal → Result (List ℕ) × File → Option (Result (Unit {0}) × Wal)
unfolding on_entry decode
on_data again wal (ok d, f) = on_entry again wal f (decode d)
on_data again wal (err e, f) = some (err e, record wal { file = f })
on_data again wal (panic, f) = some (panic, record wal { file = f })

on_length : Continue → Wal → File → Result ℕ → Option (Result (Unit {0}) × Wal)
unfolding on_data
on_length again wal f (ok n) = on_data again wal (read_full n f)
on_length again wal f (err e) = some (err e, record wal { file = f })
on_length again wal f panic = some (panic, record wal { file = f })

-- The end of the file before an entry ends the loop, and is no error.
on_header : Continue → Wal → Result (List ℕ) × File → Option (Result (Unit {0}) × Wal)
unfolding on_length
on_header again wal (ok b, f) = on_length again wal f (le_uint32 b)
on_header again wal (err eof, f) = some (ok tt, record wal { file = f })
on_header again wal (err e, f) = some (err e, record wal { file = f })
on_header again wal (panic, f) = some (panic, record wal { file = f })

-- One round of the loop.
round : Continue → Continue
unfolding on_header
round again wal = on_header again wal (read_full 4 wal.file)

-- func (wal *WAL) load, on fuel.
load : ℕ → Continue
unfolding round
load zero wal = none
load (suc n) wal = round (load n) wal

abbrev pub fresh : File → Wal
fresh f = record { canceled = false; file = f; set = []; entries = []; count = 0; notify = 0 }

on_load : Result (Unit {0}) × Wal → Result Wal
on_load (ok _, wal) = ok wal
on_load (err e, wal) = err e
on_load (panic, wal) = panic

-- func OpenWAL, from the file that os.OpenFile gives. Each round of the loop takes four bytes at
-- least, so as many rounds as the file has bytes, and one for the end, are enough.
unfoldable pub open_wal : File → Option (Result Wal)
unfolding load on_load
open_wal f = Option.map on_load (load (length f.content + 1) (fresh f))
