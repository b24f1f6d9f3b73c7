-- ===== src/Wal/Stream.antt =====
-- shared/wal/wal.go: `WALStream` and its loop `Next`, step by step, while other goroutines append to
-- the log and close it.
pub mod Wakeup
use multiplayer.Prelude.{Bool, Option, none, some, true, ℕ, ◌≡◌, ◌≢◌}
use multiplayer.Wal.Entry.{WalEntry}
use multiplayer.Wal.Log.{Wal, append, close_wal, get, next_u32}

-- type WALStream; `canceled` is its own `ctx`.
pub record WalStream : Type 0 where
  pub canceled : Bool
  pub index : ℕ

-- func (wal *WAL) Subscribe
unfoldable pub subscribe : Bool → ℕ → WalStream
subscribe canceled index = record { canceled = canceled; index = index }

-- Where a call of Next stands: at the top of its loop, with the channel in hand, blocked in the
-- select on that channel, or back with an entry and its index, or with one of its two errors.
pub data Phase : Type 0 where
  top : Phase
  armed waiting : (ch : ℕ) → Phase
  returned : WalEntry → ℕ → Phase
  wal_closed stream_canceled : Phase

pub record State : Type 0 where
  pub wal : Wal
  pub stream : WalStream
  pub phase : Phase

-- `stream.wal.Get`, and the index that it moves on.
look : ℕ → State → Option WalEntry → State
look ch s (some e) = record s {
  stream = record s.stream { index = next_u32 s.stream.index };
  phase = returned e s.stream.index;
}
look ch s none = record s { phase = waiting ch }

unfoldable pub try_get : ℕ → State → State
unfolding look
try_get ch s = look ch s (get s.stream.index s.wal)

-- The steps: of Next, of Append in another goroutine, of Close, of the stream's context, and a new
-- call of Next once one has returned an entry.
pub data Step (s : State) : State → Type 0 where
  take_channel : s.phase ≡ top → Step s (record s { phase = armed s.wal.notify })
  get_entry : (ch : ℕ) → s.phase ≡ armed ch → Step s (try_get ch s)
  wake : (ch : ℕ) → s.phase ≡ waiting ch → ch ≢ s.wal.notify → Step s (record s { phase = top })
  see_closed :
      (ch : ℕ)
      → s.phase ≡ waiting ch
      → s.wal.canceled ≡ true
      → Step s (record s { phase = wal_closed })
  see_canceled :
      (ch : ℕ)
      → s.phase ≡ waiting ch
      → s.stream.canceled ≡ true
      → Step s (record s { phase = stream_canceled })
  again : (e : WalEntry) (i : ℕ) → s.phase ≡ returned e i → Step s (record s { phase = top })
  other_append : (e : WalEntry) → Step s (record s { wal = (append e s.wal).1 })
  other_close : Step s (record s { wal = close_wal s.wal })
  cancel : Step s (record s { stream = record s.stream { canceled = true } })

pub data Reach (s : State) : State → Type 0 where
  here : Reach s s
  next : {t u : State} → Reach s t → Step t u → Reach s u

unfoldable pub start : Wal → WalStream → State
start wal stream = record { wal = wal; stream = stream; phase = top }
