-- ===== src/Wal/Stream/Wakeup.antt =====
-- A stream never sleeps on entries: while it is blocked there is nothing for it to read.
use multiplayer.Prelude.{arith, none, ◌≡◌, ◌≤◌, Option-cases, inl, inr, true, ℕ, ◌∙◌}
use multiplayer.Wal.Log.{get, Wal, close_wal}
use multiplayer.Wal.Log.Growth.{append-Grows, Grows, more, same}
use multiplayer.Wal.Stream.{
  State, Phase, Step, again, armed, cancel, get_entry, other_append, other_close, returned,
  see_canceled, see_closed, stream_canceled, take_channel, top, waiting, wake, wal_closed, Reach,
  WalStream, here, next, start, try_get,
}
use multiplayer.Wal.Entry.{WalEntry}

-- A channel in hand is no newer than the log's, and one that a stream waits on is closed once there
-- is an entry to read.
abbrev Awake : State → Phase → Type 0
Awake s top = Unit {0}
Awake s (armed ch) = ch ≤ s.wal.notify
Awake s (waiting ch) = (ch ≤ s.wal.notify) × (ch ≡ s.wal.notify → get s.stream.index s.wal ≡ none)
Awake s (returned e i) = Unit {0}
Awake s wal_closed = Unit {0}
Awake s stream_canceled = Unit {0}

get_of_same :
    (w w' : Wal) (i : ℕ) → w'.entries ≡ w.entries → w'.count ≡ w.count → get i w' ≡ get i w
unfolding get
get_of_same w w' i p q = cc (p, q)

try_get-Awake :
    (ch : ℕ) (s : State) → Awake s (armed ch) → Awake (try_get ch s) (try_get ch s).phase
unfolding try_get
try_get-Awake ch s h = elim (Option-cases (get s.stream.index s.wal)) [
  | inl e ↦ rw e (h, λ q. e)
  | inr (x, e) ↦ rw e tt
]

-- What another goroutine does to the log keeps a phase awake.
grown-Awake :
    (s : State) (w : Wal) (e : WalEntry) (p : Phase)
    → Grows s.wal w e
    → Awake s p
    → Awake (record s { wal = w }) p
grown-Awake s w e (armed ch) (same a b c) h = omega (arith, c)
grown-Awake s w e (armed ch) (more a b c) h = omega (arith, c)
grown-Awake s w e (waiting ch) (same a b c) h =
    (omega (arith, c), λ q. get_of_same s.wal w s.stream.index a b ∙ h.1 (q ∙ c))
grown-Awake s w e (waiting ch) (more a b c) h = (omega (arith, c), λ q. absurd (omega (arith, c)))
grown-Awake s w e top g h = tt
grown-Awake s w e (returned x i) g h = tt
grown-Awake s w e wal_closed g h = tt
grown-Awake s w e stream_canceled g h = tt

closed-Awake : (s : State) (p : Phase) → Awake s p → Awake (record s { wal = close_wal s.wal }) p
unfolding close_wal get
closed-Awake s (armed ch) h = h
closed-Awake s _ h = h

canceled-Awake :
    (s : State) (p : Phase)
    → Awake s p
    → Awake (record s { stream = record s.stream { canceled = true } }) p
canceled-Awake s (armed ch) h = h
canceled-Awake s _ h = h

Step-Awake : {s t : State} → Awake s s.phase → Step s t → Awake t t.phase
Step-Awake {s} h (take_channel p) = omega arith
Step-Awake {s} h (get_entry ch p) = try_get-Awake ch s (rw p at h)
Step-Awake {s} h (wake ch p n) = tt
Step-Awake {s} h (see_closed ch p n) = tt
Step-Awake {s} h (see_canceled ch p n) = tt
Step-Awake {s} h (again e i p) = tt
Step-Awake {s} h (other_append e) = grown-Awake s _ e s.phase (append-Grows s.wal e) h
Step-Awake {s} h other_close = closed-Awake s s.phase h
Step-Awake {s} h cancel = canceled-Awake s s.phase h

Reach-Awake : {s t : State} → Awake s s.phase → Reach s t → Awake t t.phase
Reach-Awake h here = h
Reach-Awake h (next r st) = Step-Awake (Reach-Awake h r) st

-- However the calls of Next, Append and Close interleave, a stream that is blocked on a channel that
-- is not closed has no entry to read: no wake-up is lost.
pub no_lost_wakeup :
    (wal : Wal) (stream : WalStream) (s : State) (ch : ℕ)
    → Reach (start wal stream) s
    → s.phase ≡ waiting ch
    → ch ≡ s.wal.notify
    → get s.stream.index s.wal ≡ none
unfolding start
no_lost_wakeup wal stream s ch r p q = (rw p at (Reach-Awake tt r)).1 q
