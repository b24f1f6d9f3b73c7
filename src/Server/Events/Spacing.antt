-- ===== src/Server/Events/Spacing.antt =====
-- How often the server gives the positions of a player to its event sink.
use multiplayer.Prelude.{
  All, List, Option, [], false, none, refl, some, true, ℕ, ◌+◌, ◌<◌, ◌∷◌, ◌≡◌, ◌≤◌, ◌⊎◌, Bool-cases,
  arith, inl, inr, sym, subst,
}
use multiplayer.Protocol.Packet.{ClientPosition}
use mathlib.Core.List.{Memᴰ}
use multiplayer.Server.Events.{Event, Sender, interval, position_sink, is_due}

-- A call of handlePositionUpdate, with what the clock says at its two readings.
pub record Update : Type 0 where
  pub position : ClientPosition
  pub since : ℕ
  pub now : ℕ

with_event : Option (List ℕ × Event) → ℕ → List ℕ → List ℕ
with_event none now ts = ts
with_event (some e) now ts = now ∷ ts

-- When the events are sent.
unfoldable pub event_times : Sender → List Update → List ℕ
unfolding with_event
event_times s [] = []
event_times s (u ∷ us) =
    let x = position_sink s u.position u.since u.now in with_event x.0 u.now (event_times x.1 us)

-- The clock does not go back.
abbrev pub IsClock : ℕ → List Update → Type 0
IsClock t [] = Unit {0}
IsClock t (u ∷ us) = (t ≤ u.since) × (u.since ≤ u.now) × IsClock u.now us

abbrev pub IsPast : Option ℕ → ℕ → Type 0
IsPast none t = Unit {0}
IsPast (some p) t = p ≤ t

-- The times lie apart, and apart from an event before them.
abbrev pub Spaced : Option ℕ → List ℕ → Type 0
Spaced o [] = Unit {0}
Spaced none (t ∷ ts) = Spaced (some t) ts
Spaced (some p) (t ∷ ts) = (p + interval ≤ t) × Spaced (some t) ts

-- Each update has an event before it or with it that is not older than the interval.
abbrev pub Heard : Option ℕ → List Update → List ℕ → Type 0
Heard o us ts =
    All (λ u. (t : ℕ) × ((o ≡ some t) ⊎ Memᴰ t ts) × (t ≤ u.now) × (u.since < t + interval)) us

event_times-quiet :
    (s : Sender) (u : Update) (us : List Update)
    → is_due s.last_pos_time u.since ≡ false
    → event_times s (u ∷ us) ≡ event_times s us
unfolding event_times position_sink
event_times-quiet s u us h = rw (event_times, position_sink, h) refl

event_times-due :
    (s : Sender) (u : Update) (us : List Update)
    → is_due s.last_pos_time u.since ≡ true
    → event_times s (u ∷ us) ≡ u.now ∷ event_times (record s { last_pos_time = some u.now }) us
unfolding event_times position_sink
event_times-due s u us h = rw (event_times, position_sink, h) refl

-- The last event, for the updates that follow.
quiet-Heard :
    (o : Option ℕ) (u : Update) (us : List Update) (ts : List ℕ) (p : ℕ)
    → o ≡ some p
    → p ≤ u.now
    → u.since < p + interval
    → Heard o us ts
    → Heard o (u ∷ us) ts
quiet-Heard o u us ts p e l m h = ((p, inl e, l, m), h)

after-Heard :
    (o : Option ℕ) (now : ℕ) (us : List Update) (ts : List ℕ)
    → Heard (some now) us ts
    → Heard o us (now ∷ ts)
after-Heard o now [] ts h = tt
after-Heard o now (u ∷ us) ts ((t, inl e, x, y), h) =
    ((t, inr (Memᴰ.head (cc)), x, y), after-Heard o now us ts h)
after-Heard o now (u ∷ us) ts ((t, inr m, x, y), h) =
    ((t, inr (Memᴰ.tail m), x, y), after-Heard o now us ts h)

due-Heard :
    (o : Option ℕ) (u : Update) (us : List Update) (ts : List ℕ)
    → u.since ≤ u.now
    → Heard (some u.now) us ts
    → Heard o (u ∷ us) (u.now ∷ ts)
due-Heard o u us ts l h =
    ((u.now, inr (Memᴰ.head refl), omega arith, omega (arith, l)), after-Heard o u.now us ts h)

due-Spaced :
    (o : Option ℕ) (since now : ℕ) (ts : List ℕ)
    → is_due o since ≡ true
    → since ≤ now
    → Spaced (some now) ts
    → Spaced o (now ∷ ts)
unfolding is_due
due-Spaced none since now ts h l s = s
due-Spaced (some p) since now ts h l s = (ground arith, s)

quiet_last :
    (o : Option ℕ) (since start : ℕ)
    → is_due o since ≡ false
    → IsPast o start
    → (p : ℕ) × (o ≡ some p) × (p ≤ start) × (since < p + interval)
unfolding is_due
quiet_last none since start h l = absurd (cc)
quiet_last (some p) since start h l = (p, refl, l, ground arith)

IsPast-later : (o : Option ℕ) (a b : ℕ) → IsPast o a → a ≤ b → IsPast o b
IsPast-later none a b h l = tt
IsPast-later (some p) a b h l = omega arith

-- However often a player sends its position, with a clock that does not go back: the events of the
-- player are sent at times that lie 250 milliseconds or more apart, also from an event before them;
-- and whenever a position comes in, an event has been sent less than 250 milliseconds before its check,
-- or is sent for it.
pub event_times-Spaced :
    (s : Sender) (us : List Update) (start : ℕ)
    → IsPast s.last_pos_time start
    → IsClock start us
    → Spaced s.last_pos_time (event_times s us) × Heard s.last_pos_time us (event_times s us)
unfolding event_times
event_times-Spaced s [] start p c = (tt, tt)
event_times-Spaced s (u ∷ us) start p (a, b, c) =
    let o = s.last_pos_time in
    let Good : List ℕ → Type 0 = λ ts. Spaced o ts × Heard o (u ∷ us) ts in
    elim (Bool-cases (is_due o u.since)) [
      | inl e ↦
          let v = record s { last_pos_time = some u.now } in
          let (x, y) = event_times-Spaced v us u.now (omega arith) c in
          let ts = event_times v us in
          subst Good (sym (event_times-due s u us e))
            (due-Spaced o u.since u.now ts e b x, due-Heard o u us ts b y)
      | inr e ↦
          let (q, h, l, m) = quiet_last o u.since start e p in
          let (x, y) =
            event_times-Spaced s us u.now (IsPast-later o start u.now p (omega arith)) c in
          subst Good (sym (event_times-quiet s u us e))
            (x, quiet-Heard o u us (event_times s us) q h (omega arith) m y)
    ]
