-- ===== src/Server/Events/Nats.antt =====
-- server/internal/events/sink.go, sink_nats.go and sink_null.go: the event sinks. The goroutine of a
-- SinkNATS, the callers of Send and Close, and the connection take steps that interleave. What the
-- libraries do is a parameter: json.Marshal is a function, and the results of nats.Connect and of the
-- connection's Publish are free.
pub mod Order
use multiplayer.Prelude.{
  Bool, List, Result, [], err, false, if◌then◌else◌, length, ltb, not, ok, panic, true, ℕ, ◌&&◌,
  ◌++◌, ◌||◌, ◌∷◌, ◌≡◌,
}
use multiplayer.Server.Events.{Event}

-- The channel `ch` has this capacity.
abbrev pub capacity : ℕ
capacity = 1024

-- type EventNATS
pub record EventNats : Type 0 where
  pub subject : List ℕ
  pub event : Event

-- Where the goroutine of a sink stands: in connect, in the loop of run, or back, with `done` closed.
pub data Phase : Type 0 where
  connecting connected finished : Phase

-- type SinkNATS, whose context is `alive` until it is cancelled, with what has been published.
pub record SinkNats : Type 0 where
  pub url : List ℕ
  pub ch : List EventNats
  pub alive : Bool
  pub phase : Phase
  pub published : List (List ℕ × List ℕ)

pub data Sink : Type 0 where
  to_nats : SinkNats → Sink
  to_null : Sink

-- func newSinkNATS
unfoldable pub new_sink_nats : List ℕ → SinkNats
new_sink_nats url = record { url = url; ch = []; alive = true; phase = connecting; published = [] }

-- func NewSink
unfoldable pub new_sink : List ℕ → Sink
unfolding new_sink_nats
new_sink [] = to_null
new_sink (c ∷ url) = to_nats (new_sink_nats (c ∷ url))

-- Send of a SinkNATS: the select never waits. A full channel is passed over, and when the context is
-- done the event may be dropped even so.
unfoldable pub send_nats : EventNats → Bool → SinkNats → SinkNats
send_nats ev drops s =
    if ltb (length s.ch) capacity && (s.alive || not drops)
    then record s { ch = s.ch ++ ev ∷ [] }
    else s

-- Send of a Sink, which always returns nil.
unfoldable pub send_event : EventNats → Bool → Sink → Sink
unfolding send_nats
send_event ev drops (to_nats s) = to_nats (send_nats ev drops s)
send_event ev drops to_null = to_null

-- func (s *SinkNATS) publish, with the result of json.Marshal and that of the connection
unfoldable pub publish :
    List ℕ → Result (List ℕ) → Result (Unit {0}) → SinkNats → Result (Unit {0}) × SinkNats
publish subject (ok d) (ok _) s = (ok tt, record s { published = s.published ++ (subject, d) ∷ [] })
publish subject (ok d) (err e) s = (err e, s)
publish subject (ok d) panic s = (panic, s)
publish subject (err e) r s = (err e, s)
publish subject panic r s = (panic, s)

module _ (marshal : Event → Result (List ℕ)) where
  -- The events of callers, as Send gets them, are in the index of the relation.
  pub data Step (s : SinkNats) : List EventNats → SinkNats → Type 0 where
    sends : (ev : EventNats) (drops : Bool) → Step s (ev ∷ []) (send_nats ev drops s)
    -- connect returns a connection.
    connects : s.phase ≡ connecting → Step s [] (record s { phase = connected })
    -- connect returns nil.
    gives_up : s.phase ≡ connecting → s.alive ≡ false → Step s [] (record s { phase = finished })
    -- The loop of run publishes an event; an error is logged.
    publishes :
        (ev : EventNats) (l : List EventNats) (r : Result (Unit {0}))
        → s.phase ≡ connected
        → s.ch ≡ ev ∷ l
        → Step s [] (publish ev.subject (marshal ev.event) r (record s { ch = l })).1
    -- The loop of run ends.
    stops : s.phase ≡ connected → s.alive ≡ false → Step s [] (record s { phase = finished })
    -- Close cancels the context.
    closes : Step s [] (record s { alive = false })

  pub data Reach (s : SinkNats) : List EventNats → SinkNats → Type 0 where
    here : Reach s [] s
    next_step :
        {u v : SinkNats} {evs fs : List EventNats}
        → Reach s evs u
        → Step u fs v
        → Reach s (evs ++ fs) v
