-- ===== src/Server/Events/Examples.antt =====
-- The theorems of the event sinks, on a player that moves and a sink that is sent two events.
use multiplayer.Prelude.{
  List, Result, [], arith, false, length, none, ok, refl, ℕ, ◌++◌, ◌∷◌, ◌≡◌, ◌≤◌,
}
use multiplayer.Bytes.{to_array}
use multiplayer.Protocol.Packet.{ClientPosition}
use multiplayer.Server.Examples.{player}
use multiplayer.Server.Events.{Event, Sender, position_event, trim_right, is_due, position_sink}
use multiplayer.Server.Events.Spacing.{Update, event_times-Spaced, Spaced, Heard, event_times}
use multiplayer.Server.Events.Nats.{
  SinkNats, EventNats, Reach, sends, connects, publishes, here, next_step, new_sink_nats, send_nats,
  publish, connected,
}
use multiplayer.Server.Events.Nats.Order.{Among, Published, published-order}
use multiplayer.Bytes.Int16.{pos}

abbrev sender : Sender
sender = record {
  session_id = to_array 16 (18 ∷ []);
  player = player;
  world_id = 1;
  last_pos_time = none;
}

abbrev place : ClientPosition
place = record { key = 1; x = pos 2; y = pos 3; z = pos 4 }

-- Three positions, the second too soon for an event.
abbrev moves : List Update
moves =
    record { position = place; since = 1000; now = 1010 }
    ∷ record { position = place; since = 100000000; now = 100000010 }
    ∷ record { position = place; since = 250001010; now = 250001020 }
    ∷ []

moves_lem : event_times sender moves ≡ 1010 ∷ 250001020 ∷ []
unfolding event_times position_sink is_due
moves_lem = refl

event_times-Spaced_example :
    Spaced none (event_times sender moves) × Heard none moves (event_times sender moves)
event_times-Spaced_example =
    event_times-Spaced sender moves 0 tt
      (omega arith, omega arith, (omega arith, omega arith, (omega arith, omega arith, tt)))

abbrev first_event : EventNats
first_event = record { subject = 111 ∷ []; event = position_event sender place }

abbrev second_event : EventNats
second_event = record { subject = 112 ∷ []; event = position_event sender place }

abbrev marshal : Event → Result (List ℕ)
marshal e = ok e.player_name

abbrev at_first : SinkNats
at_first = new_sink_nats (110 ∷ [])

abbrev at_last : SinkNats
at_last = record at_first {
  ch = second_event ∷ [];
  phase = connected;
  published = (111 ∷ [], 65 ∷ []) ∷ [];
}

at_last-Reach : Reach marshal at_first (first_event ∷ second_event ∷ []) at_last
unfolding new_sink_nats send_nats publish position_event trim_right
at_last-Reach =
    next_step
      (next_step (next_step (next_step here (sends first_event false)) (sends second_event false))
        (connects refl))
      (publishes first_event (second_event ∷ []) (ok tt) refl refl)

published-order_example :
    (taken : List EventNats) × Among (taken ++ second_event ∷ []) (first_event ∷ second_event ∷ [])
    × Published marshal taken ((111 ∷ [], 65 ∷ []) ∷ [])
    × (length (second_event ∷ []) ≤ 1024)
published-order_example =
    published-order marshal (110 ∷ []) (first_event ∷ second_event ∷ []) at_last at_last-Reach
