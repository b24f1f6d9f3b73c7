-- ===== src/Client/Positions/SelfPos.antt =====
-- The position of the player itself: what the game reports is sent up once.
use multiplayer.Prelude.{
  [], ap, append-nil, arith, false, none, ok, refl, some, suc, sym, zero, ℕ, ◌<◌, ◌==◌, ◌∙◌, ◌≡◌,
}
use multiplayer.Client.Positions.Timeouts.{ticks}
use multiplayer.Protocol.Packet.{
  ClientPosition, Packet, op_position, parse_client_position, serialize_client_position,
}
use multiplayer.Protocol.Packet
use multiplayer.Client.Ipc.{MessageBodyPositionIn}
use multiplayer.Client.Positions.{lower_ttls, send_self_pos, on_game_pos, tick, PositionSystem}
use multiplayer.Bytes.Int16.{IsI16}
use multiplayer.Protocol.Packet.RoundTrip.{parse_client_position-serialize}

-- The position that a message of the game reports.
abbrev pub reported : MessageBodyPositionIn → ClientPosition
reported m = record { key = m.key; x = m.x; y = m.y; z = m.z }

tick-packet : (s : PositionSystem) → (tick s).0 ≡ (send_self_pos s).0
unfolding tick
tick-packet s = refl

sent :
    (s : PositionSystem)
    → (s.position.key == 65535) ≡ false
    → (send_self_pos s).0
      ≡ some (record {
        op = Packet.op_position;
        content =
            serialize_client_position (record {
              key = s.position.key;
              x = s.position.x;
              y = s.position.y;
              z = s.position.z;
            });
      })
unfolding send_self_pos
sent s h = rw h refl

send_self_pos-key : (s : PositionSystem) → (send_self_pos s).1.position.key ≡ 65535
unfolding send_self_pos
send_self_pos-key s = ground arith

tick-key : (s : PositionSystem) → (tick s).1.position.key ≡ 65535
unfolding tick lower_ttls
tick-key s = send_self_pos-key s

silent : (s : PositionSystem) → s.position.key ≡ 65535 → (tick s).0 ≡ none
unfolding tick send_self_pos
silent s h = ground arith

ticks-key : (n : ℕ) (s : PositionSystem) → s.position.key ≡ 65535 → (ticks n s).position.key ≡ 65535
unfolding ticks
ticks-key zero s h = h
ticks-key (suc n) s h = ticks-key n (tick s).1 (tick-key s)

-- A position that the game reports, with a key below 0xffff and integers of 16 bits, is sent up
-- at the next tick in a packet that parses back to it; at later ticks nothing is sent until the
-- game reports another.
pub tick-on_game_pos :
    (s : PositionSystem) (m : MessageBodyPositionIn)
    → m.key < 65535
    → IsI16 m.x
    → IsI16 m.y
    → IsI16 m.z
    → (p : Packet) × ((tick (on_game_pos m s)).0 ≡ some p)
      × (p.op ≡ Packet.op_position)
      × (parse_client_position p.content ≡ ok (reported m))
      × ((n : ℕ) → (tick (ticks n (tick (on_game_pos m s)).1)).0 ≡ none)
unfolding on_game_pos
tick-on_game_pos s m k x y z =
    let p = serialize_client_position (reported m) in
    (
      record { op = Packet.op_position; content = p },
      tick-packet (on_game_pos m s) ∙ sent (on_game_pos m s) (ground arith),
      refl,
      ap parse_client_position (sym (append-nil p))
          ∙ parse_client_position-serialize (reported m) [] (omega arith) x y z,
      λ n. silent _ (ticks-key n (tick (on_game_pos m s)).1 (tick-key (on_game_pos m s))),
    )
