-- ===== src/Client/Positions.antt =====
-- client/internal/game/position_system.go: where the players are. A message is offered to its channel,
-- which may drop it: the operations give what they offer. `pos` is `position` here.
pub mod LocalIds
pub mod Timeouts
pub mod SelfPos
use multiplayer.Prelude.{
  List, Option, [], false, if◌then◌else◌, leb, none, some, true, ℕ, ◌%◌, ◌*◌, ◌+◌, ◌-◌, ◌==◌, ◌^◌,
  ◌∷◌,
}
use multiplayer.Client.Ipc.{Message, MessageBodyPositionIn, op_position, serialize_position_out}
use multiplayer.Protocol.Packet.{ClientPosition, Packet, ServerPosition, serialize_client_position}
use multiplayer.Protocol.Packet
use multiplayer.Bytes.{array_eq, ByteArray}
use multiplayer.Bytes.Int16.{ℤ, pos}

pub record PositionData : Type 0 where
  pub key : ℕ
  pub x : ℤ
  pub y : ℤ
  pub z : ℤ

-- A lifetime never goes below 0: a player that reaches it is removed.
pub record PlayerData : Type 0 where
  pub name : ByteArray 8
  pub local_id : ℕ
  pub ttl : ℕ

abbrev pub Players : Type 0
Players = List (ByteArray 16 × PlayerData)

-- `local` is an association list with each key once; `local_id_free` has the end of the slice, where
-- ids are pushed and popped, first.
pub record PositionSystem : Type 0 where
  pub position : PositionData
  pub local : Players
  pub local_id_free : List ℕ
  pub local_id_next : ℕ

unfoldable pub create_position_system : PositionSystem
create_position_system = record {
  position = record { key = 65535; x = pos 0; y = pos 0; z = pos 0 };
  local = [];
  local_id_free = [];
  local_id_next = 1;
}

unfoldable pub find_player : ByteArray 16 → Players → Option PlayerData
find_player k [] = none
find_player k ((j, p) ∷ ps) = if array_eq 16 j k then some p else find_player k ps

-- The packet with the position of the game, unless there is none that is new.
unfoldable pub send_self_pos : PositionSystem → Option Packet × PositionSystem
send_self_pos s =
    if s.position.key == 65535
    then (none, s)
    else let body : ClientPosition = record {
      key = s.position.key;
      x = s.position.x;
      y = s.position.y;
      z = s.position.z;
    } in
      (
        some (record { op = Packet.op_position; content = serialize_client_position body }),
        record s { position = record s.position { key = 65535 } },
      )

-- The loop of lowerTTLs, over the players and the free ids.
unfoldable pub expire : Players → List ℕ → Players × List ℕ
expire [] free = ([], free)
expire ((k, p) ∷ ps) free = elim (leb (p.ttl - 1) 0) [
  | true ↦ expire ps (p.local_id ∷ free)
  | false ↦ let (qs, rest) = expire ps free in ((k, record p { ttl = p.ttl - 1 }) ∷ qs, rest)
]

unfoldable pub lower_ttls : PositionSystem → PositionSystem
lower_ttls s =
    let (ps, free) = expire s.local s.local_id_free in record s { local = ps; local_id_free = free }

unfoldable pub tick : PositionSystem → Option Packet × PositionSystem
tick s = let (packet, t) = send_self_pos s in (packet, lower_ttls t)

unfoldable pub on_game_pos : MessageBodyPositionIn → PositionSystem → PositionSystem
on_game_pos m s = record s { position = record { key = m.key; x = m.x; y = m.y; z = m.z } }

-- The id for a new player: the one that was freed last, or the next.
fresh_id : List ℕ → ℕ → ℕ × List ℕ × ℕ
fresh_id [] next = (next, [], (next + 1) % 2 ^ 16)
fresh_id (i ∷ free) next = (i, free, next)

-- `data.TTL = 30` through the pointer in the map.
unfoldable pub refresh : ByteArray 16 → Players → Players
refresh k [] = []
refresh k ((j, p) ∷ ps) =
    if array_eq 16 j k then (j, record p { ttl = 30 }) ∷ ps else (j, p) ∷ refresh k ps

-- What OnServerPos does to the map, with the local id of the player.
enter : Option PlayerData → ServerPosition → PositionSystem → ℕ × PositionSystem
unfolding fresh_id
enter (some p) pkt s = (p.local_id, record s { local = refresh pkt.id s.local })
enter none pkt s =
    let (i, free, next) = fresh_id s.local_id_free s.local_id_next in
    (
      i,
      record s {
        local = (pkt.id, record { name = pkt.name; local_id = i; ttl = 30 }) ∷ s.local;
        local_id_free = free;
        local_id_next = next;
      },
    )

-- The color is the first two bytes of the player's id, in big-endian order.
pub position_message : ServerPosition → ℕ → Message
position_message pkt i = record {
  seq = 0;
  op = op_position;
  payload = serialize_position_out (record {
    id = i;
    color = pkt.id.1.0 + pkt.id.0 * 256;
    name = pkt.name;
    key = pkt.key;
    x = pkt.x;
    y = pkt.y;
    z = pkt.z;
  });
}

unfoldable pub on_server_pos : ServerPosition → PositionSystem → Message × PositionSystem
unfolding enter position_message
on_server_pos pkt s =
    let (i, t) = enter (find_player pkt.id s.local) pkt s in (position_message pkt i, t)
