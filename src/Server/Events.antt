-- ===== src/Server/Events.antt =====
-- server/internal/session/session.go and server/internal/events: the position events that the server
-- gives to its event sink. Encoding an event as JSON and the connection to NATS are the libraries'.
pub mod Spacing
pub mod Nats
mod Examples
use multiplayer.Prelude.{
  Bool, List, Option, [], if◌then◌else◌, leb, none, some, suc, true, zero, ℕ, ◌-◌, ◌∷◌,
}
use multiplayer.Bytes.Hex.{encode_to_string}
use multiplayer.Bytes.{bytes, ByteArray}
use multiplayer.Protocol.Packet.{ClientPosition}
use multiplayer.Server.Player.{Player}
use multiplayer.Bytes.Int16.{ℤ}

-- 250 milliseconds, in nanoseconds.
abbrev pub interval : ℕ
interval = 250000000

-- The struct of handlePositionUpdate.
pub record Event : Type 0 where
  pub event : List ℕ
  pub session_id : List ℕ
  pub player_id : List ℕ
  pub world_id : ℕ
  pub player_name : List ℕ
  pub key : ℕ
  pub x : ℤ
  pub y : ℤ
  pub z : ℤ

-- The fields of Player and of its Session that the events are made of. A zero LastPosTime is `none`.
pub record Sender : Type 0 where
  pub session_id : ByteArray 16
  pub player : Player
  pub world_id : ℕ
  pub last_pos_time : Option ℕ

-- One step of strings.TrimRight, in front of what is left behind.
unfoldable pub trim_front : ℕ → List ℕ → List ℕ
trim_front zero [] = []
trim_front (suc b) [] = suc b ∷ []
trim_front b (c ∷ s) = b ∷ c ∷ s

-- strings.TrimRight, with the cutset "\x00"
unfoldable pub trim_right : List ℕ → List ℕ
unfolding trim_front
trim_right [] = []
trim_right (b ∷ s) = trim_front b (trim_right s)

-- "ootmm.events.multi." with the ID of the session
unfoldable pub subject : List ℕ → List ℕ
subject session_id =
    111 ∷ 111 ∷ 116 ∷ 109 ∷ 109 ∷ 46 ∷ 101 ∷ 118 ∷ 101 ∷ 110 ∷ 116 ∷ 115 ∷ 46 ∷ 109 ∷ 117 ∷ 108
    ∷ 116 ∷ 105 ∷ 46 ∷ session_id

unfoldable pub is_due : Option ℕ → ℕ → Bool
is_due none since = true
is_due (some last) since = leb interval (since - last)

unfoldable pub position_event : Sender → ClientPosition → Event
unfolding encode_to_string trim_right
position_event s u = record {
  event = 112 ∷ 111 ∷ 115 ∷ 105 ∷ 116 ∷ 105 ∷ 111 ∷ 110 ∷ [];
  session_id = encode_to_string (bytes 16 s.session_id);
  player_id = encode_to_string (bytes 16 s.player.id);
  world_id = s.world_id;
  player_name = trim_right (bytes 8 s.player.name);
  key = u.key;
  x = u.x;
  y = u.y;
  z = u.z;
}

-- The event of handlePositionUpdate with its subject, if one is due. The clock is read by time.Since,
-- and by time.Now.
unfoldable pub position_sink : Sender → ClientPosition → ℕ → ℕ → Option (List ℕ × Event) × Sender
unfolding is_due position_event subject
position_sink s u since now =
    if is_due s.last_pos_time since
    then (
      some (subject (encode_to_string (bytes 16 s.session_id)), position_event s u),
      record s { last_pos_time = some now },
    )
    else (none, s)
