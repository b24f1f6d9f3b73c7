-- ===== src/Client/Uplink/Pumps.antt =====
-- client/internal/game/uplink.go: the connection to the server with its goroutines: handleUplinkConn,
-- pumpIn, pumpOut, handleNops and handlePackets, and SendUplink and TrySendUplink, by which the rest of
-- the client sends. They take steps that interleave. What handleUplinkPacket sends to the game is left
-- out here.
pub mod Running
pub mod Order
mod Examples
use multiplayer.Prelude.{
  Bool, List, [], err, false, if◌then◌else◌, length, ltb, ok, panic, true, ℕ, ◌++◌, ◌<◌, ◌∷◌, ◌≡◌,
  ◌⊎◌,
}
use multiplayer.Protocol.Packet.{Packet}
use multiplayer.Protocol.Packet
use multiplayer.Client.Game.{Session, Handled}
use multiplayer.Client.Info.{Info}
use multiplayer.Client.Uplink.Effects.{IsSame}
use multiplayer.Client.Uplink.{hello_packet, check_reply, handle_uplink_packet}

-- The capacity of the channels `uplinkIn` and `uplinkOut`.
abbrev pub capacity : ℕ
capacity = 16

-- The keep-alive of handleNops.
abbrev pub nop_packet : Packet
nop_packet = record { op = Packet.op_nop; content = [] }

-- Where handleUplinkConn stands: not connected, in the loop that drains the channels, in the handshake,
-- or with its goroutines started.
pub data Phase : Type 0 where
  down draining shaking running : Phase

-- The session with its two channels, and the connection, whose context is `alive` until it is cancelled.
-- `held` is the packet that pumpIn has in its hand. Of the connection, `received` are all packets that
-- have come in, `handled` those that handlePackets has taken and `wire` those written; `given` are the
-- packets that have been put into `uplinkOut` since it was drained. `sending` is the packet that pumpOut
-- has taken, and keeps what it had when it is `stopped` by a SendRaw that failed.
pub record Pumps : Type 0 where
  pub info : Info
  pub session : Session
  pub uplink_in : List Packet
  pub uplink_out : List Packet
  pub phase : Phase
  pub alive : Bool
  pub held : List Packet
  pub received : List Packet
  pub handled : List Packet
  pub sending : List Packet
  pub stopped : Bool
  pub wire : List Packet
  pub given : List Packet

-- The client when the session has just been made.
unfoldable pub new_pumps : Info → Session → Pumps
new_pumps info s = record {
  info = info;
  session = s;
  uplink_in = [];
  uplink_out = [];
  phase = down;
  alive = false;
  held = [];
  received = [];
  handled = [];
  sending = [];
  stopped = false;
  wire = [];
  given = [];
}

-- handleUplinkConn, up to the loop that drains the channels.
unfoldable pub dial : Pumps → Pumps
dial s = record s {
  phase = draining;
  alive = true;
  held = [];
  received = [];
  handled = [];
  sending = [];
  stopped = false;
  wire = [];
}

-- A packet in the channel `uplinkOut`.
unfoldable pub put_out : Packet → Pumps → Pumps
put_out q s = record s { uplink_out = s.uplink_out ++ q ∷ []; given = s.given ++ q ∷ [] }

-- func (s *Session) TrySendUplink
unfoldable pub try_send_uplink : Packet → Pumps → Pumps
unfolding put_out
try_send_uplink q s = if ltb (length s.uplink_out) capacity then put_out q s else s

-- A round of handlePackets, with the result of handleUplinkPacket: an error ends the connection. A
-- panic, which ends the process, is taken like one.
unfoldable pub after_packet : Packet → List Packet → Handled → Pumps → Pumps
after_packet p rest (ok l, t) s = record s {
  session = t;
  uplink_in = rest;
  handled = s.handled ++ p ∷ [];
}
after_packet p rest (err e, t) s = record s {
  session = t;
  uplink_in = rest;
  handled = s.handled ++ p ∷ [];
  alive = false;
}
after_packet p rest (panic, t) s = record s {
  session = t;
  uplink_in = rest;
  handled = s.handled ++ p ∷ [];
  alive = false;
}

pub data Step (s : Pumps) : Pumps → Type 0 where
  dials : s.phase ≡ down → Step s (dial s)
  drains_in :
      (p : Packet) (l : List Packet)
      → s.phase ≡ draining
      → s.uplink_in ≡ p ∷ l
      → Step s (record s { uplink_in = l })
  drains_out :
      (p : Packet) (l : List Packet)
      → s.phase ≡ draining
      → s.uplink_out ≡ p ∷ l
      → Step s (record s { uplink_out = l })
  -- The `default` of the loop.
  drained :
      s.phase ≡ draining
      → s.uplink_in ≡ []
      → s.uplink_out ≡ []
      → Step s (record s { phase = shaking; given = [] })
  shakes :
      (reply : Packet)
      → s.phase ≡ shaking
      → check_reply reply ≡ ok tt
      → Step s (record s { phase = running; wire = hello_packet s.info s.session ∷ [] })
  shake_fails : s.phase ≡ shaking → Step s (record s { phase = down; alive = false })
  -- pumpIn.
  receives :
      (p : Packet)
      → s.phase ≡ running
      → s.alive ≡ true
      → s.held ≡ []
      → Step s (record s { held = p ∷ []; received = s.received ++ p ∷ [] })
  puts_in :
      (p : Packet)
      → s.phase ≡ running
      → s.held ≡ p ∷ []
      → length s.uplink_in < capacity
      → Step s (record s { held = []; uplink_in = s.uplink_in ++ p ∷ [] })
  drops_in : s.phase ≡ running → s.alive ≡ false → Step s (record s { held = [] })
  -- pumpOut takes a packet; its SendRaw returns, and the packet has been written, or the connection
  -- ends and the packet is lost.
  takes :
      (p : Packet) (l : List Packet)
      → s.phase ≡ running
      → s.sending ≡ []
      → s.uplink_out ≡ p ∷ l
      → Step s (record s { uplink_out = l; sending = p ∷ [] })
  writes :
      (p : Packet)
      → s.phase ≡ running
      → s.stopped ≡ false
      → s.sending ≡ p ∷ []
      → Step s (record s { sending = []; wire = s.wire ++ p ∷ [] })
  write_fails :
      (p : Packet)
      → s.phase ≡ running
      → s.stopped ≡ false
      → s.sending ≡ p ∷ []
      → Step s (record s { stopped = true; alive = false })
  -- handleNops.
  keeps_alive : s.phase ≡ running → Step s (try_send_uplink nop_packet s)
  -- handlePackets.
  handles :
      (p : Packet) (l : List Packet)
      → s.phase ≡ running
      → s.uplink_in ≡ p ∷ l
      → Step s (after_packet p l (handle_uplink_packet p s.session) s)
  -- Any of the goroutines fails, or the session ends.
  cancels : Step s (record s { alive = false })
  -- All goroutines are back.
  ends :
      s.phase ≡ running
      → s.alive ≡ false
      → s.held ≡ []
      → (s.sending ≡ []) ⊎ (s.stopped ≡ true)
      → Step s (record s { phase = down })
  -- The rest of the client, at any time: it changes its state, but not whose session it is, and sends by SendUplink, when there is
  -- room, or by TrySendUplink.
  changes : (t : Session) → IsSame s.session t → Step s (record s { session = t })
  sends : (q : Packet) → length s.uplink_out < capacity → Step s (put_out q s)
  tries_to_send : (q : Packet) → Step s (try_send_uplink q s)

pub data Reach (s : Pumps) : Pumps → Type 0 where
  here : Reach s s
  next_step : {u v : Pumps} → Reach s u → Step u v → Reach s v
