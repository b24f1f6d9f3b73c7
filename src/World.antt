-- ===== src/World.antt =====
-- The server's log of a session, one of its clients, and the connection between them, step by step.
-- What the other clients do is part of the steps: they make the server append entries.
pub mod Flight
pub mod Consistent
pub mod Feeding
pub mod Delivery
pub mod Receiving
pub mod Prefix
pub mod Durability
pub mod Board
pub mod Progress
pub mod Flush
pub mod Examples
use multiplayer.Prelude.{
  All, List, Option, Result, [], err, length, none, ok, panic, some, ℕ, ◌++◌, ◌-◌, ◌<◌, ◌^◌, ◌∷◌,
  ◌≡◌, ◌≢◌,
}
use multiplayer.Protocol.Packet.{Packet, ClientHello, op_wal, op_wal_ack}
use multiplayer.Protocol.Packet
use multiplayer.Wal.Entry.{WalEntry}
use multiplayer.Client.Game
use multiplayer.Client.Game.{Session, handle_msg, Handled}
use multiplayer.Client.Ipc.{Message}
use multiplayer.Client.Info.{Info}
use multiplayer.Server.Player.{Player, Sent, to_player, to_others, handle_packet}
use multiplayer.Server.Player
use multiplayer.Server.Join.{Feed, start_feed, receive_hello, feed, hello_reply}
use multiplayer.Wal.Log.{append, Wal}
use multiplayer.Wal.Log.Invariant.{IsStored}
use multiplayer.Client.Uplink.{handle_uplink_packet, check_reply, hello_packet}
use multiplayer.Bytes.{IsByte}

-- A connection: how far the server has fed the log, and the packets on their way to the client and to
-- the server, in their order.
pub record Link : Type 0 where
  pub feed : Feed
  pub down : List Packet
  pub up : List Packet

pub record World : Type 0 where
  pub server : Wal
  pub client : Session
  pub link : Option Link

-- What a handler of the server sends to its own player.
unfoldable pub answers : List Sent → List Packet
answers [] = []
answers (to_player p ∷ l) = p ∷ answers l
answers (to_others p ∷ l) = answers l

-- handleMsgIn and handlePackets of the server: an error ends the connection.
unfoldable pub received : World → Link → List Packet → Player.Handled → World
received w l up (ok sent, wal) = record w {
  server = wal;
  link = some (record l { down = l.down ++ answers sent; up = up });
}
received w l up (err e, wal) = record w { server = wal; link = none }
received w l up (panic, wal) = record w { server = wal; link = none }

-- handleWalStream of the server: an error ends the connection.
unfoldable pub fed : World → Link → Result (List Packet) × Feed → World
fed w l (ok ps, f) = record w { link = some (record l { feed = f; down = l.down ++ ps }) }
fed w l (err e, f) = record w { link = none }
fed w l (panic, f) = record w { link = none }

-- pumpIn and handlePackets of the client: an error ends the connection.
unfoldable pub delivered : World → Link → List Packet → Game.Handled → World
delivered w l down (ok sent, s) = record w { client = s; link = some (record l { down = down }) }
delivered w l down (err e, s) = record w { client = s; link = none }
delivered w l down (panic, s) = record w { client = s; link = none }

abbrev pub player_of : Session → Player
player_of s = record { id = s.player_id; name = s.player_name }

-- A log has room for one more entry that 32 bits can count.
abbrev pub HasRoom : Wal → Type 0
HasRoom w = length w.entries < 2 ^ 32 - 1

pub data Step (w : World) : World → Type 0 where
  -- Another client's entry comes in.
  other_append :
      (e : WalEntry)
      → IsStored e
      → HasRoom w.server
      → Step w (record w { server = (append e w.server).1 })
  -- A message of the game; what it makes the client send is a step of its own, and may be dropped.
  game : (nonce : ℕ) (m : Message) → Step w (record w { client = (handle_msg nonce m w.client).1 })
  -- The client connects anew: the queues of packets are empty.
  connect :
      (info : Info) (h : ClientHello)
      → receive_hello (hello_packet info w.client) ≡ ok h
      → check_reply hello_reply ≡ ok tt
      → Step w (record w { link = some (record { feed = start_feed h; down = []; up = [] }) })
  -- The connection breaks, and the packets on it are lost. A packet that still arrives before the side
  -- that takes it in sees the break is a step before this one.
  disconnect : Step w (record w { link = none })
  -- The client sends a packet, whatever it is.
  send :
      (l : Link) (p : Packet)
      → w.link ≡ some l
      → All IsByte p.content
      → Step w (record w { link = some (record l { up = l.up ++ p ∷ [] }) })
  -- The server takes in a packet.
  receive :
      (l : Link) (p : Packet) (up : List Packet)
      → w.link ≡ some l
      → l.up ≡ p ∷ up
      → HasRoom w.server
      → Step w (received w l up (handle_packet (player_of w.client) p w.server))
  -- The server sends a packet that has nothing to do with the log.
  other_packet :
      (l : Link) (p : Packet)
      → w.link ≡ some l
      → p.op ≢ Packet.op_wal
      → p.op ≢ Packet.op_wal_ack
      → Step w (record w { link = some (record l { down = l.down ++ p ∷ [] }) })
  -- The server feeds the log.
  feed_log :
      (l : Link) (r : Result (List Packet) × Feed)
      → w.link ≡ some l
      → feed w.server l.feed ≡ some r
      → Step w (fed w l r)
  -- The client takes in a packet.
  deliver :
      (l : Link) (p : Packet) (down : List Packet)
      → w.link ≡ some l
      → l.down ≡ p ∷ down
      → Step w (delivered w l down (handle_uplink_packet p w.client))

pub data Reach (w : World) : World → Type 0 where
  here : Reach w w
  next : {u v : World} → Reach w u → Step u v → Reach w v
