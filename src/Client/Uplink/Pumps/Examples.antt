-- ===== src/Client/Uplink/Pumps/Examples.antt =====
-- A connection on which one packet comes in and one is sent, after a packet that is drained.
use multiplayer.Client.Uplink.Pumps.{Pumps, running, nop_packet}
use multiplayer.Client.Uplink.{hello_packet}
use multiplayer.Prelude.{[], true, false, ◌∷◌}
use multiplayer.Protocol.Packet.{Packet}
use multiplayer.Protocol.Packet
use multiplayer.World.Examples.{finder, info}

-- A packet that is in the channel before the connection is made.
abbrev stale : Packet
stale = record { op = Packet.op_position; content = [] }

abbrev at_last : Pumps
at_last = record {
  info = info;
  session = finder;
  uplink_in = [];
  uplink_out = [];
  phase = running;
  alive = true;
  held = [];
  received = nop_packet ∷ [];
  handled = nop_packet ∷ [];
  sending = [];
  stopped = false;
  wire = hello_packet info finder ∷ nop_packet ∷ [];
  given = nop_packet ∷ [];
}
