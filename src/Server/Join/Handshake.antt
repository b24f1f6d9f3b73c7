-- ===== src/Server/Join/Handshake.antt =====
-- The two hellos: what each side sends is what the other accepts.
use multiplayer.Prelude.{[], ap, append-nil, arith, ok, refl, sym, ◌∙◌, ◌≡◌}
use multiplayer.Protocol.Packet.{
  ClientHello, parse_client_hello, serialize_client_hello, serialize_server_hello,
}
use multiplayer.Client.Game.{Session}
use multiplayer.Client.Info.{Info}
use multiplayer.Client.Uplink.{magic, version, hello_packet, check_reply}
use multiplayer.Server.Join.{hello_reply, receive_hello}
use multiplayer.Bytes.Words.{le32, le_uint32, IsU32}
use multiplayer.Bytes.{shorter, array_eq, slice}
use multiplayer.Protocol.Packet.RoundTrip.{parse_client_hello-serialize}

-- The hello that a client sends.
abbrev pub hello_of : Info → Session → ClientHello
hello_of info s = record {
  magic = magic;
  version = version;
  session_id = info.session_id;
  session_secret = info.session_secret;
  player_id = s.player_id;
  player_name = s.player_name;
  world_id = s.world_id;
  wal_index = s.wal.count;
}

client_hello :
    (info : Info) (s : Session)
    → IsU32 s.wal.count
    → receive_hello (hello_packet info s) ≡ ok (hello_of info s)
unfolding receive_hello hello_packet
client_hello info s h =
    ap parse_client_hello (sym (append-nil (serialize_client_hello (hello_of info s))))
    ∙ parse_client_hello-serialize (hello_of info s) [] (omega arith) h

server_hello : check_reply hello_reply ≡ ok tt
unfolding check_reply hello_reply serialize_server_hello slice le_uint32 le32 array_eq shorter
server_hello = refl

-- The server takes in the hello of a client whose log has fewer than 2^32 entries, with all of its
-- fields, and the client accepts the reply of the server.
pub handshake :
    (info : Info) (s : Session)
    → IsU32 s.wal.count
    → (receive_hello (hello_packet info s) ≡ ok (hello_of info s))
      × (check_reply hello_reply ≡ ok tt)
handshake info s h = (client_hello info s h, server_hello)
