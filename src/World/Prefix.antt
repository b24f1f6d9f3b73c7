-- ===== src/World/Prefix.antt =====
-- The client's log is how the server's log begins, whatever happens.
use multiplayer.Prelude.{
  All, All-append, List, [], ap, append-nil, arith, length, none, ok, ok-injective, refl, some, sym,
  ◌++◌, ◌∙◌, ◌∷◌, ◌≡◌,
}
use multiplayer.Protocol.Packet.{Packet, ClientHello}
use multiplayer.Wal.Entry.{WalEntry}
use multiplayer.Wal.Log.Memory.{IsMemory, append-IsMemory}
use multiplayer.Client.Info.{Info}
use multiplayer.World.{
  Link, World, Step, other_append, game, connect, disconnect, send, receive, other_packet, feed_log,
  deliver, Reach, here, next, player_of,
}
use multiplayer.World.Flight.{other, landed, Flight-behind}
use multiplayer.World.Consistent.{
  IsLinked, IsConsistent, client-IsConsistent, longer-IsConsistent, link-IsConsistent,
}
use multiplayer.Bytes.{IsByte}
use multiplayer.Server.Join.{receive_hello, start_feed}
use multiplayer.Wal.Log.{append}
use multiplayer.Client.Game.{handle_msg}
use multiplayer.Wal.Stream.{subscribe}
use multiplayer.Client.Game.Sequence.{handle_msg-keeps}
use multiplayer.World.Receiving.{received-IsConsistent}
use multiplayer.Client.Uplink.{hello_packet}
use multiplayer.World.Feeding.{fed-IsConsistent}
use multiplayer.Bytes.Words.{IsU32}
use multiplayer.Server.Join.Handshake.{hello_of, handshake}
use multiplayer.World.Delivery.{delivered-IsConsistent}

-- The connection of a world that has one.
pub linked :
    (w : World) (l : Link) → IsConsistent w → w.link ≡ some l → IsLinked w.server w.client.wal l
linked w l v q = rw q at v.link

All-snoc :
    (ps : List Packet) (p : Packet)
    → All (λ q. All IsByte q.content) ps
    → All IsByte p.content
    → All (λ q. All IsByte q.content) (ps ++ p ∷ [])
All-snoc ps p h b = All-append (λ q. All IsByte q.content) ps (p ∷ []) h (b, tt)

connected :
    (w : World) (info : Info) (h : ClientHello)
    → IsConsistent w
    → receive_hello (hello_packet info w.client) ≡ ok h
    → IsLinked w.server w.client.wal (record { feed = start_feed h; down = []; up = [] })
unfolding start_feed subscribe
connected w info h v q =
    let c : IsU32 w.client.wal.count = omega (arith, v.client.count, v.client.small) in
    let e : hello_of info w.client ≡ h = ok-injective (sym ((handshake info w.client c).0) ∙ q) in
    let i : h.wal_index ≡ length w.client.wal.entries =
      ap (λ (x : ClientHello). x.wal_index) (sym e) ∙ v.client.count in
    record {
      flight = [];
      ahead = v.rest;
      entries =
          v.prefix
          ∙ ap (λ (x : List WalEntry). x ++ v.rest) (sym (append-nil w.client.wal.entries));
      down = landed;
      stream = omega (arith, i);
      index = omega (arith, i);
      up = tt;
    }

Step-IsConsistent : (w u : World) → IsConsistent w → Step w u → IsConsistent u
Step-IsConsistent w _ v (other_append e s r) =
    let (m, f) = append-IsMemory w.server e v.server s r in
    longer-IsConsistent w (append e w.server).1 v m f
Step-IsConsistent w _ v (game nonce m) =
    client-IsConsistent w (handle_msg nonce m w.client).1 v (handle_msg-keeps nonce m w.client).0
Step-IsConsistent w _ v (connect info h q c) =
    link-IsConsistent w (some (record { feed = start_feed h; down = []; up = [] })) v
      (connected w info h v q)
Step-IsConsistent w _ v disconnect = link-IsConsistent w none v tt
Step-IsConsistent w _ v (send l p q b) =
    let h = linked w l v q in
    link-IsConsistent w (some (record l { up = l.up ++ p ∷ [] })) v (record {
      flight = h.flight;
      ahead = h.ahead;
      entries = h.entries;
      down = h.down;
      stream = h.stream;
      index = h.index;
      up = All-snoc l.up p h.up b;
    })
Step-IsConsistent w _ v (receive l p up q e r) =
    received-IsConsistent w l p up (player_of w.client) v q (linked w l v q) e r
Step-IsConsistent w _ v (other_packet l p q a b) =
    let h = linked w l v q in
    link-IsConsistent w (some (record l { down = l.down ++ p ∷ [] })) v (record {
      flight = h.flight;
      ahead = h.ahead;
      entries = h.entries;
      down = Flight-behind h.down (other p [] [] a b landed);
      stream = h.stream;
      index = h.index;
      up = h.up;
    })
Step-IsConsistent w _ v (feed_log l r q f) =
    let h = linked w l v q in fed-IsConsistent w l r h.ahead v h refl f
Step-IsConsistent w _ v (deliver l p down q e) =
    delivered-IsConsistent w l p down v (linked w l v q) e

-- Before anything has happened: two logs in order, of which the client's is how the server's begins,
-- and no connection.
pub record IsStart (w : World) : Type 0 where
  pub server : IsMemory w.server
  pub client : IsMemory w.client.wal
  pub rest : List WalEntry
  pub prefix : w.server.entries ≡ w.client.wal.entries ++ rest
  pub link : w.link ≡ none

pub start-IsConsistent : (w : World) → IsStart w → IsConsistent w
start-IsConsistent w s = record {
  server = s.server;
  client = s.client;
  rest = s.rest;
  prefix = s.prefix;
  link = rw s.link tt;
}

pub Reach-IsConsistent : {w u : World} → IsConsistent w → Reach w u → IsConsistent u
Reach-IsConsistent v here = v
Reach-IsConsistent v (next {u} {v = x} r s) = Step-IsConsistent u x (Reach-IsConsistent v r) s

-- From two logs of which the client's is how the server's begins, and no connection: whatever the
-- other clients, the game and the server's other packets bring, however often the connection breaks
-- and is made again, and whatever calls on the two files fail, the client's log is how the server's
-- begins; so all clients see one order, with nothing left out and nothing twice.
pub client_log-prefix :
    (w u : World)
    → IsStart w
    → Reach w u
    → (rest : List WalEntry) × (u.server.entries ≡ u.client.wal.entries ++ rest)
client_log-prefix w u s r =
    let v = Reach-IsConsistent (start-IsConsistent w s) r in (v.rest, v.prefix)
