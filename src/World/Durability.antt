-- ===== src/World/Durability.antt =====
-- What the client has queued is not lost.
use multiplayer.World.Prefix.{linked, IsStart, Reach-IsConsistent, start-IsConsistent}
use multiplayer.World.Receiving.{handle_packet-Answered}
use multiplayer.Client.SendQueue.Acks.{lookup-ack, Extends}
use multiplayer.Client.Uplink.Effects.{uplink_wal, uplink_ack, uplink_other, after_append-send_q}
use multiplayer.Prelude.{
  inl, inr, ok, err, panic, some, true, All-right, Bool-cases, List, Result, append_assoc, refl, ℕ,
  ◌++◌, ◌∙◌, ◌∷◌, ◌≡◌, ◌⊎◌,
}
use multiplayer.World.Consistent.{IsConsistent}
use multiplayer.Client.Game.{Handled, handle_msg}
use multiplayer.Server.Player
use multiplayer.World.{
  Link, World, Step, delivered, fed, received, HasRoom, Reach, connect, deliver, disconnect,
  feed_log, game, here, next, other_append, other_packet, player_of, receive, send,
}
use multiplayer.World.Flight.{Flight, entry, acked, other}
use multiplayer.Bytes.{array_eq, ByteArray}
use multiplayer.Protocol.Packet.{Packet}
use multiplayer.Server.Join.{Feed}
use multiplayer.Client.SendQueue.{ack, SendQueue, lookup}
use multiplayer.Wal.Entry.{WalEntry}
use multiplayer.Client.Uplink.{handle_uplink_packet}
use multiplayer.Wal.Log.{contains, append}
use multiplayer.Wal.Log.Invariant.{dedup_key-IsStored, IsStored}
use multiplayer.Bytes.Laws.{array_eq_iff}
use multiplayer.Wal.Log.Memory.{append-IsMemory}
use multiplayer.Wal.Log.Prefixes.{contains-next}
use multiplayer.Server.Player.{handle_packet, Player}
use multiplayer.Client.Game.Sequence.{handle_msg-keeps}

-- An entry with its bytes in the client's queue, or its key in the server's log.
abbrev pub IsKept : ByteArray 16 → List ℕ → World → Type 0
IsKept k d w = (lookup k w.client.send_q.entries ≡ some d) ⊎ (contains k w.server.set ≡ true)

IsKept-map :
    (w u : World) (k : ByteArray 16) (d : List ℕ)
    → Extends w.client.send_q.entries u.client.send_q.entries
    → (contains k w.server.set ≡ true → contains k u.server.set ≡ true)
    → IsKept k d w
    → IsKept k d u
IsKept-map w u k d f g (inl h) = inl (f k d h)
IsKept-map w u k d f g (inr h) = inr (g h)

pub received_parts :
    (w : World) (l : Link) (up : List Packet) (h : Player.Handled)
    → ((received w l up h).server ≡ h.1) × ((received w l up h).client ≡ w.client)
unfolding received
received_parts w l up (ok sent, s) = (refl, refl)
received_parts w l up (err e, s) = (refl, refl)
received_parts w l up (panic, s) = (refl, refl)

pub fed_parts :
    (w : World) (l : Link) (r : Result (List Packet) × Feed)
    → ((fed w l r).server ≡ w.server) × ((fed w l r).client ≡ w.client)
unfolding fed
fed_parts w l (ok ps, f) = (refl, refl)
fed_parts w l (err e, f) = (refl, refl)
fed_parts w l (panic, f) = (refl, refl)

pub delivered_parts :
    (w : World) (l : Link) (down : List Packet) (h : Handled)
    → ((delivered w l down h).server ≡ w.server) × ((delivered w l down h).client ≡ h.1)
unfolding delivered
delivered_parts w l down (ok sent, s) = (refl, refl)
delivered_parts w l down (err e, s) = (refl, refl)
delivered_parts w l down (panic, s) = (refl, refl)

-- An acknowledged key that the log knows.
lookup-ack_known :
    (k j : ByteArray 16) (d : List ℕ) (q : SendQueue) (keys : List (ByteArray 16))
    → contains k keys ≡ true
    → lookup j q.entries ≡ some d
    → (lookup j (ack k q).entries ≡ some d) ⊎ (contains j keys ≡ true)
lookup-ack_known k j d q keys c h = elim (Bool-cases (array_eq 16 k j)) [
  | inl x ↦ inr (rw ((array_eq_iff 16 k j).0 x) at c)
  | inr x ↦ inl (rw (lookup-ack k j q) (rw x h))
]

flight-kept :
    (w : World) (p : Packet) (down : List Packet) (es rest : List WalEntry) (j : ByteArray 16)
    (d : List ℕ)
    → IsConsistent w
    → w.server.entries ≡ w.client.wal.entries ++ es ++ rest
    → lookup j w.client.send_q.entries ≡ some d
    → Flight w.server.set (p ∷ down) es
    → (lookup j (handle_uplink_packet p w.client).1.send_q.entries ≡ some d)
      ⊎ (contains j w.server.set ≡ true)
flight-kept w p down _ rest j d v h q (entry _ n e _ es o c g) =
    let x : w.server.entries ≡ w.client.wal.entries ++ e ∷ (es ++ rest) =
      h ∙ append_assoc w.client.wal.entries (e ∷ es) rest in
    let s = All-right IsStored w.client.wal.entries (e ∷ es ++ rest) (rw x at v.server.entries) in
    let (k, t) = dedup_key-IsStored e s.0 in
    let (_, b) = contains-next w.server w.client.wal e (es ++ rest) k v.server v.client x t in
    rw (uplink_wal p n e w.client o c)
      (elim (after_append-send_q e k w.client (append e w.client.wal) t) [
        | inl y ↦ inl (rw y q)
        | inr y ↦ rw y (lookup-ack_known k j d w.client.send_q w.server.set b q)
      ])
flight-kept w p down es rest j d v h q (acked _ k _ _ o c x g) =
    rw (uplink_ack p k w.client o c) (lookup-ack_known k j d w.client.send_q w.server.set x q)
flight-kept w p down es rest j d v h q (other _ _ _ a b g) =
    inl (rw (uplink_other p w.client a b).1 q)

contains-received :
    (w : World) (l : Link) (p : Packet) (up : List Packet) (k : ByteArray 16)
    → IsConsistent w
    → w.link ≡ some l
    → l.up ≡ p ∷ up
    → HasRoom w.server
    → contains k w.server.set ≡ true
    → contains k (received w l up (handle_packet (player_of w.client) p w.server)).server.set ≡ true
contains-received w l p up k v q e r c =
    let b = (rw e at (linked w l v q).up) in
    let a = handle_packet-Answered w.server (player_of w.client) p v.server r b.0 in
    rw (received_parts w l up (handle_packet (player_of w.client) p w.server)).0
      (a.further.keys k c)

Step-IsKept :
    (w u : World) (k : ByteArray 16) (d : List ℕ)
    → IsConsistent w
    → Step w u
    → IsKept k d w
    → IsKept k d u
Step-IsKept w _ k d v (other_append e s r) x =
    IsKept-map w (record w { server = (append e w.server).1 }) k d (λ j c h. h)
      ((append-IsMemory w.server e v.server s r).1.keys k) x
Step-IsKept w _ k d v (game nonce m) x =
    IsKept-map w (record w { client = (handle_msg nonce m w.client).1 }) k d
      (handle_msg-keeps nonce m w.client).1 (λ h. h) x
Step-IsKept w _ k d v (connect info h q c) x = x
Step-IsKept w _ k d v disconnect x = x
Step-IsKept w _ k d v (send l p q b) x = x
Step-IsKept w _ k d v (receive l p up q e r) x =
    let h = handle_packet (player_of w.client) p w.server in
    IsKept-map w (received w l up h) k d (rw (received_parts w l up h).1 (λ j c y. y))
      (contains-received w l p up k v q e r) x
Step-IsKept w _ k d v (other_packet l p q a b) x = x
Step-IsKept w _ k d v (feed_log l r q f) x =
    IsKept-map w (fed w l r) k d (rw (fed_parts w l r).1 (λ j c y. y))
      (rw (fed_parts w l r).0 (λ y. y)) x
Step-IsKept w _ k d v (deliver l p down q e) (inr c) =
    inr (rw (delivered_parts w l down (handle_uplink_packet p w.client)).0 c)
Step-IsKept w _ k d v (deliver l p down q e) (inl c) =
    let h = linked w l v q in
    let (a, b) = delivered_parts w l down (handle_uplink_packet p w.client) in
    rw a (rw b (flight-kept w p down h.flight h.ahead k d v h.entries c (rw e at h.down)))

Reach-IsKept :
    {w u : World} (k : ByteArray 16) (d : List ℕ)
    → IsConsistent w
    → Reach w u
    → IsKept k d w
    → IsKept k d u
Reach-IsKept k d v here x = x
Reach-IsKept k d v (next {u} {v = t} r s) x =
    Step-IsKept u t k d (Reach-IsConsistent v r) s (Reach-IsKept k d v r x)

-- From two logs of which the client's is how the server's begins, and no connection: an entry that is
-- in the client's queue is still there later on, with the same bytes, or the server's log knows its
-- key. So no order of messages, lost packets, broken connections, acknowledgements and failed calls on
-- the files loses an entry between the client's queue and the server's log.
pub pending-IsKept :
    (w u : World) (k : ByteArray 16) (d : List ℕ)
    → IsStart w
    → Reach w u
    → lookup k w.client.send_q.entries ≡ some d
    → (lookup k u.client.send_q.entries ≡ some d) ⊎ (contains k u.server.set ≡ true)
pending-IsKept w u k d s r h = Reach-IsKept k d (start-IsConsistent w s) r (inl h)
