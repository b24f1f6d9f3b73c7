-- ===== src/World/Board.antt =====
-- What a session promises a player, without packets, connections and files: a board that entries are
-- pinned to behind one another, each identity once, and that the player sees from its beginning on.
use multiplayer.World.Delivery.{delivered-IsConsistent}
use multiplayer.World.Prefix.{Reach-IsConsistent, IsStart, linked, start-IsConsistent}
use multiplayer.Client.Uplink.Effects.{after_append-ok, uplink_ack, uplink_other, uplink_wal}
use multiplayer.Wal.Log.Memory.{
  Appended, append-Appended, append-IsMemory, Further, Growth, IsMemory, fresh, nothing, with_entry,
  known, grown, failed, crashed,
}
use multiplayer.Wal.Log.Prefixes.{fresh-All}
use multiplayer.World.Durability.{delivered_parts, fed_parts, received_parts}
use multiplayer.Prelude.{
  inl, inr, ok, arith, All, All-right, List, Result, [], ap, append_assoc, length, length-append,
  refl, suc, sym, ℕ, ◌++◌, ◌<◌, ◌∙◌, ◌∷◌, ◌≡◌, ◌≢◌, ◌⊎◌, append-nil, none, some, subst, take,
  take-append, ◌≤◌,
}
use multiplayer.Client.Game.{Session, handle_msg}
use multiplayer.Client.Uplink.{after_append, handle_uplink_packet}
use multiplayer.World.{
  World, Step, Reach, connect, deliver, delivered, disconnect, fed, feed_log, game, here, next,
  other_append, other_packet, player_of, receive, send,
}
use multiplayer.World.Flight.{Flight, entry, acked, other}
use multiplayer.World.Consistent.{IsConsistent}
use multiplayer.Protocol.Packet.{Packet}
use multiplayer.Wal.Entry.{WalEntry}
use multiplayer.Wal.Log.{append, Wal, remember}
use multiplayer.Bytes.{ByteArray}
use multiplayer.Wal.Key.{dedup_key}
use multiplayer.Wal.Log.Invariant.{dedup_key-IsStored, IsStored}
use multiplayer.Client.Game.Sequence.{handle_msg-keeps}
use multiplayer.Server.Join.{start_feed}
use multiplayer.Server.Player.{handle_packet}
use multiplayer.World.Receiving.{handle_packet-Answered}

pub record Board : Type 0 where
  pub log : List WalEntry
  pub seen : ℕ

pub data BoardStep (b : Board) : Board → Type 0 where
  post :
      (e : WalEntry)
      → All (λ x. dedup_key x ≢ dedup_key e) b.log
      → BoardStep b (record b { log = b.log ++ e ∷ [] })
  see : b.seen < length b.log → BoardStep b (record b { seen = suc b.seen })

pub data BoardReach (b : Board) : Board → Type 0 where
  start : BoardReach b b
  step : {c d : Board} → BoardReach b c → BoardStep c d → BoardReach b d

-- The board of a world, which forgets the connection, the files, the queue and the positions.
unfoldable pub board_of : World → Board
board_of w = record { log = w.server.entries; seen = length w.client.wal.entries }

-- Nothing, or a step.
MayStep : Board → Board → Type 0
MayStep b c = (b ≡ c) ⊎ BoardStep b c

grown_log :
    (w : Wal) (es : List WalEntry) (n : ℕ)
    → IsMemory w
    → Growth w es
    → MayStep (record { log = w.entries; seen = n }) (record { log = w.entries ++ es; seen = n })
unfolding MayStep
grown_log w _ n m nothing =
    inl (ap (λ (x : List WalEntry). record { log = x; seen = n }) (sym (append-nil w.entries)))
grown_log w _ n m (fresh e k q c) = inr (post e (fresh-All w.entries w.set e k m.set q c))

posted :
    (w v : Wal) (n : ℕ)
    → IsMemory w
    → Further w v
    → MayStep (record { log = w.entries; seen = n }) (record { log = v.entries; seen = n })
posted w v n m f = rw f.entries (grown_log w f.more n m f.growth)

seen_more :
    (b : Board) (n : ℕ)
    → n ≤ length b.log
    → (n ≡ b.seen) ⊎ (n ≡ suc b.seen)
    → MayStep b (record b { seen = n })
unfolding MayStep
seen_more b n h (inl q) = inl (ap (λ x. record b { seen = x }) (sym q))
seen_more b n h (inr q) =
    inr (subst (λ x. BoardStep b (record b { seen = x })) (sym q) (see (omega arith)))

-- An entry of the server makes the client's log at most one longer.
OneMore : Session → Session → Type 0
OneMore s t =
    (length t.wal.entries ≡ length s.wal.entries)
    ⊎ (length t.wal.entries ≡ suc (length s.wal.entries))

after_append-OneMore :
    (e : WalEntry) (k : ByteArray 16) (s : Session) (r : Result (Unit {0}) × Wal)
    → dedup_key e ≡ ok k
    → Appended s.wal e k r
    → OneMore s (after_append e s r).1
unfolding OneMore after_append remember
after_append-OneMore e k s _ q (known c) = inl (rw (after_append-ok e k s s.wal q) refl)
after_append-OneMore e k s _ q (grown f c) = inr (
    rw (after_append-ok e k s (with_entry s.wal e k f) q)
      (omega (arith, length-append s.wal.entries (e ∷ []))))
after_append-OneMore e k s _ q (failed x f c) = inl refl
after_append-OneMore e k s _ q (crashed f c) = inl refl

flight-OneMore :
    (w : World) (p : Packet) (down : List Packet) (es rest : List WalEntry)
    → IsConsistent w
    → w.server.entries ≡ w.client.wal.entries ++ es ++ rest
    → Flight w.server.set (p ∷ down) es
    → OneMore w.client (handle_uplink_packet p w.client).1
unfolding OneMore
flight-OneMore w p down _ rest v h (entry _ n e _ es o c g) =
    let x : w.server.entries ≡ w.client.wal.entries ++ e ∷ (es ++ rest) =
      h ∙ append_assoc w.client.wal.entries (e ∷ es) rest in
    let s = All-right IsStored w.client.wal.entries (e ∷ (es ++ rest)) (rw x at v.server.entries) in
    let (k, q) = dedup_key-IsStored e s.0 in
    rw (uplink_wal p n e w.client o c) (
      after_append-OneMore e k w.client (append e w.client.wal) q
        (append-Appended w.client.wal e k s.0 q))
flight-OneMore w p down es rest v h (acked _ k _ _ o c x g) =
    rw (uplink_ack p k w.client o c) (inl refl)
flight-OneMore w p down es rest v h (other _ _ _ a b g) =
    inl (ap (λ (x : Wal). length x.entries) (uplink_other p w.client a b).0)

same_board :
    (w u : World)
    → u.server ≡ w.server
    → u.client.wal ≡ w.client.wal
    → MayStep (board_of w) (board_of u)
unfolding MayStep board_of
same_board w u p q = inl (rw p (rw q refl))

Step-MayStep : (w u : World) → IsConsistent w → Step w u → MayStep (board_of w) (board_of u)
unfolding board_of OneMore
Step-MayStep w _ v (other_append e s r) =
    posted w.server (append e w.server).1 (length w.client.wal.entries) v.server
      (append-IsMemory w.server e v.server s r).1
Step-MayStep w _ v (game nonce m) =
    same_board w (record w { client = (handle_msg nonce m w.client).1 }) refl
      (handle_msg-keeps nonce m w.client).0
Step-MayStep w _ v (connect info h q c) =
    same_board w (record w { link = some (record { feed = start_feed h; down = []; up = [] }) })
      refl refl
Step-MayStep w _ v disconnect = same_board w (record w { link = none }) refl refl
Step-MayStep w _ v (send l p q b) =
    same_board w (record w { link = some (record l { up = l.up ++ p ∷ [] }) }) refl refl
Step-MayStep w _ v (receive l p up q e r) =
    let h = handle_packet (player_of w.client) p w.server in
    let b = rw e at (linked w l v q).up in
    let a = handle_packet-Answered w.server (player_of w.client) p v.server r b.0 in
    let (x, y) = received_parts w l up h in
    rw x (rw y (posted w.server h.1 (length w.client.wal.entries) v.server a.further))
Step-MayStep w _ v (other_packet l p q a b) =
    same_board w (record w { link = some (record l { down = l.down ++ p ∷ [] }) }) refl refl
Step-MayStep w _ v (feed_log l r q f) =
    let (x, y) = fed_parts w l r in same_board w (fed w l r) x (ap (λ (s : Session). s.wal) y)
Step-MayStep w _ v (deliver l p down q e) =
    let h = handle_uplink_packet p w.client in
    let (x, y) = delivered_parts w l down h in
    let i = linked w l v q in
    let c = delivered-IsConsistent w l p down v i e in
    let n : length (delivered w l down h).client.wal.entries
        ≤ length (delivered w l down h).server.entries =
      omega (
        arith,
        ap length c.prefix,
        length-append (delivered w l down h).client.wal.entries c.rest,
      ) in
    let o = flight-OneMore w p down i.flight i.ahead v i.entries (rw e at i.down) in
    rw x (
      rw y (
        seen_more (record { log = w.server.entries; seen = length w.client.wal.entries })
          (length h.1.wal.entries) (rw x at (rw y at n)) o))

onward : {b c d : Board} → BoardReach b c → MayStep c d → BoardReach b d
unfolding MayStep
onward {b} r (inl h) = subst (BoardReach b) h r
onward r (inr s) = step r s

Reach-BoardReach : {w u : World} → IsConsistent w → Reach w u → BoardReach (board_of w) (board_of u)
Reach-BoardReach v here = start
Reach-BoardReach {w} v (next {u} {v = t} r s) =
    onward (Reach-BoardReach v r) (Step-MayStep u t (Reach-IsConsistent v r) s)

-- From two logs of which the client's is how the server's begins, and no connection: whatever steps
-- the server, the client and the connection take, what they come to is reached on the board by steps
-- that pin an entry of an identity that no pinned entry has, and that let the player see one entry
-- more; and the client's log is the part of the board that the player has seen.
pub world-BoardReach :
    (w u : World)
    → IsStart w
    → Reach w u
    → BoardReach (board_of w) (board_of u)
      × (u.client.wal.entries ≡ take (board_of u).seen (board_of u).log)
unfolding board_of
world-BoardReach w u s r =
    let c = start-IsConsistent w s in
    let v = Reach-IsConsistent c r in
    (
      Reach-BoardReach c r,
      sym (
          ap (take (length u.client.wal.entries)) v.prefix
          ∙ take-append u.client.wal.entries v.rest refl),
    )
