-- ===== src/Room/Seats.antt =====
-- What the packets on the connection of a player, and in its channels, are.
use multiplayer.Prelude.{
  All, List, [], arith, ◌++◌, ◌∷◌, ◌≡◌, Bool, Result, append_assoc, refl, false, some, subst, true,
  if_case, ◌≢◌, ◌||◌,
}
use multiplayer.Bytes.{IsByte}
use multiplayer.Protocol.Packet.{Packet, ClientPosition, serialize_server_position}
use multiplayer.Protocol.Packet
use multiplayer.Wal.Log.{Wal}
use multiplayer.Wal.Log.Memory.{Further, IsMemory}
use multiplayer.Server.Player.{Player, Sent, to_player, to_others}
use multiplayer.World.{answers}
use multiplayer.World.Flight.{
  Flight-insert, Flight-next, Flight-behind, Flight, landed, other, Flight-more,
}
use multiplayer.Room.{Seat, put_out, offer, fed_seat}
use multiplayer.Room.Turns.{fed-IsFed}
use multiplayer.Room.Feeding.{
  same-IsFed, weaker-IsFed, next-IsFed, dropped-IsFed, IsFed, longer-IsFed,
}
use multiplayer.Server.Join.{feed, Feed}

-- A packet with a position of a player.
abbrev pub IsPosition : Player → Packet → Type 0
IsPosition p q =
    (q.op ≡ Packet.op_position)
    × ((pos : ClientPosition) × (q.content
          ≡ serialize_server_position (record {
            id = p.id;
            name = p.name;
            key = pos.key;
            x = pos.x;
            y = pos.y;
            z = pos.z;
          })))

abbrev pub Plain : Packet → Type 0
Plain q = q.op ≢ Packet.op_position

-- What a player's handler has yet to send: the others get its positions, and only they.
abbrev pub Others : Player → List Sent → Type 0
Others p [] = Unit {0}
Others p (to_player q ∷ l) = Plain q × Others p l
Others p (to_others q ∷ l) = IsPosition p q × Others p l

-- What a player's handler has yet to send, and to read.
pub record IsAsked (w : Wal) (p : Player) (l : List Sent) (ps : List Packet) : Type 0 where
  pub todo : Flight w.set (answers l) []
  pub others : Others p l
  pub inbox : All (λ p. All IsByte p.content) ps

-- The stream of a player, which may be read while the context lives, and once more by a loop that has
-- found it alive.
abbrev pub active : Seat → Bool
active s = s.alive || s.looping

pub record IsSeat (w : Wal) (s : Seat) : Type 0 where
  pub fed : IsFed w s.start (active s) s.feed (s.wire ++ s.sending ++ s.out) s.feeding
  pub feeding : All Plain s.feeding
  pub asked : IsAsked w s.player s.todo s.inbox

pub position_alone : (w : Wal) (p : Player) (q : Packet) → IsPosition p q → Flight w.set (q ∷ []) []
position_alone w p q h =
    let o = h.0 in other q [] [] (rw o (omega arith)) (rw o (omega arith)) landed

pub longer-IsSeat : (w v : Wal) (s : Seat) → Further w v → IsSeat w s → IsSeat v s
longer-IsSeat w v s f h = record {
  fed = longer-IsFed w v s.start (active s) s.feed (s.wire ++ s.sending ++ s.out) s.feeding f h.fed;
  feeding = h.feeding;
  asked = record {
    todo = Flight-more f.keys h.asked.todo;
    others = h.asked.others;
    inbox = h.asked.inbox;
  };
}

-- Packets without an entry, behind those of the channel `out` or behind those of the connection.
out-IsSeat :
    (w : Wal) (s : Seat) (q : Packet)
    → IsSeat w s
    → Flight w.set (q ∷ []) []
    → IsSeat w (put_out q s)
unfolding put_out
out-IsSeat w s q h f = record {
  fed =
      subst (λ x. IsFed w s.start (active s) s.feed x s.feeding)
        (append_assoc (s.wire ++ s.sending) s.out (q ∷ []))
        (same-IsFed w s.start (active s) s.feed (s.wire ++ s.sending ++ s.out) s.feeding h.fed
          ((s.wire ++ s.sending ++ s.out) ++ q ∷ []) (λ g. Flight-behind g f));
  feeding = h.feeding;
  asked = h.asked;
}

pub wire-IsSeat :
    (w : Wal) (s : Seat) (q : Packet)
    → IsSeat w s
    → Flight w.set (q ∷ []) []
    → IsSeat w (record s { wire = s.wire ++ q ∷ [] })
wire-IsSeat w s q h f = record {
  fed =
      same-IsFed w s.start (active s) s.feed (s.wire ++ s.sending ++ s.out) s.feeding h.fed
        ((s.wire ++ q ∷ []) ++ s.sending ++ s.out)
        (λ g. rw (append_assoc (s.wire ++ q ∷ []) s.sending s.out) (
          Flight-insert s.wire (s.sending ++ s.out) (rw (append_assoc s.wire s.sending s.out) at g)
            f));
  feeding = h.feeding;
  asked = h.asked;
}

pub offer-IsSeat :
    (w : Wal) (s : Seat) (p : Player) (q : Packet) (drops : Bool)
    → IsSeat w s
    → IsPosition p q
    → IsSeat w (offer q drops s)
unfolding offer put_out
offer-IsSeat w s p q drops h x =
    if_case (IsSeat w) _ (out-IsSeat w s q h (position_alone w p q x)) h

-- A stream that lives at most as long.
lived-IsSeat :
    (w : Wal) (s : Seat) (alive looping : Bool)
    → (alive || looping ≡ true → active s ≡ true)
    → IsSeat w s
    → IsSeat w (record s { alive = alive; looping = looping })
lived-IsSeat w s alive looping a h = record {
  fed =
      weaker-IsFed w s.start (active s) s.feed (s.wire ++ s.sending ++ s.out) s.feeding h.fed
        (alive || looping) a;
  feeding = h.feeding;
  asked = h.asked;
}

or_right : (a b : Bool) → b ≡ true → a || b ≡ true
or_right a b h = ground arith

pub cancelled-IsSeat : (w : Wal) (s : Seat) → IsSeat w s → IsSeat w (record s { alive = false })
cancelled-IsSeat w s h = lived-IsSeat w s false s.looping (or_right s.alive s.looping) h

-- handleWalStream has found the context alive.
pub checked-IsSeat :
    (w : Wal) (s : Seat) → s.alive ≡ true → IsSeat w s → IsSeat w (record s { looping = true })
checked-IsSeat w s a h = lived-IsSeat w s s.alive true (λ x. rw a refl) h

pub answered-IsSeat :
    (w : Wal) (s : Seat) (q : Packet) (l : List Sent)
    → s.todo ≡ to_player q ∷ l
    → IsSeat w s
    → IsSeat w (put_out q (record s { todo = l })) × IsSeat w (record s { todo = l })
unfolding answers
answered-IsSeat w s q l o h =
    let (f, g) = Flight-next (rw o at h.asked.todo) in
    let v : IsSeat w (record s { todo = l }) = record {
      fed = h.fed;
      feeding = h.feeding;
      asked = record { todo = g; others = (rw o at h.asked.others).1; inbox = h.asked.inbox };
    } in
    (out-IsSeat w (record s { todo = l }) q v f, v)

pub feeding_sent-IsSeat :
    (w : Wal) (s : Seat) (q : Packet) (l : List Packet)
    → s.feeding ≡ q ∷ l
    → IsSeat w s
    → IsSeat w (put_out q (record s { feeding = l }))
unfolding put_out
feeding_sent-IsSeat w s q l o h = record {
  fed =
      subst (λ x. IsFed w s.start (active s) s.feed x l)
        (append_assoc (s.wire ++ s.sending) s.out (q ∷ []))
        (next-IsFed w s.start (active s) s.feed (s.wire ++ s.sending ++ s.out) q l (rw o at h.fed));
  feeding = (rw o at h.feeding).1;
  asked = h.asked;
}

pub feeding_dropped-IsSeat :
    (w : Wal) (s : Seat)
    → s.looping ≡ false
    → s.alive ≡ false
    → IsSeat w s
    → IsSeat w (record s { feeding = [] })
feeding_dropped-IsSeat w s l d h = record {
  fed =
      dropped-IsFed w s.start (active s) s.feed (s.wire ++ s.sending ++ s.out) s.feeding h.fed
        (rw (d, l) refl);
  feeding = tt;
  asked = h.asked;
}

pub fed-IsSeat :
    (w : Wal) (s : Seat) (x : Result (List Packet) × Feed)
    → IsMemory w
    → s.looping ≡ true
    → s.feeding ≡ []
    → feed w s.feed ≡ some x
    → IsSeat w s
    → IsSeat w (fed_seat s x)
unfolding fed_seat
fed-IsSeat w s x m a e q h =
    let u = or_right s.alive s.looping a in
    let (p, g, o, f, n) =
      fed-IsFed w s.start (active s) s.feed (s.wire ++ s.sending ++ s.out) x m (rw e at h.fed) u
        q in
    rw o (record {
      fed =
          weaker-IsFed w s.start (active s) g (s.wire ++ s.sending ++ s.out) (p ∷ []) f
            (s.alive || false) (λ y. u);
      feeding = (rw n (omega arith), tt);
      asked = h.asked;
    })
