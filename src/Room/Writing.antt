-- ===== src/Room/Writing.antt =====
-- What handleMsgOut does with the packets of a player: it takes them from the channel, and writes them.
use multiplayer.Prelude.{List, [], append-nil, append_assoc, refl, subst, sym, ◌++◌, ◌∷◌, ◌≡◌}
use multiplayer.Protocol.Packet.{Packet}
use multiplayer.Wal.Log.{Wal}
use multiplayer.World.Flight.{Flight, Flight-insert}
use multiplayer.Room.{Seat}
use multiplayer.Room.Feeding.{IsFed, same-IsFed}
use multiplayer.Room.Seats.{IsSeat, active}

-- The same packets, in other places.
moved-IsSeat :
    (w : Wal) (s : Seat) (wire sending out : List Packet)
    → wire ++ sending ++ out ≡ s.wire ++ s.sending ++ s.out
    → IsSeat w s
    → IsSeat w (record s { wire = wire; sending = sending; out = out })
moved-IsSeat w s wire sending out e h = record {
  fed = subst (λ x. IsFed w s.start (active s) s.feed x s.feeding) (sym e) h.fed;
  feeding = h.feeding;
  asked = h.asked;
}

-- What handleMsgOut takes from the channel, and what it writes, stays at its place in the order.
pub taken-eq :
    (s : Seat) (q : Packet) (l : List Packet)
    → s.sending ≡ []
    → s.out ≡ q ∷ l
    → s.wire ++ (q ∷ []) ++ l ≡ s.wire ++ s.sending ++ s.out
taken-eq s q l a o = rw (a, o, append-nil s.wire) (append_assoc s.wire (q ∷ []) l)

pub written-eq :
    (s : Seat) (q : Packet)
    → s.sending ≡ q ∷ []
    → (s.wire ++ q ∷ []) ++ [] ++ s.out ≡ s.wire ++ s.sending ++ s.out
written-eq s q a = rw (a, append-nil (s.wire ++ q ∷ [])) refl

pub taken-IsSeat :
    (w : Wal) (s : Seat) (q : Packet) (l : List Packet)
    → s.sending ≡ []
    → s.out ≡ q ∷ l
    → IsSeat w s
    → IsSeat w (record s { out = l; sending = q ∷ [] })
taken-IsSeat w s q l a o h = moved-IsSeat w s s.wire (q ∷ []) l (taken-eq s q l a o) h

pub written-IsSeat :
    (w : Wal) (s : Seat) (q : Packet)
    → s.sending ≡ q ∷ []
    → IsSeat w s
    → IsSeat w (record s { sending = []; wire = s.wire ++ q ∷ [] })
written-IsSeat w s q a h = moved-IsSeat w s (s.wire ++ q ∷ []) [] s.out (written-eq s q a) h

-- A packet without an entry, in the hand of handleMsgOut.
pub nop-IsSeat :
    (w : Wal) (s : Seat) (q : Packet)
    → s.sending ≡ []
    → Flight w.set (q ∷ []) []
    → IsSeat w s
    → IsSeat w (record s { sending = q ∷ [] })
nop-IsSeat w s q a f h = record {
  fed =
      same-IsFed w s.start (active s) s.feed (s.wire ++ s.sending ++ s.out) s.feeding h.fed
        (s.wire ++ (q ∷ []) ++ s.out)
        (λ g. Flight-insert s.wire s.out (rw (a, append-nil s.wire) at g) f);
  feeding = h.feeding;
  asked = h.asked;
}
