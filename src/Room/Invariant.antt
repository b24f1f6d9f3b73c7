-- ===== src/Room/Invariant.antt =====
-- The steps of a session keep what holds of its players.
use multiplayer.Prelude.{
  [], arith, drop, if_case, refl, ℕ, ◌==◌, ◌∷◌, List, err, ok, panic, All, false, true, All-append,
  Bool, ◌++◌,
}
use multiplayer.Room.{
  Step, Reach, joins, replies, cancels, leaves, receives, handles, answers_player, answer_dropped,
  broadcasts, feeds, feeding_sent, feeding_dropped, writes, takes, takes_nop, write_fails, checks,
  here, next_step, broadcast_except, fed_seat, put_out, running, left, Room, Seat, new_seat,
  set_seat, update, nop_packet, handled, open_room, vacant, no_hello,
}
use multiplayer.Room.Handling.{handle_packet-Kept, Kept}
use multiplayer.World.{answers}
use multiplayer.Room.Writing.{written-IsSeat, taken-IsSeat, nop-IsSeat}
use multiplayer.Room.Seats.{
  wire-IsSeat, offer-IsSeat, IsPosition, checked-IsSeat, answered-IsSeat, fed-IsSeat,
  feeding_sent-IsSeat, feeding_dropped-IsSeat, longer-IsSeat, cancelled-IsSeat, IsSeat,
}
use multiplayer.Bytes.{IsByte}
use multiplayer.Wal.Log.Memory.{Further, IsMemory}
use multiplayer.Wal.Log.{Wal}
use multiplayer.Wal.Stream.{subscribe}
use multiplayer.Protocol.Packet.{ClientHello, Packet}
use multiplayer.World.Flight.{Flight, other, landed}
use multiplayer.Server.Join.{hello_reply, start_feed}
use multiplayer.Server.Player.{handle_packet, Player, Handled}
use multiplayer.World.Receiving.{handle_packet-Answered, Answered}

pub record IsRoom (r : Room) : Type 0 where
  pub memory : IsMemory r.wal
  pub seats : (i : ℕ) → IsSeat r.wal (r.seats i)

-- What holds of a player, and of all the others as before.
pub update_case {κ} :
    (P : Seat → Type κ) (seats : ℕ → Seat) (i : ℕ) (s : Seat)
    → ((j : ℕ) → P (seats j))
    → P s
    → (j : ℕ) → P (update seats i s j)
update_case P seats i s h p j = if_case P (i == j) p (h j)

set_seat-IsRoom :
    (r : Room) (i : ℕ) (s : Seat) → IsRoom r → IsSeat r.wal s → IsRoom (set_seat r i s)
set_seat-IsRoom r i s v h = record {
  memory = v.memory;
  seats = update_case (IsSeat r.wal) r.seats i s v.seats h;
}

hello_alone : (w : Wal) → Flight w.set (hello_reply ∷ []) []
unfolding hello_reply
hello_alone w = other hello_reply [] [] (omega arith) (omega arith) landed

nop_alone : (w : Wal) → Flight w.set (nop_packet ∷ []) []
nop_alone w = other nop_packet [] [] (omega arith) (omega arith) landed

new_seat-IsSeat : (w : Wal) (h : ClientHello) → IsSeat w (new_seat h)
unfolding new_seat start_feed subscribe answers
new_seat-IsSeat w h = record {
  fed = record {
    sent = [];
    held = [];
    rest = drop h.wal_index w.entries;
    slice = refl;
    sending = landed;
    pending = landed;
    stream = λ q. omega arith;
    index = λ q. refl;
  };
  feeding = tt;
  asked = record { todo = landed; others = tt; inbox = tt };
}

pub open_room-IsRoom : (w : Wal) → IsMemory w → IsRoom (open_room w)
unfolding open_room vacant
open_room-IsRoom w m =
    let h = cancelled-IsSeat w (new_seat no_hello) (new_seat-IsSeat w no_hello) in
    record { memory = m; seats = λ i. record { fed = h.fed; feeding = h.feeding; asked = h.asked } }

longer-IsRoom :
    (r : Room) (w : Wal) → IsRoom r → IsMemory w → Further r.wal w → IsRoom (record r { wal = w })
longer-IsRoom r w v m f = record {
  memory = m;
  seats = λ i. longer-IsSeat r.wal w (r.seats i) f (v.seats i);
}

failed_seat :
    (w : Wal) (s : Seat) (rest : List Packet)
    → IsSeat w s
    → All (λ p. All IsByte p.content) rest
    → IsSeat w (record s { inbox = rest; alive = false })
failed_seat w s rest h b = record {
  fed = (cancelled-IsSeat w s h).fed;
  feeding = h.feeding;
  asked = record { todo = h.asked.todo; others = h.asked.others; inbox = b };
}

handled-IsRoom :
    (r : Room) (i : ℕ) (rest : List Packet) (h : Handled)
    → IsRoom r
    → Answered r.wal h
    → Kept (r.seats i).player h
    → All (λ p. All IsByte p.content) rest
    → IsRoom (handled r i rest h)
unfolding handled
handled-IsRoom r i rest (ok l, w) v a k b =
    let u = longer-IsRoom r w v a.memory a.further in
    set_seat-IsRoom (record r { wal = w }) i (record (r.seats i) { inbox = rest; todo = l }) u
      (record {
        fed = (u.seats i).fed;
        feeding = (u.seats i).feeding;
        asked = record { todo = a.acks l refl; others = k l refl; inbox = b };
      })
handled-IsRoom r i rest (err e, w) v a k b =
    let u = longer-IsRoom r w v a.memory a.further in
    set_seat-IsRoom (record r { wal = w }) i (record (r.seats i) { inbox = rest; alive = false }) u
      (failed_seat w (r.seats i) rest (u.seats i) b)
handled-IsRoom r i rest (panic, w) v a k b =
    let u = longer-IsRoom r w v a.memory a.further in
    set_seat-IsRoom (record r { wal = w }) i (record (r.seats i) { inbox = rest; alive = false }) u
      (failed_seat w (r.seats i) rest (u.seats i) b)

-- What BroadcastExcept does to the players, when the packet is a position.
broadcast-IsSeat :
    (w : Wal) (q : Packet) (p : Player) (i : ℕ) (drops : ℕ → Bool) (seats : ℕ → Seat)
    → IsPosition p q
    → ((j : ℕ) → IsSeat w (seats j))
    → (j : ℕ) → IsSeat w (broadcast_except q i drops seats j)
unfolding broadcast_except
broadcast-IsSeat w q p i drops seats x h j =
    if_case (IsSeat w) (i == j) (h j) (offer-IsSeat w (seats j) p q (drops j) (h j) x)

Step-IsRoom : (r u : Room) → IsRoom r → Step r u → IsRoom u
unfolding answers
Step-IsRoom r _ v (joins h) = record {
  memory = v.memory;
  seats = update_case (IsSeat r.wal) r.seats r.next (new_seat h) v.seats (new_seat-IsSeat r.wal h);
}
Step-IsRoom r _ v (replies i p) =
    let s = record (r.seats i) { wire = (r.seats i).wire ++ hello_reply ∷ [] } in
    let h = wire-IsSeat r.wal (r.seats i) hello_reply (v.seats i) (hello_alone r.wal) in
    set_seat-IsRoom r i (record s { phase = running }) v
      (record { fed = h.fed; feeding = h.feeding; asked = h.asked })
Step-IsRoom r _ v (cancels i) =
    set_seat-IsRoom r i (record (r.seats i) { alive = false }) v
      (cancelled-IsSeat r.wal (r.seats i) (v.seats i))
Step-IsRoom r _ v (leaves i d) =
    let h = v.seats i in
    set_seat-IsRoom r i (record (r.seats i) { phase = left }) v
      (record { fed = h.fed; feeding = h.feeding; asked = h.asked })
Step-IsRoom r _ v (receives i p q l b) =
    let h = v.seats i in
    set_seat-IsRoom r i (record (r.seats i) { inbox = (r.seats i).inbox ++ p ∷ [] }) v
      (record {
        fed = h.fed;
        feeding = h.feeding;
        asked = record {
          todo = h.asked.todo;
          others = h.asked.others;
          inbox =
              All-append (λ p. All IsByte p.content) (r.seats i).inbox (p ∷ []) h.asked.inbox
                (b, tt);
        };
      })
Step-IsRoom r _ v (handles i p rest q e t l) =
    let b = rw e at (v.seats i).asked.inbox in
    handled-IsRoom r i rest (handle_packet (r.seats i).player p r.wal) v
      (handle_packet-Answered r.wal (r.seats i).player p v.memory l b.0)
      (handle_packet-Kept (r.seats i).player p r.wal) b.1
Step-IsRoom r _ v (answers_player i q l p t c) =
    set_seat-IsRoom r i (put_out q (record (r.seats i) { todo = l })) v
      (answered-IsSeat r.wal (r.seats i) q l t (v.seats i)).0
Step-IsRoom r _ v (answer_dropped i q l t d) =
    set_seat-IsRoom r i (record (r.seats i) { todo = l }) v
      (answered-IsSeat r.wal (r.seats i) q l t (v.seats i)).1
Step-IsRoom r _ v (broadcasts i q l drops p t) =
    let h = v.seats i in
    let o = rw t at h.asked.others in
    let g : Flight r.wal.set (answers l) [] = rw t at h.asked.todo in
    record {
      memory = v.memory;
      seats =
          broadcast-IsSeat r.wal q (r.seats i).player i drops
            (update r.seats i (record (r.seats i) { todo = l })) o.0
            (update_case (IsSeat r.wal) r.seats i (record (r.seats i) { todo = l }) v.seats
              (record {
                fed = h.fed;
                feeding = h.feeding;
                asked = record { todo = g; others = o.1; inbox = h.asked.inbox };
              }));
    }
Step-IsRoom r _ v (checks i p a e) =
    set_seat-IsRoom r i (record (r.seats i) { looping = true }) v
      (checked-IsSeat r.wal (r.seats i) a (v.seats i))
Step-IsRoom r _ v (feeds i x p a e q) =
    set_seat-IsRoom r i (fed_seat (r.seats i) x) v
      (fed-IsSeat r.wal (r.seats i) x v.memory a e q (v.seats i))
Step-IsRoom r _ v (feeding_sent i q l p e c) =
    set_seat-IsRoom r i (put_out q (record (r.seats i) { feeding = l })) v
      (feeding_sent-IsSeat r.wal (r.seats i) q l e (v.seats i))
Step-IsRoom r _ v (feeding_dropped i q l e n d) =
    set_seat-IsRoom r i (record (r.seats i) { feeding = [] }) v
      (feeding_dropped-IsSeat r.wal (r.seats i) n d (v.seats i))
Step-IsRoom r _ v (takes i q l p a o) =
    set_seat-IsRoom r i (record (r.seats i) { out = l; sending = q ∷ [] }) v
      (taken-IsSeat r.wal (r.seats i) q l a o (v.seats i))
Step-IsRoom r _ v (takes_nop i p a) =
    set_seat-IsRoom r i (record (r.seats i) { sending = nop_packet ∷ [] }) v
      (nop-IsSeat r.wal (r.seats i) nop_packet a (nop_alone r.wal) (v.seats i))
Step-IsRoom r _ v (writes i q p n a) =
    set_seat-IsRoom r i (record (r.seats i) { sending = []; wire = (r.seats i).wire ++ q ∷ [] }) v
      (written-IsSeat r.wal (r.seats i) q a (v.seats i))
Step-IsRoom r _ v (write_fails i q p n a) =
    let h = cancelled-IsSeat r.wal (r.seats i) (v.seats i) in
    set_seat-IsRoom r i (record (r.seats i) { stopped = true; alive = false }) v
      (record { fed = h.fed; feeding = h.feeding; asked = h.asked })

pub Reach-IsRoom : (r u : Room) → IsRoom r → Reach r u → IsRoom u
Reach-IsRoom r _ v here = v
Reach-IsRoom r u v (next_step {u = x} g s) = Step-IsRoom x u (Reach-IsRoom r x v g) s
