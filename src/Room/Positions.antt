-- ===== src/Room/Positions.antt =====
-- Whose positions a player of the session is sent.
use multiplayer.Prelude.{
  All, List, [], arith, refl, subst, ℕ, ◌++◌, ◌∷◌, ◌≡◌, sym, append-nil, Result, err, ok, panic,
  All-left,
}
use multiplayer.Protocol.Packet.{Packet}
use multiplayer.Room.{
  new_seat, is_member, update, Reach, Room, Step, answer_dropped, answers_player, broadcasts,
  cancels, fed_seat, feeding_dropped, feeding_sent, feeds, handled, handles, here, joins, leaves,
  next_step, nop_packet, open_room, receives, replies, vacant, writes, takes, takes_nop,
  write_fails, checks,
}
use multiplayer.Server.Join.{hello_reply, Feed}
use multiplayer.Server.Player.{handle_packet, Handled}
use multiplayer.Room.Invariant.{open_room-IsRoom, Reach-IsRoom, IsRoom}
use multiplayer.Wal.Log.{Wal}
use multiplayer.Room.Writing.{taken-eq, written-eq}
use multiplayer.Wal.Log.Memory.{IsMemory}
use multiplayer.Room.Placed.{
  IsFrom, IsPlaced, broadcast-IsPlaced, join-IsPlaced, put_out-IsPlaced, set-IsPlaced,
  still-IsPlaced, Plain-All, update_at, wire-IsPlaced,
}

handled-IsPlaced :
    (r : Room) (i : ℕ) (rest : List Packet) (h : Handled)
    → IsPlaced r.seats r.next
    → IsPlaced (handled r i rest h).seats (handled r i rest h).next
unfolding handled
handled-IsPlaced r i rest (ok l, w) h =
    still-IsPlaced r.seats r.next i _ h refl (λ m. m) refl refl refl
handled-IsPlaced r i rest (err e, w) h =
    still-IsPlaced r.seats r.next i _ h refl (λ m. m) refl refl refl
handled-IsPlaced r i rest (panic, w) h =
    still-IsPlaced r.seats r.next i _ h refl (λ m. m) refl refl refl

fed_seat-IsPlaced :
    (r : Room) (i : ℕ) (x : Result (List Packet) × Feed)
    → IsPlaced r.seats r.next
    → IsPlaced (update r.seats i (fed_seat (r.seats i) x)) r.next
unfolding fed_seat
fed_seat-IsPlaced r i (ok l, w) h = still-IsPlaced r.seats r.next i _ h refl (λ m. m) refl refl refl
fed_seat-IsPlaced r i (err e, w) h =
    still-IsPlaced r.seats r.next i _ h refl (λ m. m) refl refl refl
fed_seat-IsPlaced r i (panic, w) h =
    still-IsPlaced r.seats r.next i _ h refl (λ m. m) refl refl refl

Step-IsPlaced :
    (r u : Room) → IsRoom r → IsPlaced r.seats r.next → Step r u → IsPlaced u.seats u.next
unfolding hello_reply is_member
Step-IsPlaced r _ v h (joins c) = join-IsPlaced r.seats r.next c h
Step-IsPlaced r _ v h (replies i p) =
    wire-IsPlaced r.seats r.next i _ hello_reply h (omega arith) refl (λ m. rw p refl) refl refl
      refl
Step-IsPlaced r _ v h (cancels i) = still-IsPlaced r.seats r.next i _ h refl (λ m. m) refl refl refl
Step-IsPlaced r _ v h (leaves i d) =
    still-IsPlaced r.seats r.next i _ h refl (λ m. absurd (cc)) refl refl refl
Step-IsPlaced r _ v h (receives i p q l b) =
    still-IsPlaced r.seats r.next i _ h refl (λ m. m) refl refl refl
Step-IsPlaced r _ v h (handles i p rest q e t l) =
    handled-IsPlaced r i rest (handle_packet (r.seats i).player p r.wal) h
Step-IsPlaced r _ v h (answers_player i q l p t c) =
    let o = rw t at (v.seats i).asked.others in
    put_out-IsPlaced r.seats r.next i (record (r.seats i) { todo = l }) q h o.0 refl (λ m. m) refl
      refl refl
Step-IsPlaced r _ v h (answer_dropped i q l t d) =
    still-IsPlaced r.seats r.next i _ h refl (λ m. m) refl refl refl
Step-IsPlaced r _ v h (broadcasts i q l drops p t) =
    let o = rw t at (v.seats i).asked.others in
    let s = record (r.seats i) { todo = l } in
    let same : (update r.seats i s i).player ≡ (r.seats i).player =
      update_at (λ j x. x.player ≡ (r.seats j).player) r.seats i s (λ j n. refl) refl i in
    broadcast-IsPlaced (update r.seats i s) r.next i q drops
      (still-IsPlaced r.seats r.next i s h refl (λ m. m) refl refl refl) (h.member i (rw p refl))
      (rw same o.0)
Step-IsPlaced r _ v h (checks i p a e) =
    still-IsPlaced r.seats r.next i _ h refl (λ m. m) refl refl refl
Step-IsPlaced r _ v h (feeds i x p a e q) = fed_seat-IsPlaced r i x h
Step-IsPlaced r _ v h (feeding_sent i q l p e c) =
    let o = rw e at (v.seats i).feeding in
    put_out-IsPlaced r.seats r.next i (record (r.seats i) { feeding = l }) q h o.0 refl (λ m. m)
      refl refl refl
Step-IsPlaced r _ v h (feeding_dropped i q l e n d) =
    still-IsPlaced r.seats r.next i _ h refl (λ m. m) refl refl refl
Step-IsPlaced r _ v h (takes i q l p a o) =
    set-IsPlaced r.seats r.next i _ h refl (λ m. m)
      (subst (All (IsFrom r.seats r.next i)) (sym (taken-eq (r.seats i) q l a o)) (h.gone i))
Step-IsPlaced r _ v h (takes_nop i p a) =
    let s = r.seats i in
    let x = rw (a, append-nil s.wire) at (h.gone i) in
    set-IsPlaced r.seats r.next i (record s { sending = nop_packet ∷ [] }) h refl (λ m. m)
      (Plain-All r.seats r.next i s.wire s.out nop_packet (omega arith) x)
Step-IsPlaced r _ v h (writes i q p n a) =
    set-IsPlaced r.seats r.next i _ h refl (λ m. m)
      (subst (All (IsFrom r.seats r.next i)) (sym (written-eq (r.seats i) q a)) (h.gone i))
Step-IsPlaced r _ v h (write_fails i q p n a) =
    still-IsPlaced r.seats r.next i _ h refl (λ m. m) refl refl refl

Reach-IsPlaced :
    (r u : Room) → IsRoom r → IsPlaced r.seats r.next → Reach r u → IsPlaced u.seats u.next
Reach-IsPlaced r _ v h here = h
Reach-IsPlaced r u v h (next_step {u = x} g s) =
    Step-IsPlaced x u (Reach-IsRoom r x v g) (Reach-IsPlaced r x v h g) s

open_room-IsPlaced : (w : Wal) → IsPlaced (open_room w).seats (open_room w).next
unfolding open_room vacant new_seat is_member
open_room-IsPlaced w = record { member = λ i m. absurd (cc); gone = λ i. tt }

-- A session is opened on a log whose entries, keys and count agree, and packets are handled only
-- while it has fewer than 2^32 - 1 entries; its players join and leave, and their goroutines take
-- their steps in any order, with any of them cancelled at any moment: each packet with the code of a
-- position that has been written to a player's connection is of one of the other players that have
-- joined, and its bytes are those of a server position with that player's ID and name.
pub wire-positions :
    (w : Wal) (r : Room) (i : ℕ)
    → IsMemory w
    → Reach (open_room w) r
    → All (IsFrom r.seats r.next i) (r.seats i).wire
wire-positions w r i m g =
    let h = Reach-IsPlaced (open_room w) r (open_room-IsRoom w m) (open_room-IsPlaced w) g in
    All-left (IsFrom r.seats r.next i) (r.seats i).wire (r.seats i).sending (
      All-left (IsFrom r.seats r.next i) ((r.seats i).wire ++ (r.seats i).sending) (r.seats i).out
        (h.gone i))
