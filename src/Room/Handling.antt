-- ===== src/Room/Handling.antt =====
-- What the handler of a player has the session broadcast are positions of the player.
use multiplayer.Prelude.{
  [], if_case, refl, ◌==◌, List, Result, err, ok, ok-injective, panic, subst, ◌≡◌, arith,
}
use multiplayer.Room.Seats.{Others}
use multiplayer.Wal.Log.{Wal, append}
use multiplayer.Wal.Key.{dedup_key}
use multiplayer.Bytes.{ByteArray}
use multiplayer.Protocol.Packet
use multiplayer.Protocol.Packet.{ClientPosition, Packet, parse_client_position}
use multiplayer.Server.Player.{
  Sent, handle_position_update, Handled, acknowledge, handle_packet, after_append, on_entry, Player,
  on_position,
}
use multiplayer.Wal.Entry.{WalEntry, parse}

-- What a handler of the player sends to the others are positions of the player.
abbrev pub Kept : Player → Handled → Type 0
Kept p h = (l : List Sent) → h.0 ≡ ok l → Others p l

acknowledge-Kept : (p : Player) (r : Result (ByteArray 16)) (w : Wal) → Kept p (acknowledge r w)
unfolding acknowledge
acknowledge-Kept p (ok k) w l q = subst (Others p) (ok-injective q) (omega arith, tt)
acknowledge-Kept p (err e) w l q = absurd (cc)
acknowledge-Kept p panic w l q = absurd (cc)

after_append-Kept :
    (p : Player) (e : WalEntry) (r : Result (Unit {0}) × Wal) → Kept p (after_append e r)
unfolding after_append
after_append-Kept p e (ok x, w) l q = acknowledge-Kept p (dedup_key e) w l q
after_append-Kept p e (err x, w) l q = absurd (cc)
after_append-Kept p e (panic, w) l q = absurd (cc)

on_entry-Kept : (p : Player) (r : Result WalEntry) (w : Wal) → Kept p (on_entry r w)
unfolding on_entry
on_entry-Kept p (ok e) w l q = after_append-Kept p e (append e w) l q
on_entry-Kept p (err x) w l q = absurd (cc)
on_entry-Kept p panic w l q = absurd (cc)

on_position-Kept : (p : Player) (r : Result ClientPosition) (w : Wal) → Kept p (on_position p r w)
unfolding on_position handle_position_update
on_position-Kept p (ok pos) w l q = subst (Others p) (ok-injective q) ((refl, (pos, refl)), tt)
on_position-Kept p (err x) w l q = absurd (cc)
on_position-Kept p panic w l q = absurd (cc)

nothing-Kept : (p : Player) (w : Wal) → Kept p (ok [], w)
nothing-Kept p w l q = subst (Others p) (ok-injective q) tt

pub handle_packet-Kept : (p : Player) (q : Packet) (w : Wal) → Kept p (handle_packet p q w)
unfolding handle_packet
handle_packet-Kept p q w =
    let n = nothing-Kept p w in
    if_case (Kept p) (q.op == Packet.op_nop) n (
      if_case (Kept p) (q.op == Packet.op_wal) (on_entry-Kept p (parse q.content) w) (
        if_case (Kept p) (q.op == Packet.op_position)
          (on_position-Kept p (parse_client_position q.content) w) n))
