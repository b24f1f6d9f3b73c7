-- ===== src/World/Flush.antt =====
-- What is pending gets to the server, and is cleared from the queue.
use multiplayer.Client.Game.Entries.{IsQueued}
use multiplayer.Prelude.{
  List, [], ok, err, panic, refl, arith, true, ◌++◌, inl, inr, All, Bool-cases, length,
  length-append, map, suc, ℕ, ◌-◌, ◌<◌, ◌^◌, ◌∷◌, ◌≡◌, ◌≤◌, Bool, Option, false, if◌then◌else◌,
  none, some, ◌+◌, ◌∙◌,
}
use multiplayer.Protocol.Packet.{Packet}
use multiplayer.Wal.Entry.{WalEntry, parse}
use multiplayer.Client.Resend.{resend_each, on_pending, entry_packet, resend}
use multiplayer.Client.Game
use multiplayer.Client.Game.{Session, Handled}
use multiplayer.Client.SendQueue.{Entries, ack, lookup, pending}
use multiplayer.Client.Uplink.{handle_uplink_packet}
use multiplayer.Server.Player
use multiplayer.Server.Player.{
  Player, Sent, handle_packet, to_player, on_entry, acknowledge, after_append,
}
use multiplayer.Server.Player.Acks.{ack_packet}
use multiplayer.File.Quiet.{IsQuiet}
use multiplayer.Wal.Log.Memory.{IsMemory, with_entry-IsMemory, with_entry}
use multiplayer.Wal.Log.Working.{append-known, append-quiet}
use multiplayer.Bytes.{ByteArray, array_eq}
use multiplayer.Wal.Log.{append, contains, remember, Wal}
use multiplayer.Wal.Key.{dedup_key}
use multiplayer.Wal.Log.Invariant.{IsStored}
use multiplayer.Wal.Log.Keys.{contains-append, contains-snoc_self}
use multiplayer.World.{answers}
use multiplayer.Client.Uplink.Effects.{uplink_ack}
use multiplayer.Client.SendQueue.Acks.{lookup-ack}

-- handlePackets of the server, for some packets in turn: an error ends it.
before : List Sent → Player.Handled → Player.Handled
before l (ok m, w) = (ok (l ++ m), w)
before l (err e, w) = (err e, w)
before l (panic, w) = (panic, w)

after_packet : Player.Handled → (Wal → Player.Handled) → Player.Handled
unfolding before
after_packet (ok l, w) rest = before l (rest w)
after_packet (err e, w) rest = (err e, w)
after_packet (panic, w) rest = (panic, w)

unfoldable pub take_all : Player → List Packet → Wal → Player.Handled
unfolding after_packet
take_all p [] w = (ok [], w)
take_all p (q ∷ qs) w = after_packet (handle_packet p q w) (take_all p qs)

-- handlePackets of the client, for some packets in turn: an error ends it.
after_delivery : Game.Handled → (Session → Session) → Session
after_delivery (ok l, s) rest = rest s
after_delivery (err e, s) rest = s
after_delivery (panic, s) rest = s

unfoldable pub deliver_all : List Packet → Session → Session
unfolding after_delivery
deliver_all [] s = s
deliver_all (q ∷ qs) s = after_delivery (handle_uplink_packet q s) (deliver_all qs)

packets : Entries → List Packet
packets [] = []
packets (x ∷ xs) = entry_packet x.1 ∷ packets xs

acks : Entries → List Sent
acks [] = []
acks (x ∷ xs) = to_player (ack_packet x.0) ∷ acks xs

resend_each-packets :
    (xs : Entries) → All IsQueued xs → resend_each (map (λ x. x.1) xs) ≡ (packets xs, ok tt)
unfolding resend_each on_pending packets
resend_each-packets [] h = refl
resend_each-packets ((k, d) ∷ xs) ((e, p, _, _), h) = rw p (rw (resend_each-packets xs h) refl)

-- The server has taken an entry in, or had it already.
record Taken (w : Wal) (k : ByteArray 16) (v : Wal) : Type 0 where
  memory : IsMemory v
  quiet : IsQuiet v.file
  known : contains k v.set ≡ true
  kept : (j : ByteArray 16) → contains j w.set ≡ true → contains j v.set ≡ true
  size : length v.entries ≤ suc (length w.entries)

append-Taken :
    (w : Wal) (e : WalEntry) (k : ByteArray 16)
    → IsMemory w
    → IsQuiet w.file
    → IsStored e
    → dedup_key e ≡ ok k
    → length w.entries < 2 ^ 32 - 1
    → (v : Wal) × (append e w ≡ (ok tt, v)) × Taken w k v
unfolding remember
append-Taken w e k m q s h l = elim (Bool-cases (contains k w.set)) [
  | inl c ↦ (
    w,
    append-known w e k s h c,
    record { memory = m; quiet = q; known = c; kept = λ j x. x; size = omega arith },
  )
  | inr c ↦
      let (f, p, y) = append-quiet w e k q s h c in
      (
        with_entry w e k f,
        p,
        record {
          memory = with_entry-IsMemory w e k f m s h c l;
          quiet = y;
          known = contains-snoc_self k w.set;
          kept = λ j x. ground (arith, contains-append j w.set (k ∷ []), x);
          size = omega (arith, length-append w.entries (e ∷ []));
        },
      )
]

taken_packet :
    (p : Player) (d : List ℕ) (e : WalEntry) (k : ByteArray 16) (w v : Wal)
    → parse d ≡ ok e
    → dedup_key e ≡ ok k
    → append e w ≡ (ok tt, v)
    → handle_packet p (entry_packet d) w ≡ (ok (to_player (ack_packet k) ∷ []), v)
unfolding handle_packet on_entry after_append acknowledge
taken_packet p d e k w v q h a = rw q (rw a (rw h refl))

-- All of them, in turn.
take_all-packets :
    (p : Player) (xs : Entries) (w : Wal)
    → All IsQueued xs
    → IsMemory w
    → IsQuiet w.file
    → length w.entries + length xs < 2 ^ 32
    → (v : Wal) × (take_all p (packets xs) w ≡ (ok (acks xs), v))
      × All (λ x. contains x.0 v.set ≡ true) xs
      × ((j : ByteArray 16) → contains j w.set ≡ true → contains j v.set ≡ true)
unfolding take_all packets acks after_packet before
take_all-packets p [] w h m q l = (w, refl, tt, λ j x. x)
take_all-packets p ((k, d) ∷ xs) w ((e, a, s, b), h) m q l =
    let (u, g, t) = append-Taken w e k m q s b (omega arith) in
    let (v, r, c, n) = take_all-packets p xs u h t.memory t.quiet (omega (arith, t.size)) in
    (v, rw (taken_packet p d e k w u a b g) (rw r refl), (n k t.known, c), λ j x. n j (t.kept j x))

cleared : Option (List ℕ) → Option (List ℕ) → Option (List ℕ)
cleared (some x) o = none
cleared none o = o

cleared_if :
    (b : Bool) (d : List ℕ) (o q : Option (List ℕ))
    → cleared o (if b then none else q) ≡ cleared (if b then some d else o) q
unfolding cleared
cleared_if true d (some x) q = refl
cleared_if true d none q = refl
cleared_if false d o q = refl

cleared_self : (o : Option (List ℕ)) → cleared o o ≡ none
unfolding cleared
cleared_self (some x) = refl
cleared_self none = refl

-- The client takes the acknowledgements in.
lookup-deliver_all :
    (xs : Entries) (j : ByteArray 16) (s : Session)
    → lookup j (deliver_all (answers (acks xs)) s).send_q.entries
      ≡ cleared (lookup j xs) (lookup j s.send_q.entries)
unfolding deliver_all acks answers cleared lookup after_delivery
lookup-deliver_all [] j s = refl
lookup-deliver_all ((k, d) ∷ xs) j s = rw (uplink_ack (ack_packet k) k s refl refl) (
    lookup-deliver_all xs j (record s { send_q = ack k s.send_q })
    ∙ rw (lookup-ack k j s.send_q)
        (cleared_if (array_eq 16 k j) d (lookup j xs) (lookup j s.send_q.entries)))

-- A client whose queue holds, under each key, the bytes of an entry with that key that a log may hold,
-- and a server whose log is in order in memory, on a file whose calls work, with room for as many
-- entries: a round of handleSendQueue sends the whole queue; the server takes all of it in and then
-- knows every key; and once the client has taken in what the server answers, its queue is empty.
pub resend-take_all :
    (p : Player) (s : Session) (w : Wal)
    → All IsQueued s.send_q.entries
    → IsMemory w
    → IsQuiet w.file
    → length w.entries + length s.send_q.entries < 2 ^ 32
    → (ps : List Packet) × (l : List Sent) × (v : Wal) × (resend s ≡ (ps, ok tt))
      × (take_all p ps w ≡ (ok l, v))
      × All (λ x. contains x.0 v.set ≡ true) s.send_q.entries
      × ((j : ByteArray 16) → lookup j (deliver_all (answers l) s).send_q.entries ≡ none)
unfolding resend pending
resend-take_all p s w h m q l =
    let (v, r, c, _) = take_all-packets p s.send_q.entries w h m q l in
    (
      packets s.send_q.entries,
      acks s.send_q.entries,
      v,
      resend_each-packets s.send_q.entries h,
      r,
      c,
      λ j. lookup-deliver_all s.send_q.entries j s ∙ cleared_self (lookup j s.send_q.entries),
    )
