-- ===== src/Client/Game/Replies.antt =====
-- What the handlers of the game's messages answer, and what they keep.
use multiplayer.Prelude.{
  List, Result, [], ap, arith, drop, err, get_elem?, if◌then◌else◌, ◌==◌, inl, inr, length, none,
  ok, panic, refl, some, suc, sym, take, zero, ℕ, ◌++◌, ◌<◌, ◌^◌, ◌∷◌, ◌≡◌, ◌≤◌, ◌⊎◌,
}
use multiplayer.Protocol.Packet.{Packet, op_wal}
use multiplayer.Protocol.Packet
use multiplayer.Wal.Entry.{WalEntry, serialize}
use multiplayer.Client.Ipc.{MessageBodyWalIn}
use multiplayer.Client.SendQueue.{add}
use multiplayer.Client.Game.{
  Session, Output, to_game, to_uplink, Handled, acknowledge, wal_ack, queue_entry, on_game_entry,
  send_one, game_entry, handle_wal_in, new_wal_entry, send_game_wal, send_wal, wal_message,
  wal_data,
}
use multiplayer.Bytes.{ByteArray, array_eq, bytes, to_array}
use multiplayer.Bytes.Words.{be16, be32}
use multiplayer.Client.Ipc
use multiplayer.Client.Ipc.RoundTrip.{serialize_wal_out_lem}
use multiplayer.Wal.Entry
use multiplayer.Wal.Key.{dedup_key}
use multiplayer.Wal.Log.{Wal, next_u32, get}

-- What the game is told of an entry: its place, or its number.
abbrev pub told : WalEntry → List ℕ
told e =
    if e.type == Entry.wal_item
    then e.item.to ∷ e.item.game ∷ be16 e.item.gi ++ be16 e.item.flags ++ be32 e.item.key
    else if e.type == Entry.wal_event
    then be32 e.event.id
    else []

-- The bytes of an entry of the log for the game: the index, the type, the world, and the name of the
-- player, which is zero for an entry of the session's own player.
abbrev pub entry_bytes : Session → ℕ → WalEntry → List ℕ
entry_bytes s i e =
    be32 i
    ++ (e.type ∷ e.from ∷ [])
    ++ bytes 8 (if array_eq 16 e.player_id s.player_id then to_array 8 [] else e.player_name)
    ++ told e

-- The entries of the log from an index on, as messages to the game.
abbrev pub numbered : Session → ℕ → List WalEntry → List Output
numbered s i [] = []
numbered s i (e ∷ es) =
    to_game (record { seq = 0; op = Ipc.op_wal; payload = entry_bytes s i e })
    ∷ numbered s (suc i) es

wal_data-eq-told : (e : WalEntry) → wal_data e ≡ told e
unfolding wal_data Ipc.serialize_wal_item Ipc.serialize_wal_event be16 be32
wal_data-eq-told e = refl

wal_message_lem :
    (s : Session) (i : ℕ) (e : WalEntry)
    → wal_message s i e ≡ record { seq = 0; op = Ipc.op_wal; payload = entry_bytes s i e }
unfolding wal_message
wal_message_lem s i e = rw (serialize_wal_out_lem, wal_data-eq-told e) refl

get_elem?-drop :
    {A : Type 0} (xs : List A) (i : ℕ)
    → ((get_elem? xs i ≡ none) × (drop i xs ≡ []))
      ⊎ ((x : A) × (get_elem? xs i ≡ some x) × (drop i xs ≡ x ∷ drop (suc i) xs) × (i < length xs))
get_elem?-drop [] zero = inl (refl, refl)
get_elem?-drop [] (suc i) = inl (refl, refl)
get_elem?-drop (x ∷ xs) zero = inr (x, refl, refl, omega arith)
get_elem?-drop (x ∷ xs) (suc i) = elim (get_elem?-drop xs i) [
  | inl (p, q) ↦ inl (p, q)
  | inr (y, p, q, l) ↦ inr (y, p, q, omega arith)
]

pub get_elem?-short : {A : Type 0} (xs : List A) (i : ℕ) → length xs ≤ i → get_elem? xs i ≡ none
get_elem?-short [] i h = ground arith
get_elem?-short (x ∷ xs) zero h = absurd (omega arith)
get_elem?-short (x ∷ xs) (suc i) h = get_elem?-short xs i (omega arith)

pub get-eq-get_elem? :
    (i : ℕ) (w : Wal) → w.count ≡ length w.entries → get i w ≡ get_elem? w.entries i
unfolding get
get-eq-get_elem? i w h = ground (arith, get_elem?-short w.entries i)

send_wal_lem :
    (n i : ℕ) (s : Session)
    → s.wal.count ≡ length s.wal.entries
    → length s.wal.entries < 2 ^ 32
    → send_wal n i s ≡ numbered s i (take n (drop i s.wal.entries))
unfolding send_wal send_one
send_wal_lem zero i s c l = refl
send_wal_lem (suc n) i s c l =
    rw (get-eq-get_elem? i s.wal c) (elim (get_elem?-drop s.wal.entries i) [
      | inl (p, q) ↦ rw p (rw q refl)
      | inr (e, p, q, b) ↦
          let m : next_u32 i ≡ suc i = omega arith in
          rw p (
            rw q (
              rw (m, wal_message_lem s i e)
                (ap
                  (◌∷◌ (to_game (record { seq = 0; op = Ipc.op_wal; payload = entry_bytes s i e })))
                  (send_wal_lem n (suc i) s c l))))
    ])

-- A query of the log from an index on is answered by its next sixteen entries, or those that there
-- are, each once and in order; the message of each has its own index, its type, its world and the bytes
-- of its item or of its event, and a name that is zero for an entry of the session's own player. The log
-- has fewer than 2^32 entries and counts them right.
pub send_game_wal_lem :
    (i : ℕ) (s : Session)
    → s.wal.count ≡ length s.wal.entries
    → length s.wal.entries < 2 ^ 32
    → send_game_wal i s ≡ numbered s i (take 16 (drop i s.wal.entries))
unfolding send_game_wal
send_game_wal_lem i s c l = send_wal_lem 16 i s c l

acknowledge-ok :
    (token : ℕ) (h : Handled) (l : List Output) (s' : Session)
    → acknowledge token h ≡ (ok l, s')
    → (m : List Output) × (h ≡ (ok m, s')) × (l ≡ m ++ to_game (wal_ack token) ∷ [])
unfolding acknowledge
acknowledge-ok token (ok m, s) l s' e = (m, cc, cc)
acknowledge-ok token (err x, s) l s' e = absurd (cc)
acknowledge-ok token (panic, s) l s' e = absurd (cc)

-- What becomes of an entry once handleWalIn has returned without an error.
pub record Queued (e : WalEntry) (s s' : Session) (l : List Output) (token : ℕ) : Type 0 where
  pub bytes : List ℕ
  pub key : ByteArray 16
  pub serialized : serialize e ≡ ok bytes
  pub keyed : dedup_key e ≡ ok key
  pub queue : s'.send_q ≡ (add key bytes s.send_q).1
  pub sent :
      l ≡ to_uplink (record { op = Packet.op_wal; content = bytes }) ∷ to_game (wal_ack token) ∷ []

queue_entry-ok :
    (r : Result (List ℕ)) (q : Result (ByteArray 16)) (s s' : Session) (l : List Output)
    → queue_entry r q s ≡ (ok l, s')
    → (d : List ℕ) × (k : ByteArray 16) × (r ≡ ok d)
      × (q ≡ ok k)
      × (s'.send_q ≡ (add k d s.send_q).1)
      × (l ≡ to_uplink (record { op = Packet.op_wal; content = d }) ∷ [])
unfolding queue_entry
queue_entry-ok (ok d) (ok k) s s' l h =
    (d, k, refl, refl, ap (λ (x : Handled). x.1.send_q) (sym h), cc)
queue_entry-ok (ok d) (err e) s s' l h = absurd (cc)
queue_entry-ok (ok d) panic s s' l h = absurd (cc)
queue_entry-ok (err e) q s s' l h = absurd (cc)
queue_entry-ok panic q s s' l h = absurd (cc)

on_game_entry-ok :
    (token : ℕ) (r : Result WalEntry) (s s' : Session) (l : List Output)
    → on_game_entry token r s ≡ (ok l, s')
    → (e : WalEntry) × (r ≡ ok e) × Queued e s s' l token
unfolding on_game_entry new_wal_entry
on_game_entry-ok token (ok e) s s' l h =
    let (m, p, q) = acknowledge-ok token (new_wal_entry e s) l s' h in
    let (d, k, a, b, c, f) = queue_entry-ok (serialize e) (dedup_key e) s s' m p in
    (e, refl, record { bytes = d; key = k; serialized = a; keyed = b; queue = c; sent = rw f at q })
on_game_entry-ok token (err x) s s' l h = absurd (cc)
on_game_entry-ok token panic s s' l h = absurd (cc)

-- When handleWalIn returns without an error, the message was an entry with bytes and a key, the queue
-- is what Add made of it, whether or not Add itself failed, and the entry is offered to the server
-- before the game is given the acknowledgement with its token.
pub handle_wal_in-ok :
    (nonce : ℕ) (w : MessageBodyWalIn) (s s' : Session) (l : List Output)
    → handle_wal_in nonce w s ≡ (ok l, s')
    → (e : WalEntry) × (game_entry nonce w s ≡ ok e) × Queued e s s' l w.token
unfolding handle_wal_in
handle_wal_in-ok nonce w s s' l h = on_game_entry-ok w.token (game_entry nonce w s) s s' l h
