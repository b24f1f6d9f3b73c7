-- ===== src/Client/Game/Queueing.antt =====
-- The queue after a message of the game.
use multiplayer.Prelude.{
  ok-injective, too_short, bad_sequence, All-right, append-nil, All, Bool-cases, List, Result, [],
  ap, arith, err, if◌then◌else◌, inl, inr, ok, panic, refl, subst, sym, ℕ, ◌==◌, ◌∙◌, ◌≡◌, if_case,
}
use multiplayer.Bytes.Words.{be_uint32, IsU32}
use multiplayer.Client.Ipc.{Message, MessageBodyPositionIn, MessageBodyWalIn, parse_wal_in}
use multiplayer.Wal.Entry.{WalEntry, parse}
use multiplayer.Client.Game.{
  Session, Handled, acknowledge, dispatch, expect, game_entry, handle_msg, handle_wal_in,
  new_wal_entry, on_game_entry, on_info, on_position, on_wal, on_wal_query, queue_entry,
}
use multiplayer.Client.Ipc
use multiplayer.Wal.Log.Invariant.{IsStored, dedup_key-IsStored, serialize-IsStored}
use multiplayer.Bytes.Laws.{split_shorter}
use multiplayer.Bytes.{shorter, bytes, IsByte}
use multiplayer.Wal.Entry.RoundTrip.{parse-serialize}
use multiplayer.Client.SendQueue.Acks.{add-All}
use multiplayer.Client.Game.Entries.{IsQueued, IsSession, game_entry-IsStored}

-- The queue of a session.
abbrev Holds : Session → Type 0
Holds s = All IsQueued s.send_q.entries

abbrev Leaves : Handled → Type 0
Leaves h = Holds h.1

new_wal_entry-Holds :
    (e : WalEntry) (s : Session) → IsStored e → Holds s → Holds (new_wal_entry e s).1
unfolding new_wal_entry queue_entry
new_wal_entry-Holds e s v h =
    let (d, p) = serialize-IsStored e v in
    let (k, q) = dedup_key-IsStored e v in
    let r : parse d ≡ ok e =
      ap parse (sym (append-nil d)) ∙ parse-serialize e d [] v.valid p ∙ ap ok v.is_active in
    rw p (rw q (add-All IsQueued k d s.send_q (e, r, v, q) h))

acknowledge-Holds : (token : ℕ) (h : Handled) → Holds h.1 → Holds (acknowledge token h).1
unfolding acknowledge
acknowledge-Holds token (ok l, s) h = h
acknowledge-Holds token (err e, s) h = h
acknowledge-Holds token (panic, s) h = h

on_game_entry-Holds :
    (token : ℕ) (r : Result WalEntry) (s : Session)
    → ((e : WalEntry) → r ≡ ok e → IsStored e)
    → Holds s
    → Holds (on_game_entry token r s).1
unfolding on_game_entry
on_game_entry-Holds token (ok e) s v h =
    acknowledge-Holds token (new_wal_entry e s) (new_wal_entry-Holds e s (v e refl) h)
on_game_entry-Holds token (err x) s v h = h
on_game_entry-Holds token panic s v h = h

on_wal-Holds :
    (nonce : ℕ) (r : Result MessageBodyWalIn) (s : Session)
    → IsU32 nonce
    → ((w : MessageBodyWalIn) → r ≡ ok w → All IsByte w.content)
    → IsSession s
    → Holds s
    → Holds (on_wal nonce r s).1
unfolding on_wal handle_wal_in
on_wal-Holds nonce (ok w) s n b u h = if_case Leaves s.single h (
    on_game_entry-Holds w.token (game_entry nonce w s) s
      (λ e. game_entry-IsStored nonce w s e n (b w refl) u) h)
on_wal-Holds nonce (err e) s n b u h = h
on_wal-Holds nonce panic s n b u h = h

parse_wal_in-content :
    (d : List ℕ) (w : MessageBodyWalIn)
    → All IsByte d
    → Ipc.parse_wal_in d ≡ ok w
    → All IsByte w.content
unfolding parse_wal_in
parse_wal_in-content d w b h = elim (Bool-cases (shorter d 5)) [
  | inl q ↦ absurd (ground (arith, rw q at h))
  | inr q ↦
      let (a, r, e) = split_shorter 5 d q in
      subst (λ (y : MessageBodyWalIn). All IsByte y.content) (ok-injective (rw e at h))
        (All-right IsByte (bytes 5 a) r (rw e at b))
]

on_wal_query-Holds : (r : Result ℕ) (s : Session) → Holds s → Holds (on_wal_query r s).1
unfolding on_wal_query
on_wal_query-Holds (ok i) s h = h
on_wal_query-Holds (err e) s h = h
on_wal_query-Holds panic s h = h

on_position-Holds :
    (r : Result MessageBodyPositionIn) (s : Session) → Holds s → Holds (on_position r s).1
unfolding on_position
on_position-Holds (ok m) s h = elim (Bool-cases s.single) [ inl c ↦ rw c h | inr c ↦ rw c h ]
on_position-Holds (err e) s h = h
on_position-Holds panic s h = h

on_info-Holds : {A : Type 0} (r : Result A) (s : Session) → Holds s → Holds (on_info r s).1
unfolding on_info
on_info-Holds (ok x) s h = h
on_info-Holds (err e) s h = h
on_info-Holds panic s h = h

dispatch-Holds :
    (nonce : ℕ) (m : Message) (s : Session)
    → IsU32 nonce
    → All IsByte m.payload
    → IsSession s
    → Holds s
    → Holds (dispatch nonce m s).1
unfolding dispatch
dispatch-Holds nonce m s n b u h =
    let wal =
      on_wal-Holds nonce (Ipc.parse_wal_in m.payload) s n (λ w. parse_wal_in-content m.payload w b)
        u h in
    if_case Leaves (m.op == Ipc.op_hello) h (
      if_case Leaves (m.op == Ipc.op_wal) wal (
        if_case Leaves (m.op == Ipc.op_wal_query)
          (on_wal_query-Holds (if shorter m.payload 4 then err too_short else be_uint32 m.payload) s
            h)
          (if_case Leaves (m.op == Ipc.op_position)
            (on_position-Holds (Ipc.parse_position_in m.payload) s h)
            (if_case Leaves (m.op == Ipc.op_info_item)
              (on_info-Holds (Ipc.parse_info_item m.payload) s h)
              (if_case Leaves (m.op == Ipc.op_info_entrance)
                (on_info-Holds (Ipc.parse_info_entrance m.payload) s h) h)))))

expect-Holds :
    (m : Message) (s : Session)
    → IsSession s
    → Holds s
    → IsSession (expect m s).1 × Holds (expect m s).1
unfolding expect
expect-Holds m s u h = elim (Bool-cases (m.op == Ipc.op_hello)) [
  | inl q ↦ rw q (u, h)
  | inr q ↦
      rw q
        (record { player_id = u.player_id; player_name = u.player_name; world_id = u.world_id }, h)
]

-- Whatever message the game sends, with any number, code and bytes, and whatever 32 random bits are
-- drawn: if the queue holds, under each key, the bytes of an entry with that key that a log may hold, so
-- does the queue after the message, whether or not it was handled without an error.
pub handle_msg-IsQueued :
    (nonce : ℕ) (m : Message) (s : Session)
    → IsU32 nonce
    → All IsByte m.payload
    → IsSession s
    → All IsQueued s.send_q.entries
    → All IsQueued (handle_msg nonce m s).1.send_q.entries
unfolding handle_msg
handle_msg-IsQueued nonce m s n b u h =
    let (v, k) = expect-Holds m s u h in
    let t = (expect m s).1 in
    if_case Leaves (m.seq == (expect m s).0) {x = dispatch nonce m t} {y = (err bad_sequence, t)}
      (dispatch-Holds nonce m t n b v k) k
