-- ===== src/Client/Game/Sequence.antt =====
-- The sequence numbers of the game's messages.
use multiplayer.Prelude.{
  List, Result, arith, err, if◌then◌else◌, ok, panic, refl, too_short, unexpected_hello, ℕ, ◌≡◌,
  ◌≢◌, ==_iff, Bool-cases, ap, inl, inr, sym, ◌==◌, ◌∙◌, bad_sequence, if_case,
}
use multiplayer.Wal.Entry.{WalEntry, serialize}
use multiplayer.Client.Ipc.{Message, MessageBodyWalIn, MessageBodyPositionIn}
use multiplayer.Client.Ipc
use multiplayer.Client.Game.{
  Session, Output, Handled, acknowledge, queue_entry, on_game_entry, on_wal, on_wal_query,
  on_position, on_info, dispatch, handle_msg, expect, game_entry, handle_wal_in, new_wal_entry,
}
use multiplayer.Bytes.{ByteArray, shorter}
use multiplayer.Wal.Key.{dedup_key}
use multiplayer.Wal.Log.{next_u32}
use multiplayer.Bytes.Words.{be_uint32}
use multiplayer.Client.SendQueue.Acks.{Extends, add-Extends}
use multiplayer.Client.SendQueue.{lookup, SendQueue}

-- A session that has moved on without a change of its counter and its log, and without a loss of an
-- entry of its queue.
abbrev Same : Session → Session → Type 0
Same s t = (t.seq_game ≡ s.seq_game) × (t.wal ≡ s.wal) × Extends s.send_q.entries t.send_q.entries

same : (s : Session) → Same s s
same s = (refl, refl, λ k d h. h)

abbrev Keeps : Session → Handled → Type 0
Keeps s h = Same s h.1

acknowledge-Keeps :
    (s : Session) (token : ℕ) (h : Handled) → Keeps s h → Keeps s (acknowledge token h)
unfolding acknowledge
acknowledge-Keeps s token (ok l, t) k = k
acknowledge-Keeps s token (err e, t) k = k
acknowledge-Keeps s token (panic, t) k = k

queue_entry-Keeps :
    (r : Result (List ℕ)) (q : Result (ByteArray 16)) (s : Session) → Keeps s (queue_entry r q s)
unfolding queue_entry
queue_entry-Keeps (ok d) (ok k) s = (refl, refl, add-Extends k d s.send_q)
queue_entry-Keeps (ok d) (err e) s = same s
queue_entry-Keeps (ok d) panic s = same s
queue_entry-Keeps (err e) q s = same s
queue_entry-Keeps panic q s = same s

on_game_entry-Keeps :
    (token : ℕ) (r : Result WalEntry) (s : Session) → Keeps s (on_game_entry token r s)
unfolding on_game_entry new_wal_entry
on_game_entry-Keeps token (ok e) s =
    acknowledge-Keeps s token _ (queue_entry-Keeps (serialize e) (dedup_key e) s)
on_game_entry-Keeps token (err e) s = same s
on_game_entry-Keeps token panic s = same s

on_wal-Keeps : (nonce : ℕ) (r : Result MessageBodyWalIn) (s : Session) → Keeps s (on_wal nonce r s)
unfolding on_wal handle_wal_in
on_wal-Keeps nonce (ok w) s =
    if_case (Keeps s) s.single (same s) (on_game_entry-Keeps w.token (game_entry nonce w s) s)
on_wal-Keeps nonce (err e) s = same s
on_wal-Keeps nonce panic s = same s

on_wal_query-Keeps : (r : Result ℕ) (s : Session) → Keeps s (on_wal_query r s)
unfolding on_wal_query
on_wal_query-Keeps (ok i) s = same s
on_wal_query-Keeps (err e) s = same s
on_wal_query-Keeps panic s = same s

on_position-Keeps : (r : Result MessageBodyPositionIn) (s : Session) → Keeps s (on_position r s)
unfolding on_position
on_position-Keeps (ok m) s = elim (Bool-cases s.single) [
  | inl c ↦ rw c (same s)
  | inr c ↦ rw c (refl, refl, λ k d h. h)
]
on_position-Keeps (err e) s = same s
on_position-Keeps panic s = same s

on_info-Keeps : {A : Type 0} (r : Result A) (s : Session) → Keeps s (on_info r s)
unfolding on_info
on_info-Keeps (ok x) s = same s
on_info-Keeps (err e) s = same s
on_info-Keeps panic s = same s

dispatch-Keeps : (nonce : ℕ) (m : Message) (s : Session) → Keeps s (dispatch nonce m s)
unfolding dispatch
dispatch-Keeps nonce m s =
    let a = on_wal-Keeps nonce (Ipc.parse_wal_in m.payload) s in
    let b =
      on_wal_query-Keeps (if shorter m.payload 4 then err too_short else be_uint32 m.payload) s in
    let c = on_position-Keeps (Ipc.parse_position_in m.payload) s in
    let d = on_info-Keeps (Ipc.parse_info_item m.payload) s in
    let e = on_info-Keeps (Ipc.parse_info_entrance m.payload) s in ground (arith, a, b, c, d, e)

dispatch-hello :
    (nonce : ℕ) (m : Message) (s : Session)
    → m.op ≡ Ipc.op_hello
    → dispatch nonce m s ≡ (err unexpected_hello, s)
unfolding dispatch
dispatch-hello nonce m s h = ground arith

-- A message that is handled without an error is not HELLO and has the number that the session
-- expects; afterwards the session expects the next number, modulo 2^32. So a message that comes twice
-- or out of turn is refused.
pub handle_msg-ok :
    (nonce : ℕ) (m : Message) (s s' : Session) (l : List Output)
    → handle_msg nonce m s ≡ (ok l, s')
    → (m.op ≢ Ipc.op_hello) × (m.seq ≡ s.seq_game) × (s'.seq_game ≡ next_u32 s.seq_game)
unfolding handle_msg expect
handle_msg-ok nonce m s s' l h =
    let t = record s { seq_game = next_u32 s.seq_game } in
    elim (Bool-cases (m.op == Ipc.op_hello)) [
      | inl o ↦ absurd (ground (arith, h, dispatch-hello nonce m s ((==_iff _ _).0 o)))
      | inr o ↦ elim (Bool-cases (m.seq == s.seq_game)) [
        | inl q ↦
            let g : dispatch nonce m t ≡ (ok l, s') = rw q at (rw o at h) in
            let k = dispatch-Keeps nonce m t in
            (ground (arith, o), (==_iff _ _).0 q, ap (λ (x : Handled). x.1.seq_game) (sym g) ∙ k.0)
        | inr q ↦ absurd (ground (arith, h, o))
      ]
    ]

expect-Same :
    (m : Message) (s : Session) → ((expect m s).1.wal ≡ s.wal) × ((expect m s).1.send_q ≡ s.send_q)
unfolding expect
expect-Same m s = ground arith

-- No message of the game changes the log, or takes an entry from the queue.
pub handle_msg-keeps :
    (nonce : ℕ) (m : Message) (s : Session)
    → ((handle_msg nonce m s).1.wal ≡ s.wal)
      × Extends s.send_q.entries (handle_msg nonce m s).1.send_q.entries
unfolding handle_msg
handle_msg-keeps nonce m s =
    let t = (expect m s).1 in
    let (a, b) = expect-Same m s in
    let k =
      if_case (Keeps t) (m.seq == (expect m s).0) {x = dispatch nonce m t}
        {y = (err bad_sequence, t)} (dispatch-Keeps nonce m t) (same t) in
    (k.1 ∙ a, λ j c h. k.2 j c (ap (λ (q : SendQueue). lookup j q.entries) b ∙ h))
