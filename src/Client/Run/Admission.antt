-- ===== src/Client/Run/Admission.antt =====
-- Which games are let in.
use multiplayer.Prelude.{
  ok-injective, inl, inr, Bool-cases, sym, ok, refl, arith, >>=-eq-ok, List, ap, ℕ, ◌↔◌, ◌∙◌, ◌≡◌,
}
use multiplayer.Client.Info.{Info}
use multiplayer.Client.Ipc.{Message, MessageBodyHelloIn, parse_message, parse_hello_in, op_hello}
use multiplayer.Client.Ipc
use multiplayer.Client.Run.{hello, check_info, check_message, check_game}
use multiplayer.Client.Uplink
use multiplayer.Bytes.Laws.{array_eq_iff}
use multiplayer.Bytes.{array_eq}

-- A first message that is a HELLO with number 0 for this protocol, from a game that the patch file
-- was made for.
pub record IsAdmitted (info : Info) (raw : List ℕ) (h : MessageBodyHelloIn) : Type 0 where
  pub message : Message
  pub parsed : Ipc.parse_message raw ≡ ok message
  pub op : message.op ≡ Ipc.op_hello
  pub seq : message.seq ≡ 0
  pub body : Ipc.parse_hello_in message.payload ≡ ok h
  pub magic : h.magic ≡ Uplink.magic
  pub session_id : h.session_id ≡ info.session_id
  pub session_secret : h.session_secret ≡ info.session_secret
  pub world_id : h.world_id ≡ info.world_id

check_message-ok : (m : Message) → (check_message m ≡ ok tt) ↔ ((m.op ≡ Ipc.op_hello) × (m.seq ≡ 0))
unfolding check_message
check_message-ok m = ground arith

check_game-ok :
    (g h : MessageBodyHelloIn) → (check_game g ≡ ok h) ↔ ((g ≡ h) × (h.magic ≡ Uplink.magic))
unfolding check_game
check_game-ok g h = elim (Bool-cases (array_eq 8 g.magic Uplink.magic)) [
  | inl x ↦ rw x (
    λ p.
        let q = ok-injective p in
        (
          q,
          ap (λ (y : MessageBodyHelloIn). y.magic) (sym q)
              ∙ (array_eq_iff 8 g.magic Uplink.magic).0 x,
        ),
    λ (q, m). ap ok q,
  )
  | inr x ↦ rw x (
    λ p. absurd (cc),
    λ (q, m). absurd (
        ground (
          arith,
          x,
          (array_eq_iff 8 g.magic Uplink.magic).1 (ap (λ (y : MessageBodyHelloIn). y.magic) q ∙ m),
        )),
  )
]

pub check_info-ok :
    (info : Info) (h : MessageBodyHelloIn)
    → (check_info info h ≡ ok tt) ↔ (
        (h.session_id ≡ info.session_id)
        × (h.session_secret ≡ info.session_secret)
        × (h.world_id ≡ info.world_id))
unfolding check_info
check_info-ok info h = ground (
  arith,
  array_eq_iff 16 h.session_id info.session_id,
  array_eq_iff 8 h.session_secret info.session_secret,
)

-- The first message of a game is accepted as its hello, and passes the comparisons that Run starts with,
-- exactly when it is a HELLO with the number 0 and the magic bytes, and names the session, the secret and
-- the world of the patch file.
pub hello-IsAdmitted :
    (info : Info) (raw : List ℕ) (h : MessageBodyHelloIn)
    → ((hello raw ≡ ok h) × (check_info info h ≡ ok tt)) ↔ IsAdmitted info raw h
unfolding hello
hello-IsAdmitted info raw h = (
  λ (p, q).
      let (m, a, p1) = >>=-eq-ok (Ipc.parse_message raw) _ p in
      let (_, b, p2) = >>=-eq-ok (check_message m) _ p1 in
      let (g, c, p3) = >>=-eq-ok (Ipc.parse_hello_in m.payload) _ p2 in
      let (e, d) = (check_game-ok g h).0 p3 in
      let (x, y) = (check_message-ok m).0 b in
      let (i, j, k) = (check_info-ok info h).0 q in
      record {
        message = m;
        parsed = a;
        op = x;
        seq = y;
        body = c ∙ ap ok e;
        magic = d;
        session_id = i;
        session_secret = j;
        world_id = k;
      },
  λ a. (
    rw a.parsed (
        rw ((check_message-ok a.message).1 (a.op, a.seq))
          (rw a.body ((check_game-ok h h).1 (refl, a.magic)))),
    (check_info-ok info h).1 (a.session_id, a.session_secret, a.world_id),
  ),
)
