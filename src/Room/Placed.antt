-- ===== src/Room/Placed.antt =====
-- What the changes of a player do to the positions in its channels and on its connection.
use multiplayer.Prelude.{
  All, Bool-cases, List, [], arith, false, inl, inr, refl, subst, suc, true, ℕ, ◌++◌, ◌<◌, ◌==◌,
  ◌∷◌, ◌≡◌, ◌≢◌, ◌≤◌, All-append, Bool, append_assoc, if_case, sym, length, ltb, not, ◌&&◌, ◌||◌,
}
use multiplayer.Protocol.Packet
use multiplayer.Protocol.Packet.{Packet, ClientHello}
use multiplayer.Room.{capacity, Seat, new_seat, is_member, update, broadcast_except, offer, put_out}
use multiplayer.Room.Seats.{IsPosition, Plain}

-- A position on its way to a player is of another player that has joined.
abbrev pub IsFrom : (ℕ → Seat) → ℕ → ℕ → Packet → Type 0
IsFrom seats next i q =
    q.op ≡ Packet.op_position → (j : ℕ) × (j ≢ i) × (j < next) × IsPosition (seats j).player q

-- The players that have joined have numbers below the next one, and are sent the others' positions.
pub record IsPlaced (seats : ℕ → Seat) (next : ℕ) : Type 0 where
  pub member : (i : ℕ) → is_member (seats i).phase ≡ true → i < next
  pub gone :
      (i : ℕ) → All (IsFrom seats next i) ((seats i).wire ++ (seats i).sending ++ (seats i).out)

-- The players are the same, and perhaps more.
record Same (seats : ℕ → Seat) (next : ℕ) (later : ℕ → Seat) (last : ℕ) : Type 0 where
  bound : next ≤ last
  player : (j : ℕ) → j < next → (later j).player ≡ (seats j).player

Same-IsFrom :
    (seats later : ℕ → Seat) (next last i : ℕ) (ps : List Packet)
    → Same seats next later last
    → All (IsFrom seats next i) ps
    → All (IsFrom later last i) ps
Same-IsFrom seats later next last i [] h a = tt
Same-IsFrom seats later next last i (p ∷ ps) h (f, a) = (
  λ o. let (j, n, l, x) = f o in (j, n, omega (arith, h.bound), rw (h.player j l) x),
  Same-IsFrom seats later next last i ps h a,
)

pub update_at {κ} :
    (P : ℕ → Seat → Type κ) (seats : ℕ → Seat) (i : ℕ) (s : Seat)
    → ((j : ℕ) → i ≢ j → P j (seats j))
    → P i s
    → (j : ℕ) → P j (update seats i s j)
update_at P seats i s h p j = elim (Bool-cases (i == j)) [
  | inl e ↦ let q : i ≡ j = ground (arith, e) in rw e (subst (λ k. P k s) q p)
  | inr e ↦ let n : i ≢ j = ground (arith, e) in rw e (h j n)
]

pub set-IsPlaced :
    (seats : ℕ → Seat) (next i : ℕ) (s : Seat)
    → IsPlaced seats next
    → s.player ≡ (seats i).player
    → (is_member s.phase ≡ true → is_member (seats i).phase ≡ true)
    → All (IsFrom seats next i) (s.wire ++ s.sending ++ s.out)
    → IsPlaced (update seats i s) next
set-IsPlaced seats next i s h p m a =
    let g : Same seats next (update seats i s) next = record {
      bound = omega arith;
      player = λ j l. update_at (λ j t. t.player ≡ (seats j).player) seats i s (λ j n. refl) p j;
    } in
    record {
      member =
          update_at (λ j t. is_member t.phase ≡ true → j < next) seats i s (λ j n. h.member j)
            (λ x. h.member i (m x));
      gone =
          update_at (λ j t. All (IsFrom (update seats i s) next j) (t.wire ++ t.sending ++ t.out))
            seats i s
            (λ j n.
              Same-IsFrom seats (update seats i s) next next j
                ((seats j).wire ++ (seats j).sending ++ (seats j).out) g (h.gone j))
            (Same-IsFrom seats (update seats i s) next next i (s.wire ++ s.sending ++ s.out) g a);
    }

-- A change that is nothing to the positions.
pub still-IsPlaced :
    (seats : ℕ → Seat) (next i : ℕ) (s : Seat)
    → IsPlaced seats next
    → s.player ≡ (seats i).player
    → (is_member s.phase ≡ true → is_member (seats i).phase ≡ true)
    → s.wire ≡ (seats i).wire
    → s.sending ≡ (seats i).sending
    → s.out ≡ (seats i).out
    → IsPlaced (update seats i s) next
still-IsPlaced seats next i s h p m a c b =
    set-IsPlaced seats next i s h p m (rw (a, c, b) (h.gone i))

pub join-IsPlaced :
    (seats : ℕ → Seat) (next : ℕ) (h : ClientHello)
    → IsPlaced seats next
    → IsPlaced (update seats next (new_seat h)) (suc next)
unfolding new_seat
join-IsPlaced seats next c h =
    let s = new_seat c in
    let g : Same seats next (update seats next s) (suc next) = record {
      bound = omega arith;
      player = λ j l. let n : (next == j) ≡ false = ground arith in rw n refl;
    } in
    record {
      member =
          update_at (λ j t. is_member t.phase ≡ true → j < suc next) seats next s
            (λ j n m. omega (arith, h.member j m)) (λ x. omega arith);
      gone =
          update_at
            (λ j t. All (IsFrom (update seats next s) (suc next) j) (t.wire ++ t.sending ++ t.out))
            seats next s
            (λ j n.
              Same-IsFrom seats (update seats next s) next (suc next) j
                ((seats j).wire ++ (seats j).sending ++ (seats j).out) g (h.gone j))
            tt;
    }

pub Plain-All :
    (seats : ℕ → Seat) (next i : ℕ) (ps qs : List Packet) (q : Packet)
    → Plain q
    → All (IsFrom seats next i) (ps ++ qs)
    → All (IsFrom seats next i) ((ps ++ q ∷ []) ++ qs)
Plain-All seats next i [] qs q n a = (λ o. absurd (n o), a)
Plain-All seats next i (p ∷ ps) qs q n a = (a.0, Plain-All seats next i ps qs q n a.1)

-- A packet that is no position, behind those of the channel `out`.
pub put_out-IsPlaced :
    (seats : ℕ → Seat) (next i : ℕ) (s : Seat) (q : Packet)
    → IsPlaced seats next
    → Plain q
    → s.player ≡ (seats i).player
    → (is_member s.phase ≡ true → is_member (seats i).phase ≡ true)
    → s.wire ≡ (seats i).wire
    → s.sending ≡ (seats i).sending
    → s.out ≡ (seats i).out
    → IsPlaced (update seats i (put_out q s)) next
unfolding put_out
put_out-IsPlaced seats next i s q h n p m a c b = set-IsPlaced seats next i (put_out q s) h p m (
    subst (All (IsFrom seats next i)) (append_assoc (s.wire ++ s.sending) s.out (q ∷ [])) (
      All-append (IsFrom seats next i) (s.wire ++ s.sending ++ s.out) (q ∷ [])
        (rw (a, c, b) (h.gone i)) ((λ o. absurd (n o)), tt)))

-- A packet that is no position, on the connection.
pub wire-IsPlaced :
    (seats : ℕ → Seat) (next i : ℕ) (s : Seat) (q : Packet)
    → IsPlaced seats next
    → Plain q
    → s.player ≡ (seats i).player
    → (is_member s.phase ≡ true → is_member (seats i).phase ≡ true)
    → s.wire ≡ (seats i).wire ++ q ∷ []
    → s.sending ≡ (seats i).sending
    → s.out ≡ (seats i).out
    → IsPlaced (update seats i s) next
wire-IsPlaced seats next i s q h n p m a c b = set-IsPlaced seats next i s h p m (
    rw (a, c, b, append_assoc ((seats i).wire ++ q ∷ []) (seats i).sending (seats i).out)
      (Plain-All seats next i (seats i).wire ((seats i).sending ++ (seats i).out) q n
        (rw (append_assoc (seats i).wire (seats i).sending (seats i).out) at (h.gone i))))

offer-same :
    (q : Packet) (drops : Bool) (s : Seat)
    → ((offer q drops s).player ≡ s.player) × ((offer q drops s).phase ≡ s.phase)
unfolding offer
offer-same q drops s =
    if_case (λ (t : Seat). (t.player ≡ s.player) × (t.phase ≡ s.phase)) _ (refl, refl) (refl, refl)

broadcast-same :
    (q : Packet) (i : ℕ) (drops : ℕ → Bool) (seats : ℕ → Seat) (j : ℕ)
    → ((broadcast_except q i drops seats j).player ≡ (seats j).player)
      × ((broadcast_except q i drops seats j).phase ≡ (seats j).phase)
unfolding broadcast_except
broadcast-same q i drops seats j =
    if_case (λ (t : Seat). (t.player ≡ (seats j).player) × (t.phase ≡ (seats j).phase)) (i == j)
      (refl, refl) (offer-same q (drops j) (seats j))

offer-All :
    (P : Packet → Type 0) (q : Packet) (drops : Bool) (s : Seat)
    → P q
    → All P (s.wire ++ s.sending ++ s.out)
    → All P ((offer q drops s).wire ++ (offer q drops s).sending ++ (offer q drops s).out)
unfolding offer put_out
offer-All P q drops s p a =
    if_case (λ (t : Seat). All P (t.wire ++ t.sending ++ t.out))
      (is_member s.phase && ltb (length s.out) capacity && (s.alive || not drops)) {x = put_out q s}
      {y = s}
      (subst (All P) (append_assoc (s.wire ++ s.sending) s.out (q ∷ []))
        (All-append P (s.wire ++ s.sending ++ s.out) (q ∷ []) a (p, tt)))
      a

pub broadcast-IsPlaced :
    (seats : ℕ → Seat) (next i : ℕ) (q : Packet) (drops : ℕ → Bool)
    → IsPlaced seats next
    → i < next
    → IsPosition (seats i).player q
    → IsPlaced (broadcast_except q i drops seats) next
unfolding broadcast_except
broadcast-IsPlaced seats next i q drops h l x =
    let later = broadcast_except q i drops seats in
    let g : Same seats next later next = record {
      bound = omega arith;
      player = λ j l. (broadcast-same q i drops seats j).0;
    } in
    record {
      member = λ j m. h.member j (rw (broadcast-same q i drops seats j).1 at m);
      gone = λ j.
          let a =
            Same-IsFrom seats later next next j
              ((seats j).wire ++ (seats j).sending ++ (seats j).out) g (h.gone j) in
          elim (Bool-cases (i == j)) [
            | inl e ↦ rw e a
            | inr e ↦
                let n : i ≢ j = ground (arith, e) in
                rw e (
                  offer-All (IsFrom later next j) q (drops j) (seats j)
                    (λ o. (
                      i,
                      n,
                      l,
                      subst (λ p. IsPosition p q) (sym (broadcast-same q i drops seats i).0) x,
                    ))
                    a)
          ];
    }
