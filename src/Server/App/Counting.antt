-- ===== src/Server/App/Counting.antt =====
-- A session is open exactly while clients use it.
use multiplayer.Prelude.{
  List, Option, Result, [], arith, err, if◌then◌else◌, none, ok, panic, some, true, ℕ, ◌+◌, ◌<◌,
  ◌∷◌, ◌≡◌, Bool-cases, inl, inr, leb, refl, sym, ◌-◌, ◌∙◌, false, suc, ◌≢◌, Error, bad_secret,
  subst, ◌++◌, ◌↔◌,
}
use multiplayer.Bytes.Laws.{array_eq_iff}
use mathlib.Core.Option
use multiplayer.Server.App.{
  on_open, AppSession, Session, Sessions, delete_session, find_session, set_count, on_release,
  acquire_session, on_found, open_session, release_session,
}
use multiplayer.Bytes.{array_eq, ByteArray}
use multiplayer.File.{File}
use multiplayer.Server.App.Lookups.{find-set_count, recounted, find-delete_session}

-- How many of the connected clients use a session.
abbrev pub clients_of : ByteArray 16 → List (ByteArray 16) → ℕ
clients_of k [] = 0
clients_of k (j ∷ js) = let n = clients_of k js in if array_eq 16 j k then suc n else n

-- A session that is open is used by as many clients as it counts, at least one; one that is not, by
-- none.
abbrev pub Counted : Option AppSession → ℕ → Type 0
Counted none n = n ≡ 0
Counted (some a) n = (a.count ≡ n) × (0 < n)

abbrev pub IsCounted : Sessions → List (ByteArray 16) → Type 0
IsCounted l cs = (k : ByteArray 16) → Counted (find_session k l) (clients_of k cs)

same_session :
    (j k : ByteArray 16) (l : Sessions)
    → array_eq 16 j k ≡ true
    → find_session j l ≡ find_session k l
same_session j k l h = rw ((array_eq_iff 16 j k).0 h) refl

-- After an acquire that succeeded there is a client more, and after one that failed there is not.
abbrev IsAcquired : ByteArray 16 → List (ByteArray 16) → Result Session × Sessions → Type 0
IsAcquired id cs (ok s, l) = IsCounted l (id ∷ cs)
IsAcquired id cs (err e, l) = IsCounted l cs
IsAcquired id cs (panic, l) = IsCounted l cs

opened-IsCounted :
    (id : ByteArray 16) (s : Session) (l : Sessions) (cs : List (ByteArray 16))
    → IsCounted l cs
    → find_session id l ≡ none
    → IsCounted ((id, record { session = s; count = 1 }) ∷ l) (id ∷ cs)
unfolding find_session
opened-IsCounted id s l cs v n k = elim (Bool-cases (array_eq 16 id k)) [
  | inl h ↦
      rw h (let z = rw (sym (same_session id k l h) ∙ n) at (v k) in (omega arith, omega arith))
  | inr h ↦ rw h (v k)
]

recounted-IsCounted :
    (id : ByteArray 16) (a : AppSession) (l : Sessions) (cs : List (ByteArray 16))
    → IsCounted l cs
    → find_session id l ≡ some a
    → IsCounted (set_count id (a.count + 1) l) (id ∷ cs)
unfolding recounted
recounted-IsCounted id a l cs v n k =
    rw (find-set_count id k (a.count + 1) l) (elim (Bool-cases (array_eq 16 id k)) [
      | inl h ↦
          let q = sym (same_session id k l h) ∙ n in
          rw h (rw q (let z = rw q at (v k) in (omega arith, omega arith)))
      | inr h ↦ rw h (v k)
    ])

on_open-IsCounted :
    (id : ByteArray 16) (l : Sessions) (cs : List (ByteArray 16)) (r : Result Session)
    → IsCounted l cs
    → find_session id l ≡ none
    → IsAcquired id cs (on_open id l r)
unfolding on_open
on_open-IsCounted id l cs (ok t) v n = opened-IsCounted id t l cs v n
on_open-IsCounted id l cs (err e) v n = v
on_open-IsCounted id l cs panic v n = v

deleted-IsCounted :
    (id : ByteArray 16) (a : AppSession) (l : Sessions) (cs : List (ByteArray 16))
    → IsCounted l (id ∷ cs)
    → find_session id l ≡ some a
    → leb (a.count - 1) 0 ≡ true
    → IsCounted (delete_session id l) cs
deleted-IsCounted id a l cs v n c k =
    rw (find-delete_session id k l) (elim (Bool-cases (array_eq 16 id k)) [
      | inl h ↦
          let q = sym (same_session id k l h) ∙ n in
          let z = rw q at (rw h at (v k)) in rw h (ground (arith, z.0))
      | inr h ↦ rw h (rw h at (v k))
    ])

lowered-IsCounted :
    (id : ByteArray 16) (a : AppSession) (l : Sessions) (cs : List (ByteArray 16))
    → IsCounted l (id ∷ cs)
    → find_session id l ≡ some a
    → leb (a.count - 1) 0 ≡ false
    → IsCounted (set_count id (a.count - 1) l) cs
unfolding recounted
lowered-IsCounted id a l cs v n c k =
    rw (find-set_count id k (a.count - 1) l) (elim (Bool-cases (array_eq 16 id k)) [
      | inl h ↦
          let q = sym (same_session id k l h) ∙ n in
          let z = rw q at (rw h at (v k)) in rw h (rw q (ground (arith, z.0), ground (arith, z.0)))
      | inr h ↦ rw h (rw h at (v k))
    ])

self_client : (id : ByteArray 16) (cs : List (ByteArray 16)) → clients_of id (id ∷ cs) ≢ 0
self_client id cs = ground (arith, (array_eq_iff 16 id id).1 refl)

released-IsCounted :
    (id : ByteArray 16) (l : Sessions) (cs : List (ByteArray 16)) (o : Option AppSession)
    → IsCounted l (id ∷ cs)
    → find_session id l ≡ o
    → IsCounted (on_release id l o).1 cs
unfolding on_release
released-IsCounted id l cs none v n = absurd (self_client id cs (rw n at (v id)))
released-IsCounted id l cs (some a) v n = elim (Bool-cases (leb (a.count - 1) 0)) [
  | inl c ↦ rw c (deleted-IsCounted id a l cs v n c)
  | inr c ↦ rw c (lowered-IsCounted id a l cs v n c)
]

on_open-map :
    (id : ByteArray 16) (l : Sessions) (cs : List (ByteArray 16)) (o : Option (Result Session))
    (r : Result Session × Sessions)
    → IsCounted l cs
    → find_session id l ≡ none
    → Option.map (on_open id l) o ≡ some r
    → IsAcquired id cs r
on_open-map id l cs none r v n h = absurd (cc)
on_open-map id l cs (some x) r v n h =
    let q : on_open id l x ≡ r = cc in rw q at (on_open-IsCounted id l cs x v n)

on_found-IsCounted :
    (id : ByteArray 16) (secret : ByteArray 8) (f : Result File) (l : Sessions)
    (cs : List (ByteArray 16)) (o : Option AppSession) (r : Result Session × Sessions)
    → IsCounted l cs
    → find_session id l ≡ o
    → on_found id secret f l o ≡ some r
    → IsAcquired id cs r
unfolding on_found
on_found-IsCounted id secret f l cs none r v n h =
    on_open-map id l cs (open_session secret f) r v n h
on_found-IsCounted id secret f l cs (some a) r v n h =
    elim (Bool-cases (array_eq 8 a.session.secret secret)) [
      | inl c ↦
          let q : (ok a.session, set_count id (a.count + 1) l) ≡ r = cc (rw c at h) in
          subst (IsAcquired id cs) q (recounted-IsCounted id a l cs v n)
      | inr c ↦ let q : (err bad_secret, l) ≡ r = cc (rw c at h) in subst (IsAcquired id cs) q v
    ]

clients_of-append :
    (k id : ByteArray 16) (front back : List (ByteArray 16))
    → clients_of k (front ++ id ∷ back) ≡ clients_of k (id ∷ front ++ back)
clients_of-append k id [] back = refl
clients_of-append k id (j ∷ front) back = ground (arith, clients_of-append k id front back)

-- The sessions of the server and the clients that are connected: clients come, are refused, or leave
-- in any order.
pub data Reach : Sessions → List (ByteArray 16) → Type 0 where
  started : Reach [] []
  entered :
      (l l' : Sessions) (cs : List (ByteArray 16)) (id : ByteArray 16) (secret : ByteArray 8)
      (f : Result File) (s : Session)
      → Reach l cs
      → acquire_session id secret f l ≡ some (ok s, l')
      → Reach l' (id ∷ cs)
  refused :
      (l l' : Sessions) (cs : List (ByteArray 16)) (id : ByteArray 16) (secret : ByteArray 8)
      (f : Result File) (e : Error)
      → Reach l cs
      → acquire_session id secret f l ≡ some (err e, l')
      → Reach l' cs
  left :
      (l : Sessions) (front back : List (ByteArray 16)) (id : ByteArray 16)
      → Reach l (front ++ id ∷ back)
      → Reach (release_session id l).1 (front ++ back)

Reach-IsCounted : (l : Sessions) (cs : List (ByteArray 16)) → Reach l cs → IsCounted l cs
unfolding acquire_session release_session find_session
Reach-IsCounted _ _ started = λ k. refl
Reach-IsCounted _ _ (entered l l' cs id secret f s r h) =
    on_found-IsCounted id secret f l cs (find_session id l) (ok s, l') (Reach-IsCounted l cs r) refl
      h
Reach-IsCounted _ _ (refused l l' cs id secret f e r h) =
    on_found-IsCounted id secret f l cs (find_session id l) (err e, l') (Reach-IsCounted l cs r)
      refl h
Reach-IsCounted _ _ (left l front back id r) =
    released-IsCounted id l (front ++ back) (find_session id l)
      (λ k. rw (clients_of-append k id front back) at (Reach-IsCounted l (front ++ id ∷ back) r k))
      refl

on_release-none :
    (id : ByteArray 16) (l : Sessions) (n : ℕ) (o : Option AppSession)
    → Counted o n
    → ((on_release id l o).0 ≡ none) ↔ (n ≢ 1)
unfolding on_release
on_release-none id l n none h = ground arith
on_release-none id l n (some a) h = ground (arith, h.0, h.1)

-- However clients come, are refused and leave: for each id, the session is open if and only if some
-- client is connected to it, and counts as many as are; and a release closes the session exactly when
-- one client is connected to it.
pub release_session-Counted :
    (l : Sessions) (cs : List (ByteArray 16)) (id : ByteArray 16)
    → Reach l cs
    → Counted (find_session id l) (clients_of id cs)
      × (((release_session id l).0 ≡ none) ↔ (clients_of id cs ≢ 1))
unfolding release_session
release_session-Counted l cs id r =
    let v = Reach-IsCounted l cs r id in
    (v, on_release-none id l (clients_of id cs) (find_session id l) v)
