-- ===== src/Client/Run/Polling/Passes.antt =====
-- What a pass over the places of games comes to.
use multiplayer.Client.Run.Polling.{
  Factory, Found, Conns, Polled, after_hello, read_hello, after_open, poll,
}
use multiplayer.Prelude.{
  List, [], arith, none, ok, panic, some, ℕ, ◌∷◌, ◌≡◌, ◌≢◌, >>=-ne-panic, Option, Result, ap,
  append_assoc, err, refl, ◌++◌, ◌∙◌, append-nil, sym,
}
use multiplayer.Client.Ipc.{Message, MessageBodyHelloIn}
use multiplayer.Client.Ipc
use multiplayer.Client.Ipc.Parsing.{message_parsers-ne-panic}
use multiplayer.Client.Run.{hello, check_message, check_game}

-- The connection that a pass has come to, for the list of those that are open.
abbrev pub kept : Found → List ℕ
kept none = []
kept (some (c, h)) = c ∷ []

-- What a pass is to find, and which connections it opens only to close them.
pub data Polls : List Factory → List ℕ → Found → Type 0 where
  exhausted : Polls [] [] none
  not_opened :
      (f : Factory) (fs : List Factory) (cs : List ℕ) (o : Found)
      → f.conn ≡ none
      → Polls fs cs o
      → Polls (f ∷ fs) cs o
  refused :
      (f : Factory) (fs : List Factory) (c : ℕ) (cs : List ℕ) (o : Found)
      → f.conn ≡ some c
      → ((raw : List ℕ) (h : MessageBodyHelloIn) → f.first ≡ some raw → hello raw ≢ ok h)
      → Polls fs cs o
      → Polls (f ∷ fs) (c ∷ cs) o
  admitted :
      (f : Factory) (fs : List Factory) (c : ℕ) (raw : List ℕ) (h : MessageBodyHelloIn)
      → f.conn ≡ some c
      → f.first ≡ some raw
      → hello raw ≡ ok h
      → Polls (f ∷ fs) [] (some (c, h))

check_message-ne-panic : (m : Message) → check_message m ≢ panic
unfolding check_message
check_message-ne-panic m = ground arith

check_game-ne-panic : (h : MessageBodyHelloIn) → check_game h ≢ panic
unfolding check_game
check_game-ne-panic h = ground arith

hello-ne-panic : (raw : List ℕ) → hello raw ≢ panic
unfolding hello
hello-ne-panic raw = >>=-ne-panic (Ipc.parse_message raw) _ (message_parsers-ne-panic raw).0 (λ m.
    >>=-ne-panic (check_message m) _ (check_message-ne-panic m) (λ u.
      >>=-ne-panic (Ipc.parse_hello_in m.payload) check_game (message_parsers-ne-panic m.payload).2
        check_game-ne-panic))

-- What a pass makes of the connections.
abbrev pub passed : Conns → List ℕ → Found → Conns
passed s cs o = record { opened = s.opened ++ cs ++ kept o; closed = s.closed ++ cs }

abbrev pub IsPass : List Factory → Conns → Polled → Type 0
IsPass fs s p = (cs : List ℕ) × (o : Found) × (p ≡ (ok o, passed s cs o)) × Polls fs cs o

-- The rest of a pass, behind a connection that has been closed again.
closed-first :
    (s : Conns) (c : ℕ) (cs : List ℕ) (o : Found)
    → passed (record { opened = s.opened ++ c ∷ []; closed = s.closed ++ c ∷ [] }) cs o
      ≡ passed s (c ∷ cs) o
closed-first s c cs o =
    rw (append_assoc s.opened (c ∷ []) cs, append_assoc s.closed (c ∷ []) cs) refl

read_hello-ne-panic : (f : Option (List ℕ)) → read_hello f ≢ panic
unfolding read_hello
read_hello-ne-panic none = ground arith
read_hello-ne-panic (some raw) = hello-ne-panic raw

read_hello-ok :
    (f : Option (List ℕ)) (h : MessageBodyHelloIn)
    → read_hello f ≡ ok h
    → (raw : List ℕ) × (f ≡ some raw) × (hello raw ≡ ok h)
unfolding read_hello
read_hello-ok none h q = absurd (cc)
read_hello-ok (some raw) h q = (raw, refl, q)

after_hello-IsPass :
    (f : Factory) (fs : List Factory) (c : ℕ) (r : Result MessageBodyHelloIn) (s : Conns)
    (rest : Conns → Polled)
    → f.conn ≡ some c
    → read_hello f.first ≡ r
    → ((t : Conns) → IsPass fs t (rest t))
    → IsPass (f ∷ fs) s (after_hello c r rest (record s { opened = s.opened ++ c ∷ [] }))
unfolding after_hello read_hello
after_hello-IsPass f fs c (ok h) s rest e q g =
    let (raw, x, y) = read_hello-ok f.first h q in
    (
      [],
      some (c, h),
      rw (append-nil s.opened, append-nil s.closed) refl,
      admitted f fs c raw h e x y,
    )
after_hello-IsPass f fs c (err x) s rest e q g =
    let t : Conns = record { opened = s.opened ++ c ∷ []; closed = s.closed ++ c ∷ [] } in
    let (cs, o, p, d) = g t in
    (
      c ∷ cs,
      o,
      p ∙ ap (λ (u : Conns). (ok o, u)) (closed-first s c cs o),
      refused f fs c cs o e (λ raw h a b. let v : hello raw ≡ err x = rw a at q in absurd (cc)) d,
    )
after_hello-IsPass f fs c panic s rest e q g = absurd (read_hello-ne-panic f.first q)

after_open-IsPass :
    (f : Factory) (fs : List Factory) (o : Option ℕ) (s : Conns) (rest : Conns → Polled)
    → f.conn ≡ o
    → ((t : Conns) → IsPass fs t (rest t))
    → IsPass (f ∷ fs) s (after_open o f.first rest s)
unfolding after_open
after_open-IsPass f fs none s rest e g =
    let (cs, o, p, d) = g s in (cs, o, p, not_opened f fs cs o e d)
after_open-IsPass f fs (some c) s rest e g =
    after_hello-IsPass f fs c (read_hello f.first) s rest e refl g

nothing_passed : (s : Conns) → s ≡ passed s [] none
nothing_passed s =
    let a : s.opened ≡ s.opened ++ [] ++ [] =
      sym (append-nil (s.opened ++ []) ∙ append-nil s.opened) in
    let b : s.closed ≡ s.closed ++ [] = sym (append-nil s.closed) in
    ap (λ (l : List ℕ). record { opened = l; closed = s.closed }) a
    ∙ ap (λ (l : List ℕ). record { opened = s.opened ++ [] ++ []; closed = l }) b

-- A pass over the places of games never panics, and ends in this way: it opens the places in their order;
-- each connection whose first message is not admitted is closed, once, and the pass goes on; the first
-- one whose message is admitted is returned with that message, open, and no place behind it is opened; and
-- it returns nothing only when no place has a game to let in, every connection being closed then.
pub poll-IsPass : (fs : List Factory) (s : Conns) → IsPass fs s (poll fs s)
unfolding poll
poll-IsPass [] s = ([], none, ap (λ (t : Conns). (ok none, t)) (nothing_passed s), exhausted)
poll-IsPass (f ∷ fs) s = after_open-IsPass f fs f.conn s (poll fs) refl (poll-IsPass fs)
