-- ===== src/Client/Daemon/Channels.antt =====
-- No channel of a client is closed twice or sent on when it is closed.
use multiplayer.Prelude.{
  List, ℕ, false, true, ok, refl, arith, Bool-cases, [], if◌then◌else◌, inl, inr, ltb, ◌==◌, ◌||◌,
  ◌∙◌, ◌∷◌, ◌≡◌, ==_iff, Bool, ltb-false, sym, Result, ap, ltb-true, ok-injective, subst, ◌<◌,
}
use multiplayer.Bytes.{ByteArray}
use multiplayer.Client.Daemon.{
  Client, has, delete, close_channel, close_all, broadcast, next, close_client, new_client,
  subscribe, unsubscribe, Reach, Step, broadcasts, closes, created, deregistered, subscribed,
  unsubscribed,
}

-- No number is in the list twice.
abbrev IsSimple : List ℕ → Type 0
IsSimple [] = Unit {0}
IsSimple (c ∷ cs) = (has c cs ≡ false) × IsSimple cs

-- Each channel that was handed out is in the map or closed, and not both.
record IsClient (c : Client) : Type 0 where
  simple : IsSimple c.subs
  one : (ch : ℕ) → has ch c.subs ≡ true → has ch c.closed ≡ false
  all : (ch : ℕ) → (has ch c.subs || has ch c.closed) ≡ ltb ch c.next
  done : c.done ≡ true → (c.subs ≡ []) × (c.registered ≡ false)

has-delete : (c d : ℕ) (cs : List ℕ) → has c (delete d cs) ≡ (if d == c then false else has c cs)
unfolding has delete
has-delete c d [] = ground arith
has-delete c d (e ∷ cs) = ground (arith, has-delete c d cs)

delete-IsSimple : (d : ℕ) (cs : List ℕ) → IsSimple cs → IsSimple (delete d cs)
unfolding delete
delete-IsSimple d [] s = tt
delete-IsSimple d (c ∷ cs) (h, s) = elim (Bool-cases (c == d)) [
  | inl q ↦ rw q (delete-IsSimple d cs s)
  | inr q ↦ rw q (ground (arith, has-delete c d cs, h), delete-IsSimple d cs s)
]

apart :
    (c ch : ℕ) (cs ds : List ℕ)
    → has c cs ≡ false
    → has ch cs ≡ true
    → has ch ds ≡ false
    → has ch (c ∷ ds) ≡ false
unfolding has
apart c ch cs ds h x y = elim (Bool-cases (c == ch)) [
  | inl q ↦ let e : c ≡ ch = (==_iff c ch).0 q in absurd (ground (arith, rw e at h, x))
  | inr q ↦ rw q y
]

or_swap : (a b c : Bool) → (a || (b || c)) ≡ ((b || a) || c)
or_swap true true c = refl
or_swap true false c = refl
or_swap false true c = refl
or_swap false false c = refl

-- The loop of close does not panic, and closes the channels of the map.
close_all-ok :
    (cs ds : List ℕ)
    → IsSimple cs
    → ((ch : ℕ) → has ch cs ≡ true → has ch ds ≡ false)
    → (es : List ℕ) × (close_all cs ds ≡ ok es) × ((ch : ℕ) → has ch es ≡ (has ch cs || has ch ds))
unfolding close_all close_channel has
close_all-ok [] ds s o = (ds, refl, λ ch. refl)
close_all-ok (c ∷ cs) ds (h, s) o =
    let n : has c ds ≡ false = o c (ground arith) in
    let (es, p, q) =
      close_all-ok cs (c ∷ ds) s (λ ch x. apart c ch cs ds h x (o ch (ground arith))) in
    (es, rw n p, λ ch. q ch ∙ or_swap (has ch cs) (c == ch) (has ch ds))

broadcast-ne-panic :
    (cs ds : List ℕ) → ((ch : ℕ) → has ch cs ≡ true → has ch ds ≡ false) → broadcast cs ds ≡ ok cs
unfolding broadcast has
broadcast-ne-panic [] ds o = refl
broadcast-ne-panic (c ∷ cs) ds o =
    let n : has c ds ≡ false = o c (ground arith) in
    rw n (rw (broadcast-ne-panic cs ds (λ ch x. o ch (ground arith))) refl)

new_client-IsClient : (id : ByteArray 16) → IsClient (new_client id)
unfolding new_client has
new_client-IsClient id = record {
  simple = tt;
  one = λ ch h. absurd (cc);
  all = λ ch. sym (ltb-false ch 0 (omega arith));
  done = λ h. absurd (cc);
}

subscribe-IsClient : (c : Client) → IsClient c → c.registered ≡ true → IsClient (subscribe c).1
unfolding subscribe has
subscribe-IsClient c v r =
    let fresh = v.all c.next in
    record {
      simple = (ground (arith, fresh), v.simple);
      one = λ ch h. ground (arith, fresh, v.one ch, h);
      all = λ ch. ground (arith, v.all ch);
      done = λ d. absurd (ground (arith, (v.done d).1));
    }

deleted-IsClient :
    (c : Client) (ch : ℕ)
    → IsClient c
    → has ch c.subs ≡ true
    → IsClient (record c { subs = delete ch c.subs; closed = ch ∷ c.closed })
unfolding has
deleted-IsClient c ch v h = record {
  simple = delete-IsSimple ch c.subs v.simple;
  one = λ e x. ground (arith, has-delete e ch c.subs, v.one e, x);
  all = λ e. elim (Bool-cases (ch == e)) [
    | inl q ↦
        let y : ch ≡ e = (==_iff ch e).0 q in
        ground (arith, has-delete e ch c.subs, v.all e, rw y at h, q)
    | inr q ↦ ground (arith, has-delete e ch c.subs, v.all e, q)
  ];
  done = λ d. absurd (ground (arith, ap (has ch) (v.done d).0, h));
}

closed-IsClient :
    (c : Client) (es : List ℕ)
    → IsClient c
    → c.registered ≡ false
    → ((ch : ℕ) → has ch es ≡ (has ch c.subs || has ch c.closed))
    → IsClient (record c { subs = []; closed = es; done = true })
unfolding has
closed-IsClient c es v r q = record {
  simple = tt;
  one = λ ch h. absurd (cc);
  all = λ ch. q ch ∙ v.all ch;
  done = λ d. (refl, r);
}

unsubscribe-ok :
    (c : Client) (ch : ℕ) → IsClient c → (d : Client) × (unsubscribe ch c ≡ ok d) × IsClient d
unfolding unsubscribe close_channel
unsubscribe-ok c ch v = elim (Bool-cases (has ch c.subs)) [
  | inl h ↦ (
    record c { subs = delete ch c.subs; closed = ch ∷ c.closed },
    rw h (rw (v.one ch h) refl),
    deleted-IsClient c ch v h,
  )
  | inr h ↦ (c, rw h refl, v)
]

close_client-ok :
    (c : Client)
    → IsClient c
    → c.registered ≡ false
    → c.done ≡ false
    → (d : Client) × (close_client c ≡ ok d) × IsClient d
unfolding close_client
close_client-ok c v r n =
    let (es, p, q) = close_all-ok c.subs c.closed v.simple v.one in
    (record c { subs = []; closed = es; done = true }, rw p (rw n refl), closed-IsClient c es v r q)

-- What an operation on a client has come to.
abbrev Fine : Result Client → Type 0
Fine r = (d : Client) × (r ≡ ok d) × IsClient d

Step-Fine : (c : Client) (r : Result Client) → IsClient c → Step c r → Fine r
Step-Fine c _ v (subscribed r) = ((subscribe c).1, refl, subscribe-IsClient c v r)
Step-Fine c _ v (unsubscribed ch) = unsubscribe-ok c ch v
Step-Fine c _ v broadcasts = (c, rw (broadcast-ne-panic c.subs c.closed v.one) refl, v)
Step-Fine c _ v deregistered = (
  record c { registered = false },
  refl,
  record { simple = v.simple; one = v.one; all = v.all; done = λ d. ((v.done d).0, refl) },
)
Step-Fine c _ v (closes r n) = close_client-ok c v r n

Reach-Fine : (r : Result Client) → Reach r → Fine r
Reach-Fine _ (created id) = (new_client id, refl, new_client-IsClient id)
Reach-Fine r (next {c} s t) =
    let (d, p, v) = Reach-Fine (ok c) s in Step-Fine c r (subst IsClient (sym (ok-injective p)) v) t

-- Whatever the HTTP routes and the connection of a client do, in any order: no channel is closed a
-- second time and no message is sent on a closed channel, so that nothing panics; and once the client
-- has been closed, every channel that was ever handed out is closed, so that nobody waits on one.
pub Reach-closed :
    (r : Result Client)
    → Reach r
    → (c : Client) × (r ≡ ok c) × (c.done ≡ true → (ch : ℕ) → ch < c.next → has ch c.closed ≡ true)
unfolding has
Reach-closed r s =
    let (c, p, v) = Reach-Fine r s in
    (
      c,
      p,
      λ d ch l.
          let (e, _) = v.done d in ground (arith, v.all ch, ap (has ch) e, ltb-true ch c.next l),
    )
