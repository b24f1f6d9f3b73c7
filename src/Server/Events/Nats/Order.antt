-- ===== src/Server/Events/Nats/Order.antt =====
-- The events that a sink publishes are some of those it is given, in their order, each once.
use multiplayer.Prelude.{
  List, Result, [], ok, ℕ, ◌++◌, ◌∷◌, ◌≡◌, Bool, Bool-cases, ap, append-nil, append_assoc, arith,
  err, if_case, inl, inr, length, length-append, ltb, panic, refl, subst, sym, ◌<◌, ◌∙◌, ◌≤◌,
}
use multiplayer.Server.Events.{Event}
use multiplayer.Server.Events.Nats.{
  Phase, EventNats, Reach, SinkNats, Step, capacity, closes, connects, gives_up, here,
  new_sink_nats, next_step, publish, publishes, send_nats, sends, stops,
}

-- What one can find of some events among the messages that have been published, in the order of both.
pub data Published (marshal : Event → Result (List ℕ))
    : List EventNats → List (List ℕ × List ℕ) → Type 0 where
  none_left : Published marshal [] []
  lost :
      (ev : EventNats) (evs : List EventNats) (ms : List (List ℕ × List ℕ))
      → Published marshal evs ms
      → Published marshal (ev ∷ evs) ms
  out :
      (ev : EventNats) (d : List ℕ) (evs : List EventNats) (ms : List (List ℕ × List ℕ))
      → marshal ev.event ≡ ok d
      → Published marshal evs ms
      → Published marshal (ev ∷ evs) ((ev.subject, d) ∷ ms)

-- Some elements of a list, in their order.
pub data Among {ℓ} {A : Type ℓ} : List A → List A → Type ℓ where
  no_more : Among [] []
  skipped : (x : A) (xs ys : List A) → Among xs ys → Among xs (x ∷ ys)
  kept : (x : A) (xs ys : List A) → Among xs ys → Among (x ∷ xs) (x ∷ ys)

module _ (marshal : Event → Result (List ℕ)) where
  Published-append :
      {evs fs : List EventNats} {ms ns : List (List ℕ × List ℕ)}
      → Published marshal evs ms
      → Published marshal fs ns
      → Published marshal (evs ++ fs) (ms ++ ns)
  Published-append none_left g = g
  Published-append (lost ev evs ms p) g = lost ev _ _ (Published-append p g)
  Published-append (out ev d evs ms h p) g = out ev d _ _ h (Published-append p g)

Among-append :
    {A : Type 0} {xs ys zs vs : List A} → Among xs ys → Among zs vs → Among (xs ++ zs) (ys ++ vs)
Among-append no_more g = g
Among-append (skipped x xs ys p) g = skipped x _ _ (Among-append p g)
Among-append (kept x xs ys p) g = kept x _ _ (Among-append p g)

Among-none : {A : Type 0} (ys : List A) → Among [] ys
Among-none [] = no_more
Among-none (y ∷ ys) = skipped y [] ys (Among-none ys)

module _ (marshal : Event → Result (List ℕ)) where
  -- How a sink stands to the events that it has been given: those that it has taken from its channel
  -- and those in the channel are some of them.
  record IsSink (evs : List EventNats) (s : SinkNats) : Type 0 where
    taken : List EventNats
    among : Among (taken ++ s.ch) evs
    published : Published marshal taken s.published
    bound : length s.ch ≤ capacity

  skip-IsSink : (evs fs : List EventNats) (s : SinkNats) → IsSink evs s → IsSink (evs ++ fs) s
  skip-IsSink evs fs s h = record {
    taken = h.taken;
    among =
        subst (λ x. Among x (evs ++ fs)) (append-nil (h.taken ++ s.ch))
          (Among-append h.among (Among-none fs));
    published = h.published;
    bound = h.bound;
  }

  sent-IsSink :
      (evs : List EventNats) (ev : EventNats) (s : SinkNats)
      → length s.ch < capacity
      → IsSink evs s
      → IsSink (evs ++ ev ∷ []) (record s { ch = s.ch ++ ev ∷ [] })
  sent-IsSink evs ev s l h = record {
    taken = h.taken;
    among =
        subst (λ x. Among x (evs ++ ev ∷ [])) (append_assoc h.taken s.ch (ev ∷ []))
          (Among-append h.among (kept ev [] [] no_more));
    published = h.published;
    bound = omega (arith, length-append s.ch (ev ∷ []), l);
  }

  send-IsSink :
      (evs : List EventNats) (ev : EventNats) (drops : Bool) (s : SinkNats)
      → IsSink evs s
      → IsSink (evs ++ ev ∷ []) (send_nats ev drops s)
  unfolding send_nats
  send-IsSink evs ev drops s h = elim (Bool-cases (ltb (length s.ch) capacity)) [
    | inl e ↦
        let l : length s.ch < capacity = ground (arith, e) in
        if_case (IsSink (evs ++ ev ∷ [])) _ (sent-IsSink evs ev s l h)
          (skip-IsSink evs (ev ∷ []) s h)
    | inr e ↦ rw e (skip-IsSink evs (ev ∷ []) s h)
  ]

  -- The first event of the channel is taken.
  shift :
      (evs : List EventNats) (ev : EventNats) (l : List EventNats) (s : SinkNats) (h : IsSink evs s)
      → s.ch ≡ ev ∷ l
      → Among ((h.taken ++ ev ∷ []) ++ l) evs
  shift evs ev l s h e =
      subst (λ x. Among x evs)
        (ap (λ (x : List EventNats). h.taken ++ x) e ∙ sym (append_assoc h.taken (ev ∷ []) l))
        h.among

  -- An event that has been taken from the channel, and has not been published.
  lost-IsSink :
      (evs : List EventNats) (ev : EventNats) (l : List EventNats) (s : SinkNats)
      → s.ch ≡ ev ∷ l
      → IsSink evs s
      → IsSink evs (record s { ch = l })
  lost-IsSink evs ev l s e h =
      let p = Published-append marshal h.published (lost ev [] [] none_left) in
      record {
        taken = h.taken ++ ev ∷ [];
        among = shift evs ev l s h e;
        published = subst (Published marshal (h.taken ++ ev ∷ [])) (append-nil s.published) p;
        bound = omega (arith, h.bound, ap length e);
      }

  published-IsSink :
      (evs : List EventNats) (ev : EventNats) (l : List EventNats) (m : Result (List ℕ))
      (r : Result (Unit {0})) (s : SinkNats)
      → marshal ev.event ≡ m
      → s.ch ≡ ev ∷ l
      → IsSink evs s
      → IsSink evs (publish ev.subject m r (record s { ch = l })).1
  unfolding publish
  published-IsSink evs ev l (ok d) (ok _) s q e h = record {
    taken = h.taken ++ ev ∷ [];
    among = shift evs ev l s h e;
    published = Published-append marshal h.published (out ev d [] [] q none_left);
    bound = omega (arith, h.bound, ap length e);
  }
  published-IsSink evs ev l (ok d) (err x) s q e h = lost-IsSink evs ev l s e h
  published-IsSink evs ev l (ok d) panic s q e h = lost-IsSink evs ev l s e h
  published-IsSink evs ev l (err x) r s q e h = lost-IsSink evs ev l s e h
  published-IsSink evs ev l panic r s q e h = lost-IsSink evs ev l s e h

  same :
      {evs : List EventNats} {s : SinkNats} {p : Phase} {a : Bool}
      → IsSink evs s
      → IsSink (evs ++ []) (record s { phase = p; alive = a })
  same {evs} {s} {p} {a} h =
      skip-IsSink evs [] (record s { phase = p; alive = a })
        (record { taken = h.taken; among = h.among; published = h.published; bound = h.bound })

  Step-IsSink :
      (evs fs : List EventNats) (s u : SinkNats)
      → IsSink evs s
      → Step marshal s fs u
      → IsSink (evs ++ fs) u
  Step-IsSink evs _ s _ h (sends ev drops) = send-IsSink evs ev drops s h
  Step-IsSink evs _ s _ h (connects p) = same h
  Step-IsSink evs _ s _ h (gives_up p a) = same h
  Step-IsSink evs _ s _ h (publishes ev l r p e) =
      skip-IsSink evs [] (publish ev.subject (marshal ev.event) r (record s { ch = l })).1
        (published-IsSink evs ev l (marshal ev.event) r s refl e h)
  Step-IsSink evs _ s _ h (stops p a) = same h
  Step-IsSink evs _ s _ h closes = same h

  Reach-IsSink :
      (s u : SinkNats) (evs : List EventNats) → IsSink [] s → Reach marshal s evs u → IsSink evs u
  Reach-IsSink s _ _ h here = h
  Reach-IsSink s u _ h (next_step {u = x} {evs} {fs} g t) =
      Step-IsSink evs fs x u (Reach-IsSink s x evs h g) t

-- Whatever events a SinkNATS is given, and in whatever order its goroutine, its callers, Close and the
-- connection take their steps: the events that its goroutine has taken and then those in its channel
-- are some of the events given, in their order and each once; what has been published comes from the
-- events taken, in their order and each once, with their subjects and as the JSON encoder has them; and
-- the channel holds at most 1024.
pub published-order :
    (marshal : Event → Result (List ℕ)) (url : List ℕ) (evs : List EventNats) (s : SinkNats)
    → Reach marshal (new_sink_nats url) evs s
    → (taken : List EventNats) × Among (taken ++ s.ch) evs
      × Published marshal taken s.published
      × (length s.ch ≤ capacity)
unfolding new_sink_nats
published-order marshal url evs s g =
    let h =
      Reach-IsSink marshal (new_sink_nats url) s evs
        (record { taken = []; among = no_more; published = none_left; bound = omega arith }) g in
    (h.taken, h.among, h.published, h.bound)
