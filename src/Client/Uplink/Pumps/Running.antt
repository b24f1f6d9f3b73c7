-- ===== src/Client/Uplink/Pumps/Running.antt =====
-- What each step of a connection keeps of the order of its packets.
use multiplayer.Client.Uplink.Pumps.{
  Pumps, Phase, down, draining, shaking, running, put_out, after_packet,
}
use multiplayer.Prelude.{
  List, [], ap, append_assoc, sym, true, ◌++◌, ◌∙◌, ◌∷◌, ◌≡◌, ◌⊎◌, Bool, append-nil, err, false,
  inl, inr, ok, panic, length, ◌≤◌, refl, subst, arith,
}
use multiplayer.Protocol.Packet.{Packet}
use multiplayer.Client.Game.{Session, Handled}
use multiplayer.Client.Info.{Info}
use multiplayer.Client.Uplink.Effects.{IsSame}
use multiplayer.Client.Uplink.{hello_packet}

module _ (info : Info) (owner : Session) where
  -- A connection on which nothing has been received or written.
  pub record IsFresh (s : Pumps) : Type 0 where
    pub received : s.received ≡ []
    pub handled : s.handled ≡ []
    pub held : s.held ≡ []
    pub sending : s.sending ≡ []

  -- What has come in has been handled, is in the channel, and then is in the hand of pumpIn, or, when the
  -- connection ends, is lost. What has been given to the channel `uplinkOut` is written behind the hello,
  -- or in the hand of pumpOut, or in the channel.
  pub record IsRunning (s : Pumps) : Type 0 where
    pub tail : List Packet
    pub received : s.received ≡ (s.handled ++ s.uplink_in) ++ tail
    pub held : (s.held ≡ []) ⊎ (s.held ≡ tail)
    pub live : s.alive ≡ true → s.held ≡ tail
    pub session : Session
    pub same : IsSame owner session
    pub alone : length s.sending ≤ 1
    pub written : s.wire ++ s.sending ++ s.uplink_out ≡ hello_packet info session ∷ s.given

  abbrev pub IsPumped : Phase → Pumps → Type 0
  IsPumped down s = Unit {0}
  IsPumped draining s = IsFresh s
  IsPumped shaking s = IsFresh s × (s.uplink_in ≡ []) × (s.uplink_out ≡ s.given)
  IsPumped running s = IsRunning s

  pub put_out-IsPumped :
      (p : Phase) (s : Pumps) (q : Packet) → IsPumped p s → IsPumped p (put_out q s)
  unfolding put_out
  put_out-IsPumped down s q h = tt
  put_out-IsPumped draining s q h = record {
    received = h.received;
    handled = h.handled;
    held = h.held;
    sending = h.sending;
  }
  put_out-IsPumped shaking s q (h, i, o) = (
    record { received = h.received; handled = h.handled; held = h.held; sending = h.sending },
    i,
    ap (λ (x : List Packet). x ++ q ∷ []) o,
  )
  put_out-IsPumped running s q h = record {
    tail = h.tail;
    received = h.received;
    held = h.held;
    live = h.live;
    session = h.session;
    same = h.same;
    alone = h.alone;
    written =
        sym (append_assoc (s.wire ++ s.sending) s.uplink_out (q ∷ []))
        ∙ ap (λ (x : List Packet). x ++ q ∷ []) h.written;
  }

  pub received-IsRunning :
      (s : Pumps) (p : Packet)
      → s.alive ≡ true
      → s.held ≡ []
      → IsRunning s
      → IsRunning (record s { held = p ∷ []; received = s.received ++ p ∷ [] })
  received-IsRunning s p a e h = record {
    tail = p ∷ [];
    received =
        ap (λ (x : List Packet). x ++ p ∷ []) h.received
        ∙ ap (λ (x : List Packet). ((s.handled ++ s.uplink_in) ++ x) ++ p ∷ []) (sym (h.live a) ∙ e)
        ∙ ap (λ (x : List Packet). x ++ p ∷ []) (append-nil (s.handled ++ s.uplink_in));
    held = inr refl;
    live = λ q. refl;
    session = h.session;
    same = h.same;
    alone = h.alone;
    written = h.written;
  }

  pub put_in-IsRunning :
      (s : Pumps) (p : Packet)
      → s.held ≡ p ∷ []
      → IsRunning s
      → IsRunning (record s { held = []; uplink_in = s.uplink_in ++ p ∷ [] })
  put_in-IsRunning s p e h =
      let t : h.tail ≡ p ∷ [] = elim h.held [ inl x ↦ absurd (cc) | inr x ↦ sym x ∙ e ] in
      record {
        tail = [];
        received =
            h.received
            ∙ ap (λ (x : List Packet). (s.handled ++ s.uplink_in) ++ x) t
            ∙ append_assoc s.handled s.uplink_in (p ∷ [])
            ∙ sym (append-nil (s.handled ++ (s.uplink_in ++ p ∷ [])));
        held = inl refl;
        live = λ q. refl;
        session = h.session;
        same = h.same;
        alone = h.alone;
        written = h.written;
      }

  pub dropped-IsRunning :
      (s : Pumps) → s.alive ≡ false → IsRunning s → IsRunning (record s { held = [] })
  dropped-IsRunning s a h = record {
    tail = h.tail;
    received = h.received;
    held = inl refl;
    live = λ q. absurd (cc);
    session = h.session;
    same = h.same;
    alone = h.alone;
    written = h.written;
  }

  -- The same packets, in other places.
  moved-IsRunning :
      (s : Pumps) (wire sending out : List Packet)
      → length sending ≤ 1
      → wire ++ sending ++ out ≡ s.wire ++ s.sending ++ s.uplink_out
      → IsRunning s
      → IsRunning (record s { wire = wire; sending = sending; uplink_out = out })
  moved-IsRunning s wire sending out n e h = record {
    tail = h.tail;
    received = h.received;
    held = h.held;
    live = h.live;
    session = h.session;
    same = h.same;
    alone = n;
    written = e ∙ h.written;
  }

  pub taken_out-IsRunning :
      (s : Pumps) (p : Packet) (l : List Packet)
      → s.sending ≡ []
      → s.uplink_out ≡ p ∷ l
      → IsRunning s
      → IsRunning (record s { uplink_out = l; sending = p ∷ [] })
  taken_out-IsRunning s p l a o h =
      moved-IsRunning s s.wire (p ∷ []) l (omega arith)
        (rw (a, o, append-nil s.wire) (append_assoc s.wire (p ∷ []) l)) h

  pub written-IsRunning :
      (s : Pumps) (p : Packet)
      → s.sending ≡ p ∷ []
      → IsRunning s
      → IsRunning (record s { sending = []; wire = s.wire ++ p ∷ [] })
  written-IsRunning s p a h =
      moved-IsRunning s (s.wire ++ p ∷ []) [] s.uplink_out (omega arith)
        (rw (a, append-nil (s.wire ++ p ∷ [])) refl) h

  -- The first packet of the channel is handled; the connection may end with it.
  taken-IsRunning :
      (s : Pumps) (p : Packet) (l : List Packet) (t : Session) (alive : Bool)
      → s.uplink_in ≡ p ∷ l
      → (alive ≡ true → s.alive ≡ true)
      → IsRunning s
      → IsRunning
          (record s { session = t; uplink_in = l; handled = s.handled ++ p ∷ []; alive = alive })
  taken-IsRunning s p l t alive e a h = record {
    tail = h.tail;
    received =
        h.received
        ∙ ap (λ (x : List Packet). (s.handled ++ x) ++ h.tail) e
        ∙ ap (λ (x : List Packet). x ++ h.tail) (sym (append_assoc s.handled (p ∷ []) l));
    held = h.held;
    live = λ q. h.live (a q);
    session = h.session;
    same = h.same;
    alone = h.alone;
    written = h.written;
  }

  -- What holds in a phase, for the phase that a connection is in.
  pub to_phase : (p q : Phase) (s : Pumps) → p ≡ q → IsPumped q s → IsPumped p s
  to_phase p q s e h = subst (λ x. IsPumped x s) (sym e) h

  pub from_phase : (p q : Phase) (s : Pumps) → p ≡ q → IsPumped p s → IsPumped q s
  from_phase p q s e h = subst (λ x. IsPumped x s) e h

  pub after_packet-IsRunning :
      (s : Pumps) (p : Packet) (l : List Packet) (x : Handled)
      → s.uplink_in ≡ p ∷ l
      → s.phase ≡ running
      → IsRunning s
      → IsPumped (after_packet p l x s).phase (after_packet p l x s)
  unfolding after_packet
  after_packet-IsRunning s p l (ok m, t) e q h =
      to_phase s.phase running _ q (taken-IsRunning s p l t s.alive e (λ a. a) h)
  after_packet-IsRunning s p l (err x, t) e q h =
      to_phase s.phase running _ q (taken-IsRunning s p l t false e (λ a. absurd (cc)) h)
  after_packet-IsRunning s p l (panic, t) e q h =
      to_phase s.phase running _ q (taken-IsRunning s p l t false e (λ a. absurd (cc)) h)

  -- Another session, or a context that is cancelled.
  pub changed-IsPumped :
      (p : Phase) (s : Pumps) (t : Session) (alive : Bool)
      → (alive ≡ true → s.alive ≡ true)
      → IsPumped p s
      → IsPumped p (record s { session = t; alive = alive })
  changed-IsPumped down s t alive a h = tt
  changed-IsPumped draining s t alive a h = record {
    received = h.received;
    handled = h.handled;
    held = h.held;
    sending = h.sending;
  }
  changed-IsPumped shaking s t alive a (h, i, o) = (
    record { received = h.received; handled = h.handled; held = h.held; sending = h.sending },
    i,
    o,
  )
  changed-IsPumped running s t alive a h = record {
    tail = h.tail;
    received = h.received;
    held = h.held;
    live = λ q. h.live (a q);
    session = h.session;
    same = h.same;
    alone = h.alone;
    written = h.written;
  }

  -- pumpOut has come back with an error.
  pub stopped-IsPumped :
      (p : Phase) (s : Pumps) (b : Bool) → IsPumped p s → IsPumped p (record s { stopped = b })
  stopped-IsPumped down s b h = tt
  stopped-IsPumped draining s b h = record {
    received = h.received;
    handled = h.handled;
    held = h.held;
    sending = h.sending;
  }
  stopped-IsPumped shaking s b (h, i, o) = (
    record { received = h.received; handled = h.handled; held = h.held; sending = h.sending },
    i,
    o,
  )
  stopped-IsPumped running s b h = record {
    tail = h.tail;
    received = h.received;
    held = h.held;
    live = h.live;
    session = h.session;
    same = h.same;
    alone = h.alone;
    written = h.written;
  }
