-- ===== src/Client/Positions/Timeouts.antt =====
-- How long a player is known after the last position that came for it.
use multiplayer.Client.Positions.LocalIds.{Reach, created, game_pos, server_pos, ticked}
use mathlib.Core.Option
use multiplayer.Prelude.{
  List, Option, [], arith, if◌then◌else◌, leb, none, refl, some, true, ℕ, ◌-◌, ◌∷◌, ◌≡◌, suc, zero,
  Bool-cases, ap, inl, inr, ltb, ◌<◌, ◌∙◌,
}
use multiplayer.Bytes.Laws.{array_eq_iff, array_eq_comm, array_eq_left}
use multiplayer.Client.Positions.{
  PlayerData, Players, expire, find_player, refresh, PositionSystem, create_position_system, enter,
  fresh_id, lower_ttls, on_game_pos, on_server_pos, send_self_pos, tick, position_message,
}
use multiplayer.Bytes.{array_eq, ByteArray}
use multiplayer.Protocol.Packet.{ServerPosition}

-- No key is in the map twice.
abbrev pub Unique : Players → Type 0
Unique [] = Unit {0}
Unique ((k, p) ∷ ps) = (find_player k ps ≡ none) × Unique ps

-- A player one tick later.
abbrev aged : Option PlayerData → Option PlayerData
aged none = none
aged (some p) = if leb (p.ttl - 1) 0 then none else some (record p { ttl = p.ttl - 1 })

array_eq_refl : (k : ByteArray 16) → array_eq 16 k k ≡ true
array_eq_refl k = (array_eq_iff 16 k k).1 refl

same_key :
    (j k : ByteArray 16) (ps : Players)
    → array_eq 16 j k ≡ true
    → find_player k ps ≡ find_player j ps
same_key j k ps h = rw ((array_eq_iff 16 j k).0 h) refl

expire-find :
    (k : ByteArray 16) (ps : Players) (free : List ℕ)
    → Unique ps
    → find_player k (expire ps free).0 ≡ aged (find_player k ps)
unfolding expire find_player
expire-find k [] free u = refl
expire-find k ((j, p) ∷ ps) free u =
    ground
      (arith, expire-find k ps (p.local_id ∷ free) u.1, expire-find k ps free u.1, same_key j k ps)

expire-Unique : (ps : Players) (free : List ℕ) → Unique ps → Unique (expire ps free).0
unfolding expire
expire-Unique [] free u = tt
expire-Unique ((j, p) ∷ ps) free u = ground (
  arith,
  expire-find j ps free u.1,
  expire-Unique ps (p.local_id ∷ free) u.1,
  expire-Unique ps free u.1,
)

-- A player for which a position came.
abbrev renewed : Option PlayerData → Option PlayerData
renewed none = none
renewed (some p) = some (record p { ttl = 30 })

refresh-find :
    (k j : ByteArray 16) (ps : Players)
    → find_player j (refresh k ps)
      ≡ (if array_eq 16 k j then renewed (find_player j ps) else find_player j ps)
unfolding refresh find_player
refresh-find k j [] = ground arith
refresh-find k j ((i, p) ∷ ps) = ground (
  arith,
  refresh-find k j ps,
  array_eq_left 16 i k j,
  array_eq_left 16 i j k,
  array_eq_comm 16 k j,
)

refresh-Unique : (k : ByteArray 16) (ps : Players) → Unique ps → Unique (refresh k ps)
unfolding refresh
refresh-Unique k [] u = tt
refresh-Unique k ((j, p) ∷ ps) u = ground (arith, refresh-find k j ps, refresh-Unique k ps u.1)

enter-Unique :
    (o : Option PlayerData) (pkt : ServerPosition) (s : PositionSystem)
    → Unique s.local
    → find_player pkt.id s.local ≡ o
    → Unique (enter o pkt s).1.local
unfolding enter fresh_id
enter-Unique (some p) pkt s u h = refresh-Unique pkt.id s.local u
enter-Unique none pkt s u h = (h, u)

send_self_pos-players :
    (s : PositionSystem)
    → ((send_self_pos s).1.local ≡ s.local) × ((send_self_pos s).1.local_id_free ≡ s.local_id_free)
unfolding send_self_pos
send_self_pos-players s = ground arith

tick-players : (s : PositionSystem) → (tick s).1.local ≡ (expire s.local s.local_id_free).0
unfolding tick lower_ttls
tick-players s = let (p, q) = send_self_pos-players s in rw p (rw q refl)

Reach-Unique : (s : PositionSystem) → Reach s → Unique s.local
unfolding create_position_system on_game_pos on_server_pos
Reach-Unique _ created = tt
Reach-Unique _ (game_pos s m r) = Reach-Unique s r
Reach-Unique _ (server_pos s pkt r l) =
    enter-Unique (find_player pkt.id s.local) pkt s (Reach-Unique s r) refl
Reach-Unique _ (ticked s r) =
    rw (tick-players s) (expire-Unique s.local s.local_id_free (Reach-Unique s r))

-- The system after some ticks.
unfoldable pub ticks : ℕ → PositionSystem → PositionSystem
ticks zero s = s
ticks (suc n) s = ticks n (tick s).1

-- What the game knows of a player, and how long it still does.
abbrev pub known : Option PlayerData → Option (ℕ × ℕ)
known o = Option.map (λ p. (p.local_id, p.ttl)) o

tick-Unique : (s : PositionSystem) → Unique s.local → Unique (tick s).1.local
tick-Unique s u = rw (tick-players s) (expire-Unique s.local s.local_id_free u)

tick-find :
    (k : ByteArray 16) (s : PositionSystem)
    → Unique s.local
    → find_player k (tick s).1.local ≡ aged (find_player k s.local)
tick-find k s u = rw (tick-players s) (expire-find k s.local s.local_id_free u)

ticks-none :
    (n : ℕ) (k : ByteArray 16) (s : PositionSystem)
    → Unique s.local
    → find_player k s.local ≡ none
    → find_player k (ticks n s).local ≡ none
unfolding ticks
ticks-none zero k s u h = h
ticks-none (suc n) k s u h =
    ticks-none n k (tick s).1 (tick-Unique s u) (tick-find k s u ∙ ap aged h)

ticks-some :
    (n : ℕ) (k : ByteArray 16) (s : PositionSystem) (p : PlayerData)
    → Unique s.local
    → find_player k s.local ≡ some p
    → 0 < p.ttl
    → known (find_player k (ticks n s).local)
      ≡ (if ltb n p.ttl then some (p.local_id, p.ttl - n) else none)
unfolding ticks
ticks-some zero k s p u h l = rw h (ground arith)
ticks-some (suc n) k s p u h l =
    let e = tick-find k s u ∙ ap aged h in
    let v = tick-Unique s u in
    elim (Bool-cases (leb (p.ttl - 1) 0)) [
      | inl c ↦ rw (ticks-none n k (tick s).1 v (ground (arith, e))) (ground arith)
      | inr c ↦
          rw
            (ticks-some n k (tick s).1 (record p { ttl = p.ttl - 1 }) v (ground (arith, e))
              (ground arith))
            (ground arith)
    ]

-- The id of the player of a packet, and its entry right after the packet.
enter-find :
    (o : Option PlayerData) (pkt : ServerPosition) (s : PositionSystem)
    → find_player pkt.id s.local ≡ o
    → (name : ByteArray 8) × (find_player pkt.id (enter o pkt s).1.local
        ≡ some (record { name = name; local_id = (enter o pkt s).0; ttl = 30 }))
unfolding enter fresh_id find_player
enter-find (some p) pkt s h =
    (p.name, ground (arith, refresh-find pkt.id pkt.id s.local, array_eq_refl pkt.id))
enter-find none pkt s h = (pkt.name, ground (arith, array_eq_refl pkt.id))

-- While there are fewer than 65534 players at a time: a position from the server gives its player
-- an id, new or the one it has, and sends the position to the game under that id; over the next
-- 29 ticks with no other position the player keeps the id, and at the 30th it is forgotten.
pub known-on_server_pos :
    (s : PositionSystem) (pkt : ServerPosition)
    → Reach s
    → (i : ℕ) × ((on_server_pos pkt s).0 ≡ position_message pkt i)
      × ((n : ℕ)
          → known (find_player pkt.id (ticks n (on_server_pos pkt s).1).local)
            ≡ (if ltb n 30 then some (i, 30 - n) else none))
unfolding on_server_pos
known-on_server_pos s pkt r =
    let o = find_player pkt.id s.local in
    let (name, e) = enter-find o pkt s refl in
    let u = enter-Unique o pkt s (Reach-Unique s r) refl in
    ((enter o pkt s).0, refl, λ n. ticks-some n pkt.id (enter o pkt s).1 _ u e (omega arith))
