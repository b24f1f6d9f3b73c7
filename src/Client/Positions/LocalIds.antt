-- ===== src/Client/Positions/LocalIds.antt =====
-- The 16-bit ids that stand for the players towards the game: no two players share one.
use multiplayer.Prelude.{
  Bool-cases, List, Option, [], ap, arith, if◌then◌else◌, inl, inr, leb, length, ltb, none, refl,
  some, suc, ℕ, ◌%◌, ◌&&◌, ◌+◌, ◌-◌, ◌<◌, ◌==◌, ◌^◌, ◌∙◌, ◌∷◌, ◌≡◌,
}
use multiplayer.Client.Positions.{
  enter, fresh_id, PositionData, PlayerData, Players, PositionSystem, create_position_system,
  expire, find_player, lower_ttls, on_game_pos, on_server_pos, refresh, send_self_pos, tick,
}
use multiplayer.Bytes.{ByteArray}
use multiplayer.Protocol.Packet.{ServerPosition}
use multiplayer.Client.Ipc.{MessageBodyPositionIn}

-- How often a number is in a list.
abbrev pub occurs : ℕ → List ℕ → ℕ
occurs i [] = 0
occurs i (j ∷ js) = (if i == j then 1 else 0) + occurs i js

abbrev pub local_ids : Players → List ℕ
local_ids [] = []
local_ids ((k, p) ∷ ps) = p.local_id ∷ local_ids ps

-- Each id that was handed out belongs to one player or is free, once; no other id is in use.
pub record IsSystem (s : PositionSystem) : Type 0 where
  pub once :
      (i : ℕ)
      → occurs i (local_ids s.local) + occurs i s.local_id_free
        ≡ (if leb 1 i && ltb i s.local_id_next then 1 else 0)
  pub issued : length s.local + length s.local_id_free + 1 ≡ s.local_id_next

expire-occurs :
    (i : ℕ) (ps : Players) (free : List ℕ)
    → occurs i (local_ids (expire ps free).0) + occurs i (expire ps free).1
      ≡ occurs i (local_ids ps) + occurs i free
unfolding expire
expire-occurs i [] free = refl
expire-occurs i ((k, p) ∷ ps) free =
    ground (arith, expire-occurs i ps (p.local_id ∷ free), expire-occurs i ps free)

expire-length :
    (ps : Players) (free : List ℕ)
    → length (expire ps free).0 + length (expire ps free).1 ≡ length ps + length free
unfolding expire
expire-length [] free = refl
expire-length ((k, p) ∷ ps) free =
    ground (arith, expire-length ps (p.local_id ∷ free), expire-length ps free)

lower_ttls-IsSystem : (s : PositionSystem) → IsSystem s → IsSystem (lower_ttls s)
unfolding lower_ttls
lower_ttls-IsSystem s v = record {
  once = λ i. expire-occurs i s.local s.local_id_free ∙ v.once i;
  issued = omega (arith, v.issued, expire-length s.local s.local_id_free);
}

send_self_pos-IsSystem : (s : PositionSystem) → IsSystem s → IsSystem (send_self_pos s).1
unfolding send_self_pos
send_self_pos-IsSystem s v = elim (Bool-cases (s.position.key == 65535)) [
  | inl h ↦ rw h v
  | inr h ↦ rw h (record { once = v.once; issued = v.issued })
]

refresh-local_ids : (k : ByteArray 16) (ps : Players) → local_ids (refresh k ps) ≡ local_ids ps
unfolding refresh
refresh-local_ids k [] = refl
refresh-local_ids k ((j, p) ∷ ps) = ground (arith, refresh-local_ids k ps)

length-local_ids : (ps : Players) → length (local_ids ps) ≡ length ps
length-local_ids [] = refl
length-local_ids ((k, p) ∷ ps) = ap suc (length-local_ids ps)

length-refresh : (k : ByteArray 16) (ps : Players) → length (refresh k ps) ≡ length ps
unfolding refresh
length-refresh k [] = refl
length-refresh k ((j, p) ∷ ps) = ground (arith, length-refresh k ps)

-- A new player takes an id from the free ones, or the next one while that is below 2^16.
fresh-IsSystem :
    (pd : PositionData) (ps : Players) (free : List ℕ) (next : ℕ) (k : ByteArray 16)
    (name : ByteArray 8)
    → IsSystem (record { position = pd; local = ps; local_id_free = free; local_id_next = next })
    → length ps < 2 ^ 16 - 2
    → let (i, rest, after) = fresh_id free next in
      IsSystem (record {
        position = pd;
        local = (k, record { name = name; local_id = i; ttl = 30 }) ∷ ps;
        local_id_free = rest;
        local_id_next = after;
      })
unfolding fresh_id
fresh-IsSystem pd ps [] next k name v l =
    let n : next ≡ length ps + 1 = omega (arith, v.issued) in
    let m : (next + 1) % 2 ^ 16 ≡ next + 1 = omega arith in
    rw m (record { once = λ i. ground (arith, v.once i); issued = omega arith })
fresh-IsSystem pd ps (i ∷ free) next k name v l = record {
  once = λ j. omega (arith, v.once j);
  issued = omega (arith, v.issued);
}

enter-IsSystem :
    (o : Option PlayerData) (pkt : ServerPosition) (s : PositionSystem)
    → IsSystem s
    → length s.local < 2 ^ 16 - 2
    → IsSystem (enter o pkt s).1
unfolding enter
enter-IsSystem (some p) pkt s v l = record {
  once = λ i. rw (refresh-local_ids pkt.id s.local) (v.once i);
  issued = rw (length-refresh pkt.id s.local) v.issued;
}
enter-IsSystem none pkt s v l =
    fresh-IsSystem s.position s.local s.local_id_free s.local_id_next pkt.id pkt.name v l

-- What happens to the system in turn; a position from the server only while fewer than 65534 players
-- are known.
pub data Reach : PositionSystem → Type 0 where
  created : Reach create_position_system
  game_pos : (s : PositionSystem) (m : MessageBodyPositionIn) → Reach s → Reach (on_game_pos m s)
  server_pos :
      (s : PositionSystem) (pkt : ServerPosition)
      → Reach s
      → length s.local < 2 ^ 16 - 2
      → Reach (on_server_pos pkt s).1
  ticked : (s : PositionSystem) → Reach s → Reach (tick s).1

Reach-IsSystem : (s : PositionSystem) → Reach s → IsSystem s
unfolding create_position_system on_game_pos on_server_pos tick
Reach-IsSystem _ created = record { once = λ i. ground arith; issued = refl }
Reach-IsSystem _ (game_pos s m r) =
    let v = Reach-IsSystem s r in record { once = v.once; issued = v.issued }
Reach-IsSystem _ (server_pos s pkt r l) =
    enter-IsSystem (find_player pkt.id s.local) pkt s (Reach-IsSystem s r) l
Reach-IsSystem _ (ticked s r) =
    lower_ttls-IsSystem (send_self_pos s).1 (send_self_pos-IsSystem s (Reach-IsSystem s r))

-- While there are fewer than 65534 players at a time, whatever comes from the game and the server and
-- however often the clock ticks: each id from 1 to the last one handed out belongs to exactly one
-- player or is free exactly once, and no other number is an id; so no two players share an id and
-- none has the id 0.
pub local_ids-once :
    (s : PositionSystem)
    → Reach s
    → (i : ℕ)
    → occurs i (local_ids s.local) + occurs i s.local_id_free
      ≡ (if leb 1 i && ltb i s.local_id_next then 1 else 0)
local_ids-once s r i = (Reach-IsSystem s r).once i
