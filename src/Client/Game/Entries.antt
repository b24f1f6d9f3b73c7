-- ===== src/Client/Game/Entries.antt =====
-- What an entry of the game is: one that a log may hold.
use multiplayer.Prelude.{
  >>=-eq-ok, ok-injective, All, All-take, Bool-cases, List, arith, inl, inr, ok, refl, subst, ℕ,
  ◌++◌, ◌==◌, ◌≡◌,
}
use multiplayer.Wal.Entry
use multiplayer.Bytes.Words.{IsU16, IsU32, IsU8}
use multiplayer.Client.Ipc.{MessageBodyWalIn, WalEvent, WalItem, parse_wal_event, parse_wal_item}
use multiplayer.Wal.Entry.{wal_item, wal_event, WalEntry, parse}
use multiplayer.Client.Game.{Session, item_entry, event_entry, game_entry}
use multiplayer.Client.Ipc
use multiplayer.Wal.Log.Invariant.{IsStored}
use multiplayer.Wal.Key.{dedup_key}
use multiplayer.Bytes.Laws.{split_shorter}
use multiplayer.Bytes.{shorter, bytes, ByteArray, IsByte}

-- The bytes under a key are those of an entry that a log may hold, and that has the key.
abbrev pub IsQueued : ByteArray 16 × List ℕ → Type 0
IsQueued x = (e : WalEntry) × (parse x.1 ≡ ok e) × IsStored e × (dedup_key e ≡ ok x.0)

-- The fields of a session that are bytes.
pub record IsSession (s : Session) : Type 0 where
  pub player_id : All IsByte (bytes 16 s.player_id)
  pub player_name : All IsByte (bytes 8 s.player_name)
  pub world_id : IsByte s.world_id

record IsItem (i : WalItem) : Type 0 where
  to : IsU8 i.to
  game : IsU8 i.game
  gi : IsU16 i.gi
  flags : IsU16 i.flags
  key : IsU32 i.key

parse_wal_item-IsItem :
    (d : List ℕ) (i : WalItem) → All IsByte d → Ipc.parse_wal_item d ≡ ok i → IsItem i
unfolding parse_wal_item
parse_wal_item-IsItem d i b h = elim (Bool-cases (shorter d 10)) [
  | inl q ↦ absurd (ground (arith, rw q at h))
  | inr q ↦
      let (a, r, e) = split_shorter 10 d q in
      let v = All-take IsByte 10 (bytes 10 a ++ r) (rw e at b) in
      subst IsItem (ok-injective (rw e at h)) (record {
        to = v.0;
        game = v.1.0;
        gi = omega (arith, v.1.1.0, v.1.1.1.0);
        flags = omega (arith, v.1.1.1.1.0, v.1.1.1.1.1.0);
        key =
            omega (
              arith, v.1.1.1.1.1.1.0, v.1.1.1.1.1.1.1.0, v.1.1.1.1.1.1.1.1.0, v.1.1.1.1.1.1.1.1.1.0,
            );
      })
]

parse_wal_event-IsU32 :
    (d : List ℕ) (x : WalEvent) → All IsByte d → Ipc.parse_wal_event d ≡ ok x → IsU32 x.event_id
unfolding parse_wal_event
parse_wal_event-IsU32 d x b h = elim (Bool-cases (shorter d 4)) [
  | inl q ↦ absurd (ground (arith, rw q at h))
  | inr q ↦
      let (a, r, e) = split_shorter 4 d q in
      let v = All-take IsByte 4 (bytes 4 a ++ r) (rw e at b) in
      subst (λ (y : WalEvent). IsU32 y.event_id) (ok-injective (rw e at h))
        (omega (arith, v.0, v.1.0, v.1.1.0, v.1.1.1.0))
]

item_entry-IsStored :
    (nonce : ℕ) (i : WalItem) (s : Session)
    → IsU32 nonce
    → IsItem i
    → IsSession s
    → IsStored (item_entry nonce i s)
unfolding item_entry
item_entry-IsStored nonce i s n v u = record {
  valid = record {
    player_id = u.player_id;
    player_name = u.player_name;
    type = omega arith;
    from = u.world_id;
    to = v.to;
    game = v.game;
    gi = v.gi;
    flags = v.flags;
    key = v.key;
    nonce = ground arith;
    id = omega arith;
  };
  typed = inl refl;
  is_active = refl;
}

event_entry-IsStored :
    (x : WalEvent) (s : Session) → IsU32 x.event_id → IsSession s → IsStored (event_entry x s)
unfolding event_entry
event_entry-IsStored x s n u = record {
  valid = record {
    player_id = u.player_id;
    player_name = u.player_name;
    type = omega arith;
    from = u.world_id;
    to = omega arith;
    game = omega arith;
    gi = omega arith;
    flags = omega arith;
    key = omega arith;
    nonce = omega arith;
    id = n;
  };
  typed = inr refl;
  is_active = refl;
}

pub game_entry-IsStored :
    (nonce : ℕ) (w : MessageBodyWalIn) (s : Session) (e : WalEntry)
    → IsU32 nonce
    → All IsByte w.content
    → IsSession s
    → game_entry nonce w s ≡ ok e
    → IsStored e
unfolding game_entry
game_entry-IsStored nonce w s e n b u h = elim (Bool-cases (w.kind == Entry.wal_item)) [
  | inl q ↦
      let (i, p, r) = >>=-eq-ok (Ipc.parse_wal_item w.content) _ (rw q at h) in
      subst IsStored (ok-injective r)
        (item_entry-IsStored nonce i s n (parse_wal_item-IsItem w.content i b p) u)
  | inr q ↦ elim (Bool-cases (w.kind == Entry.wal_event)) [
    | inl t ↦
        let (x, p, r) = >>=-eq-ok (Ipc.parse_wal_event w.content) _ (rw t at (rw q at h)) in
        subst IsStored (ok-injective r)
          (event_entry-IsStored x s (parse_wal_event-IsU32 w.content x b p) u)
    | inr t ↦ absurd (ground (arith, rw t at (rw q at h)))
  ]
]
