-- ===== src/Wal/Entry.antt =====
-- shared/wal/types.go and serialize.go: the entries of the log and their bytes.
pub mod RoundTrip
pub mod Parsing
use multiplayer.Prelude.{
  ℕ, List, [], ◌∷◌, ◌++◌, Result, ok, err, ◌==◌, too_short, item_too_short, event_too_short,
  unknown_type, if◌then◌else◌, ◌>>=◌, All, ◌>>◌,
}
use multiplayer.Bytes.{ByteArray, bytes, to_array, index, slice, shorter, IsByte}
use multiplayer.Bytes.Words.{le16, le32, le_uint16, le_uint32, IsU16, IsU32, IsU8}

-- WalItem, WalEvent
abbrev pub wal_item : ℕ
wal_item = 1

abbrev pub wal_event : ℕ
wal_event = 2

pub record WalEntryItem : Type 0 where
  pub to : ℕ
  pub game : ℕ
  pub gi : ℕ
  pub flags : ℕ
  pub key : ℕ
  pub nonce : ℕ

pub record WalEntryEvent : Type 0 where
  pub id : ℕ

pub record WalEntry : Type 0 where
  pub type : ℕ
  pub player_id : ByteArray 16
  pub player_name : ByteArray 8
  pub from : ℕ
  pub item : WalEntryItem
  pub event : WalEntryEvent

-- Go's zero values.
abbrev pub zero_item : WalEntryItem
zero_item = record { to = 0; game = 0; gi = 0; flags = 0; key = 0; nonce = 0 }

abbrev pub zero_event : WalEntryEvent
zero_event = record { id = 0 }

-- The header that both kinds of entry begin with.
abbrev header : WalEntry → List ℕ
header e = (e.type ∷ bytes 16 e.player_id) ++ bytes 8 e.player_name ++ e.from ∷ []

unfoldable pub serialize : WalEntry → Result (List ℕ)
serialize e =
    if e.type == wal_item
    then ok (
        header e
        ++ e.item.to ∷ []
        ++ e.item.game ∷ []
        ++ le16 e.item.gi
        ++ le16 e.item.flags
        ++ le32 e.item.key
        ++ le32 e.item.nonce)
    else if e.type == wal_event
    then ok (header e ++ le32 e.event.id)
    else err (unknown_type e.type)

unfoldable pub parse_item : List ℕ → Result WalEntryItem
unfolding index slice shorter le_uint16 le_uint32
parse_item d = if shorter d 40 then err item_too_short else do
  to ← index d 26
  game ← index d 27
  gi ← le_uint16 (← slice d 28 30)
  flags ← le_uint16 (← slice d 30 32)
  key ← le_uint32 (← slice d 32 36)
  nonce ← le_uint32 (← slice d 36 40)
  ok (record { to = to; game = game; gi = gi; flags = flags; key = key; nonce = nonce })

unfoldable pub parse_event : List ℕ → Result WalEntryEvent
unfolding index slice shorter le_uint16 le_uint32
parse_event d =
    if shorter d 30
    then err event_too_short
    else do id ← le_uint32 (← slice d 26 30); ok (record { id = id })

abbrev pub entry_of : ℕ → ByteArray 16 → ByteArray 8 → ℕ → WalEntryItem → WalEntryEvent → WalEntry
entry_of type id name from item event = record {
  type = type;
  player_id = id;
  player_name = name;
  from = from;
  item = item;
  event = event;
}

unfoldable pub parse : List ℕ → Result WalEntry
unfolding shorter index slice
parse d = if shorter d 26 then err too_short else do
  type ← index d 0
  id ← slice d 1 17
  name ← slice d 17 25
  from ← index d 25
  let entry = entry_of type (to_array 16 id) (to_array 8 name) from
  if type == wal_item
      then (do item ← parse_item d; ok (entry item zero_event))
      else if type == wal_event
      then (do event ← parse_event d; ok (entry zero_item event))
      else err (unknown_type type)

-- The fields are in the range of their Go types.
pub record IsValid (e : WalEntry) : Type 0 where
  pub player_id : All IsByte (bytes 16 e.player_id)
  pub player_name : All IsByte (bytes 8 e.player_name)
  pub type : IsU8 e.type
  pub from : IsU8 e.from
  pub to : IsU8 e.item.to
  pub game : IsU8 e.item.game
  pub gi : IsU16 e.item.gi
  pub flags : IsU16 e.item.flags
  pub key : IsU32 e.item.key
  pub nonce : IsU32 e.item.nonce
  pub id : IsU32 e.event.id

-- The entry with the half that its type does not select set to zero: what its bytes say.
abbrev pub active : WalEntry → WalEntry
active e =
    if e.type == wal_item then record e { event = zero_event } else record e { item = zero_item }
