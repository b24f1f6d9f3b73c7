-- ===== src/Wal/Log/Examples.antt =====
-- The log's theorems on concrete entries, files and bytes.
use multiplayer.Prelude.{
  Error, [], arith, false, inl, inr, ok, refl, some, ◌++◌, ◌∷◌, ◌≡◌, All, List, err, io_error, none,
  true, ℕ, ◌↔◌, ◌⊎◌,
}
use multiplayer.Wal.Entry.{
  WalEntry, wal_item, wal_event, zero_item, zero_event, IsValid, parse, parse_item, serialize,
}
use multiplayer.File.{works, fails, opened, Outcome, seek_current, sync, write, read_full}
use multiplayer.Bytes.{to_array, ByteArray, IsByte, bytes}
use multiplayer.Wal.Key.{dedup_key, dedup_key_iff_identity, found, raised}
use multiplayer.Wal.Log.{append, Wal, append_locked, commit, contains, get}
use multiplayer.Wal.Log.History.{restart, append_all}
use multiplayer.Wal.Log.Invariant.{
  append-IsWal, frames-nil, IsWal, IsStored, append_cases, extended, restored,
}
use multiplayer.Bytes.Words.{le32, le16}
use multiplayer.Wal.Log.Load.{open_wal}
use multiplayer.File.Laws.{OneFault}
use multiplayer.Wal.Stream.{
  try_get, waiting, subscribe, start, State, Reach, get_entry, here, next, take_channel,
}
use multiplayer.Wal.Log.Parsed.{parse-IsStored}
use multiplayer.Wal.Log.Load.Fuel.{open_wal_cases}
use multiplayer.Wal.Stream.Wakeup.{no_lost_wakeup}

abbrev pub some_item : WalEntry
some_item = record {
  type = wal_item;
  player_id = to_array 16 (7 ∷ 8 ∷ []);
  player_name = to_array 8 (65 ∷ []);
  from = 1;
  item = record { to = 2; game = 0; gi = 300; flags = 1; key = 70000; nonce = 9 };
  event = zero_event;
}

abbrev pub some_event : WalEntry
some_event = record {
  type = wal_event;
  player_id = to_array 16 (3 ∷ []);
  player_name = to_array 8 (66 ∷ []);
  from = 2;
  item = zero_item;
  event = record { id = 5 };
}

pub some_item-IsValid : IsValid some_item
some_item-IsValid = record {
  player_id = ground arith;
  player_name = ground arith;
  type = omega arith;
  from = omega arith;
  to = omega arith;
  game = omega arith;
  gi = omega arith;
  flags = omega arith;
  key = omega arith;
  nonce = omega arith;
  id = omega arith;
}

pub some_event-IsValid : IsValid some_event
some_event-IsValid = record {
  player_id = ground arith;
  player_name = ground arith;
  type = omega arith;
  from = omega arith;
  to = omega arith;
  game = omega arith;
  gi = omega arith;
  flags = omega arith;
  key = omega arith;
  nonce = omega arith;
  id = omega arith;
}

pub some_item-IsStored : IsStored some_item
some_item-IsStored = record { valid = some_item-IsValid; typed = inl refl; is_active = refl }

pub some_event-IsStored : IsStored some_event
some_event-IsStored = record { valid = some_event-IsValid; typed = inr refl; is_active = refl }

-- A new log on an empty file, on which the third of the coming calls fails after two bytes.
abbrev pub empty_wal : Wal
empty_wal = record {
  canceled = false;
  file = opened [] (works ∷ works ∷ fails 2 ∷ []);
  set = [];
  entries = [];
  count = 0;
  notify = 0;
}

pub empty_wal-IsWal : IsWal empty_wal
empty_wal-IsWal = record { file = rw frames-nil refl; count = refl; set = refl; entries = tt }

restart_example :
    let now = append_all (some_item ∷ some_event ∷ some_item ∷ []) empty_wal in
    (w' : Wal) × (open_wal (opened now.file.content []) ≡ some (ok w'))
    × (w'.entries ≡ now.entries)
    × (w'.set ≡ now.set)
    × (w'.count ≡ now.count)
restart_example =
    restart empty_wal (some_item ∷ some_event ∷ some_item ∷ []) empty_wal-IsWal refl
      (some_item-IsStored, (some_event-IsStored, (some_item-IsStored, tt)))

append-IsWal_example : IsWal (append some_item empty_wal).1
append-IsWal_example = append-IsWal empty_wal some_item empty_wal-IsWal refl some_item-IsStored

-- A log on a file that works.
abbrev pub quiet_wal : Wal
quiet_wal = record empty_wal { file = opened [] [] }

abbrev pub item_bytes : List ℕ
item_bytes =
    ((1 ∷ bytes 16 some_item.player_id) ++ bytes 8 some_item.player_name ++ 1 ∷ [])
    ++ 2 ∷ 0 ∷ 44 ∷ 1 ∷ 1 ∷ 0 ∷ 112 ∷ 17 ∷ 1 ∷ 0 ∷ 9 ∷ 0 ∷ 0 ∷ 0 ∷ []

abbrev pub item_key : ByteArray 16
item_key = to_array 16 (1 ∷ 1 ∷ 0 ∷ 112 ∷ 17 ∷ 1 ∷ 0 ∷ 9 ∷ [])

pub serialize-some_item : serialize some_item ≡ ok item_bytes
unfolding serialize le16 le32
serialize-some_item = refl

pub dedup_key-some_item : dedup_key some_item ≡ ok item_key
unfolding dedup_key le32
dedup_key-some_item = refl

pub append-some_item : append some_item quiet_wal ≡ (ok tt, (append some_item quiet_wal).1)
unfolding append append_locked commit contains serialize dedup_key le16 le32 write sync seek_current
append-some_item = refl

-- The log with the item in it.
abbrev pub item_wal : Wal
item_wal = record {
  canceled = false;
  file = record { content = 40 ∷ 0 ∷ 0 ∷ 0 ∷ item_bytes; pos = 44; closed = false; outcomes = [] };
  set = item_key ∷ [];
  entries = some_item ∷ [];
  count = 1;
  notify = 1;
}

pub append-eq-item_wal : (append some_item quiet_wal).1 ≡ item_wal
unfolding append append_locked commit contains serialize dedup_key le16 le32 write sync seek_current
append-eq-item_wal = refl

append_cases_example :
    ((contains item_key empty_wal.set ≡ true) × (append some_item empty_wal ≡ (ok tt, empty_wal)))
    ⊎ ((contains item_key empty_wal.set ≡ false)
        × (os : List Outcome) × (append some_item empty_wal
            ≡ (ok tt, extended empty_wal some_item item_key os))
        × OneFault os)
    ⊎ ((contains item_key empty_wal.set ≡ false)
        × (append some_item empty_wal ≡ (err io_error, restored empty_wal)))
append_cases_example =
    append_cases empty_wal some_item item_bytes item_key empty_wal-IsWal refl serialize-some_item
      dedup_key-some_item

pub item_bytes-IsByte : All IsByte item_bytes
item_bytes-IsByte = ground arith

pub parse-item_bytes : parse item_bytes ≡ ok some_item
unfolding parse parse_item
parse-item_bytes = refl

parse-IsStored_example : IsStored some_item
parse-IsStored_example = parse-IsStored item_bytes some_item item_bytes-IsByte parse-item_bytes

dedup_key_iff_identity_example :
    (dedup_key some_item ≡ dedup_key some_event) ↔ (found 1 0 70000 9 ≡ raised 2 5)
dedup_key_iff_identity_example =
    dedup_key_iff_identity some_item some_event (found 1 0 70000 9) (raised 2 5) some_item-IsValid
      some_event-IsValid refl refl

open_wal_cases_example :
    ((w : Wal) × (open_wal (opened (3 ∷ 0 ∷ 0 ∷ []) (works ∷ [])) ≡ some (ok w)))
    ⊎ ((e : Error) × (open_wal (opened (3 ∷ 0 ∷ 0 ∷ []) (works ∷ [])) ≡ some (err e)))
open_wal_cases_example = open_wal_cases (opened (3 ∷ 0 ∷ 0 ∷ []) (works ∷ []))

-- A stream that finds the log empty waits on the channel that it took.
abbrev blocked : State
blocked = record { wal = quiet_wal; stream = subscribe false 0; phase = waiting 0 }

blocked-Reach : Reach (start quiet_wal (subscribe false 0)) blocked
unfolding start subscribe get try_get
blocked-Reach = next (next here (take_channel refl)) (get_entry 0 refl)

no_lost_wakeup_example : get blocked.stream.index blocked.wal ≡ none
no_lost_wakeup_example =
    no_lost_wakeup quiet_wal (subscribe false 0) blocked 0 blocked-Reach refl refl

pub open_empty : open_wal (opened [] []) ≡ some (ok quiet_wal)
unfolding open_wal read_full
open_empty = refl
