-- ===== src/Client/Info.antt =====
-- client/internal/game/info.go: what the client knows of the game that the patch file was made for.
pub mod Names
pub mod Laws
mod Examples
use multiplayer.Prelude.{
  List, ℕ, ok, err, panic, Result, bad_version, Option, [], if◌then◌else◌, none, some, ◌==◌, ◌>>=◌,
  ◌>>◌, ◌∷◌, Bool, bad_length, bad_mode, false, length, not, true, ◌&&◌,
}
use multiplayer.Bytes.{ByteArray, to_array}
use multiplayer.Bytes.Int16.{ℤ, pos, negsuc}

pub data InfoMode : Type 0 where
  single coop multi : InfoMode

-- A Go map from numbers to strings is an association list; a string is the list of its bytes.
abbrev pub Names : Type 0
Names = List (ℕ × List ℕ)

pub record Info : Type 0 where
  pub session_id : ByteArray 16
  pub session_secret : ByteArray 8
  pub world_id : ℕ
  pub mode : InfoMode
  pub items : Names
  pub locations : Names
  pub entrances : Names

-- The files in the patch that are read.
pub data FileName : Type 0 where
  meta_json items_json locations_json entrances_json : FileName

-- rawMetaFile
pub record RawMeta : Type 0 where
  pub session_id : List ℕ
  pub session_secret : List ℕ
  pub world_id : ℕ
  pub mode : List ℕ

-- What is used of archive/zip, io, encoding/json and encoding/hex, as parameters.
pub record Library : Type 1 where
  pub Reader : Type 0
  pub ZipFile : Type 0
  pub open_reader : List ℕ → Result Reader
  pub open_file : Reader → FileName → Result ZipFile
  pub read_all : ZipFile → Result (List ℕ)
  pub unmarshal_meta : List ℕ → Result RawMeta
  pub unmarshal_version : List ℕ → Result ℤ
  pub unmarshal_items : List ℕ → Result Names
  pub unmarshal_locations : List ℕ → Result Names
  pub unmarshal_entrances : List ℕ → Result Names
  pub decode_string : List ℕ → Result (List ℕ)

-- `m[k] = s`
unfoldable pub set_name : ℕ → List ℕ → Names → Names
set_name k s [] = (k, s) ∷ []
set_name k s ((j, t) ∷ m) = if j == k then (k, s) ∷ m else (j, t) ∷ set_name k s m

-- The loop over the entries of a manifest.
unfoldable pub set_names : Names → Names → Names
set_names [] m = m
set_names ((k, s) ∷ es) m = set_names es (set_name k s m)

-- `m[k]`
unfoldable pub find_name : ℕ → Names → Option (List ℕ)
find_name k [] = none
find_name k ((j, t) ∷ m) = if j == k then some t else find_name k m

unfoldable pub check_version : ℤ → Result (Unit {0})
check_version (pos n) = if n == 1 then ok tt else err bad_version
check_version (negsuc n) = err bad_version

-- Each parser of a manifest returns early, with the info as it is, when a call fails.
unfoldable pub or_same : Info → Result Info → Result Info
or_same info (ok i) = ok i
or_same info (err e) = ok info
or_same info panic = panic

-- `a == b` on strings.
unfoldable pub string_eq : List ℕ → List ℕ → Bool
string_eq [] [] = true
string_eq [] (b ∷ bs) = false
string_eq (a ∷ as_) [] = false
string_eq (a ∷ as_) (b ∷ bs) = a == b && string_eq as_ bs

-- "single", "coop" and "multi"
abbrev pub mode_name : InfoMode → List ℕ
mode_name single = 115 ∷ 105 ∷ 110 ∷ 103 ∷ 108 ∷ 101 ∷ []
mode_name coop = 99 ∷ 111 ∷ 111 ∷ 112 ∷ []
mode_name multi = 109 ∷ 117 ∷ 108 ∷ 116 ∷ 105 ∷ []

unfoldable pub mode_of : List ℕ → Result InfoMode
unfolding string_eq
mode_of s =
    if string_eq s (mode_name single)
    then ok single
    else if string_eq s (mode_name coop)
    then ok coop
    else if string_eq s (mode_name multi)
    then ok multi
    else err bad_mode

-- A string of hexadecimal digits that must stand for n bytes.
check_length : ℕ → List ℕ → Result (List ℕ)
check_length n d = if not (length d == n) then err bad_length else ok d

module _ (lib : Library) where
  -- The bytes of a file of the patch.
  unfoldable pub read_file : lib.Reader → FileName → Result (List ℕ)
  read_file reader name = do file ← lib.open_file reader name; lib.read_all file

  -- A manifest of version 1.
  unfoldable pub manifest : (List ℕ → Result Names) → lib.Reader → FileName → Result Names
  unfolding read_file check_version
  manifest unmarshal reader name = do
    data_ ← read_file reader name
    version ← lib.unmarshal_version data_
    check_version version
    unmarshal data_

  unfoldable pub parse_items : lib.Reader → Info → Result Info
  unfolding manifest set_names or_same
  parse_items reader info = or_same info (do
    es ← manifest lib.unmarshal_items reader items_json
    ok (record info { items = set_names es info.items }))

  unfoldable pub parse_locations : lib.Reader → Info → Result Info
  unfolding manifest set_names or_same
  parse_locations reader info = or_same info (do
    es ← manifest lib.unmarshal_locations reader locations_json
    ok (record info { locations = set_names es info.locations }))

  unfoldable pub parse_entrances : lib.Reader → Info → Result Info
  unfolding manifest set_names or_same
  parse_entrances reader info = or_same info (do
    es ← manifest lib.unmarshal_entrances reader entrances_json
    ok (record info { entrances = set_names es info.entrances }))

  -- The info before the manifests are read.
  unfoldable pub meta_info : RawMeta → Result Info
  unfolding mode_of check_length
  meta_info raw = do
    id ← lib.decode_string raw.session_id
    check_length 16 id
    secret ← lib.decode_string raw.session_secret
    check_length 8 secret
    mode ← mode_of raw.mode
    ok (record {
      session_id = to_array 16 id;
      session_secret = to_array 8 secret;
      world_id = raw.world_id;
      mode = mode;
      items = [];
      locations = [];
      entrances = [];
    })

  -- func ExtractGameInfo; `path` is GamePatchPath of the configuration.
  unfoldable pub extract_game_info : List ℕ → Result Info
  unfolding read_file meta_info parse_items parse_locations parse_entrances
  extract_game_info path = do
    reader ← lib.open_reader path
    raw ← lib.unmarshal_meta (← read_file reader meta_json)
    info ← meta_info raw
    info ← parse_items reader info
    info ← parse_locations reader info
    parse_entrances reader info
