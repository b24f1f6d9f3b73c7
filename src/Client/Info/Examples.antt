-- ===== src/Client/Info/Examples.antt =====
-- A patch file with one item that is named twice, and a manifest of another version.
use multiplayer.Prelude.{List, ℕ, ok, [], refl, ◌∷◌, ◌>>=◌, ◌≡◌}
use multiplayer.Bytes.Int16.{ℤ, pos}
use multiplayer.Bytes.{bytes, to_array}
use multiplayer.Client.Info.{
  Info, Library, FileName, meta_json, items_json, locations_json, entrances_json, RawMeta, multi,
  mode_name, mode_of, set_names, set_name, extract_game_info, manifest, check_length, check_version,
  meta_info, or_same, parse_entrances, parse_items, parse_locations, read_file, string_eq,
}
use multiplayer.Client.Info
use multiplayer.Client.Info.Laws.{extract_game_info-ok, IsFrom, IsListed}

abbrev raw_meta : RawMeta
raw_meta = record {
  session_id = bytes 16 (to_array 16 (1 ∷ 2 ∷ []));
  session_secret = bytes 8 (to_array 8 (4 ∷ []));
  world_id = 1;
  mode = mode_name multi;
}

abbrev file_bytes : FileName → List ℕ
file_bytes meta_json = []
file_bytes items_json = 1 ∷ []
file_bytes locations_json = 2 ∷ []
file_bytes entrances_json = 1 ∷ []

abbrev version_of : List ℕ → ℤ
version_of [] = pos 0
version_of (b ∷ d) = pos b

abbrev library : Library
library = record {
  Reader = Unit {0};
  ZipFile = FileName;
  open_reader = λ path. ok tt;
  open_file = λ r name. ok name;
  read_all = λ f. ok (file_bytes f);
  unmarshal_meta = λ d. ok raw_meta;
  unmarshal_version = λ d. ok (version_of d);
  unmarshal_items = λ d. ok ((5, 65 ∷ []) ∷ (5, 66 ∷ []) ∷ []);
  unmarshal_locations = λ d. ok ((7, 67 ∷ []) ∷ []);
  unmarshal_entrances = λ d. ok ((8, 68 ∷ []) ∷ []);
  decode_string = λ s. ok s;
}

abbrev game_info : Info
game_info = record {
  session_id = to_array 16 (1 ∷ 2 ∷ []);
  session_secret = to_array 8 (4 ∷ []);
  world_id = 1;
  mode = multi;
  items = (5, 66 ∷ []) ∷ [];
  locations = [];
  entrances = (8, 68 ∷ []) ∷ [];
}

info_is_extracted : extract_game_info library [] ≡ ok game_info
unfolding extract_game_info meta_info mode_of string_eq parse_items parse_locations parse_entrances
    manifest read_file or_same set_names set_name check_version check_length
info_is_extracted = refl

extract_game_info-ok_example :
    (reader : library.Reader) × (raw : RawMeta) × (library.open_reader [] ≡ ok reader)
    × ((Info.read_file library reader meta_json >>= library.unmarshal_meta) ≡ ok raw)
    × IsFrom library raw game_info
    × IsListed library library.unmarshal_items reader items_json game_info.items
    × IsListed library library.unmarshal_locations reader locations_json game_info.locations
    × IsListed library library.unmarshal_entrances reader entrances_json game_info.entrances
extract_game_info-ok_example = extract_game_info-ok library [] game_info info_is_extracted
