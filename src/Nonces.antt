-- ===== src/Nonces.antt =====
-- Nonces.h and Nonces.cpp: the nonces of the known blocks, and their file. A file is the document that
-- rapidjson reads from it; `writable` says which files can be opened for writing.
pub mod Saved
use xmrig_nonces_heatmap.Prelude.{
  ℕ, Bool, true, false, not, ◌&&◌, ◌||◌, Bytes, codes, List, [], ◌∷◌, map, Option, none, some,
  eq_bytes, if◌then◌else◌,
}
use xmrig_nonces_heatmap.Dict
use xmrig_nonces_heatmap.Dict.{Dict}
use xmrig_nonces_heatmap.Json.{RapidJson}
use xmrig_nonces_heatmap.String
use xmrig_nonces_heatmap.String.{String}
use xmrig_nonces_heatmap.Env

pub record Nonces : Type 0 where
  pub m_data : List ℕ
  pub m_file : String

module _ (rj : RapidJson) where
  open rj use {Value}

  -- `Json::get`: an object or an array, if the file can be read
  unfoldable pub get_json : Dict Bytes Value → Bytes → Option Value
  get_json files name = elim (Dict.find name files) [
    | none ↦ none
    | some doc ↦ if rj.is_object doc || rj.is_array doc then some doc else none
  ]

  -- `Json::save`
  unfoldable pub save_json :
      (Bytes → Bool) → Bytes → Value → Dict Bytes Value → Bool × Dict Bytes Value
  save_json writable name doc files =
      if writable name then (true, (name, doc) ∷ Dict.erase name files) else (false, files)

  -- `save`
  unfoldable pub save : (Bytes → Bool) → Nonces → Dict Bytes Value → Bool × Dict Bytes Value
  unfolding save_json String.c_str
  save writable n files =
      save_json writable (String.c_str (String.bytes n.m_file)) (rj.array (map rj.of_uint n.m_data))
        files

  -- the loop of `load()`; `none` is `GetUint` of a value that is no uint32_t
  unfoldable pub read_all : List Value → Option (List ℕ)
  read_all [] = some []
  read_all (v ∷ vs) =
      let rest = read_all vs in
      if rj.is_uint v then elim rest [ none ↦ none | some ns ↦ some (rj.get_uint v ∷ ns) ] else none

  -- `load()`
  unfoldable pub load_file : Dict Bytes Value → Nonces → Option Nonces
  unfolding get_json read_all String.c_str
  load_file files n = elim (get_json files (String.c_str (String.bytes n.m_file))) [
    | none ↦ some n
    | some doc ↦ if not (rj.is_array doc) then some n else elim (read_all (rj.elements doc)) [
      | none ↦ none
      | some ns ↦ some (record n { m_data = ns })
    ]
  ]

  -- `load(const String &fileName)`; `location` is the path of nonces.json in the data directory
  unfoldable pub load :
      String → (Option Bytes → String) → Dict Bytes Value → String → Nonces → Option Nonces
  unfolding load_file
  load location expand files file_name n = load_file files (record n {
    m_file = if String.is_empty file_name then location else expand file_name.m_data;
  })
