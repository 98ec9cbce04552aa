-- ===== src/Nonces/Saved.antt =====
-- Nonces.save and Nonces.load, one after the other.
use xmrig_nonces_heatmap.Prelude.{
  ℕ, ◌^◌, ◌<◌, ◌≡◌, ◌⊎◌, refl, Bool, true, Bytes, List, [], ◌∷◌, map, some, eq_bytes, arith, All,
  ap, bytes_beq_iff,
}
use xmrig_nonces_heatmap.Dict
use xmrig_nonces_heatmap.Dict.{Dict}
use xmrig_nonces_heatmap.Json.{RapidJson}
use xmrig_nonces_heatmap.Json.Objects.{Laws}
use xmrig_nonces_heatmap.String
use xmrig_nonces_heatmap.String.{String}
use xmrig_nonces_heatmap.Nonces.{Nonces, get_json, save_json, save, read_all, load_file}

-- what is relied on of the arrays that the program builds
pub record ArrayLaws (rj : RapidJson) : Type 0 where
  pub array_array : (vs : List (RapidJson.Value rj)) → rj.is_array (rj.array vs) ≡ true
  pub array_elements : (vs : List (RapidJson.Value rj)) → rj.elements (rj.array vs) ≡ vs

module _ (rj : RapidJson) where
  find_first :
      (name : Bytes) (v : RapidJson.Value rj) (m : Dict Bytes (RapidJson.Value rj))
      → Dict.find name ((name, v) ∷ m) ≡ some v
  unfolding Dict.find
  find_first name v m = ground (arith, (bytes_beq_iff name name).1 refl)

  saved_file :
      (writable : Bytes → Bool) (name : Bytes) (doc : RapidJson.Value rj)
      (files : Dict Bytes (RapidJson.Value rj))
      → writable name ≡ true
      → (save_json rj writable name doc files).1 ≡ (name, doc) ∷ Dict.erase name files
  unfolding save_json
  saved_file writable name doc files w = rw w

  -- a file that can be written holds what was saved
  pub find-save_json :
      (writable : Bytes → Bool) (name : Bytes) (doc : RapidJson.Value rj)
      (files : Dict Bytes (RapidJson.Value rj))
      → writable name ≡ true
      → Dict.find name (save_json rj writable name doc files).1 ≡ some doc
  find-save_json writable name doc files w =
      rw (saved_file writable name doc files w) (find_first name doc (Dict.erase name files))

  -- saving keeps what a file of another name holds
  pub find-save_json_other :
      (writable : Bytes → Bool) (name other : Bytes) (doc v : RapidJson.Value rj)
      (files : Dict Bytes (RapidJson.Value rj))
      → Dict.find name files ≡ some v
      → (Dict.find name (save_json rj writable other doc files).1 ≡ some v) ⊎ (other ≡ name)
  unfolding save_json Dict.find
  find-save_json_other writable name other doc v files e =
      ground (arith, e, bytes_beq_iff other name, Dict.find-erase other name files)

module _ (rj : RapidJson) (laws : Laws rj) (arrays : ArrayLaws rj) where
  read_all-map :
      (ns : List ℕ) → All (λ n. n < 2 ^ 32) ns → read_all rj (map rj.of_uint ns) ≡ some ns
  unfolding read_all
  read_all-map [] small = refl
  read_all-map (n ∷ ns) (h, small) =
      rw (laws.uint_uint n h, read_all-map ns small, laws.uint_value n h)

  get_json_lem :
      (files : Dict Bytes (RapidJson.Value rj)) (name : Bytes) (doc : RapidJson.Value rj)
      → Dict.find name files ≡ some doc
      → rj.is_array doc ≡ true
      → get_json rj files name ≡ some doc
  unfolding get_json
  get_json_lem files name doc e a = ground (arith, e, a)

  load_file_lem :
      (files : Dict Bytes (RapidJson.Value rj)) (n : Nonces) (doc : RapidJson.Value rj)
      (ns : List ℕ)
      → get_json rj files (String.c_str (String.bytes n.m_file)) ≡ some doc
      → rj.is_array doc ≡ true
      → read_all rj (rj.elements doc) ≡ some ns
      → load_file rj files n ≡ some (record n { m_data = ns })
  unfolding load_file
  load_file_lem files n doc ns e a r = ground (arith, e, a, r)

  -- The nonces that `save` writes to a file that can be written are what `load` reads from it,
  -- whatever was in memory, if each nonce is a uint32_t.
  pub load-save :
      (writable : Bytes → Bool) (n before : Nonces) (files : Dict Bytes (RapidJson.Value rj))
      → writable (String.c_str (String.bytes n.m_file)) ≡ true
      → All (λ v. v < 2 ^ 32) n.m_data
      → before.m_file ≡ n.m_file
      → load_file rj (save rj writable n files).1 before
        ≡ some (record before { m_data = n.m_data })
  unfolding save
  load-save writable n before files w small same =
      let name = String.c_str (String.bytes n.m_file) in
      let doc = rj.array (map rj.of_uint n.m_data) in
      let named : String.c_str (String.bytes before.m_file) ≡ name =
        ap (λ (f : String). String.c_str (String.bytes f)) same in
      load_file_lem _ before doc n.m_data
        (rw named (
          get_json_lem _ name doc (find-save_json rj writable name doc files w)
            (arrays.array_array (map rj.of_uint n.m_data))))
        (arrays.array_array (map rj.of_uint n.m_data))
        (rw (arrays.array_elements (map rj.of_uint n.m_data)) (read_all-map n.m_data small))
