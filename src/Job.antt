-- ===== src/Job.antt =====
-- Job.h and Job.cpp: what to draw, read from the "heatmap" object of the configuration.
pub mod Saved
use xmrig_nonces_heatmap.Prelude.{[], ◌∷◌, ℕ, ℤ, pos, ◌||◌, not, codes, some, if◌then◌else◌}
use xmrig_nonces_heatmap.Json
use xmrig_nonces_heatmap.Json.{RapidJson}
use xmrig_nonces_heatmap.String
use xmrig_nonces_heatmap.String.{String}

pub record Job : Type 0 where
  pub m_end : ℤ
  pub m_start : ℤ
  pub m_info_file : String
  pub m_name : String
  pub m_height : ℕ
  pub m_max_nonce : ℕ
  pub m_min_nonce : ℕ
  pub m_radius : ℕ
  pub m_x : ℕ

-- the member initialisers
abbrev pub default_job : Job
default_job = record {
  m_end = pos 0;
  m_start = pos 0;
  m_info_file = String.null_string;
  m_name = String.null_string;
  m_height = 4096;
  m_max_nonce = 0;
  m_min_nonce = 0;
  m_radius = 5;
  m_x = 0;
}

module _ (rj : RapidJson) where
  -- `Job(const rapidjson::Value &value)`
  unfoldable pub of_json : RapidJson.Value rj → Job
  unfolding String.copy_c
  of_json value =
      if not (rj.is_object value) || rj.object_empty value
      then record default_job { m_name = String.copy_c (some (codes "heatmap.png")) }
      else record {
        m_name = String.copy_c (Json.get_string rj value (codes "name"));
        m_info_file = String.copy_c (Json.get_string rj value (codes "info_file"));
        m_x = Json.get_uint rj value (codes "x") 0;
        m_height = Json.get_uint rj value (codes "height") 0;
        m_radius = Json.get_uint rj value (codes "radius") 0;
        m_start = Json.get_int rj value (codes "start") (pos 0);
        m_end = Json.get_int rj value (codes "end") (pos 0);
        m_min_nonce = Json.get_uint rj value (codes "min_nonce") 0;
        m_max_nonce = Json.get_uint rj value (codes "max_nonce") 0;
      }

  -- `toJSON`
  unfoldable pub to_json : Job → RapidJson.Value rj
  to_json j = Json.add_members rj rj.object (
      (codes "name", String.to_json rj j.m_name)
      ∷ (codes "info_file", String.to_json rj j.m_info_file)
      ∷ (codes "x", rj.of_uint j.m_x)
      ∷ (codes "height", rj.of_uint j.m_height)
      ∷ (codes "radius", rj.of_uint j.m_radius)
      ∷ (codes "start", rj.of_int j.m_start)
      ∷ (codes "end", rj.of_int j.m_end)
      ∷ (codes "min_nonce", rj.of_uint j.m_min_nonce)
      ∷ (codes "max_nonce", rj.of_uint j.m_max_nonce)
      ∷ [])
