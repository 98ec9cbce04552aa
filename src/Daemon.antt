-- ===== src/Daemon.antt =====
-- Daemon.h and Daemon.cpp: how to reach the daemon, read from the "daemon" object of the
-- configuration. `feature_tls` says whether XMRIG_FEATURE_TLS is defined in the build.
pub mod Saved
use xmrig_nonces_heatmap.Prelude.{
  ℕ, [], ◌∷◌, ◌*◌, ◌%◌, ◌^◌, max, Bool, false, ◌&&◌, ◌||◌, not, codes, some, ltb, if◌then◌else◌,
}
use xmrig_nonces_heatmap.Json
use xmrig_nonces_heatmap.Json.{RapidJson}
use xmrig_nonces_heatmap.String
use xmrig_nonces_heatmap.String.{String}

pub record Daemon : Type 0 where
  pub m_tls : Bool
  pub m_host : String
  pub m_port : ℕ
  pub m_concurrency : ℕ
  pub m_max_range : ℕ
  pub m_print_time : ℕ
  pub m_timeout : ℕ

-- the member initialisers
abbrev pub default_daemon : Daemon
default_daemon = record {
  m_tls = false;
  m_host = String.null_string;
  m_port = 18081;
  m_concurrency = 10;
  m_max_range = 1000;
  m_print_time = 10;
  m_timeout = 30;
}

-- `isValid`
abbrev pub is_valid : Daemon → Bool
is_valid d = not (String.is_empty d.m_host) && ltb 0 d.m_port

-- milliseconds; the product is computed in uint32_t
abbrev pub print_time : Daemon → ℕ
print_time d = d.m_print_time * 1000 % 2 ^ 32

abbrev pub timeout : Daemon → ℕ
timeout d = d.m_timeout * 1000 % 2 ^ 32

-- `bool` converted to `unsigned`, and back
abbrev pub bool_to_uint : Bool → ℕ
bool_to_uint b = if b then 1 else 0

module _ (rj : RapidJson) where
  -- `Daemon(const rapidjson::Value &value)`
  unfoldable pub of_json : Bool → RapidJson.Value rj → Daemon
  unfolding String.copy_c
  of_json feature_tls value =
      if not (rj.is_object value) || rj.object_empty value
      then record default_daemon { m_host = String.copy_c (some (codes "127.0.0.1")) }
      else record {
        m_tls =
            if feature_tls
            then ltb 0 (Json.get_uint rj value (codes "tls") (bool_to_uint default_daemon.m_tls))
            else default_daemon.m_tls;
        m_host = String.copy_c (Json.get_string rj value (codes "host"));
        m_port = Json.get_uint rj value (codes "port") 0 % 2 ^ 16;
        m_concurrency =
            max (Json.get_uint rj value (codes "concurrency") default_daemon.m_concurrency) 1;
        m_max_range = max (Json.get_uint rj value (codes "max_range") default_daemon.m_max_range) 1;
        m_print_time = Json.get_uint rj value (codes "print_time") default_daemon.m_print_time;
        m_timeout = max (Json.get_uint rj value (codes "timeout") default_daemon.m_timeout) 1;
      }

  -- `toJSON`
  unfoldable pub to_json : Daemon → RapidJson.Value rj
  to_json d = Json.add_members rj rj.object (
      (codes "host", String.to_json rj d.m_host)
      ∷ (codes "port", rj.of_uint d.m_port)
      ∷ (codes "tls", rj.of_bool d.m_tls)
      ∷ (codes "concurrency", rj.of_uint d.m_concurrency)
      ∷ (codes "max_range", rj.of_uint d.m_max_range)
      ∷ (codes "print_time", rj.of_uint d.m_print_time)
      ∷ (codes "timeout", rj.of_uint d.m_timeout)
      ∷ [])
