-- ===== src/Config.antt =====
-- config/Config.h and Config.cpp: the configuration. `parse` also sets the colours and the
-- verbosity of the log, which are static members of Log.
pub mod Saved
use xmrig_nonces_heatmap.Prelude.{[], ◌∷◌, ℕ, Bool, true, false, ◌||◌, not, codes, if◌then◌else◌}
use xmrig_nonces_heatmap.Json
use xmrig_nonces_heatmap.Json.{RapidJson}
use xmrig_nonces_heatmap.String
use xmrig_nonces_heatmap.String.{String}
use xmrig_nonces_heatmap.Daemon
use xmrig_nonces_heatmap.Daemon.{Daemon, default_daemon}
use xmrig_nonces_heatmap.Job
use xmrig_nonces_heatmap.Job.{Job, default_job}

-- the static members of Log that the configuration sets
pub record LogState : Type 0 where
  pub m_colors : Bool
  pub m_verbose : ℕ

pub record Config : Type 0 where
  pub m_auto_save : Bool
  pub m_offline : Bool
  pub m_daemon : Daemon
  pub m_job : Job
  pub m_nonces_file : String

-- the member initialisers
abbrev pub default_config : Config
default_config = record {
  m_auto_save = true;
  m_offline = false;
  m_daemon = default_daemon;
  m_job = default_job;
  m_nonces_file = String.null_string;
}

-- `isOffline`
abbrev pub is_offline : Config → Bool
is_offline c = c.m_offline || not (Daemon.is_valid c.m_daemon)

module _ (rj : RapidJson) where
  -- `setVerbose`
  unfoldable pub set_verbose : LogState → RapidJson.Value rj → LogState
  set_verbose log value =
      if rj.is_bool value
      then record log { m_verbose = if rj.get_bool value then 1 else 0 }
      else if rj.is_uint value
      then record log { m_verbose = rj.get_uint value }
      else log

  -- `parse`, on the configuration `c` and the log; it always returns true
  unfoldable pub parse : Bool → Config → LogState → RapidJson.Value rj → Config × LogState
  unfolding set_verbose
  parse feature_tls c log reader = (
    record {
      m_offline = Json.get_bool rj reader (codes "offline") c.m_offline;
      m_auto_save = Json.get_bool rj reader (codes "autosave") c.m_auto_save;
      m_nonces_file = String.copy_c (Json.get_string rj reader (codes "nonces_file"));
      m_job = Job.of_json rj (Json.get_object rj reader (codes "heatmap"));
      m_daemon = Daemon.of_json rj feature_tls (Json.get_object rj reader (codes "daemon"));
    },
    set_verbose (record log { m_colors = Json.get_bool rj reader (codes "colors") log.m_colors })
        (Json.get_value rj reader (codes "verbose")),
  )

  -- `getJSON`
  unfoldable pub get_json : Config → LogState → RapidJson.Value rj
  get_json c log = Json.add_members rj rj.object (
      (codes "offline", rj.of_bool (is_offline c))
      ∷ (codes "autosave", rj.of_bool c.m_auto_save)
      ∷ (codes "nonces_file", String.to_json rj c.m_nonces_file)
      ∷ (codes "daemon", Daemon.to_json rj c.m_daemon)
      ∷ (codes "heatmap", Job.to_json rj c.m_job)
      ∷ (codes "colors", rj.of_bool log.m_colors)
      ∷ (codes "verbose", rj.of_uint log.m_verbose)
      ∷ [])
