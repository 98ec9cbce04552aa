-- ===== src/Config/Saved.antt =====
-- What `save` writes and the next `read` gives.
use xmrig_nonces_heatmap.Prelude.{◌^◌, ◌<◌, ◌≡◌, Bool, false}
use xmrig_nonces_heatmap.Dict
use xmrig_nonces_heatmap.Json
use xmrig_nonces_heatmap.Json.{RapidJson}
use xmrig_nonces_heatmap.Json.Objects.{
  Laws, member-add_members, is_object-add_members, object_empty-add_members,
}
use xmrig_nonces_heatmap.String.Copies.{IsAssigned, copy_c-to_json}
use xmrig_nonces_heatmap.Daemon.Saved as DaemonSaved
use xmrig_nonces_heatmap.Job.Saved as JobSaved
use xmrig_nonces_heatmap.Config.{Config, LogState, is_offline, parse, get_json}

pub record IsProper (c : Config) : Type 0 where
  pub nonces_file : IsAssigned c.m_nonces_file
  pub daemon : DaemonSaved.IsProper c.m_daemon
  pub job : JobSaved.IsProper c.m_job

-- What `getJSON` writes is read back by `parse`, with two exceptions: TLS is off, and a configuration
-- that was offline only because its daemon was not valid has `m_offline` set. The strings were
-- assigned from C strings, the numbers are in the ranges of their types, and the daemon's limits
-- are positive.
pub parse-get_json :
    (rj : RapidJson) (laws : Laws rj) (feature_tls : Bool) (c c0 : Config) (log log0 : LogState)
    → IsProper c
    → log.m_verbose < 2 ^ 32
    → parse rj feature_tls c0 log0 (get_json rj c log)
      ≡ (record c { m_offline = is_offline c; m_daemon = record c.m_daemon { m_tls = false } }, log)
unfolding parse get_json Json.get_bool Json.get_string Json.get_object Json.get_value Dict.find
parse-get_json rj laws feature_tls c c0 log log0 p verbose = simp (
  is_object-add_members rj laws,
  object_empty-add_members rj laws,
  member-add_members rj laws,
  laws.bool_bool,
  laws.bool_value,
  laws.uint_bool,
  laws.uint_uint,
  laws.uint_value,
  verbose,
  DaemonSaved.is_object-to_json rj laws,
  JobSaved.is_object-to_json rj laws,
  DaemonSaved.of_json-to_json rj laws feature_tls c.m_daemon p.daemon,
  JobSaved.of_json-to_json rj laws c.m_job p.job,
  copy_c-to_json rj laws c.m_nonces_file p.nonces_file,
)
