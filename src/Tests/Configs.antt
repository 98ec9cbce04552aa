-- ===== src/Tests/Configs.antt =====
-- A configuration that is saved and read.
use xmrig_nonces_heatmap.Prelude.{◌≡◌, refl, true, false, Bytes, codes, Option, none, some, arith}
use xmrig_nonces_heatmap.Json.{RapidJson}
use xmrig_nonces_heatmap.String
use xmrig_nonces_heatmap.String.{String}
use xmrig_nonces_heatmap.String.Copies.{IsAssigned}
use xmrig_nonces_heatmap.Daemon.{Daemon, default_daemon}
use xmrig_nonces_heatmap.Job.{Job, default_job}
use xmrig_nonces_heatmap.Job.Saved as JobSaved
use xmrig_nonces_heatmap.Config.{Config, LogState, parse, get_json, default_config}
use xmrig_nonces_heatmap.Config.Saved as ConfigSaved
use xmrig_nonces_heatmap.Tests.Sample.{Value, sample, sample_laws}

abbrev no_text : Bytes → Option Value
no_text s = none

abbrev rj : RapidJson
rj = sample no_text

abbrev job : Job
job = record default_job { m_name = String.copy_c (some (codes "a.png")) }

unassigned : IsAssigned String.null_string
unfolding String.copy_c
unassigned = record { source = none; assigned = refl }

job-IsProper : JobSaved.IsProper job
job-IsProper = record {
  name = record { source = some (codes "a.png"); assigned = refl };
  info_file = unassigned;
  start = omega arith;
  end = omega arith;
  height = omega arith;
  max_nonce = omega arith;
  min_nonce = omega arith;
  radius = omega arith;
  x = omega arith;
}

-- no host: the daemon is not valid
abbrev daemon : Daemon
daemon = record default_daemon { m_tls = true }

abbrev config : Config
config = record default_config { m_job = job; m_daemon = daemon }

config-IsProper : ConfigSaved.IsProper config
config-IsProper = record {
  nonces_file = unassigned;
  daemon = record {
    host = unassigned;
    port = omega arith;
    concurrency = omega arith;
    max_range = omega arith;
    print_time = omega arith;
    timeout = omega arith;
    some_concurrency = omega arith;
    some_range = omega arith;
    some_timeout = omega arith;
  };
  job = job-IsProper;
}

abbrev log : LogState
log = record { m_colors = true; m_verbose = 2 }

parse-get_json_example :
    parse rj true default_config log (get_json rj config log)
    ≡ (record config { m_offline = true; m_daemon = record daemon { m_tls = false } }, log)
parse-get_json_example =
    ConfigSaved.parse-get_json rj (sample_laws no_text) true config default_config log log
      config-IsProper (omega arith)
