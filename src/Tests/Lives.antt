-- ===== src/Tests/Lives.antt =====
-- A program that is online, up to Ctrl+C.
use xmrig_nonces_heatmap.Prelude.{◌≡◌, refl, true, false, codes, [], ◌∷◌, none, some, arith}
use xmrig_nonces_heatmap.Daemon.{default_daemon}
use xmrig_nonces_heatmap.Config.{Config, default_config}
use xmrig_nonces_heatmap.Network
use xmrig_nonces_heatmap.App.{App, run, on_console_command, exit_code}
use xmrig_nonces_heatmap.App.Events.{IsOnline, After, Reach, begun, typed}
use xmrig_nonces_heatmap.App.Alive.{Reach-After}
use xmrig_nonces_heatmap.Tests.Downloads.{rj, chain}
use xmrig_nonces_heatmap.Tests.Programs.{sys}

abbrev config : Config
config = record default_config {
  m_auto_save = false;
  m_daemon = record default_daemon {
    m_host = record { m_data = some (codes "a"); m_size = 1 };
    m_port = 80;
    m_concurrency = 2;
    m_max_range = 2;
  };
}

abbrev loaded : App rj
loaded = record {
  m_config = some config;
  m_rc = 0;
  m_nonces = record {
    m_data = 0 ∷ 7 ∷ [];
    m_file = record { m_data = some (codes "n"); m_size = 1 };
  };
  m_network = none;
  m_console = true;
  m_signals = true;
  config_file = codes "c";
  log = record { m_colors = true; m_verbose = 0 };
  files = [];
}

abbrev connected : App rj
connected = record loaded {
  m_network = some (Network.connect rj (Network.network config.m_daemon (0 ∷ 7 ∷ []) 0));
}

connected_lem : run rj sys config 0 loaded ≡ some (none, connected)
unfolding run
connected_lem = refl

connected-Reach : Reach rj sys chain 2 (some connected)
connected-Reach =
    begun config 0 loaded connected refl refl refl refl (omega arith) (omega arith) (omega arith)
      (omega arith) connected_lem

Reach-After_example :
    IsOnline rj sys chain 2 connected
    × After rj sys chain 2 {a = connected} {r = some (on_console_command rj sys 3 connected)}
        (typed refl 3)
Reach-After_example = Reach-After rj sys chain 2 connected-Reach (typed refl 3)

interrupted_code : exit_code 0 (on_console_command rj sys 3 connected) ≡ 0
unfolding exit_code on_console_command
interrupted_code = refl
