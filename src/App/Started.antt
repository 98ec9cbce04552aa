-- ===== src/App/Started.antt =====
-- What `exec` leaves when it has started the network.
use xmrig_nonces_heatmap.Prelude.{
  ℕ, ◌+◌, ◌^◌, ◌≡◌, ◌≤◌, ◌<◌, refl, inl, inr, true, List, none, some, arith, Option-cases,
  Bool-cases, if◌then◌else◌, eq_nat,
}
use xmrig_nonces_heatmap.Json.{RapidJson}
use xmrig_nonces_heatmap.Config
use xmrig_nonces_heatmap.Config.{Config}
use xmrig_nonces_heatmap.Network
use xmrig_nonces_heatmap.Network.{Network, Notice, fatal_error, sync_done, notify}
use xmrig_nonces_heatmap.Network.Coverage.{segment}
use xmrig_nonces_heatmap.Network.Header.{IsReady}
use xmrig_nonces_heatmap.App.{App, System, render_and_close, run, save_config}
use xmrig_nonces_heatmap.App.Events.{IsOnline}

module _ (rj : RapidJson) (sys : System) (chain : ℕ → ℕ) (base : ℕ) where
  connect-IsReady :
      (c : Config) (next_id : ℕ) (nonces : List ℕ)
      → nonces ≡ segment chain 0 base
      → base < 2 ^ 32
      → 1 ≤ c.m_daemon.m_concurrency
      → 1 ≤ c.m_daemon.m_max_range
      → next_id + 1 + c.m_daemon.m_concurrency < 2 ^ 64
      → IsReady chain base (Network.connect rj (Network.network c.m_daemon nonces next_id))
  unfolding Network.connect
  connect-IsReady c next_id nonces known small parallel ranged room = record {
    nonces = known;
    small = small;
    no_data = refl;
    no_req = refl;
    quiet = refl;
    parallel = parallel;
    ranged = ranged;
    room = omega arith;
  }

  -- what the saved configuration leaves as it was
  pub save_config-keeps :
      (c : Config) (a : App rj)
      → let start = if c.m_auto_save then save_config rj sys c a else a in
        (start.m_config ≡ a.m_config)
        × (start.m_signals ≡ a.m_signals)
        × (start.m_console ≡ a.m_console)
        × (start.m_nonces ≡ a.m_nonces)
  save_config-keeps c a = elim (Bool-cases c.m_auto_save) [
    | inl e ↦ rw e (refl, refl, refl, refl)
    | inr e ↦ rw e (refl, refl, refl, refl)
  ]

  -- the network was started
  pub online : Config → ℕ → App rj → App rj
  online c next_id start = record start {
    m_network =
        some (Network.connect rj (Network.network c.m_daemon start.m_nonces.m_data next_id));
  }

  pub run-online :
      (c : Config) (next_id : ℕ) (a0 a : App rj)
      → run rj sys c next_id a0 ≡ some (none, a)
      → online c next_id (if c.m_auto_save then save_config rj sys c a0 else a0) ≡ a
  unfolding run online
  run-online c next_id a0 a e =
      let start = if c.m_auto_save then save_config rj sys c a0 else a0 in
      elim (Bool-cases (Config.is_offline c)) [
        | inl offline ↦ elim (Option-cases (render_and_close rj sys start)) [
          | inl bad ↦ absurd (ground (arith, offline, bad, e))
          | inr (b, good) ↦ absurd (ground (arith, offline, good, e))
        ]
        | inr f ↦ ground (arith, f, e)
      ]

  pub online-IsOnline :
      (c : Config) (next_id : ℕ) (start : App rj)
      → start.m_config ≡ some c
      → start.m_signals ≡ true
      → start.m_console ≡ true
      → start.m_nonces.m_data ≡ segment chain 0 base
      → base < 2 ^ 32
      → 1 ≤ c.m_daemon.m_concurrency
      → 1 ≤ c.m_daemon.m_max_range
      → next_id + 1 + c.m_daemon.m_concurrency < 2 ^ 64
      → IsOnline rj sys chain base (online c next_id start)
  unfolding online Network.connect
  online-IsOnline c next_id start configured signals console known small parallel ranged room =
      record {
        n = Network.connect rj (Network.network c.m_daemon start.m_nonces.m_data next_id);
        network = refl;
        phase =
            inl (connect-IsReady c next_id start.m_nonces.m_data known small parallel ranged room);
        nonces = refl;
        config = c;
        configured = configured;
        signals = signals;
        console = console;
      }
