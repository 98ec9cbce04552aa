-- ===== src/App.antt =====
-- App.h and App.cpp, and the reading of the configuration in ConfigFile.cpp: the program over its
-- parts. The state holds what the handlers change outside of the object: the files, as the documents
-- that rapidjson reads from them, and the settings of the log. `none` is undefined behaviour, or an
-- exception that nothing catches.
pub mod Outcomes
pub mod Events
pub mod Started
pub mod Renderings
pub mod Life
pub mod Alive
use xmrig_nonces_heatmap.Prelude.{
  ℕ, ℤ, Bool, true, false, ◌||◌, Bytes, codes, List, [], ◌∷◌, Option, none, some, ◌==◌, eq_nat,
  if◌then◌else◌, length, drop,
}
use xmrig_nonces_heatmap.Dict.{Dict}
use xmrig_nonces_heatmap.Json.{RapidJson}
use xmrig_nonces_heatmap.String
use xmrig_nonces_heatmap.String.{String}
use xmrig_nonces_heatmap.Arguments
use xmrig_nonces_heatmap.Arguments.{Arguments}
use xmrig_nonces_heatmap.Env
use xmrig_nonces_heatmap.Config
use xmrig_nonces_heatmap.Config.{Config, LogState}
use xmrig_nonces_heatmap.Nonces
use xmrig_nonces_heatmap.Nonces.{Nonces}
use xmrig_nonces_heatmap.Network
use xmrig_nonces_heatmap.Network.{Network, Notice, fatal_error, sync_done}
use xmrig_nonces_heatmap.HttpData.{HttpData}
use xmrig_nonces_heatmap.Heatmap
use xmrig_nonces_heatmap.Heatmap.{Heatmap, Drawing, Outcome, ok, throw, crash}

pub record App (rj : RapidJson) : Type 0 where
  pub m_config : Option Config
  pub m_rc : ℕ
  pub m_nonces : Nonces
  pub m_network : Option Network
  pub m_console : Bool
  pub m_signals : Bool
  pub config_file : Bytes
  pub log : LogState
  pub files : Dict Bytes (RapidJson.Value rj)

-- what the system and the vendored encoder give
pub record System : Type 0 where
  pub feature_tls : Bool
  pub writable : Bytes → Bool
  pub has_parse_error : Bytes → Bool
  pub nonces_location : String
  pub builtin : Dict Bytes String
  pub getenv : Bytes → Option Bytes
  pub encode : Drawing → ℕ

-- `getConfigName`; `location` is the path of the default file in the data directory
unfoldable pub config_name : Arguments → String → String
unfolding Arguments.value String.of_c_string
config_name args location = elim (Arguments.value (codes "--config") (some (codes "-c")) args) [
  | none ↦ location
  | some name ↦ String.of_c_string (some name)
]

module _ (rj : RapidJson) (sys : System) where
  -- `ConfigFile::read`
  unfoldable pub read_config :
      Dict Bytes (RapidJson.Value rj) → String → LogState → Option (Config × LogState)
  unfolding String.c_str
  read_config files file_name log =
      let name = String.c_str (String.bytes file_name) in
      if String.is_empty file_name then none else elim (Nonces.get_json rj files name) [
        | some doc ↦ some (Config.parse rj sys.feature_tls Config.default_config log doc)
        | none ↦
            if sys.has_parse_error name
            then none
            else some (Config.parse rj sys.feature_tls Config.default_config log rj.object)
      ]

  -- `close(int rc)`
  abbrev pub close : ℕ → App rj → App rj
  close rc a = record a { m_rc = rc; m_network = none; m_signals = false; m_console = false }

  -- `onFatalError`
  abbrev pub on_fatal_error : App rj → App rj
  on_fatal_error a = close 1 a

  -- `onConsoleCommand`
  unfoldable pub on_console_command : ℕ → App rj → App rj
  on_console_command command a = if command == 3 then close 0 a else a

  -- `onSignal`, for SIGHUP, SIGINT and SIGTERM
  unfoldable pub on_signal : ℕ → App rj → App rj
  on_signal signum a = if (signum == 1) || ((signum == 15) || (signum == 2)) then close 0 a else a

  -- `Heatmap::saveInfo`
  abbrev pub save_info : Heatmap → App rj → App rj
  save_info h a = record a {
    files =
        (Nonces.save_json rj sys.writable (Heatmap.info rj h).0 (Heatmap.info rj h).1 a.files).1;
  }

  -- the end of `render`
  abbrev pub rendered : Outcome (Heatmap × Drawing) → App rj → Option (Bool × App rj)
  rendered (ok (h, d)) a = some (true, save_info h a)
  rendered (throw e) a = some (false, a)
  rendered crash a = none

  -- `render`
  unfoldable pub render : App rj → Option (Bool × App rj)
  render a = elim a.m_config [
    | none ↦ none
    | some c ↦
        rendered
          (Heatmap.render sys.builtin sys.getenv sys.encode
            (Heatmap.heatmap c.m_job a.m_nonces.m_data))
          a
  ]

  -- `close(render() ? 0 : 1)`
  unfoldable pub render_and_close : App rj → Option (App rj)
  render_and_close a = elim (render a) [
    | none ↦ none
    | some (done, a') ↦ some (close (if done then 0 else 1) a')
  ]

  -- `m_nonces.save()`
  abbrev pub save_nonces : App rj → App rj
  save_nonces a = record a { files = (Nonces.save rj sys.writable a.m_nonces a.files).1 }

  -- `onSyncDone`
  unfoldable pub on_sync_done : Bool → App rj → Option (App rj)
  on_sync_done modified a = render_and_close (if modified then save_nonces a else a)

  -- the calls of the listener
  abbrev pub on_notice : Notice → App rj → Option (App rj)
  on_notice fatal_error a = some (on_fatal_error a)
  on_notice (sync_done modified) a = on_sync_done modified a

  unfoldable pub on_notices : List Notice → App rj → Option (App rj)
  on_notices [] a = some a
  on_notices (notice ∷ notices) a = elim (on_notice notice a) [
    | none ↦ none
    | some a' ↦ on_notices notices a'
  ]

  -- the vector of nonces is the one that the network fills
  abbrev pub shared : Network → App rj → App rj
  shared n a = record a { m_network = some n; m_nonces = record a.m_nonces { m_data = n.m_nonces } }

  -- a response for the network, and what it tells the listener
  unfoldable pub on_http_data : ℕ → HttpData → App rj → Option (App rj)
  on_http_data now response a = elim a.m_network [
    | none ↦ some a
    | some n ↦ elim (Network.on_http_data rj now response n) [
      | none ↦ none
      | some n' ↦ on_notices (drop (length n.notices) n'.notices) (shared n' a)
    ]
  ]

  -- `m_config->save()`
  abbrev pub save_config : Config → App rj → App rj
  save_config c a = record a {
    files = (Nonces.save_json rj sys.writable a.config_file (Config.get_json rj c a.log) a.files).1;
  }

  -- `exec` with the nonces loaded: the exit code, or none where the event loop runs
  unfoldable pub run : Config → ℕ → App rj → Option (Option ℕ × App rj)
  run c next_id a0 =
      let a = if c.m_auto_save then save_config c a0 else a0 in
      if Config.is_offline c
      then elim (render_and_close a) [ none ↦ none | some a' ↦ some (some a'.m_rc, a') ]
      else some (
        none,
        record a {
          m_network =
              some (Network.connect rj (Network.network c.m_daemon a.m_nonces.m_data next_id));
        },
      )

  -- `exec`, up to the event loop
  unfoldable pub exec : ℕ → App rj → Option (Option ℕ × App rj)
  exec next_id a = elim a.m_config [
    | none ↦ some (some 2, a)
    | some c ↦
        elim (Nonces.load rj sys.nonces_location (λ name. Env.expand sys.builtin sys.getenv name [])
          a.files c.m_nonces_file a.m_nonces) [
            | none ↦ none
            | some ns ↦
                run c next_id (record a { m_nonces = ns; m_console = true; m_signals = true })
          ]
  ]

-- the end of `exec`, where `rc` is what `uv_run` returned
unfoldable pub exit_code : {rj : RapidJson} → ℕ → App rj → ℕ
exit_code rc a = if rc == 0 then a.m_rc else rc
