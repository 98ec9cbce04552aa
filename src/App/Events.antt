-- ===== src/App/Events.antt =====
-- What comes in while the program is online, from `exec` on, and where that leads.
use xmrig_nonces_heatmap.Prelude.{
  ℕ, ◌+◌, ◌^◌, ◌≡◌, ◌≤◌, ◌<◌, ◌≢◌, ◌⊎◌, true, false, Option, none, some, Bytes, eq_nat,
}
use xmrig_nonces_heatmap.Dict.{Dict}
use xmrig_nonces_heatmap.Json.{RapidJson}
use xmrig_nonces_heatmap.Config.{Config}
use xmrig_nonces_heatmap.HttpData.{HttpData}
use xmrig_nonces_heatmap.Network
use xmrig_nonces_heatmap.Network.{Network}
use xmrig_nonces_heatmap.Network.Coverage.{segment}
use xmrig_nonces_heatmap.Network.Start.{IsSyncing}
use xmrig_nonces_heatmap.Network.Steps.{IsDone}
use xmrig_nonces_heatmap.Network.Runs.{Event}
use xmrig_nonces_heatmap.Heatmap.{Heatmap, Drawing, Error, Outcome, ok, throw, crash}
use xmrig_nonces_heatmap.Network.Header.{IsReady, Heads, height_in}
use xmrig_nonces_heatmap.Network.Failures.{Unusable, Final}
use xmrig_nonces_heatmap.App.{
  App, System, on_http_data, save_nonces, save_info, shared, run, on_signal, on_console_command,
  exit_code,
}
use xmrig_nonces_heatmap.App.Outcomes.{image}

module _ (rj : RapidJson) (sys : System) (chain : ℕ → ℕ) (base : ℕ) where
  -- what a network may hear: the reply to its first request, an answer or a failed connection of a
  -- download, or something that it cannot use
  pub data Hears (n : Network) (response : HttpData) : Type 0 where
    header :
        (doc : RapidJson.Value rj)
        → IsReady chain base n
        → Heads rj doc response
        → height_in rj doc + n.m_daemon.m_max_range < 2 ^ 32
        → Hears n response
    event : n.next_id + 1 < 2 ^ 64 → Event rj chain n response → Hears n response
    unusable : Unusable rj response → Final rj response n → Hears n response

  -- What comes in at a state of the program, and the state afterwards, where `none` is a crash. Signals
  -- and key strokes come as long as the objects that listen for them are there.
  pub data Step (a : App rj) : Option (App rj) → Type 0 where
    responded :
        (n : Network)
        → a.m_network ≡ some n
        → (now : ℕ) (response : HttpData) → Hears n response
        → Step a (on_http_data rj sys now response a)
    signalled : a.m_signals ≡ true → (signum : ℕ) → Step a (some (on_signal rj sys signum a))
    typed : a.m_console ≡ true → (command : ℕ) → Step a (some (on_console_command rj sys command a))

  -- The program so far: `exec` has started the network, and then things came in, in any order.
  pub data Reach : Option (App rj) → Type 0 where
    begun :
        (c : Config) (next_id : ℕ) (a0 a : App rj)
        → a0.m_config ≡ some c
        → a0.m_signals ≡ true
        → a0.m_console ≡ true
        → a0.m_nonces.m_data ≡ segment chain 0 base
        → base < 2 ^ 32
        → 1 ≤ c.m_daemon.m_concurrency
        → 1 ≤ c.m_daemon.m_max_range
        → next_id + 1 + c.m_daemon.m_concurrency < 2 ^ 64
        → run rj sys c next_id a0 ≡ some (none, a)
        → Reach (some a)
    then_step : {a : App rj} {r : Option (App rj)} → Reach (some a) → Step a r → Reach r

  -- the program waits for the last header, or downloads, and listens for signals and keys
  pub record IsOnline (a : App rj) : Type 0 where
    pub n : Network
    pub network : a.m_network ≡ some n
    pub phase : IsReady chain base n ⊎ IsSyncing chain base n
    pub nonces : a.m_nonces.m_data ≡ n.m_nonces
    pub config : Config
    pub configured : a.m_config ≡ some config
    pub signals : a.m_signals ≡ true
    pub console : a.m_console ≡ true

  -- the program has stopped: nothing is left that keeps the event loop running
  pub record HasStopped (rc : ℕ) (a : App rj) : Type 0 where
    pub network : a.m_network ≡ none
    pub signals : a.m_signals ≡ false
    pub console : a.m_console ≡ false
    pub code : exit_code 0 a ≡ rc

  -- the program has stopped with a code and with these files
  abbrev pub Stops : ℕ → Dict Bytes (RapidJson.Value rj) → Option (App rj) → Type 0
  Stops rc files r = (a : App rj) × (r ≡ some a) × HasStopped rc a × (a.files ≡ files)

  -- What a rendering that starts at `before` comes to, by the outcome of `Heatmap::render`: the
  -- program has stopped with the code 0 and saved the information about the image, it has stopped
  -- with the code 1, or it crashed.
  abbrev pub Renders : Outcome (Heatmap × Drawing) → App rj → Option (App rj) → Type 0
  Renders outcome before r =
      ((p : Heatmap × Drawing) × (outcome ≡ ok p) × Stops 0 (save_info rj sys p.0 before).files r)
      ⊎ ((e : Error) × (outcome ≡ throw e) × Stops 1 before.files r)
      ⊎ ((outcome ≡ crash) × (r ≡ none))

  -- a response that ends the download with an error: it cannot be used, or it names a last height
  -- that is too low
  abbrev pub IsFatal : Network → HttpData → Type 0
  IsFatal n response =
      (Unusable rj response × Final rj response n)
      ⊎ ((doc : RapidJson.Value rj) × Heads rj doc response
          × ((height_in rj doc ≡ 0) ⊎ (height_in rj doc + 1 < base)))

  -- What comes of a response at `a`: `b` is the program whose network has heard it. It is online; or
  -- the error was fatal; or all nonces are there, they were saved, and the image was rendered; or the
  -- last header says that no nonce is missing, and the image was rendered.
  abbrev pub Heard : App rj → Network → ℕ → HttpData → Option (App rj) → Type 0
  Heard a n now response r =
      (n' : Network) × (Network.on_http_data rj now response n ≡ some n')
      × let b = shared rj sys n' a in
        (((r ≡ some b) × IsOnline b)
          ⊎ (IsFatal n response × Stops 1 a.files r)
          ⊎ (IsDone chain n'
              × ((c : Config) × (a.m_config ≡ some c)
                  × Renders (image rj sys c b) (save_nonces rj sys b) r))
          ⊎ (((doc : RapidJson.Value rj) × Heads rj doc response × (height_in rj doc + 1 ≡ base))
              × (n'.m_nonces ≡ segment chain 0 base)
              × ((c : Config) × (a.m_config ≡ some c) × Renders (image rj sys c b) b r)))

  -- What comes of a step: SIGHUP, SIGINT and SIGTERM, and Ctrl+C, stop the program with the code 0
  -- and leave the files alone; other signals and keys change nothing.
  abbrev pub After : {a : App rj} {r : Option (App rj)} → Step a r → Type 0
  After {a} {r} (responded n e now response h) = Heard a n now response r
  After {a} {r} (signalled listening signum) =
      (((signum ≡ 1) ⊎ (signum ≡ 2) ⊎ (signum ≡ 15)) × Stops 0 a.files r)
      ⊎ ((signum ≢ 1) × (signum ≢ 2) × (signum ≢ 15) × (r ≡ some a))
  After {a} {r} (typed listening command) =
      ((command ≡ 3) × Stops 0 a.files r) ⊎ ((command ≢ 3) × (r ≡ some a))
