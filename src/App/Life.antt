-- ===== src/App/Life.antt =====
-- What comes of a response, a signal or a key stroke while the program is online.
use xmrig_nonces_heatmap.Prelude.{
  ℕ, ◌≡◌, ◌≢◌, refl, sym, subst, ap, ◌∙◌, ◌⊎◌, inl, inr, Bool, true, false, [], ◌∷◌, Option, some,
  arith, Bool-cases, some_unique, if◌then◌else◌, eq_nat, ◌==◌, ◌||◌,
}
use xmrig_nonces_heatmap.Json.{RapidJson}
use xmrig_nonces_heatmap.Dict
use xmrig_nonces_heatmap.Config.{Config}
use xmrig_nonces_heatmap.HttpData.{HttpData}
use xmrig_nonces_heatmap.Network
use xmrig_nonces_heatmap.Network.{Network, Notice, fatal_error, sync_done, notify}
use xmrig_nonces_heatmap.Network.Start.{IsSyncing}
use xmrig_nonces_heatmap.Network.Runs.{Event, answered, event_outcome}
use xmrig_nonces_heatmap.Network.Runs
use xmrig_nonces_heatmap.Network.Header.{IsReady, header_outcome}
use xmrig_nonces_heatmap.Network.Failures.{on_http_data-Unusable}
use xmrig_nonces_heatmap.App.{
  App, System, on_http_data, on_notices, shared, close, save_nonces, on_signal, on_console_command,
}
use xmrig_nonces_heatmap.App.Outcomes.{deliver, on_notices_done, on_notices_none, image}
use xmrig_nonces_heatmap.App.Events.{
  Hears, Step, IsOnline, Stops, Renders, Heard, After, header, event, unusable, responded,
  signalled, typed,
}
use xmrig_nonces_heatmap.App.Renderings.{close-HasStopped, on_sync_done-Renders}

module _ (rj : RapidJson) (sys : System) (chain : ℕ → ℕ) (base : ℕ) where
  module _ (now : ℕ) (response : HttpData) (a : App rj) (o : IsOnline rj sys chain base a)
      (n : Network) (e : a.m_network ≡ some n) (quiet : n.notices ≡ []) (n' : Network)
      (heard : Network.on_http_data rj now response n ≡ some n') where
    fatal_error-Stops :
        n'.notices ≡ fatal_error ∷ []
        → Stops rj sys chain base 1 a.files (on_http_data rj sys now response a)
    unfolding on_notices
    fatal_error-Stops told = (
      close rj sys 1 (shared rj sys n' a),
      deliver rj sys now response a n n' e heard quiet
          ∙ ap (λ ts. on_notices rj sys ts (shared rj sys n' a)) told,
      close-HasStopped rj sys chain base 1 (shared rj sys n' a),
      refl,
    )

    sync_done-Renders :
        (modified : Bool)
        → n'.notices ≡ sync_done modified ∷ []
        → (c : Config) × (a.m_config ≡ some c)
          × Renders rj sys chain base
              (image rj sys c (shared rj sys n' a))
              (if modified then save_nonces rj sys (shared rj sys n' a) else shared rj sys n' a)
              (on_http_data rj sys now response a)
    sync_done-Renders modified told = (
      o.config,
      o.configured,
      subst
          (Renders rj sys chain base (image rj sys o.config (shared rj sys n' a))
            (if modified then save_nonces rj sys (shared rj sys n' a) else shared rj sys n' a))
          (sym (
            deliver rj sys now response a n n' e heard quiet
            ∙ ap (λ ts. on_notices rj sys ts (shared rj sys n' a)) told
            ∙ on_notices_done rj sys modified (shared rj sys n' a)))
          (on_sync_done-Renders rj sys chain base modified o.config (shared rj sys n' a)
            o.configured),
    )

    shared-IsOnline :
        IsSyncing chain base n'
        → (on_http_data rj sys now response a ≡ some (shared rj sys n' a))
          × IsOnline rj sys chain base (shared rj sys n' a)
    shared-IsOnline s = (
      deliver rj sys now response a n n' e heard quiet
          ∙ ap (λ ts. on_notices rj sys ts (shared rj sys n' a)) s.running.quiet
          ∙ on_notices_none rj sys (shared rj sys n' a),
      record {
        n = n';
        network = refl;
        phase = inr s;
        nonces = refl;
        config = o.config;
        configured = o.configured;
        signals = o.signals;
        console = o.console;
      },
    )

  phase-quiet : (n : Network) → IsReady chain base n ⊎ IsSyncing chain base n → n.notices ≡ []
  phase-quiet n (inl r) = r.quiet
  phase-quiet n (inr s) = s.running.quiet

  -- a range is in flight only in a download
  event-IsSyncing :
      (n : Network) (response : HttpData)
      → Event rj chain n response
      → IsReady chain base n ⊎ IsSyncing chain base n
      → IsSyncing chain base n
  unfolding Dict.find
  event-IsSyncing n response ev (inr s) = s
  event-IsSyncing n response (answered id r doc found a c) (inl w) =
      absurd (ground (arith, found, w.no_req))
  event-IsSyncing n response (Runs.failed r found f) (inl w) =
      absurd (ground (arith, found, w.no_req))

  hears-Heard :
      (now : ℕ) (response : HttpData) (a : App rj) (n : Network)
      → IsOnline rj sys chain base a
      → a.m_network ≡ some n
      → IsReady chain base n ⊎ IsSyncing chain base n
      → Hears rj sys chain base n response
      → Heard rj sys chain base a n now response (on_http_data rj sys now response a)
  hears-Heard now response a n o e phase (header doc ready heads narrow) =
      let (n', heard, outcome) =
        header_outcome rj chain base now response doc n ready heads narrow in
      (
        n',
        heard,
        elim outcome [
          | inl (low, told) ↦ inr (
              inl (
                inr (doc, heads, low),
                fatal_error-Stops now response a o n e ready.quiet n' heard told,
              ))
          | inr (inl (level, told, known)) ↦ inr (
              inr (
                inr (
                  (doc, heads, level),
                  known,
                  sync_done-Renders now response a o n e ready.quiet n' heard false told,
                )))
          | inr (inr (_, _, s)) ↦ inl (shared-IsOnline now response a o n e ready.quiet n' heard s)
        ],
      )
  hears-Heard now response a n o e phase (event room ev) =
      let s = event-IsSyncing n response ev phase in
      let quiet = s.running.quiet in
      let (n', heard, outcome) = event_outcome rj chain s room now response ev in
      (
        n',
        heard,
        elim outcome [
          | inl s' ↦ inl (shared-IsOnline now response a o n e quiet n' heard s')
          | inr d ↦
              inr (inr (inl (d, sync_done-Renders now response a o n e quiet n' heard true d.told)))
        ],
      )
  hears-Heard now response a n o e phase (unusable u f) =
      let quiet = phase-quiet n phase in
      let heard = on_http_data-Unusable rj now response n u f in
      (
        notify n fatal_error,
        heard,
        inr (
            inl (
              inl (u, f),
              fatal_error-Stops now response a o n e quiet (notify n fatal_error) heard
                  (rw quiet refl),
            )),
      )

  signal-After :
      (signum : ℕ) (a : App rj)
      → let r = some (on_signal rj sys signum a) in
        (((signum ≡ 1) ⊎ (signum ≡ 2) ⊎ (signum ≡ 15)) × Stops rj sys chain base 0 a.files r)
        ⊎ ((signum ≢ 1) × (signum ≢ 2) × (signum ≢ 15) × (r ≡ some a))
  unfolding on_signal
  signal-After signum a = elim (Bool-cases ((signum == 1) || ((signum == 15) || (signum == 2)))) [
    | inl e ↦ inl (
      ground (arith, e),
      (close rj sys 0 a, rw (e, on_signal), close-HasStopped rj sys chain base 0 a, refl),
    )
    | inr e ↦ inr (
      λ s. absurd (ground (arith, e, s)),
      λ s. absurd (ground (arith, e, s)),
      λ s. absurd (ground (arith, e, s)),
      rw (e, on_signal),
    )
  ]

  command-After :
      (command : ℕ) (a : App rj)
      → let r = some (on_console_command rj sys command a) in
        ((command ≡ 3) × Stops rj sys chain base 0 a.files r) ⊎ ((command ≢ 3) × (r ≡ some a))
  unfolding on_console_command
  command-After command a = elim (Bool-cases (command == 3)) [
    | inl e ↦ inl (
      ground (arith, e),
      (close rj sys 0 a, rw (e, on_console_command), close-HasStopped rj sys chain base 0 a, refl),
    )
    | inr e ↦ inr (λ s. absurd (ground (arith, e, s)), rw (e, on_console_command))
  ]

  pub Step-After :
      {a : App rj} {r : Option (App rj)} (s : Step rj sys chain base a r)
      → IsOnline rj sys chain base a
      → After rj sys chain base s
  Step-After {a} (responded n e now response h) o =
      hears-Heard now response a n o e
        (subst (λ m. IsReady chain base m ⊎ IsSyncing chain base m) (some_unique o.network e)
          o.phase)
        h
  Step-After {a} (signalled listening signum) o = signal-After signum a
  Step-After {a} (typed listening command) o = command-After command a
