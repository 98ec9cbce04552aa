-- ===== src/App/Alive.antt =====
-- The life of a program that is online: nothing comes in once it has stopped.
use xmrig_nonces_heatmap.Prelude.{
  ℕ, Bytes, ◌≡◌, refl, sym, subst, ap, ◌∙◌, ◌⊎◌, inl, inr, false, Option, none, some, arith,
  some_unique, if◌then◌else◌, eq_nat,
}
use xmrig_nonces_heatmap.Json.{RapidJson}
use xmrig_nonces_heatmap.Nonces.{Nonces}
use xmrig_nonces_heatmap.Dict
use xmrig_nonces_heatmap.HttpData.{HttpData}
use xmrig_nonces_heatmap.Heatmap.{Heatmap, Drawing, Outcome}
use xmrig_nonces_heatmap.Network.{Network}
use xmrig_nonces_heatmap.App.{shared, save_nonces, App, System, save_config}
use xmrig_nonces_heatmap.App.Events.{
  Reach, Step, IsOnline, Stops, Renders, Heard, After, begun, then_step, responded, signalled,
  typed,
}
use xmrig_nonces_heatmap.App.Started.{run-online, online-IsOnline, save_config-keeps}
use xmrig_nonces_heatmap.App.Life.{Step-After}

module _ (rj : RapidJson) (sys : System) (chain : ℕ → ℕ) (base : ℕ) where
  -- what is true of every state: the program is online, or nothing can come in any more
  IsAlive : App rj → Type 0
  IsAlive a =
      IsOnline rj sys chain base a
      ⊎ ((a.m_network ≡ none) × (a.m_signals ≡ false) × (a.m_console ≡ false))

  Stops-IsAlive :
      (rc : ℕ) (files : Dict.Dict Bytes (RapidJson.Value rj)) (a : App rj)
      → Stops rj sys chain base rc files (some a)
      → IsAlive a
  unfolding IsAlive
  Stops-IsAlive rc files a (b, e, s, _) =
      subst IsAlive (sym (some_unique refl e)) (inr (s.network, s.signals, s.console))

  Renders-IsAlive :
      (outcome : Outcome (Heatmap × Drawing)) (before a : App rj)
      → Renders rj sys chain base outcome before (some a)
      → IsAlive a
  Renders-IsAlive outcome before a (inl (p, _, stops)) = Stops-IsAlive 0 _ a stops
  Renders-IsAlive outcome before a (inr (inl (e, _, stops))) = Stops-IsAlive 1 _ a stops
  Renders-IsAlive outcome before a (inr (inr (_, none'))) = absurd (ground (arith, none'))

  Heard-IsAlive :
      (a a' : App rj) (n : Network) (now : ℕ) (response : HttpData)
      → Heard rj sys chain base a n now response (some a')
      → IsAlive a'
  unfolding IsAlive
  Heard-IsAlive a a' n now response (n', _, inl (same, o)) =
      subst IsAlive (sym (some_unique refl same)) (inl o)
  Heard-IsAlive a a' n now response (n', _, inr (inl (_, stops))) = Stops-IsAlive 1 _ a' stops
  Heard-IsAlive a a' n now response (n', _, inr (inr (inl (_, (c, _, rendering))))) =
      Renders-IsAlive _ (save_nonces rj sys (shared rj sys n' a)) a' rendering
  Heard-IsAlive a a' n now response (n', _, inr (inr (inr (_, _, (c, _, rendering))))) =
      Renders-IsAlive _ (shared rj sys n' a) a' rendering

  After-IsAlive :
      {a a' : App rj} {r : Option (App rj)} (s : Step rj sys chain base a r)
      → IsOnline rj sys chain base a
      → After rj sys chain base s
      → r ≡ some a'
      → IsAlive a'
  unfolding IsAlive
  After-IsAlive {a} {a'} (responded n e now response h) o after same =
      Heard-IsAlive a a' n now response
        (subst (λ r. Heard rj sys chain base a n now response r) same after)
  After-IsAlive {a} {a'} (signalled listening signum) o (inl (_, stops)) same =
      Stops-IsAlive 0 _ a' (subst (Stops rj sys chain base 0 a.files) same stops)
  After-IsAlive {a} {a'} (signalled listening signum) o (inr (_, _, _, kept)) same =
      subst IsAlive (some_unique kept same) (inl o)
  After-IsAlive {a} {a'} (typed listening command) o (inl (_, stops)) same =
      Stops-IsAlive 0 _ a' (subst (Stops rj sys chain base 0 a.files) same stops)
  After-IsAlive {a} {a'} (typed listening command) o (inr (_, kept)) same =
      subst IsAlive (some_unique kept same) (inl o)

  -- nothing comes in at a program that has stopped
  Step-IsOnline :
      {a : App rj} {r : Option (App rj)}
      → Step rj sys chain base a r
      → IsAlive a
      → IsOnline rj sys chain base a
  unfolding IsAlive
  Step-IsOnline s (inl o) = o
  Step-IsOnline (responded n e now response h) (inr (network, _, _)) = absurd (cc)
  Step-IsOnline (signalled listening signum) (inr (_, signals, _)) = absurd (cc)
  Step-IsOnline (typed listening command) (inr (_, _, console)) = absurd (cc)

  Reach-IsAlive :
      {r : Option (App rj)} → Reach rj sys chain base r → (a : App rj) → r ≡ some a → IsAlive a
  unfolding IsAlive
  Reach-IsAlive (begun c next_id a0 a config signals console known small parallel ranged room e) b
        same =
      let (same_config, same_signals, same_console, same_nonces) =
        save_config-keeps rj sys chain base c a0 in
      subst IsAlive (some_unique refl same) (
        inl (
          subst (IsOnline rj sys chain base) (run-online rj sys chain base c next_id a0 a e) (
            online-IsOnline rj sys chain base c next_id
              (if c.m_auto_save then save_config rj sys c a0 else a0) (same_config ∙ config)
              (same_signals ∙ signals) (same_console ∙ console)
              (ap (λ (m : Nonces). m.m_data) same_nonces ∙ known) small parallel ranged room)))
  Reach-IsAlive (then_step {a} r s) b same =
      let o = Step-IsOnline s (Reach-IsAlive r a refl) in
      After-IsAlive s o (Step-After rj sys chain base s o) same

  -- From the start of the network on, whatever responses, signals and key strokes come in, in any
  -- order: when something comes in, the program is online, that is, it waits for the last header or
  -- downloads, and listens for signals and keys. SIGHUP, SIGINT, SIGTERM and Ctrl+C stop it with the
  -- code 0 and leave the files alone, other signals and keys change nothing. A response leaves it
  -- online; or the response cannot be used or names too low a last height, and the program stops with
  -- the code 1 and leaves the files alone; or the last height is reached, and the image of the nonces
  -- of the chain up to there is rendered, after saving the nonces if any was missing: then it stops
  -- with 0 and the saved information about the image, stops with 1 if the rendering throws, or
  -- crashes if the rendering does. Once it has stopped, with no network and no listener left that
  -- would keep the event loop running, nothing comes in. The responses are the reply with the last
  -- header, answers of a daemon that follows the chain or failed connections of ranges, and ones that
  -- cannot be used. The heights with `max_range` stay in 32 bits and the request counter does not
  -- wrap.
  pub Reach-After :
      {a : App rj} {r : Option (App rj)}
      → Reach rj sys chain base (some a)
      → (s : Step rj sys chain base a r) → IsOnline rj sys chain base a × After rj sys chain base s
  Reach-After {a} reached s =
      let o = Step-IsOnline s (Reach-IsAlive reached a refl) in
      (o, Step-After rj sys chain base s o)
