-- ===== src/App/Renderings.antt =====
-- How a rendering stops the program.
use xmrig_nonces_heatmap.Prelude.{
  ℕ, ◌≡◌, refl, inl, inr, Bool, true, false, some, if◌then◌else◌, eq_nat,
}
use xmrig_nonces_heatmap.Json.{RapidJson}
use xmrig_nonces_heatmap.Config.{Config}
use xmrig_nonces_heatmap.Heatmap.{Heatmap, Drawing, Outcome, ok, throw, crash}
use xmrig_nonces_heatmap.App.{
  App, System, render, rendered, render_and_close, on_sync_done, close, save_nonces, save_info,
  exit_code,
}
use xmrig_nonces_heatmap.App.Outcomes.{image}
use xmrig_nonces_heatmap.App.Events.{HasStopped, Renders}

module _ (rj : RapidJson) (sys : System) (chain : ℕ → ℕ) (base : ℕ) where
  pub close-HasStopped : (rc : ℕ) (a : App rj) → HasStopped rj sys chain base rc (close rj sys rc a)
  unfolding exit_code
  close-HasStopped rc a = record { network = refl; signals = refl; console = refl; code = refl }

  render-rendered :
      (c : Config) (a : App rj) (outcome : Outcome (Heatmap × Drawing))
      → a.m_config ≡ some c
      → image rj sys c a ≡ outcome
      → render rj sys a ≡ rendered rj sys outcome a
  unfolding render
  render-rendered c a outcome configured e = simp (configured, e, render)

  render_and_close-Renders :
      (c : Config) (a : App rj) (outcome : Outcome (Heatmap × Drawing))
      → a.m_config ≡ some c
      → image rj sys c a ≡ outcome
      → Renders rj sys chain base outcome a (render_and_close rj sys a)
  unfolding render_and_close
  render_and_close-Renders c a (ok (h, d)) configured e = inl (
    (h, d),
    refl,
    (
      close rj sys 0 (save_info rj sys h a),
      rw (render-rendered c a (ok (h, d)) configured e, render_and_close),
      close-HasStopped 0 (save_info rj sys h a),
      refl,
    ),
  )
  render_and_close-Renders c a (throw err) configured e = inr (
      inl (
        err,
        refl,
        (
          close rj sys 1 a,
          rw (render-rendered c a (throw err) configured e, render_and_close),
          close-HasStopped 1 a,
          refl,
        ),
      ))
  render_and_close-Renders c a crash configured e =
      inr (inr (refl, rw (render-rendered c a crash configured e, render_and_close)))

  pub on_sync_done-Renders :
      (modified : Bool) (c : Config) (a : App rj)
      → a.m_config ≡ some c
      → Renders rj sys chain base
          (image rj sys c a)
          (if modified then save_nonces rj sys a else a)
          (on_sync_done rj sys modified a)
  unfolding on_sync_done
  on_sync_done-Renders true c a configured =
      render_and_close-Renders c (save_nonces rj sys a) (image rj sys c a) configured refl
  on_sync_done-Renders false c a configured =
      render_and_close-Renders c a (image rj sys c a) configured refl
