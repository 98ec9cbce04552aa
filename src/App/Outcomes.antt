-- ===== src/App/Outcomes.antt =====
-- How the program ends.
use xmrig_nonces_heatmap.Prelude.{
  ℕ, ◌+◌, ◌^◌, ◌≡◌, ◌<◌, refl, ap, ◌∙◌, Bytes, ◌⊎◌, inl, inr, Bool, true, [], ◌∷◌, map, some, arith,
  Option-cases, if◌then◌else◌, eq_bytes,
}
use xmrig_nonces_heatmap.Dict
use xmrig_nonces_heatmap.Dict.{Dict}
use xmrig_nonces_heatmap.Json.{RapidJson}
use xmrig_nonces_heatmap.String
use xmrig_nonces_heatmap.Nonces
use xmrig_nonces_heatmap.Nonces.{Nonces}
use xmrig_nonces_heatmap.Config.{Config}
use xmrig_nonces_heatmap.HttpData.{HttpData}
use xmrig_nonces_heatmap.Network
use xmrig_nonces_heatmap.Heatmap
use xmrig_nonces_heatmap.Heatmap.{Heatmap, Drawing, Outcome}
use xmrig_nonces_heatmap.Network.{Network, Notice, fatal_error, sync_done}
use xmrig_nonces_heatmap.Network.Start.{IsSyncing}
use xmrig_nonces_heatmap.Network.Steps.{IsDone}
use xmrig_nonces_heatmap.Network.Runs.{Event, event_outcome}
use xmrig_nonces_heatmap.App.{
  App, System, render, render_and_close, on_sync_done, on_http_data, on_notices, shared, close,
}

module _ (rj : RapidJson) (sys : System) where
  pub render_and_close_lem :
      (a a' : App rj)
      → render_and_close rj sys a ≡ some a'
      → (done : Bool) × (b : App rj) × (render rj sys a ≡ some (done, b))
        × (a' ≡ close rj sys (if done then 0 else 1) b)
  unfolding render_and_close
  render_and_close_lem a a' e = elim (Option-cases (render rj sys a)) [
    | inl bad ↦ absurd (ground (arith, bad, e))
    | inr ((done, b), good) ↦ (done, b, good, ground (arith, good, e))
  ]

  pub deliver :
      (now : ℕ) (response : HttpData) (a : App rj) (n n' : Network)
      → a.m_network ≡ some n
      → Network.on_http_data rj now response n ≡ some n'
      → n.notices ≡ []
      → on_http_data rj sys now response a ≡ on_notices rj sys n'.notices (shared rj sys n' a)
  unfolding on_http_data
  deliver now response a n n' running e quiet = rw (running, e, quiet, on_http_data)

  pub on_notices_done :
      (modified : Bool) (a : App rj)
      → on_notices rj sys (sync_done modified ∷ []) a ≡ on_sync_done rj sys modified a
  unfolding on_notices
  on_notices_done modified a = elim (Option-cases (on_sync_done rj sys modified a)) [
    | inl e ↦ rw (e, on_notices)
    | inr (b, e) ↦ rw (e, on_notices)
  ]

  pub on_notices_none : (a : App rj) → on_notices rj sys [] a ≡ some a
  unfolding on_notices
  on_notices_none a = refl

  module _ {chain : ℕ → ℕ} {base : ℕ} {n : Network} (v : IsSyncing chain base n)
      (room : n.next_id + 1 < 2 ^ 64) where
    -- While a download runs, an answer of the daemon or a failed connection leaves the download
    -- running; or the download is over, the vector of nonces is the chain's up to the last height,
    -- and the program saves it and renders it.
    reply_outcome :
        (now : ℕ) (response : HttpData) (a : App rj)
        → a.m_network ≡ some n
        → Event rj chain n response
        → (n' : Network) × ((IsSyncing chain base n'
              × (on_http_data rj sys now response a ≡ some (shared rj sys n' a)))
            ⊎ (IsDone chain n'
                × (on_http_data rj sys now response a
                    ≡ on_sync_done rj sys true (shared rj sys n' a))))
    reply_outcome now response a running event =
        let (n', e, outcome) = event_outcome rj chain v room now response event in
        let quiet : n.notices ≡ [] = v.running.quiet in
        let delivered = deliver now response a n n' running e quiet in
        (
          n',
          elim outcome [
            | inl s ↦ inl (
              s,
              delivered
                  ∙ ap (λ ts. on_notices rj sys ts (shared rj sys n' a)) s.running.quiet
                  ∙ on_notices_none (shared rj sys n' a),
            )
            | inr d ↦ inr (
              d,
              delivered
                  ∙ ap (λ ts. on_notices rj sys ts (shared rj sys n' a)) d.told
                  ∙ on_notices_done true (shared rj sys n' a),
            )
          ],
        )

  -- the outcome of `Heatmap::render` for the job and the nonces of the program
  abbrev pub image : Config → App rj → Outcome (Heatmap × Drawing)
  image c a =
      Heatmap.render sys.builtin sys.getenv sys.encode (Heatmap.heatmap c.m_job a.m_nonces.m_data)

  abbrev pub nonces_file : App rj → Bytes
  nonces_file a = String.c_str (String.bytes a.m_nonces.m_file)

  -- the document that `Nonces::save` writes
  abbrev pub array : App rj → RapidJson.Value rj
  array a = rj.array (map rj.of_uint a.m_nonces.m_data)
