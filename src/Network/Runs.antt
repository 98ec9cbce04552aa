-- ===== src/Network/Runs.antt =====
-- Whole downloads: the responses of a daemon that follows a chain, in any order and with any
-- failures of connections in between.
use xmrig_nonces_heatmap.Prelude.{
  ℕ, suc, ◌+◌, ◌^◌, ◌≤◌, ◌<◌, ◌≡◌, subst, ◌⊎◌, inl, inr, [], some, arith, eq_nat, some_unique,
}
use xmrig_nonces_heatmap.Dict
use xmrig_nonces_heatmap.Json.{RapidJson}
use xmrig_nonces_heatmap.HttpData.{HttpData}
use xmrig_nonces_heatmap.Network.{Range, Network, on_http_data}
use xmrig_nonces_heatmap.Network.Start.{IsSyncing, work}
use xmrig_nonces_heatmap.Network.Steps.{IsDone, take_headers-IsSyncing}
use xmrig_nonces_heatmap.Network.Retry.{Fails, fail-IsSyncing}
use xmrig_nonces_heatmap.Network.Reply.{Answers, Carries, on_http_data-take_headers}

module _ (rj : RapidJson) (chain : ℕ → ℕ) where
  -- what can come in: the answer to a request in flight, or the failure of its connection
  pub data Event (n : Network) (response : HttpData) : Type 0 where
    answered :
        (id : ℕ) (r : Range) (doc : RapidJson.Value rj)
        → Dict.find id n.m_req ≡ some r
        → Answers rj chain id r doc
        → Carries rj doc response
        → Event n response
    failed :
        (r : Range) → Dict.find response.rpc_id n.m_req ≡ some r → Fails response → Event n response

  module _ {base : ℕ} {n : Network} (v : IsSyncing chain base n)
      (room : n.next_id + 1 < 2 ^ 64) where
    -- An answer is taken, without an exception, and there is less to come afterwards.
    pub answer-IsSyncing :
        (now id : ℕ) (response : HttpData) (doc : RapidJson.Value rj) (r : Range)
        → Dict.find id n.m_req ≡ some r
        → Answers rj chain id r doc
        → Carries rj doc response
        → (n' : Network) × (on_http_data rj now response n ≡ some n')
          × ((IsSyncing chain base n' × (work rj n' < work rj n)) ⊎ IsDone chain n')
    answer-IsSyncing now id response doc r found a c =
        let (n', e, outcome) =
          take_headers-IsSyncing rj v.running id r found _ a.honest a.complete room v.limit in
        (n', on_http_data-take_headers rj now id response doc r chain n n' c a found e, outcome)

    pub event_outcome :
        (now : ℕ) (response : HttpData)
        → Event n response
        → (n' : Network) × (on_http_data rj now response n ≡ some n')
          × (IsSyncing chain base n' ⊎ IsDone chain n')
    event_outcome now response (answered id r doc found a c) =
        let (n', e, outcome) = answer-IsSyncing now id response doc r found a c in
        (n', e, elim outcome [ inl (s, _) ↦ inl s | inr d ↦ inr d ])
    event_outcome now response (failed r found f) =
        let (n', e, s, _) = fail-IsSyncing rj now response r v f found room in (n', e, inl s)

  -- A run of the handler, as long as the listener has not been told of an end.
  pub data Run (s : Network) : Network → Type 0 where
    here : Run s s
    next :
        {n n' : Network} (now : ℕ) (response : HttpData)
        → Run s n
        → n.notices ≡ []
        → n.next_id + 1 < 2 ^ 64
        → Event n response
        → on_http_data rj now response n ≡ some n'
        → Run s n'

  -- The same with answers only, `k` of them.
  pub data Answered (s : Network) : ℕ → Network → Type 0 where
    none_yet : Answered s 0 s
    one_more :
        {k : ℕ} {n n' : Network} (now id : ℕ) (response : HttpData) (doc : RapidJson.Value rj)
        (r : Range)
        → Answered s k n
        → n.notices ≡ []
        → n.next_id + 1 < 2 ^ 64
        → Dict.find id n.m_req ≡ some r
        → Answers rj chain id r doc
        → Carries rj doc response
        → on_http_data rj now response n ≡ some n'
        → Answered s (suc k) n'

  not_quiet : {n : Network} → IsDone chain n → n.notices ≡ [] → ⊥
  not_quiet d e = cc (d.told)

  module _ {base : ℕ} {s : Network} (v : IsSyncing chain base s) where
    -- In every run of `onHttpData` from a download on, whose responses are complete answers of a
    -- daemon that follows the chain, or failed connections of ranges in flight, in any order and
    -- number: the download goes on, with at least one request in flight and at most `concurrency`,
    -- and each block from `base` on that was asked for in `m_data` or in a range in flight; or it is
    -- over, the listener has heard `onSyncDone(true)` and nothing else, and the nonces are the
    -- chain's up to the last height.
    pub run_outcome : {n : Network} → Run s n → IsSyncing chain base n ⊎ IsDone chain n
    run_outcome here = inl v
    run_outcome (next now response r quiet room event e) = elim (run_outcome r) [
      | inl w ↦
          let (m, e', outcome) = event_outcome w room now response event in
          subst (λ x. IsSyncing chain base x ⊎ IsDone chain x) (some_unique e' e) outcome
      | inr d ↦ absurd (not_quiet d quiet)
    ]

    -- If no connection fails, the number of answers is bounded from the start of the run: by twice
    -- the number of blocks from `m_pos` to the last height, and one for each request in flight. As
    -- long as the download is not over, what has been taken and what is left stay in this bound.
    pub replies_bound :
        {k : ℕ} {n : Network}
        → Answered s k n
        → (IsSyncing chain base n × (k + work rj n ≤ work rj s))
          ⊎ (IsDone chain n × (k ≤ work rj s))
    replies_bound none_yet = inl (v, omega arith)
    replies_bound (one_more {k = k} now id response doc r run quiet room found a c e) =
        elim (replies_bound run) [
          | inl (w, bound) ↦
              let (m, e', outcome) = answer-IsSyncing w room now id response doc r found a c in
              let same = some_unique e' e in
              elim outcome [
                | inl (x, less) ↦ inl (
                  subst (IsSyncing chain base) same x,
                  subst (λ (y : Network). suc k + work rj y ≤ work rj s) same (omega arith),
                )
                | inr d ↦ inr (subst (IsDone chain) same d, omega (arith, w.busy))
              ]
          | inr (d, bound) ↦ absurd (not_quiet d quiet)
        ]
