-- ===== src/Network/Retry.antt =====
-- `onHttpData` for a range whose connection failed: it is asked for again under a new id.
use native.Mathlib.Decide.{ℕ_discrete as dec_eq}
use xmrig_nonces_heatmap.Prelude.{
  ℕ, ◌+◌, ◌^◌, ◌≤◌, ◌<◌, ◌≡◌, ◌↔◌, ap, none, [], ◌∷◌, ◌++◌, ◌==◌, if◌then◌else◌, inl, inr, true,
  some, arith, is_negative, eq_nat, subst, max,
}
use xmrig_nonces_heatmap.Dict
use xmrig_nonces_heatmap.Dict.{Dict}
use xmrig_nonces_heatmap.Daemon.{Daemon}
use xmrig_nonces_heatmap.Json.{RapidJson}
use xmrig_nonces_heatmap.HttpData.{HttpData}
use xmrig_nonces_heatmap.Network.{Range, Network, get_range, block_headers_range, on_http_data}
use xmrig_nonces_heatmap.Network.Coverage.{InFlight}
use xmrig_nonces_heatmap.Network.Ranges.{
  IsRunning, Requests, get_range-Requests, find_next, find_request, find_older, request-IsRunning,
}
use xmrig_nonces_heatmap.Network.Asks.{asks, get_range-sent}
use xmrig_nonces_heatmap.Network.Start.{IsSyncing, size_pos_of_find}

-- a response of a range request that failed before there was a status
pub record Fails (response : HttpData) : Type 0 where
  pub type : response.user_type ≡ block_headers_range
  pub status : is_negative response.status ≡ true

-- `m_req.erase(it)`
abbrev pub dropped : ℕ → Network → Network
dropped id n = record n { m_req = Dict.erase id n.m_req }

module _ (rj : RapidJson) (id : ℕ) (r : Range) {chain : ℕ → ℕ} {base top : ℕ} {n : Network}
    (v : IsRunning chain base top n) (found : Dict.find id n.m_req ≡ some r)
    (room : n.next_id + 1 < 2 ^ 64) where
  again : Network
  again = (get_range rj r n).1

  retry-Requests : Requests r n again
  unfolding again
  retry-Requests =
      get_range-Requests rj r n room
        (omega (arith, v.asked id r found, v.below, v.narrow, v.ranged))

  again-IsRunning : IsRunning chain base (max top (r.end + 1)) again
  again-IsRunning =
      let (a, b) = v.asked id r found in
      request-IsRunning v r retry-Requests (omega arith) a (omega (arith, v.below))

  -- the new request is another one
  find_again : Dict.find (n.next_id + 1) (Dict.erase id again.m_req) ≡ some r
  find_again = ground (
    arith,
    v.fresh id r found,
    find_request v r retry-Requests,
    Dict.find-erase id (n.next_id + 1) again.m_req,
  )

  find_kept :
      (id' : ℕ) (r' : Range)
      → Dict.find id' (Dict.erase id again.m_req) ≡ some r'
      → Dict.find id' again.m_req ≡ some r'
  find_kept id' r' e = ground (arith, Dict.find-erase id id' again.m_req)

  still_covered : (h : ℕ) → InFlight h again.m_req → InFlight h (Dict.erase id again.m_req)
  still_covered h (id', r', e, a, b) = elim (dec_eq id id') [
    | yes same ↦
        let same_range : r' ≡ r = ground (arith, found, find_older v r retry-Requests id r found) in
        (
          n.next_id + 1,
          r,
          find_again,
          subst (λ (x : Range). x.start ≤ h) same_range a,
          subst (λ (x : Range). h ≤ x.end) same_range b,
        )
    | no other ↦ (id', r', ground (arith, Dict.find-erase id id' again.m_req), a, b)
  ]

  dropped-IsRunning : IsRunning chain base (max top (r.end + 1)) (dropped id again)
  dropped-IsRunning =
      let w = again-IsRunning in
      record {
        nonces = w.nonces;
        honest = w.honest;
        covered =
            λ h lo hi. elim (w.covered h lo hi) [ inl e ↦ inl e | inr f ↦ inr (still_covered h f) ];
        fresh = λ id' r' e. w.fresh id' r' (find_kept id' r' e);
        asked = λ id' r' e. w.asked id' r' (find_kept id' r' e);
        below = w.below;
        behind = w.behind;
        started = w.started;
        parallel = w.parallel;
        ranged = w.ranged;
        narrow = w.narrow;
        quiet = w.quiet;
      }

  retry-IsSyncing :
      Dict.size n.m_req ≤ n.m_daemon.m_concurrency → IsSyncing chain base (dropped id again)
  retry-IsSyncing limit = record {
    top = max top (r.end + 1);
    running = dropped-IsRunning;
    limit = omega (
      arith,
      Dict.size-erase-lt id again.m_req (find_older v r retry-Requests id r found),
      ap (λ (m : Dict ℕ Range). Dict.size m) retry-Requests.req,
      Dict.size-insert-le (n.next_id + 1) r n.m_req,
      ap (λ (x : Daemon). x.m_concurrency) retry-Requests.daemon,
    );
    busy = size_pos_of_find (n.next_id + 1) _ find_again;
  }

-- A range was asked for again under the next id, in the place of the request `id`: the request for
-- it is the one that was sent last, the ranges in flight are the same, and nothing else is new.
pub record IsAskedAgain (rj : RapidJson) (id : ℕ) (r : Range) (n n' : Network) : Type 0 where
  pub sent : n'.sent ≡ n.sent ++ asks rj n.m_daemon (n.next_id + 1) r ∷ []
  pub requests :
      (j : ℕ)
      → Dict.find j n'.m_req
        ≡ (if j == n.next_id + 1 then some r else if j == id then none else Dict.find j n.m_req)
  pub in_flight : (h : ℕ) → InFlight h n'.m_req ↔ InFlight h n.m_req
  pub pos : n'.m_pos ≡ r.end + 1
  pub next_id : n'.next_id ≡ n.next_id + 1
  pub data' : n'.m_data ≡ n.m_data
  pub nonces : n'.m_nonces ≡ n.m_nonces
  pub height : n'.m_height ≡ n.m_height
  pub daemon : n'.m_daemon ≡ n.m_daemon
  pub notices : n'.notices ≡ n.notices

module _ (rj : RapidJson) (id : ℕ) (r : Range) {chain : ℕ → ℕ} {base top : ℕ} {n : Network}
    (v : IsRunning chain base top n) (found : Dict.find id n.m_req ≡ some r)
    (room : n.next_id + 1 < 2 ^ 64) where
  retry_requests :
      (j : ℕ)
      → Dict.find j (dropped id (again rj id r v found room)).m_req
        ≡ (if j == n.next_id + 1 then some r else if j == id then none else Dict.find j n.m_req)
  retry_requests j =
      let q = retry-Requests rj id r v found room in
      ground (
        arith,
        q.req,
        v.fresh id r found,
        find_next v,
        Dict.find-insert (n.next_id + 1) j r n.m_req,
        Dict.find-erase id j (again rj id r v found room).m_req,
      )

  -- the same ranges are in flight
  retry-InFlight :
      (h : ℕ) → InFlight h (dropped id (again rj id r v found room)).m_req ↔ InFlight h n.m_req
  retry-InFlight h = (
    λ (j, r', e, a, b). elim (dec_eq j (n.next_id + 1)) [
      | yes new ↦
          let same : r' ≡ r = ground (arith, retry_requests j, e) in
          (
            id,
            r,
            found,
            subst (λ (x : Range). x.start ≤ h) same a,
            subst (λ (x : Range). h ≤ x.end) same b,
          )
      | no old ↦ (j, r', ground (arith, retry_requests j, e), a, b)
    ],
    λ (j, r', e, a, b).
        still_covered rj id r v found room h
          (j, r', find_older v r (retry-Requests rj id r v found room) j r' e, a, b),
  )

  retry-IsAskedAgain : IsAskedAgain rj id r n (dropped id (again rj id r v found room))
  unfolding again
  retry-IsAskedAgain =
      let q = retry-Requests rj id r v found room in
      record {
        sent = get_range-sent rj r n room;
        requests = retry_requests;
        in_flight = retry-InFlight;
        pos = q.pos;
        next_id = q.id;
        data' = q.data';
        nonces = q.nonces;
        height = q.height;
        daemon = q.daemon;
        notices = q.notices;
      }

-- When the connection of a range in flight fails during a download, and the request counter does
-- not wrap, `onHttpData` throws nothing and hands exactly one more request to `fetch`, the one for the
-- same range under the next id, which takes the place of the failed one in `m_req`. The ranges in
-- flight are the same as before, the blocks received, the nonces and the last height are unchanged,
-- the listener is told nothing, and `m_pos` is set to the block behind that range, wherever it was.
-- The download goes on.
pub fail-IsSyncing :
    (rj : RapidJson) (now : ℕ) (response : HttpData) (r : Range) {chain : ℕ → ℕ} {base : ℕ}
    {n : Network}
    → IsSyncing chain base n
    → Fails response
    → Dict.find response.rpc_id n.m_req ≡ some r
    → n.next_id + 1 < 2 ^ 64
    → (n' : Network) × (on_http_data rj now response n ≡ some n')
      × IsSyncing chain base n'
      × IsAskedAgain rj response.rpc_id r n n'
unfolding on_http_data again
fail-IsSyncing rj now response r v f found room = (
  dropped response.rpc_id (again rj response.rpc_id r v.running found room),
  rw (f.type, f.status, found, on_http_data),
  retry-IsSyncing rj response.rpc_id r v.running found room v.limit,
  retry-IsAskedAgain rj response.rpc_id r v.running found room,
)
