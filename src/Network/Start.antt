-- ===== src/Network/Start.antt =====
-- `getBlockHeadersRange()` and `sync`: the first requests of a download.
use xmrig_nonces_heatmap.Prelude.{
  ℕ, zero, suc, ◌+◌, ◌-◌, ◌*◌, ◌^◌, ◌≤◌, ◌<◌, ◌≡◌, refl, ap, ◌∙◌, ◌⊎◌, inl, inr, [], ◌∷◌, some,
  arith, eq_nat, max, Bool-cases, ltb, ltb→lt, length,
}
use xmrig_nonces_heatmap.Dict
use xmrig_nonces_heatmap.Dict.{Dict}
use xmrig_nonces_heatmap.Json.{RapidJson}
use xmrig_nonces_heatmap.Daemon.{Daemon}
use xmrig_nonces_heatmap.Network.{
  Range, Network, get_next_range, new_range, prepare, start_ranges, sync,
}
use xmrig_nonces_heatmap.Network.Coverage.{segment, length-segment}
use xmrig_nonces_heatmap.Network.Ranges.{
  IsRunning, Requests, get_range-Requests, find_request, request-IsRunning,
}

-- a download with something in flight, and within the limit of parallel requests
pub record IsSyncing (chain : ℕ → ℕ) (base : ℕ) (n : Network) : Type 0 where
  pub top : ℕ
  pub running : IsRunning chain base top n
  pub limit : Dict.size n.m_req ≤ n.m_daemon.m_concurrency
  pub busy : 0 < Dict.size n.m_req

pub size_pos_of_find :
    (k : ℕ) (m : Dict ℕ Range) {r : Range} → Dict.find k m ≡ some r → 0 < Dict.size m
unfolding Dict.find
size_pos_of_find k [] h = absurd (ground arith)
size_pos_of_find k (e ∷ m) h = omega arith

module _ (rj : RapidJson) where
  -- the range that is asked for next
  abbrev pub next_range : Network → Range
  next_range n = new_range n.m_pos n.m_daemon.m_max_range n.m_height

  -- it starts at `m_pos`, holds a block, and ends at the last height at most
  pub next_range_bounds :
      (n : Network)
      → n.m_pos ≤ n.m_height
      → n.m_height + n.m_daemon.m_max_range < 2 ^ 32
      → ((next_range n).start ≡ n.m_pos)
        × (n.m_pos ≤ (next_range n).end)
        × ((next_range n).end ≤ n.m_height)
  unfolding new_range
  next_range_bounds n p q = (refl, omega arith, omega arith)

  pub get_next_range_cases :
      (n : Network)
      → 1 ≤ n.m_daemon.m_max_range
      → n.m_height + n.m_daemon.m_max_range < 2 ^ 32
      → n.next_id + 1 < 2 ^ 64
      → ((n.m_height < n.m_pos) × ((get_next_range rj n).1 ≡ n))
        ⊎ ((n.m_pos ≤ n.m_height) × Requests (next_range n) n (get_next_range rj n).1)
  unfolding get_next_range
  get_next_range_cases n ranged narrow room = elim (Bool-cases (ltb n.m_height n.m_pos)) [
    | inl past ↦ inl (ltb→lt _ _ past, rw past)
    | inr more ↦
        let le : n.m_pos ≤ n.m_height = ground arith in
        inr (
          le,
          rw more (
              get_range-Requests rj (next_range n) n room
                (omega (arith, next_range_bounds n le narrow))),
        )
  ]

  -- an upper bound of the replies that are still to come if no connection fails
  abbrev pub work : Network → ℕ
  work n = 2 * (n.m_height + 1 - n.m_pos) + Dict.size n.m_req

  -- what a call of `getBlockHeadersRange()` keeps, and how far it may go
  pub record Extends (n n' : Network) : Type 0 where
    pub daemon : n'.m_daemon ≡ n.m_daemon
    pub height : n'.m_height ≡ n.m_height
    pub least : Dict.size n.m_req ≤ Dict.size n'.m_req
    pub most : Dict.size n'.m_req ≤ Dict.size n.m_req + 1
    pub id : n'.next_id ≤ n.next_id + 1
    pub busy : n.m_pos ≤ n.m_height → 0 < Dict.size n'.m_req
    pub spent : work n' ≤ work n

  module _ {chain : ℕ → ℕ} {base top : ℕ} (n : Network) (v : IsRunning chain base top n)
      (room : n.next_id + 1 < 2 ^ 64) where
    pub get_next_range-IsRunning :
        (top' : ℕ) × IsRunning chain base top' (get_next_range rj n).1
        × Extends n (get_next_range rj n).1
    get_next_range-IsRunning = elim (get_next_range_cases n v.ranged v.narrow room) [
      | inl (past, same) ↦ (
        top,
        rw same v,
        record {
          daemon = rw same;
          height = rw same;
          least = rw same (omega arith);
          most = rw same (omega arith);
          id = rw same (omega arith);
          busy = λ h. absurd (omega arith);
          spent = rw same (omega arith);
        },
      )
      | inr (more, q) ↦
          let (s, a, b) = next_range_bounds n more v.narrow in
          (
            max top ((next_range n).end + 1),
            request-IsRunning v (next_range n) q (omega (arith, v.behind)) (omega arith) b,
            record {
              daemon = q.daemon;
              height = q.height;
              least = rw q.req (Dict.size-le-insert _ _ n.m_req);
              most = rw q.req (Dict.size-insert-le _ _ n.m_req);
              id = omega (arith, q.id);
              busy = λ h. size_pos_of_find _ _ (find_request v (next_range n) q);
              spent =
                  rw (q.height, q.pos, q.req)
                    (omega (arith, a, Dict.size-insert-le (n.next_id + 1) (next_range n) n.m_req));
            },
          )
    ]

  pub start_ranges-IsRunning :
      {chain : ℕ → ℕ} {base : ℕ} (top i : ℕ) (n : Network)
      → IsRunning chain base top n
      → n.next_id + i < 2 ^ 64
      → (top' : ℕ) × IsRunning chain base top' (start_ranges rj i n)
        × ((start_ranges rj i n).m_daemon ≡ n.m_daemon)
        × (Dict.size n.m_req ≤ Dict.size (start_ranges rj i n).m_req)
        × (Dict.size (start_ranges rj i n).m_req ≤ Dict.size n.m_req + i)
  unfolding start_ranges
  start_ranges-IsRunning top zero n v room = (top, v, refl, omega arith, omega arith)
  start_ranges-IsRunning top (suc i) n v room =
      let (top', v', e) = get_next_range-IsRunning n v (omega arith) in
      let (top'', v'', d, a, b) =
        start_ranges-IsRunning top' i (get_next_range rj n).1 v' (omega (arith, e.id)) in
      (top'', v'', d ∙ e.daemon, omega (arith, e.least), omega (arith, e.most))

  start_ranges_busy :
      {chain : ℕ → ℕ} {base top : ℕ} (i : ℕ) (n : Network)
      → IsRunning chain base top n
      → n.next_id + i < 2 ^ 64
      → 1 ≤ i
      → n.m_pos ≤ n.m_height
      → 0 < Dict.size (start_ranges rj i n).m_req
  unfolding start_ranges
  start_ranges_busy zero n v room some_round more = absurd (omega arith)
  start_ranges_busy (suc i) n v room some_round more =
      let (top', v', e) = get_next_range-IsRunning n v (omega arith) in
      let (_, _, _, a, _) =
        start_ranges-IsRunning top' i (get_next_range rj n).1 v' (omega (arith, e.id)) in
      omega (arith, e.busy more)

  -- a state in which `sync` is called: the nonces are the chain's up to `base`
  module _ (chain : ℕ → ℕ) (base now : ℕ) (n : Network) (nonces : n.m_nonces ≡ segment chain 0 base)
      (no_data : n.m_data ≡ []) (no_req : n.m_req ≡ []) (quiet : n.notices ≡ [])
      (started : base ≤ n.m_height) (parallel : 1 ≤ n.m_daemon.m_concurrency)
      (ranged : 1 ≤ n.m_daemon.m_max_range)
      (narrow : n.m_height + n.m_daemon.m_max_range < 2 ^ 32) where
    position : (prepare now n).m_pos ≡ base
    unfolding prepare
    position = omega (arith, ap length nonces, length-segment chain 0 base)

    pub prepare-IsRunning : IsRunning chain base base (prepare now n)
    unfolding prepare Dict.find
    prepare-IsRunning = record {
      nonces = nonces;
      honest = λ h. inl (rw no_data);
      covered = λ h lo hi. absurd (omega arith);
      fresh = λ id r e. absurd (ground arith);
      asked = λ id r e. absurd (ground arith);
      below = omega arith;
      behind = omega (arith, position);
      started = started;
      parallel = parallel;
      ranged = ranged;
      narrow = narrow;
      quiet = quiet;
    }

    -- `sync` starts a download, if the request counter does not wrap.
    pub sync-IsSyncing :
        n.next_id + n.m_daemon.m_concurrency < 2 ^ 64 → IsSyncing chain base (sync rj now n)
    unfolding sync prepare
    sync-IsSyncing room =
        let c = n.m_daemon.m_concurrency in
        let (top, v, d, a, b) =
          start_ranges-IsRunning base c (prepare now n) prepare-IsRunning room in
        record {
          top = top;
          running = v;
          limit = omega (
            arith,
            ap (λ (x : Daemon). x.m_concurrency) d,
            ap (λ (x : Dict ℕ Range). Dict.size x) no_req,
          );
          busy =
              start_ranges_busy c (prepare now n) prepare-IsRunning room parallel
                (omega (arith, position));
        }
