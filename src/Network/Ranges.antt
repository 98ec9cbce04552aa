-- ===== src/Network/Ranges.antt =====
-- `getBlockHeadersRange`, `sync`, and the invariant of a download.
use native.Mathlib.Decide.{dec_lt}
use xmrig_nonces_heatmap.Prelude.{
  ℕ, ◌+◌, ◌^◌, ◌≤◌, ◌<◌, ◌≡◌, refl, sym, ap, ◌∙◌, subst, ◌⊎◌, inl, inr, [], none, some, arith,
  eq_nat, max, Option-cases,
}
use xmrig_nonces_heatmap.Dict
use xmrig_nonces_heatmap.Dict.{Dict}
use xmrig_nonces_heatmap.Json.{RapidJson}
use xmrig_nonces_heatmap.Network.{Range, Network, get_range}
use xmrig_nonces_heatmap.Network.Coverage.{IsHonest, InFlight, segment}

-- A download of the blocks from `base` on. The blocks below `top` were asked for: `top` is how far
-- the requests have got, also where `m_pos` has gone back since.
pub record IsRunning (chain : ℕ → ℕ) (base top : ℕ) (n : Network) : Type 0 where
  pub nonces : n.m_nonces ≡ segment chain 0 base
  pub honest : IsHonest chain n.m_data
  pub covered :
      (h : ℕ) → base ≤ h → h < top → (Dict.find h n.m_data ≡ some (chain h)) ⊎ InFlight h n.m_req
  pub fresh : (id : ℕ) (r : Range) → Dict.find id n.m_req ≡ some r → id ≤ n.next_id
  pub asked :
      (id : ℕ) (r : Range) → Dict.find id n.m_req ≡ some r → (r.start ≤ r.end) × (r.end < top)
  pub below : top ≤ n.m_height + 1
  pub behind : n.m_pos ≤ top
  pub started : base ≤ n.m_height
  pub parallel : 1 ≤ n.m_daemon.m_concurrency
  pub ranged : 1 ≤ n.m_daemon.m_max_range
  pub narrow : n.m_height + n.m_daemon.m_max_range < 2 ^ 32
  pub quiet : n.notices ≡ []

-- what `getBlockHeadersRange(range)` changes
pub record Requests (range : Range) (n n' : Network) : Type 0 where
  pub req : n'.m_req ≡ Dict.insert (n.next_id + 1) range n.m_req
  pub pos : n'.m_pos ≡ range.end + 1
  pub id : n'.next_id ≡ n.next_id + 1
  pub data' : n'.m_data ≡ n.m_data
  pub nonces : n'.m_nonces ≡ n.m_nonces
  pub height : n'.m_height ≡ n.m_height
  pub daemon : n'.m_daemon ≡ n.m_daemon
  pub notices : n'.notices ≡ n.notices

module _ (rj : RapidJson) where
  pub get_range-Requests :
      (r : Range) (n : Network)
      → n.next_id + 1 < 2 ^ 64
      → r.end + 1 < 2 ^ 32
      → Requests r n (get_range rj r n).1
  unfolding get_range
  get_range-Requests r n room small = record {
    req = ap (λ id. Dict.insert id r n.m_req) (omega arith);
    pos = omega arith;
    id = omega arith;
    data' = refl;
    nonces = refl;
    height = refl;
    daemon = refl;
    notices = refl;
  }

module _ {chain : ℕ → ℕ} {base top : ℕ} {n : Network} (v : IsRunning chain base top n) where
  -- the id of the next request is not in use
  pub find_next : Dict.find (n.next_id + 1) n.m_req ≡ none
  find_next = elim (Option-cases (Dict.find (n.next_id + 1) n.m_req)) [
    | inl e ↦ e
    | inr (r, e) ↦ absurd (omega (arith, v.fresh _ r e))
  ]

  module _ {n' : Network} (r : Range) (q : Requests r n n') where
    pub find_request : Dict.find (n.next_id + 1) n'.m_req ≡ some r
    find_request =
        ground (arith, q.req, find_next, Dict.find-insert (n.next_id + 1) (n.next_id + 1) r n.m_req)

    pub find_older :
        (id : ℕ) (r' : Range) → Dict.find id n.m_req ≡ some r' → Dict.find id n'.m_req ≡ some r'
    find_older id r' e = ground (arith, q.req, Dict.find-insert (n.next_id + 1) id r n.m_req)

    find_cases :
        (id : ℕ) (r' : Range)
        → Dict.find id n'.m_req ≡ some r'
        → (Dict.find id n.m_req ≡ some r') ⊎ ((id ≡ n.next_id + 1) × (r' ≡ r))
    find_cases id r' e = ground (arith, q.req, Dict.find-insert (n.next_id + 1) id r n.m_req)

    request_covered :
        r.start ≤ top
        → (h : ℕ) → base ≤ h
        → h < max top (r.end + 1)
        → (Dict.find h n'.m_data ≡ some (chain h)) ⊎ InFlight h n'.m_req
    request_covered s h lo hi = elim (dec_lt h top) [
      | yes p ↦ elim (v.covered h lo p) [
        | inl e ↦ inl (ground (arith, q.data'))
        | inr (id, r', e, a, b) ↦ inr (id, r', find_older id r' e, a, b)
      ]
      | no p ↦ inr (n.next_id + 1, r, find_request, omega arith, omega arith)
    ]

    request_asked :
        r.start ≤ r.end
        → (id : ℕ) (r' : Range) → Dict.find id n'.m_req ≡ some r'
        → (r'.start ≤ r'.end) × (r'.end < max top (r.end + 1))
    request_asked some_block id r' e = elim (find_cases id r' e) [
      | inl old ↦ omega (arith, v.asked id r' old)
      | inr (_, new) ↦ rw new (omega arith)
    ]

    -- a request for blocks from `top` at most extends what was asked for
    pub request-IsRunning :
        r.start ≤ top
        → r.start ≤ r.end
        → r.end ≤ n.m_height
        → IsRunning chain base (max top (r.end + 1)) n'
    request-IsRunning s some_block t = record {
      nonces = q.nonces ∙ v.nonces;
      honest = subst (IsHonest chain) (sym q.data') v.honest;
      covered = request_covered s;
      fresh = λ id r' e. elim (find_cases id r' e) [
        | inl old ↦ omega (arith, v.fresh id r' old, q.id)
        | inr (new, _) ↦ omega (arith, q.id)
      ];
      asked = request_asked some_block;
      below = omega (arith, q.height, v.below);
      behind = omega (arith, q.pos);
      started = omega (arith, q.height, v.started);
      parallel = rw q.daemon v.parallel;
      ranged = rw q.daemon v.ranged;
      narrow = rw (q.daemon, q.height) v.narrow;
      quiet = q.notices ∙ v.quiet;
    }
