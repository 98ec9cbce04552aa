-- ===== src/Network/Steps.antt =====
-- The handlers of responses: a reply to a range in flight, the retry of a range whose connection
-- failed, and `save` at the end.
use native.Mathlib.Decide.{ℕ_discrete as dec_eq}
use xmrig_nonces_heatmap.Prelude.{
  ℕ, ◌+◌, ◌-◌, ◌^◌, ◌≤◌, ◌<◌, ◌≡◌, refl, ap, ◌∙◌, subst, ◌⊎◌, inl, inr, true, false, List, [], ◌∷◌,
  ◌++◌, some, arith, eq_nat, length, Bool-cases, ltb, ltb→lt, lt→ltb, tests,
}
use xmrig_nonces_heatmap.Dict
use xmrig_nonces_heatmap.Dict.{Dict}
use xmrig_nonces_heatmap.Daemon.{Daemon}
use xmrig_nonces_heatmap.Json.{RapidJson}
use xmrig_nonces_heatmap.Network.{
  Range, Network, sync_done, collect, save, saved, insert_headers, take_headers, advance,
  get_next_range,
}
use xmrig_nonces_heatmap.Network.Coverage.{
  InFlight, AreHonest, Lists, segment, length-segment, segment-append, collect-segment,
  insert_headers-IsHonest, insert_headers_kept, insert_headers_listed,
}
use xmrig_nonces_heatmap.Network.Ranges.{IsRunning}
use xmrig_nonces_heatmap.Network.Start.{IsSyncing, work, get_next_range-IsRunning}

-- the download is over: the nonces are those of all blocks up to the last height
pub record IsDone (chain : ℕ → ℕ) (n : Network) : Type 0 where
  pub nonces : n.m_nonces ≡ segment chain 0 (n.m_height + 1)
  pub told : n.notices ≡ sync_done true ∷ []

size_zero_of_empty : (m : Dict ℕ Range) → Dict.empty m ≡ true → m ≡ []
size_zero_of_empty [] e = refl
size_zero_of_empty (a ∷ m) e = cc

size_pos_of_not_empty : (m : Dict ℕ Range) → Dict.empty m ≡ false → 0 < Dict.size m
size_pos_of_not_empty [] e = cc
size_pos_of_not_empty (a ∷ m) e = omega arith

not-InFlight-nil : (h : ℕ) → InFlight h [] → ⊥
unfolding Dict.find
not-InFlight-nil h (id, r, e, _, _) = cc

module _ {chain : ℕ → ℕ} {base top : ℕ} {n : Network} (v : IsRunning chain base top n) where
  -- with nothing in flight and every block asked for, `save` finds every nonce
  pub save-IsDone :
      Dict.empty n.m_req ≡ true
      → n.m_height < n.m_pos
      → (n' : Network) × (save n ≡ some n') × IsDone chain n'
  unfolding save
  save-IsDone none_left past = (
    saved n (segment chain base (n.m_height + 1 - base)),
    rw (collected, save),
    record {
      nonces =
          ap (λ (l : List ℕ). l ++ segment chain base (n.m_height + 1 - base)) v.nonces
          ∙ segment-append chain 0 base base (n.m_height + 1 - base) (omega arith)
          ∙ ap (segment chain 0) (omega (arith, v.started));
      told = rw v.quiet;
    },
  )
    where
      held :
          (h : ℕ)
          → base ≤ h
          → h < base + (n.m_height + 1 - base)
          → Dict.find h n.m_data ≡ some (chain h)
      held h lo hi = elim (v.covered h lo (omega (arith, v.behind, v.started))) [
        | inl e ↦ e
        | inr f ↦
            absurd
              (not-InFlight-nil h (subst (InFlight h) (size_zero_of_empty n.m_req none_left) f))
      ]

      count : length n.m_nonces ≡ base
      count = ap length v.nonces ∙ length-segment chain 0 base

      collected :
          collect n.m_data (n.m_height + 1 - length n.m_nonces) (length n.m_nonces)
          ≡ some (segment chain base (n.m_height + 1 - base))
      collected = rw count (collect-segment chain n.m_data (n.m_height + 1 - base) base held)

module _ (rj : RapidJson) {chain : ℕ → ℕ} {base top : ℕ} {n : Network}
    (v : IsRunning chain base top n) where
  -- after a reply the download saves, or asks for more, or waits for what is in flight
  pub advance-IsSyncing :
      n.next_id + 1 < 2 ^ 64
      → Dict.size n.m_req ≤ n.m_daemon.m_concurrency
      → (n' : Network) × (advance rj n ≡ some (true, n'))
        × ((IsSyncing chain base n' × (work rj n' ≤ work rj n)) ⊎ IsDone chain n')
  unfolding advance
  advance-IsSyncing room limit = elim (Bool-cases (Dict.empty n.m_req)) [
    | inl none_left ↦ elim (Bool-cases (ltb n.m_height n.m_pos)) [
      | inl past ↦
          let (n', e, d) = save-IsDone v none_left (ltb→lt _ _ past) in
          (n', rw (none_left, past, e, advance), inr d)
      | inr more ↦
          let idle : Dict.size n.m_req ≡ 0 =
            ap (λ (m : Dict ℕ Range). Dict.size m) (size_zero_of_empty n.m_req none_left) in
          let (top', v', e) = get_next_range-IsRunning rj n v room in
          (
            (get_next_range rj n).1,
            rw (none_left, more, idle, lt→ltb _ _ v.parallel),
            inl (
              record {
                top = top';
                running = v';
                limit =
                    omega
                      (arith, e.most, v.parallel, ap (λ (x : Daemon). x.m_concurrency) e.daemon);
                busy = e.busy (ground arith);
              },
              e.spent,
            ),
          )
    ]
    | inr some_left ↦ elim (Bool-cases (ltb (Dict.size n.m_req) n.m_daemon.m_concurrency)) [
      | inl free ↦
          let (top', v', e) = get_next_range-IsRunning rj n v room in
          (
            (get_next_range rj n).1,
            rw (some_left, free),
            inl (
              record {
                top = top';
                running = v';
                limit = omega (tests, e.most, free, ap (λ (x : Daemon). x.m_concurrency) e.daemon);
                busy = omega (arith, e.least, size_pos_of_not_empty n.m_req some_left);
              },
              e.spent,
            ),
          )
      | inr full ↦ (
        n,
        rw (some_left, full),
        inl (
          record {
            top = top;
            running = v;
            limit = limit;
            busy = size_pos_of_not_empty n.m_req some_left;
          },
          omega arith,
        ),
      )
    ]
  ]

-- the state of `take_headers` after the headers went into `m_data` and the request out of `m_req`
abbrev pub taken : (rj : RapidJson) → ℕ → List (RapidJson.Value rj) → Network → Network
taken rj id headers n = record n {
  m_data = insert_headers rj headers n.m_data;
  m_req = Dict.erase id n.m_req;
}

module _ (rj : RapidJson) {chain : ℕ → ℕ} {base top : ℕ} {n : Network}
    (v : IsRunning chain base top n) (id : ℕ) (r : Range) (found : Dict.find id n.m_req ≡ some r)
    (headers : List (RapidJson.Value rj)) (honest : AreHonest chain rj headers)
    (complete : (h : ℕ) → r.start ≤ h → h ≤ r.end → Lists chain rj h headers) where
  taken_covered :
      (h : ℕ)
      → base ≤ h
      → h < top
      → (Dict.find h (taken rj id headers n).m_data ≡ some (chain h))
        ⊎ InFlight h (taken rj id headers n).m_req
  taken_covered h lo hi = elim (v.covered h lo hi) [
    | inl e ↦ inl (insert_headers_kept chain rj headers n.m_data h e)
    | inr (id', r', e, a, b) ↦ elim (dec_eq id id') [
      | yes same ↦
          let same_range : r' ≡ r = ground arith in
          inl (
            insert_headers_listed chain rj headers n.m_data h honest v.honest (
              complete h (subst (λ (x : Range). x.start ≤ h) same_range a)
                (subst (λ (x : Range). h ≤ x.end) same_range b)))
      | no other ↦ inr (id', r', ground (arith, Dict.find-erase id id' n.m_req), a, b)
    ]
  ]

  taken_find :
      (id' : ℕ) (r' : Range)
      → Dict.find id' (Dict.erase id n.m_req) ≡ some r'
      → Dict.find id' n.m_req ≡ some r'
  taken_find id' r' e = ground (arith, Dict.find-erase id id' n.m_req)

  taken-IsRunning : IsRunning chain base top (taken rj id headers n)
  taken-IsRunning = record {
    nonces = v.nonces;
    honest = insert_headers-IsHonest chain rj headers n.m_data honest v.honest;
    covered = taken_covered;
    fresh = λ id' r' e. v.fresh id' r' (taken_find id' r' e);
    asked = λ id' r' e. v.asked id' r' (taken_find id' r' e);
    below = v.below;
    behind = v.behind;
    started = v.started;
    parallel = v.parallel;
    ranged = v.ranged;
    narrow = v.narrow;
    quiet = v.quiet;
  }

  -- a complete reply is stored, and the download goes on or is over
  pub take_headers-IsSyncing :
      n.next_id + 1 < 2 ^ 64
      → Dict.size n.m_req ≤ n.m_daemon.m_concurrency
      → (n' : Network) × (take_headers rj id headers n ≡ some (true, n'))
        × ((IsSyncing chain base n' × (work rj n' < work rj n)) ⊎ IsDone chain n')
  unfolding take_headers
  take_headers-IsSyncing room limit =
      let less : Dict.size (Dict.erase id n.m_req) < Dict.size n.m_req =
        Dict.size-erase-lt id n.m_req found in
      let (n', e, outcome) = advance-IsSyncing rj taken-IsRunning room (omega arith) in
      (n', e, elim outcome [ inl (s, w) ↦ inl (s, omega arith) | inr d ↦ inr d ])
