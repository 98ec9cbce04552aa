-- ===== src/Network/Sync.antt =====
-- `sync`: which requests it sends.
use xmrig_nonces_heatmap.Prelude.{
  ℕ, zero, suc, ◌+◌, ◌^◌, ◌≤◌, ◌<◌, ◌≡◌, refl, sym, ap, ◌∙◌, inl, inr, List, [], ◌∷◌, ◌++◌, map,
  append-nil, append_assoc, none, arith, Bool-cases, ltb, eq_nat,
}
use xmrig_nonces_heatmap.Dict
use xmrig_nonces_heatmap.Dict.{Dict}
use xmrig_nonces_heatmap.Json.{RapidJson}
use xmrig_nonces_heatmap.Network.{
  Range, Network, Sent, get_range, get_next_range, prepare, start_ranges, sync,
}
use xmrig_nonces_heatmap.Network.Ranges.{IsRunning, Requests, find_next, get_range-Requests}
use xmrig_nonces_heatmap.Network.Asks.{asks, get_range-sent}
use xmrig_nonces_heatmap.Network.Start.{
  IsSyncing, next_range, next_range_bounds, prepare-IsRunning, get_next_range-IsRunning,
  sync-IsSyncing,
}
use xmrig_nonces_heatmap.Network.Header.{IsReady}

-- a new key stands at the end
insert_fresh :
    (k : ℕ) (r : Range) (m : Dict ℕ Range)
    → Dict.find k m ≡ none
    → Dict.insert k r m ≡ m ++ (k, r) ∷ []
unfolding Dict.find Dict.insert
insert_fresh k r [] e = refl
insert_fresh k r ((j, w) ∷ m) e = ground (arith, insert_fresh k r m)

map_append :
    {A : Type 0} {B : Type 0} (f : A → B) (xs ys : List A) → map f (xs ++ ys) ≡ map f xs ++ map f ys
map_append f [] ys = refl
map_append f (x ∷ xs) ys = rw (map_append f xs ys)

module _ (rj : RapidJson) where
  -- the requests for the ranges in flight, in the order in which they were made
  abbrev pub all_asked : Network → List Sent
  all_asked n = map (λ (e : ℕ × Range). asks rj n.m_daemon e.0 e.1) n.m_req

  all_asked_request :
      {r : Range} {n n' : Network}
      → Requests r n n'
      → Dict.find (n.next_id + 1) n.m_req ≡ none
      → all_asked n' ≡ all_asked n ++ asks rj n.m_daemon (n.next_id + 1) r ∷ []
  all_asked_request {r} {n} q fresh =
      rw (q.daemon, q.req, insert_fresh (n.next_id + 1) r n.m_req fresh)
        (map_append (λ (e : ℕ × Range). asks rj n.m_daemon e.0 e.1) n.m_req
          ((n.next_id + 1, r) ∷ []))

  get_range-all_asked :
      (r : Range) (n : Network) (before : List Sent)
      → n.next_id + 1 < 2 ^ 64
      → r.end + 1 < 2 ^ 32
      → Dict.find (n.next_id + 1) n.m_req ≡ none
      → n.sent ≡ before ++ all_asked n
      → (get_range rj r n).1.sent ≡ before ++ all_asked (get_range rj r n).1
  get_range-all_asked r n before room small fresh e =
      get_range-sent rj r n room
      ∙ ap (λ s. s ++ asks rj n.m_daemon (n.next_id + 1) r ∷ []) e
      ∙ append_assoc before (all_asked n) (asks rj n.m_daemon (n.next_id + 1) r ∷ [])
      ∙ ap (λ s. before ++ s) (sym (all_asked_request (get_range-Requests rj r n room small) fresh))

  get_next_range-all_asked :
      {chain : ℕ → ℕ} {base top : ℕ} (n : Network) (before : List Sent)
      → IsRunning chain base top n
      → n.next_id + 1 < 2 ^ 64
      → n.sent ≡ before ++ all_asked n
      → (get_next_range rj n).1.sent ≡ before ++ all_asked (get_next_range rj n).1
  unfolding get_next_range
  get_next_range-all_asked n before v room e = elim (Bool-cases (ltb n.m_height n.m_pos)) [
    | inl past ↦ rw past e
    | inr more ↦
        let le : n.m_pos ≤ n.m_height = ground arith in
        rw more (
          get_range-all_asked (next_range rj n) n before room
            (omega (arith, next_range_bounds rj n le v.narrow, v.narrow, v.ranged)) (find_next v) e)
  ]

  start_ranges-all_asked :
      {chain : ℕ → ℕ} {base : ℕ} (top i : ℕ) (n : Network) (before : List Sent)
      → IsRunning chain base top n
      → n.next_id + i < 2 ^ 64
      → n.sent ≡ before ++ all_asked n
      → (start_ranges rj i n).sent ≡ before ++ all_asked (start_ranges rj i n)
  unfolding start_ranges
  start_ranges-all_asked top zero n before v room e = e
  start_ranges-all_asked top (suc i) n before v room e =
      let (top', v', extends) = get_next_range-IsRunning rj n v (omega arith) in
      start_ranges-all_asked top' i (get_next_range rj n).1 before v' (omega (arith, extends.id))
        (get_next_range-all_asked n before v (omega arith) e)

  -- `sync` starts a download. If the program is ready for one, the last height is that of the first
  -- block that is missing or a higher one, and its sum with `max_range` stays in 32 bits, then ranges
  -- are in flight, `concurrency` at most; and what `sync` handed to `fetch` is exactly the requests
  -- for the ranges in flight, each under its id, in the order in which they were made.
  pub sync-sent :
      (chain : ℕ → ℕ) (base now : ℕ) (n : Network)
      → IsReady chain base n
      → base ≤ n.m_height
      → n.m_height + n.m_daemon.m_max_range < 2 ^ 32
      → IsSyncing chain base (sync rj now n)
        × ((sync rj now n).sent ≡ n.sent ++ all_asked (sync rj now n))
  unfolding sync prepare
  sync-sent chain base now n w started narrow = (
    sync-IsSyncing rj chain base now n w.nonces w.no_data w.no_req w.quiet started w.parallel
        w.ranged narrow w.room,
    start_ranges-all_asked base n.m_daemon.m_concurrency (prepare now n) n.sent
        (prepare-IsRunning rj chain base now n w.nonces w.no_data w.no_req w.quiet started
          w.parallel w.ranged narrow)
        w.room (rw w.no_req (sym (append-nil n.sent))),
  )
