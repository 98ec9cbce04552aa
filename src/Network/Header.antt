-- ===== src/Network/Header.antt =====
-- The reply to `getlastblockheader`, which starts a download, ends the work or ends the program.
use xmrig_nonces_heatmap.Prelude.{
  ℕ, zero, suc, ◌+◌, ◌%◌, ◌^◌, ◌≤◌, ◌<◌, ◌≡◌, refl, ap, ◌∙◌, ◌⊎◌, inl, inr, true, false, ◌||◌, [],
  ◌∷◌, some, arith, codes, eq_nat, ◌==◌, length, ltb, Bool-cases,
}
use xmrig_nonces_heatmap.Json
use xmrig_nonces_heatmap.Json.{RapidJson}
use xmrig_nonces_heatmap.String
use xmrig_nonces_heatmap.HttpData
use xmrig_nonces_heatmap.HttpData.{HttpData}
use xmrig_nonces_heatmap.Network.{
  Network, fatal_error, sync_done, last_block_header, set_last_block_header, on_rpc_response,
  on_http_data, notify, or_fatal, sync, prepare, start_ranges, get_next_range, get_range,
}
use xmrig_nonces_heatmap.Network.Coverage.{segment, length-segment}
use xmrig_nonces_heatmap.Network.Start.{IsSyncing, sync-IsSyncing}
use xmrig_nonces_heatmap.Network.Reply.{result_of}

-- before a download: the nonces are the chain's up to `base`, and nothing was asked for
pub record IsReady (chain : ℕ → ℕ) (base : ℕ) (n : Network) : Type 0 where
  pub nonces : n.m_nonces ≡ segment chain 0 base
  pub small : base < 2 ^ 32
  pub no_data : n.m_data ≡ []
  pub no_req : n.m_req ≡ []
  pub quiet : n.notices ≡ []
  pub parallel : 1 ≤ n.m_daemon.m_concurrency
  pub ranged : 1 ≤ n.m_daemon.m_max_range
  pub room : n.next_id + n.m_daemon.m_concurrency < 2 ^ 64

module _ (rj : RapidJson) where
  -- the height that the reply names, 0 where it names none
  abbrev pub height_in : RapidJson.Value rj → ℕ
  height_in doc =
      Json.get_uint rj (Json.get_object rj (result_of rj doc) (codes "block_header"))
        (codes "height") 0

  -- a response that carries the document, to the request for the last header
  pub record Heads (doc : RapidJson.Value rj) (response : HttpData) : Type 0 where
    pub type : response.user_type ≡ last_block_header
    pub json : HttpData.is_json response ≡ true
    pub parsed : rj.parse (String.c_str response.body) ≡ some doc
    pub no_error : rj.is_object (Json.get_object rj doc (codes "error")) ≡ false
    pub result : rj.is_object (result_of rj doc) ≡ true

  -- The handlers of the reply come down to `setLastBlockHeader`.
  on_http_data-set_last_block_header :
      (now : ℕ) (response : HttpData) (doc : RapidJson.Value rj) (n : Network)
      → Heads doc response
      → on_http_data rj now response n
        ≡ or_fatal rj (
            some (
              set_last_block_header rj now
                (Json.get_object rj (result_of rj doc) (codes "block_header"))
                n))
  unfolding on_http_data on_rpc_response
  on_http_data-set_last_block_header now response doc n r =
      simp (r.type, r.json, r.parsed, r.no_error, r.result)

  -- what becomes of the program, for the last height `height`
  abbrev pub Outcome : (ℕ → ℕ) → ℕ → ℕ → Network → Type 0
  Outcome chain base height n =
      (((height ≡ 0) ⊎ (height + 1 < base)) × (n.notices ≡ fatal_error ∷ []))
      ⊎ ((height + 1 ≡ base)
          × (n.notices ≡ sync_done false ∷ [])
          × (n.m_nonces ≡ segment chain 0 base))
      ⊎ ((base ≤ height) × (n.m_height ≡ height) × IsSyncing chain base n)

  get_next_range-height : (n : Network) → (get_next_range rj n).1.m_height ≡ n.m_height
  unfolding get_next_range get_range
  get_next_range-height n = ground arith

  start_ranges-height : (i : ℕ) (n : Network) → (start_ranges rj i n).m_height ≡ n.m_height
  unfolding start_ranges
  start_ranges-height zero n = refl
  start_ranges-height (suc i) n =
      start_ranges-height i (get_next_range rj n).1 ∙ get_next_range-height n

  sync-height : (now : ℕ) (n : Network) → (sync rj now n).m_height ≡ n.m_height
  unfolding sync prepare
  sync-height now n = start_ranges-height n.m_daemon.m_concurrency (prepare now n)

  header_cases :
      (chain : ℕ → ℕ) (base now : ℕ) (header : RapidJson.Value rj) (n : Network)
      → IsReady chain base n
      → let height = Json.get_uint rj header (codes "height") 0 in
        height + n.m_daemon.m_max_range < 2 ^ 32
        → (n' : Network) × (or_fatal rj (some (set_last_block_header rj now header n)) ≡ some n')
          × Outcome chain base height n'
  unfolding set_last_block_header
  header_cases chain base now header n ready narrow =
      let height = Json.get_uint rj header (codes "height") 0 in
      let quiet = ready.quiet in
      let ranged = ready.ranged in
      let small = ready.small in
      let count : length n.m_nonces ≡ base = ap length ready.nonces ∙ length-segment chain 0 base in
      let m = record n { m_height = height } in
      elim (Bool-cases ((height == 0) || ltb ((height + 1) % 2 ^ 32) (length n.m_nonces))) [
        | inl bad ↦ (notify m fatal_error, rw bad, inl (ground (arith, bad, count), rw quiet))
        | inr good ↦ elim (Bool-cases (ltb (length n.m_nonces) ((height + 1) % 2 ^ 32))) [
          | inl more ↦ (
            sync rj now m,
            rw (good, more),
            inr (
                inr (
                  ground (arith, more, count),
                  sync-height now m,
                  sync-IsSyncing rj chain base now m ready.nonces ready.no_data ready.no_req quiet
                      (ground (arith, more, count)) ready.parallel ranged narrow ready.room,
                )),
          )
          | inr level ↦ (
            notify m (sync_done false),
            rw (good, level),
            inr (inl (ground (arith, good, level, count), rw quiet, ready.nonces)),
          )
        ]
      ]

  -- The reply with the last header, before a download and with the nonces of `base` blocks known: it
  -- is a fatal error if it names no height or one below `base` - 1; if it names `base` - 1, the
  -- listener hears `onSyncDone(false)` and the nonces stay as they are; and else a download of the
  -- blocks from `base` on up to that height is under way. The height and `max_range` together stay in
  -- 32 bits, both limits of the daemon are positive, and the request counter does not wrap.
  pub header_outcome :
      (chain : ℕ → ℕ) (base now : ℕ) (response : HttpData) (doc : RapidJson.Value rj) (n : Network)
      → IsReady chain base n
      → Heads doc response
      → height_in doc + n.m_daemon.m_max_range < 2 ^ 32
      → (n' : Network) × (on_http_data rj now response n ≡ some n')
        × Outcome chain base (height_in doc) n'
  header_outcome chain base now response doc n ready heads narrow =
      let header = Json.get_object rj (result_of rj doc) (codes "block_header") in
      let (n', e, outcome) = header_cases chain base now header n ready narrow in
      (n', on_http_data-set_last_block_header now response doc n heads ∙ e, outcome)
