-- ===== src/Network/Failures.antt =====
-- Replies that cannot be used, ranges that wrap, and heights that were never received.
use xmrig_nonces_heatmap.Prelude.{
  ℕ, zero, suc, ◌+◌, ◌-◌, ◌^◌, ◌≤◌, ◌<◌, ◌≡◌, ◌≢◌, ◌↔◌, sym, subst, ◌⊎◌, inl, inr, true, false,
  none, some, arith, codes, eq_nat, length, is_negative, Bool-cases, Option-cases,
}
use xmrig_nonces_heatmap.Dict
use xmrig_nonces_heatmap.Dict.{Dict}
use xmrig_nonces_heatmap.Json
use xmrig_nonces_heatmap.Json.{RapidJson}
use xmrig_nonces_heatmap.String
use xmrig_nonces_heatmap.HttpData
use xmrig_nonces_heatmap.HttpData.{HttpData}
use xmrig_nonces_heatmap.Network.{
  Network, new_range, fatal_error, block_headers_range, on_rpc_response, read_response,
  on_http_data, notify, collect, save,
}
use xmrig_nonces_heatmap.Network.Reply.{result_of}

-- For a start up to the last height, and a 32-bit count and last height, a range ends before it
-- starts exactly when `start + count` does not fit in 32 bits.
new_range-wraps :
    (start count last : ℕ)
    → start ≤ last
    → last < 2 ^ 32
    → count < 2 ^ 32
    → ((new_range start count last).end < start) ↔ (2 ^ 32 ≤ start + count)
unfolding new_range
new_range-wraps start count last le small narrow = (λ h. omega arith, λ h. omega arith)

-- the height of some block that the loop of `save` looks for in vain
abbrev pub Misses : Dict ℕ ℕ → ℕ → ℕ → Type 0
Misses m i count = (h : ℕ) × (i ≤ h) × (h < i + count) × (Dict.find h m ≡ none)

collect-Misses : (m : Dict ℕ ℕ) (count i : ℕ) → (collect m count i ≡ none) ↔ Misses m i count
unfolding collect
collect-Misses m zero i = (λ e. ground arith, λ (h, a, b, e). absurd (omega arith))
collect-Misses m (suc count) i =
    let rest = collect-Misses m count (i + 1) in
    elim (Option-cases (Dict.find i m)) [
      | inl missing ↦ (λ _. (i, omega arith, omega arith, missing), λ _. ground (arith, missing))
      | inr (nonce, held) ↦ (
        λ e.
            let (h, a, b, e') = rest.0 (ground (arith, held, e)) in
            (h, omega arith, omega arith, e'),
        λ (h, a, b, e).
            let later : i ≢ h =
              λ same. ground (arith, subst (λ k. Dict.find k m ≡ none) (sym same) e, held) in
            ground (arith, rest.1 (h, ground (arith, later), omega arith, e), held),
      )
    ]

-- `save` throws `std::out_of_range` exactly when for some height from the number of nonces up to the
-- last height no header was received.
pub save-throws :
    (n : Network)
    → (save n ≡ none) ↔ Misses n.m_data (length n.m_nonces) (n.m_height + 1 - length n.m_nonces)
unfolding save
save-throws n =
    let missing =
      collect-Misses n.m_data (n.m_height + 1 - length n.m_nonces) (length n.m_nonces) in
    ground (arith, missing)

module _ (rj : RapidJson) where
  -- the response cannot be used, whatever it was asked for
  abbrev pub Unusable : HttpData → Type 0
  Unusable response =
      (HttpData.is_json response ≡ false)
      ⊎ (rj.parse (String.c_str response.body) ≡ none)
      ⊎ ((doc : RapidJson.Value rj) × (rj.parse (String.c_str response.body) ≡ some doc)
          × ((rj.is_object (Json.get_object rj doc (codes "error")) ≡ true)
              ⊎ (rj.is_object (result_of rj doc) ≡ false)))

  -- it is not the failure of the connection of a range in flight, which is tried again
  abbrev pub Final : HttpData → Network → Type 0
  Final response n =
      (response.user_type ≢ block_headers_range)
      ⊎ (is_negative response.status ≡ false)
      ⊎ (Dict.find response.rpc_id n.m_req ≡ none)

  read_response-Unusable :
      (now : ℕ) (response : HttpData) (n : Network)
      → Unusable response
      → read_response rj now response n ≡ some (notify n fatal_error)
  unfolding read_response on_rpc_response
  read_response-Unusable now response n (inl e) = simp e
  read_response-Unusable now response n (inr (inl e)) =
      elim (Bool-cases (HttpData.is_json response)) [
        | inl json ↦ simp (json, e)
        | inr other ↦ simp other
      ]
  read_response-Unusable now response n (inr (inr (doc, e, w))) =
      elim (Bool-cases (HttpData.is_json response)) [
        | inl json ↦ elim w [
          | inl err ↦ simp (json, e, err)
          | inr res ↦ ground (arith, json, e, res)
        ]
        | inr other ↦ simp other
      ]

  -- A response that cannot be used, and is no failed connection of a range in flight, is a fatal
  -- error, which the listener is told of, and changes nothing else.
  pub on_http_data-Unusable :
      (now : ℕ) (response : HttpData) (n : Network)
      → Unusable response
      → Final response n
      → on_http_data rj now response n ≡ some (notify n fatal_error)
  unfolding on_http_data
  on_http_data-Unusable now response n u f =
      let e = read_response-Unusable now response n u in ground (arith, e, f)
