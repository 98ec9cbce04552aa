-- ===== src/Network/Reply.antt =====
-- `onHttpData` for a reply that holds the headers of a range in flight.
use xmrig_nonces_heatmap.Prelude.{
  ℕ, ◌≤◌, ◌≡◌, refl, true, false, some, codes, is_negative, is_nil, eq_nat,
}
use xmrig_nonces_heatmap.Dict
use xmrig_nonces_heatmap.Json
use xmrig_nonces_heatmap.Json.{RapidJson}
use xmrig_nonces_heatmap.String
use xmrig_nonces_heatmap.HttpData
use xmrig_nonces_heatmap.HttpData.{HttpData}
use xmrig_nonces_heatmap.Network.{
  Range, Network, block_headers_range, take_headers, on_rpc_response, on_http_data,
}
use xmrig_nonces_heatmap.Network.Coverage.{AreHonest, Lists}

module _ (rj : RapidJson) where
  open rj use {Value}

  abbrev pub result_of : Value → Value
  result_of doc = Json.get_object rj doc (codes "result")

  abbrev pub headers_of : Value → Value
  headers_of doc = Json.get_array rj (result_of doc) (codes "headers")

  -- a daemon that follows the chain answers request `id` for the range `r` in the document `doc`:
  -- the result lists a header for each block of the range, each with its nonce
  pub record Answers (chain : ℕ → ℕ) (id : ℕ) (r : Range) (doc : Value) : Type 0 where
    pub names_id : Json.get_uint64 rj doc (codes "id") 0 ≡ id
    pub no_error : rj.is_object (Json.get_object rj doc (codes "error")) ≡ false
    pub result : rj.is_object (result_of doc) ≡ true
    pub array : rj.is_array (headers_of doc) ≡ true
    pub filled : is_nil (rj.elements (headers_of doc)) ≡ false
    pub honest : AreHonest chain rj (rj.elements (headers_of doc))
    pub complete :
        (h : ℕ) → r.start ≤ h → h ≤ r.end → Lists chain rj h (rj.elements (headers_of doc))

  -- a response that carries the document, to a range request
  pub record Carries (doc : Value) (response : HttpData) : Type 0 where
    pub type : response.user_type ≡ block_headers_range
    pub status : is_negative response.status ≡ false
    pub json : HttpData.is_json response ≡ true
    pub parsed : rj.parse (String.c_str response.body) ≡ some doc

  -- the handlers between `onHttpData` and the insertion of the headers
  rpc-take_headers :
      (now id type : ℕ) (doc : Value) (r : Range) (chain : ℕ → ℕ) (n n' : Network)
      → type ≡ block_headers_range
      → Answers chain id r doc
      → Dict.find id n.m_req ≡ some r
      → take_headers rj id (rj.elements (headers_of doc)) n ≡ some (true, n')
      → on_rpc_response rj now
          (Json.get_uint64 rj doc (codes "id") 0)
          (result_of doc)
          (Json.get_object rj doc (codes "error"))
          type
          n
        ≡ some n'
  unfolding on_rpc_response
  rpc-take_headers now id type doc r chain n n' e a found taken =
      simp (e, a.names_id, a.no_error, a.result, a.array, a.filled, found, taken)

  pub on_http_data-take_headers :
      (now id : ℕ) (response : HttpData) (doc : Value) (r : Range) (chain : ℕ → ℕ) (n n' : Network)
      → Carries doc response
      → Answers chain id r doc
      → Dict.find id n.m_req ≡ some r
      → take_headers rj id (rj.elements (headers_of doc)) n ≡ some (true, n')
      → on_http_data rj now response n ≡ some n'
  unfolding on_http_data
  on_http_data-take_headers now id response doc r chain n n' c a found taken =
      simp (c.type, c.status, c.json, c.parsed)
        (rpc-take_headers now id block_headers_range doc r chain n n' refl a found taken)
