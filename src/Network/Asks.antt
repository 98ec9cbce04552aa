-- ===== src/Network/Asks.antt =====
-- What `getBlockHeadersRange` hands to `fetch`, described on its own.
use xmrig_nonces_heatmap.Prelude.{
  ℕ, ◌+◌, ◌%◌, ◌^◌, ◌<◌, ◌≡◌, refl, ap, ◌∙◌, false, Bytes, codes, [], ◌∷◌, ◌++◌, some, arith,
  length, take, take_all, if◌then◌else◌, eq_bytes, eq_nat, ◌==◌,
}
use xmrig_nonces_heatmap.Json
use xmrig_nonces_heatmap.Json.{RapidJson}
use xmrig_nonces_heatmap.JsonRequest
use xmrig_nonces_heatmap.Dict
use xmrig_nonces_heatmap.String
use xmrig_nonces_heatmap.Daemon
use xmrig_nonces_heatmap.Daemon.{Daemon}
use xmrig_nonces_heatmap.HttpData
use xmrig_nonces_heatmap.Fetch
use xmrig_nonces_heatmap.Fetch.{FetchRequest}
use xmrig_nonces_heatmap.Network.{Range, Network, Sent, get_range, rpc_send}

module _ (rj : RapidJson) where
  -- the JSON RPC request `id` for the headers of a range
  abbrev pub document : ℕ → Range → RapidJson.Value rj
  document id r = Json.add_members rj rj.object (
      (codes "id", rj.of_uint64 id)
      ∷ (codes "jsonrpc", rj.of_string (codes "2.0"))
      ∷ (codes "method", rj.of_string (codes "getblockheadersrange"))
      ∷ (
        codes "params",
        Json.add_members rj rj.object (
            (codes "start_height", rj.of_uint r.start)
            ∷ (codes "end_height", rj.of_uint r.end)
            ∷ []),
      )
      ∷ [])

  -- A POST of that document to `/json_rpc` of the daemon, whose response comes with the type 2 and
  -- the id.
  abbrev pub asks : Daemon → ℕ → Range → Sent
  asks d id r = record {
    request = record {
      quiet = false;
      tls = d.m_tls;
      method = 3;
      headers = (HttpData.content_type, HttpData.application_json) ∷ [];
      body = rj.write (document id r);
      fingerprint = String.null_string;
      host = d.m_host;
      path = String.of_c_string (some (codes "/json_rpc"));
      port = d.m_port;
      timeout = Daemon.timeout d;
    };
    user_type = 2;
    rpc_id = id;
  }

  -- what `setBody` makes of a text whose length it is given
  whole_body :
      (bytes : Bytes)
      → (if length bytes == 0 then String.c_str bytes else take (length bytes) bytes) ≡ bytes
  unfolding String.c_str
  whole_body [] = refl
  whole_body (b ∷ bytes) =
      let some_bytes : (length (b ∷ bytes) == 0) ≡ false = ground arith in
      rw (some_bytes, take_all (length (b ∷ bytes)) (b ∷ bytes) (omega arith))

  -- `getBlockHeadersRange(range)` hands one request to `fetch`, the one for that range
  pub get_range-sent :
      (r : Range) (n : Network)
      → n.next_id + 1 < 2 ^ 64
      → (get_range rj r n).1.sent ≡ n.sent ++ asks n.m_daemon (n.next_id + 1) r ∷ []
  unfolding get_range rpc_send Fetch.request Fetch.set_json_body Json.add_members Dict.insert
      JsonRequest.create_params
  get_range-sent r n room =
      let id = (n.next_id + 1) % 2 ^ 64 in
      let ask = asks n.m_daemon id r in
      ap (λ b. n.sent ++ record ask { request = record ask.request { body = b } } ∷ [])
        (whole_body (rj.write (document id r)))
      ∙ ap (λ i. n.sent ++ asks n.m_daemon i r ∷ []) (omega arith)
