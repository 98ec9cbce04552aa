-- ===== src/JsonRequest.antt =====
-- base/io/json/JsonRequest.cpp: the envelope of a JSON RPC request. `next_id` is the static
-- counter, a uint64_t.
use xmrig_nonces_heatmap.Prelude.{ℕ, ◌+◌, ◌%◌, ◌^◌, Bytes, codes}
use xmrig_nonces_heatmap.Json.{RapidJson}

-- `++nextId`
abbrev pub bump : ℕ → ℕ
bump next_id = (next_id + 1) % 2 ^ 64

module _ (rj : RapidJson) where
  open rj use {Value, add_member, of_uint64, of_string, object}

  abbrev pub envelope : Value → Bytes → ℕ → Value
  envelope doc method id =
      let doc = add_member doc (codes "id") (of_uint64 id) in
      let doc = add_member doc (codes "jsonrpc") (of_string (codes "2.0")) in
      add_member doc (codes "method") (of_string method)

  -- `create(const char *method)`: the document and the counter afterwards
  unfoldable pub create : Bytes → ℕ → Value × ℕ
  create method next_id = (envelope object method (bump next_id), bump next_id)

  -- `create(Document &doc, const char *method, Value &params)`
  unfoldable pub create_params : Value → Bytes → Value → ℕ → Value × ℕ
  create_params doc method params next_id =
      (add_member (envelope doc method (bump next_id)) (codes "params") params, bump next_id)
