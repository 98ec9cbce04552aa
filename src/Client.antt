-- ===== src/Client.antt =====
-- `fetch` of base/net/http/Fetch.cpp: the client that it makes for a request, with or without TLS,
-- and what happens to that client afterwards. Debug output is not modelled.
pub mod Answered
pub mod Deaf
pub mod Pieces
pub mod Secure
pub mod Life
use xmrig_nonces_heatmap.Prelude.{
  ℕ, ℤ, is_negative, Bool, true, false, ◌&&◌, Bytes, List, Option, none, some, ◌≡◌, length,
  if◌then◌else◌,
}
use xmrig_nonces_heatmap.Fetch.{FetchRequest}
use xmrig_nonces_heatmap.HttpContext.{HttpContext, Callback}
use xmrig_nonces_heatmap.HttpClient
use xmrig_nonces_heatmap.HttpClient.{HttpClient, System, http_client}
use xmrig_nonces_heatmap.HttpsClient
use xmrig_nonces_heatmap.HttpsClient.{Tls, HttpsClient, https_client}

module _ (tls : Tls) (sys : System) where
  -- what `HttpClient *client` points to
  pub data Client : Type 0 where
    plain : HttpClient → Client
    secure : HttpsClient tls sys → Client

  -- the part of the client that is an `HttpClient`
  abbrev pub base : Client → HttpClient
  base (plain c) = c
  base (secure c) = c.client

  abbrev pub context : Client → HttpContext
  context c = (base c).context

  -- a change of that part
  abbrev pub with_base : HttpClient → Client → Client
  with_base b (plain c) = plain b
  with_base b (secure c) = secure (record c { client = b })

  -- the constructor that `fetch` calls; `feature` is XMRIG_FEATURE_TLS
  abbrev pub construct :
      (feature has_ctx : Bool) → Tls.Parser tls → (id : ℕ) → FetchRequest → Client
  construct feature has_ctx parser id req =
      if feature && req.tls
      then secure (https_client tls sys (http_client req id 0 0) has_ctx parser)
      else plain (http_client req id 0 0)

  -- `client->userType = type; client->rpcId = rpcId;`
  abbrev pub tag : (type rpc_id : ℕ) → Client → Client
  tag type rpc_id c =
      let b = base c in
      with_base
        (record b {
          context = record b.context {
            data' = record b.context.data' { user_type = type; rpc_id = rpc_id };
          };
        })
        c

  -- `fetch`, up to `connect`, which hands the name to the resolver
  unfoldable pub fetch :
      (feature has_ctx : Bool)
      → Tls.Parser tls
      → (id : ℕ) → FetchRequest
      → (type rpc_id : ℕ) → Client
  unfolding https_client
  fetch feature has_ctx parser id req type rpc_id =
      tag type rpc_id (construct feature has_ctx parser id req)

  -- `onResolved`
  unfoldable pub on_resolved : ℤ → Bool → Client → Client
  on_resolved status dns_empty c = with_base (HttpClient.on_resolved status dns_empty (base c)) c

  -- `onTimer`
  unfoldable pub on_timer : Client → Client
  on_timer c = with_base (HttpClient.on_timer sys (base c)) c

  -- `onConnect`, with the `handshake` of the class
  unfoldable pub on_connect : ℤ → Bool → Client → Client
  on_connect status writable (plain c) = plain (HttpClient.on_connect sys status writable c)
  on_connect status writable (secure c) = secure (HttpsClient.on_connect tls sys writable status c)

  -- the callback of `uv_read_start`, with the `read` of the class; the callbacks are those that the
  -- parser makes of `bytes` on a plain connection
  unfoldable pub on_read : Bool → ℤ → Bytes → List Callback → ℕ → Client → Option Client
  on_read writable nread bytes callbacks parsed (plain c) =
      some (plain (HttpClient.on_read sys nread callbacks parsed c))
  on_read writable nread bytes callbacks parsed (secure c) =
      elim (HttpsClient.on_read tls sys writable nread bytes c) [
        | none ↦ none
        | some c' ↦ some (secure c')
      ]
