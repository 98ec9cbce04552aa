-- ===== src/Client/Life.antt =====
-- A client from `fetch` on, as the event loop calls it.
use xmrig_nonces_heatmap.Prelude.{
  ℕ, ℤ, pos, negsuc, int_beq, is_negative, ◌≡◌, ◌≤◌, ◌⊎◌, refl, sym, subst, inl, inr, Bool, true,
  false, Bytes, List, some, arith, length, Bool-cases, Option-cases, All, ◌&&◌, if◌then◌else◌,
}
use mathlib.Core.Option.{some-injective}
use xmrig_nonces_heatmap.Fetch.{FetchRequest}
use xmrig_nonces_heatmap.HttpContext.{HttpContext, Callback, close}
use xmrig_nonces_heatmap.HttpContext.Told.{Alike}
use xmrig_nonces_heatmap.HttpClient
use xmrig_nonces_heatmap.HttpClient.{HttpClient, System, http_client, close_client}
use xmrig_nonces_heatmap.HttpsClient
use xmrig_nonces_heatmap.HttpsClient.{Tls, HttpsClient, https_client}
use xmrig_nonces_heatmap.Client.{
  Client, plain, secure, base, context, with_base, fetch, on_resolved, on_timer, on_connect,
  on_read,
}
use xmrig_nonces_heatmap.Client.Answered.{
  IsTagged, IsAnswered, http_context-IsAnswered, Alike-IsAnswered, close-IsAnswered,
}
use xmrig_nonces_heatmap.Client.Pieces.{Laws, read_open-IsAnswered}
use xmrig_nonces_heatmap.Client.Secure.{handshake-IsAnswered, client-handshake, read-IsAnswered}

module _ (tls : Tls) (sys : System) where
  -- What the event loop calls, in any order; libuv reads nothing more after `uv_close`. The listener
  -- may end at any time.
  pub data Step (c : Client tls sys) : Client tls sys → Type 0 where
    resolved : (status : ℤ) (dns_empty : Bool) → Step c (on_resolved tls sys status dns_empty c)
    timed_out : Step c (on_timer tls sys c)
    connected : (status : ℤ) (writable : Bool) → Step c (on_connect tls sys status writable c)
    readable :
        {c' : Client tls sys}
        → (writable : Bool) (nread : ℤ) (bytes : Bytes) (callbacks : List Callback) (parsed : ℕ)
        → (context tls sys c).closing ≡ false
        → on_read tls sys writable nread bytes callbacks parsed c ≡ some c'
        → Step c c'
    expired : Step c (
        with_base tls sys
          (record (base tls sys c) { context = record (context tls sys c) { alive = false } })
          c)

  pub data Reach (start : Client tls sys) : Client tls sys → Type 0 where
    fetched : Reach start start
    then_step : {c c' : Client tls sys} → Reach start c → Step c c' → Reach start c'

  module _ (laws : Laws tls sys) (type rpc_id : ℕ) where
    Answered : Client tls sys → Type 0
    Answered c = IsAnswered type rpc_id (context tls sys c)

    base-Answered :
        (b : HttpClient) (c : Client tls sys)
        → IsAnswered type rpc_id b.context
        → Answered (with_base tls sys b c)
    unfolding Answered
    base-Answered b (plain c) v = v
    base-Answered b (secure c) v = v

    fetch-Answered :
        (feature has_ctx : Bool) (parser : Tls.Parser tls) (id : ℕ) (req : FetchRequest)
        → Answered (fetch tls sys feature has_ctx parser id req type rpc_id)
    unfolding fetch https_client Answered
    fetch-Answered feature has_ctx parser id req = elim (Bool-cases (feature && req.tls)) [
      | inl e ↦ rw e (http_context-IsAnswered type rpc_id _ (refl, refl))
      | inr e ↦ rw e (http_context-IsAnswered type rpc_id _ (refl, refl))
    ]

    on_resolved-Answered :
        (status : ℤ) (dns_empty : Bool) (c : HttpClient)
        → IsAnswered type rpc_id c.context
        → IsAnswered type rpc_id (HttpClient.on_resolved status dns_empty c).context
    unfolding HttpClient.on_resolved Alike
    on_resolved-Answered status dns_empty c v =
        elim (Bool-cases (is_negative status && dns_empty)) [
          | inl e ↦
              rw e
                (Alike-IsAnswered type rpc_id c.context _ (refl, refl, refl, refl) refl v.tagged v)
          | inr e ↦
              rw e
                (Alike-IsAnswered type rpc_id c.context _ (refl, refl, refl, refl) refl v.tagged v)
        ]

    -- a connection that failed, whatever the error is turned into
    refused-Answered :
        (status : ℤ) (c : HttpContext)
        → is_negative status ≡ true
        → IsAnswered type rpc_id c
        → IsAnswered type rpc_id
            (close (if int_beq status sys.ecanceled then sys.etimedout else status) c)
    refused-Answered status c failed v = elim (Bool-cases (int_beq status sys.ecanceled)) [
      | inl e ↦ rw e (close-IsAnswered type rpc_id sys.etimedout c laws.timeout v)
      | inr e ↦ rw e (close-IsAnswered type rpc_id status c failed v)
    ]

    on_connect-Answered :
        (status : ℤ) (writable : Bool) (c : Client tls sys)
        → Answered c
        → Answered (on_connect tls sys status writable c)
    unfolding on_connect Answered HttpClient.on_connect HttpsClient.on_connect
    on_connect-Answered status writable (plain c) v = elim (Bool-cases (is_negative status)) [
      | inl e ↦ rw e (refused-Answered status c.context e v)
      | inr e ↦ rw e (handshake-IsAnswered type rpc_id sys writable c v)
    ]
    on_connect-Answered status writable (secure c) v = elim (Bool-cases (is_negative status)) [
      | inl e ↦ rw e (refused-Answered status c.client.context e v)
      | inr e ↦ rw e (
          subst (λ (h : HttpClient). IsAnswered type rpc_id h.context)
            (sym (client-handshake tls sys writable c)) v)
    ]

    on_read-Answered :
        (writable : Bool) (nread : ℤ) (bytes : Bytes) (callbacks : List Callback) (parsed : ℕ)
        (c c' : Client tls sys)
        → (context tls sys c).closing ≡ false
        → on_read tls sys writable nread bytes callbacks parsed c ≡ some c'
        → Answered c
        → Answered c'
    unfolding on_read Answered HttpClient.on_read HttpsClient.on_read
    on_read-Answered writable (pos size) bytes callbacks parsed (plain c) c' o e v =
        subst Answered (some-injective _ c' e)
          (read_open-IsAnswered tls sys laws type rpc_id callbacks parsed size c o v)
    on_read-Answered writable (negsuc n) bytes callbacks parsed (plain c) c' o e v =
        subst Answered (some-injective _ c' e)
          (close-IsAnswered type rpc_id (negsuc n) c.context refl v)
    on_read-Answered writable (pos size) bytes callbacks parsed (secure c) c' o e v =
        elim (Option-cases (HttpsClient.read tls sys writable bytes c)) [
          | inl nothing ↦ absurd (ground (arith, e, nothing))
          | inr (d, there) ↦
              subst Answered (some-injective (secure d) c' (ground (arith, e, there)))
                (read-IsAnswered tls sys laws type rpc_id writable bytes c d o v there)
        ]
    on_read-Answered writable (negsuc n) bytes callbacks parsed (secure c) c' o e v =
        subst Answered (some-injective _ c' e)
          (close-IsAnswered type rpc_id (negsuc n) c.client.context refl v)

    Step-Answered : {c c' : Client tls sys} → Step c c' → Answered c → Answered c'
    unfolding Answered on_resolved on_timer HttpClient.on_timer Alike
    Step-Answered {c} (resolved status dns_empty) v =
        base-Answered _ c (on_resolved-Answered status dns_empty (base tls sys c) v)
    Step-Answered {c} timed_out v =
        base-Answered _ c
          (close-IsAnswered type rpc_id sys.etimedout (context tls sys c) laws.timeout v)
    Step-Answered {c} (connected status writable) v = on_connect-Answered status writable c v
    Step-Answered {c} {c'} (readable writable nread bytes callbacks parsed o e) v =
        on_read-Answered writable nread bytes callbacks parsed c c' o e v
    Step-Answered {c} expired v = base-Answered _ c (record {
      tagged = v.tagged;
      told_tagged = v.told_tagged;
      once = record { open_or_closing = v.once.open_or_closing; so_far = v.once.so_far };
      answered = λ shut lives. absurd (ground (arith, lives));
    })

    Reach-Answered : {start c : Client tls sys} → Reach start c → Answered start → Answered c
    Reach-Answered fetched v = v
    Reach-Answered (then_step r step) v = Step-Answered step (Reach-Answered r v)

    -- From `fetch` on, whatever the event loop calls and in whatever order, on a plain connection or
    -- under TLS: the listener is told of one message at most, a message that it is told carries the
    -- user type and the RPC id that `fetch` was called with, and once the connection is closing the
    -- listener has been told exactly one message, or it has ended. Errors of libuv are negative, and
    -- the parser takes nothing more after an error.
    pub Reach-told :
        (feature has_ctx : Bool) (parser : Tls.Parser tls) (id : ℕ) (req : FetchRequest)
        (c : Client tls sys)
        → Reach (fetch tls sys feature has_ctx parser id req type rpc_id) c
        → (length (context tls sys c).told ≤ 1)
          × All (IsTagged type rpc_id) (context tls sys c).told
          × (((context tls sys c).closing ≡ false)
              ⊎ (((context tls sys c).alive ≡ false) ⊎ (length (context tls sys c).told ≡ 1)))
    unfolding Answered
    Reach-told feature has_ctx parser id req c r =
        let v = Reach-Answered r (fetch-Answered feature has_ctx parser id req) in
        (
          ground (arith, v.once.so_far),
          v.told_tagged,
          elim (Bool-cases (context tls sys c).closing) [
            | inl shut ↦ elim (Bool-cases (context tls sys c).alive) [
              | inl lives ↦ inr (inr (v.answered shut lives))
              | inr gone ↦ inr (inl gone)
            ]
            | inr still ↦ inl still
          ],
        )
