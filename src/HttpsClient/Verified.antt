-- ===== src/HttpsClient/Verified.antt =====
-- What a TLS client sends and reads before it has seen the certificate of its peer.
use xmrig_nonces_heatmap.Prelude.{
  ℕ, ℤ, pos, negsuc, is_negative, int_beq, if◌then◌else◌, ◌≡◌, refl, ◌⊎◌, inl, inr, Bool, ◌&&◌,
  true, false, Bytes, [], none, some, some_unique, subst, Bool-cases,
}
use xmrig_nonces_heatmap.String.{String}
use xmrig_nonces_heatmap.HttpClient.{HttpClient, System, on_resolved, on_timer}
use xmrig_nonces_heatmap.HttpsClient.{Tls, HttpsClient, https_client, close, on_connect, on_read}
use xmrig_nonces_heatmap.HttpsClient.Guarded.{Laws, IsVerified, IsGuarded, close-IsGuarded}
use xmrig_nonces_heatmap.HttpsClient.Handshake.{handshake-IsGuarded, read-IsGuarded}

module _ (tls : Tls) (sys : System) where
  -- The events of a connection, in any order: libuv connects once, and reads nothing more after
  -- `uv_close`.
  pub data Step (c : HttpsClient tls sys) : HttpsClient tls sys → Type 0 where
    resolved :
        (status : ℤ) (dns_empty : Bool)
        → Step c (record c { client = on_resolved status dns_empty c.client })
    connected :
        (writable : Bool) (status : ℤ)
        → c.m_ssl ≡ none
        → Step c (on_connect tls sys writable status c)
    received :
        (writable : Bool) (nread : ℤ) (data' : Bytes) (c' : HttpsClient tls sys)
        → c.client.context.closing ≡ false
        → on_read tls sys writable nread data' c ≡ some c'
        → Step c c'
    timed_out : Step c (record c { client = on_timer sys c.client })
    closed : (status : ℤ) → Step c (close tls sys status c)

  pub data Reach (c : HttpsClient tls sys) : HttpsClient tls sys → Type 0 where
    created : Reach c c
    then_step : {d e : HttpsClient tls sys} → Reach c d → Step d e → Reach c e

  -- On the way from `start` to `d`, while the connection was open, `read` was called with `data'`, and
  -- `session` is the client's session after `data'` was written to it, not yet established: the
  -- session of which `read` calls `SSL_connect`.
  pub record IsTried (start d : HttpsClient tls sys) (session : Tls.Ssl tls) : Type 0 where
    pub before : HttpsClient tls sys
    pub after : HttpsClient tls sys
    pub ssl : Tls.Ssl tls
    pub writable : Bool
    pub size : ℕ
    pub data' : Bytes
    pub reached : Reach start before
    pub open' : before.client.context.closing ≡ false
    pub owned : before.m_ssl ≡ some ssl
    pub written : session ≡ tls.bio_write data' ssl
    pub unfinished : tls.is_init_finished session ≡ false
    pub heard : on_read tls sys writable (pos size) data' before ≡ some after
    pub since : Reach after d

  Step-IsTried :
      {c d e : HttpsClient tls sys} (s : Tls.Ssl tls) → Step d e → IsTried c d s → IsTried c e s
  Step-IsTried s st t = record {
    before = t.before;
    after = t.after;
    ssl = t.ssl;
    writable = t.writable;
    size = t.size;
    data' = t.data';
    reached = t.reached;
    open' = t.open';
    owned = t.owned;
    written = t.written;
    unfinished = t.unfinished;
    heard = t.heard;
    since = then_step t.since st;
  }

  Step-IsVerified :
      {c d e : HttpsClient tls sys} (wanted : String)
      → Step d e
      → IsVerified tls sys wanted (IsTried c d)
      → IsVerified tls sys wanted (IsTried c e)
  Step-IsVerified wanted st v = record {
    session = v.session;
    certificate = v.certificate;
    digest = v.digest;
    tried = Step-IsTried v.session st v.tried;
    completed = v.completed;
    presented = v.presented;
    hashed = v.hashed;
    accepted = v.accepted;
  }

  widened-IsGuarded :
      {c d e : HttpsClient tls sys} (wanted : String)
      → Step d e
      → IsGuarded tls sys wanted (IsTried c d) d
      → IsGuarded tls sys wanted (IsTried c e) d
  widened-IsGuarded wanted st g = record {
    asked = g.asked;
    quiet = g.quiet;
    checked = λ ready. Step-IsVerified wanted st (g.checked ready);
    fresh = g.fresh;
    open' = g.open';
  }

  module _ (laws : Laws tls) (wanted : String) where
    resolved-IsGuarded :
        (Tried : Tls.Ssl tls → Type 0) (status : ℤ) (dns_empty : Bool) (c : HttpsClient tls sys)
        → IsGuarded tls sys wanted Tried c
        → IsGuarded tls sys wanted Tried
            (record c { client = on_resolved status dns_empty c.client })
    unfolding on_resolved
    resolved-IsGuarded Tried status dns_empty c g =
        elim (Bool-cases (is_negative status && dns_empty)) [
          | inl e ↦ rw e (record {
            asked = g.asked;
            quiet = g.quiet;
            checked = g.checked;
            fresh = g.fresh;
            open' = g.open';
          })
          | inr e ↦ rw e (record {
            asked = g.asked;
            quiet = g.quiet;
            checked = g.checked;
            fresh = g.fresh;
            open' = g.open';
          })
        ]

    connect-IsGuarded :
        (Tried : Tls.Ssl tls → Type 0) (writable : Bool) (status : ℤ) (c : HttpsClient tls sys)
        → IsGuarded tls sys wanted Tried c
        → IsGuarded tls sys wanted Tried (on_connect tls sys writable status c)
    unfolding on_connect
    connect-IsGuarded Tried writable status c g = elim (Bool-cases (is_negative status)) [
      | inl e ↦ rw e (
          close-IsGuarded tls sys wanted Tried
            (if int_beq status sys.ecanceled then sys.etimedout else status) c g)
      | inr e ↦ rw e (handshake-IsGuarded tls sys wanted Tried laws writable c g)
    ]

    Step-IsGuarded :
        {start c c' : HttpsClient tls sys}
        → Reach start c
        → Step c c'
        → IsGuarded tls sys wanted (IsTried start c') c
        → IsGuarded tls sys wanted (IsTried start c') c'
    unfolding on_timer on_read
    Step-IsGuarded {c = c} r (resolved status dns_empty) g =
        resolved-IsGuarded _ status dns_empty c g
    Step-IsGuarded {c = c} r (connected writable status _) g =
        connect-IsGuarded _ writable status c g
    Step-IsGuarded {c = c} r (received writable (pos n) data' c' open' e) g =
        read-IsGuarded tls sys wanted _ laws writable data' c c' g open'
          (λ ssl owned unfinished. record {
            before = c;
            after = c';
            ssl = ssl;
            writable = writable;
            size = n;
            data' = data';
            reached = r;
            open' = open';
            owned = owned;
            written = refl;
            unfinished = unfinished;
            heard = e;
            since = created;
          })
          e
    Step-IsGuarded {c = c} r (received writable (negsuc n) data' c' open' e) g =
        subst (IsGuarded tls sys wanted _) (some_unique refl e)
          (close-IsGuarded tls sys wanted _ (negsuc n) c g)
    Step-IsGuarded {c = c} r timed_out g = close-IsGuarded tls sys wanted _ sys.etimedout c g
    Step-IsGuarded {c = c} r (closed status) g = close-IsGuarded tls sys wanted _ status c g

    Reach-IsGuarded :
        {c d : HttpsClient tls sys}
        → IsGuarded tls sys wanted (IsTried c c) c
        → Reach c d
        → IsGuarded tls sys wanted (IsTried c d) d
    Reach-IsGuarded g created = g
    Reach-IsGuarded g (then_step r st) =
        Step-IsGuarded r st (widened-IsGuarded wanted st (Reach-IsGuarded g r))

  -- From a new client on, whatever happens to its connection: no byte of the request was handed to
  -- TLS to be sent, and no byte that TLS decrypted was handed to the HTTP parser; or before, this
  -- client read bytes of the peer on its open connection, wrote them to its session, `SSL_connect` of
  -- that session completed the handshake, and the certificate that the peer then presented has the
  -- fingerprint that the request asks for, or any if it asks for none. OpenSSL is assumed to establish
  -- sessions only by `SSL_connect`, with the result 1.
  pub request-IsVerified :
      (laws : Laws tls) (client : HttpClient) (has_ctx : Bool) (parser : Tls.Parser tls)
      (d : HttpsClient tls sys)
      → client.context.stored ≡ true
      → Reach (https_client tls sys client has_ctx parser) d
      → ((d.plain ≡ []) × (d.given ≡ []))
        ⊎ IsVerified tls sys client.m_req.fingerprint
            (IsTried (https_client tls sys client has_ctx parser) d)
  unfolding https_client
  request-IsVerified laws client has_ctx parser d stored r =
      let start : IsGuarded tls sys client.m_req.fingerprint
          (IsTried (https_client tls sys client has_ctx parser)
            (https_client tls sys client has_ctx parser))
          (https_client tls sys client has_ctx parser) =
        record {
          asked = refl;
          quiet = λ _. (refl, refl);
          checked = λ n. absurd (cc);
          fresh = λ s e i. absurd (cc);
          open' = inl stored;
        } in
      let g = Reach-IsGuarded laws client.m_req.fingerprint start r in
      elim (Bool-cases d.m_ready) [
        | inl ready ↦ inr (g.checked ready)
        | inr not_ready ↦ inl (g.quiet not_ready)
      ]
