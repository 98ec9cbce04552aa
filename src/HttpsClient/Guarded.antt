-- ===== src/HttpsClient/Guarded.antt =====
-- The invariant of a TLS client: nothing is sent or parsed before a certificate was accepted.
use xmrig_nonces_heatmap.Prelude.{
  ℕ, ℤ, pos, int_beq, ◌≡◌, refl, ap, ◌∙◌, ◌⊎◌, inl, inr, Bool, true, false, Bytes, List, [], ◌∷◌,
  Option, none, some, length, take, arith, Bool-cases, Option-cases, ltb,
}
use xmrig_nonces_heatmap.String
use xmrig_nonces_heatmap.String.{String}
use xmrig_nonces_heatmap.Cvt.{to_hex}
use xmrig_nonces_heatmap.Fetch.{FetchRequest}
use xmrig_nonces_heatmap.HttpContext.{Callback, handle_all}
use xmrig_nonces_heatmap.HttpContext.Open.{IsOpenOrClosing, close-closing, stored-handle_all}
use xmrig_nonces_heatmap.HttpClient
use xmrig_nonces_heatmap.HttpClient.{HttpClient, System, close_client}
use xmrig_nonces_heatmap.HttpsClient.{
  Tls, HttpsClient, flush, verify_fingerprint, verify, close, write, send_request, connected,
  parse_piece, parse_pieces, read_data,
}

-- What OpenSSL documents: a session that has read nothing is not established, only `SSL_connect`
-- establishes one, and then its result is 1.
pub record Laws (tls : Tls) : Type 0 where
  pub started :
      (host : Bytes) (ssl : Tls.Ssl tls)
      → tls.ssl_new host ≡ some ssl
      → tls.is_init_finished (tls.do_handshake ssl) ≡ false
  pub written :
      (data' : Bytes) (ssl : Tls.Ssl tls)
      → tls.is_init_finished (tls.bio_write data' ssl) ≡ tls.is_init_finished ssl
  pub flushed :
      (ssl : Tls.Ssl tls) → tls.is_init_finished (tls.take_output ssl).1 ≡ tls.is_init_finished ssl
  pub connected :
      (ssl : Tls.Ssl tls)
      → tls.is_init_finished ssl ≡ false
      → int_beq (tls.connect ssl).0 (pos 1) ≡ false
      → tls.is_init_finished (tls.connect ssl).1 ≡ false

read-IsOpenOrClosing :
    (sys : System) (callbacks : List Callback) (parsed size : ℕ) (c : HttpClient)
    → IsOpenOrClosing c.context
    → IsOpenOrClosing (HttpClient.read sys callbacks parsed size c).context
unfolding HttpClient.read
read-IsOpenOrClosing sys callbacks parsed size c o =
    let o' : IsOpenOrClosing (handle_all callbacks c.context) =
      ground (arith, stored-handle_all callbacks c.context) in
    elim (Bool-cases (ltb parsed size)) [
      | inl t ↦ rw t (inr (close-closing sys.eproto (handle_all callbacks c.context) o'))
      | inr f ↦ rw f o'
    ]

-- `Tried` says of which sessions the client has called `SSL_connect`.
module _ (tls : Tls) (sys : System) (wanted : String) (Tried : Tls.Ssl tls → Type 0) where
  open tls use {Ssl, Certificate, Parser}

  -- In a handshake of this client that was completed, the peer has presented a certificate, and its
  -- SHA-256 in hexadecimal digits is the fingerprint that was asked for, if any was.
  pub record IsVerified : Type 0 where
    pub session : Ssl
    pub certificate : Certificate
    pub digest : Bytes
    pub tried : Tried session
    pub completed : int_beq (tls.connect session).0 (pos 1) ≡ true
    pub presented : tls.peer_certificate (tls.connect session).1 ≡ some certificate
    pub hashed : tls.sha256 certificate ≡ some digest
    pub accepted :
        (String.is_null wanted ≡ true)
        ⊎ (String.is_equal wanted (to_hex (some (take 32 digest))) ≡ true)

  pub record IsGuarded (c : HttpsClient tls sys) : Type 0 where
    pub asked : c.client.m_req.fingerprint ≡ wanted
    pub quiet : c.m_ready ≡ false → (c.plain ≡ []) × (c.given ≡ [])
    pub checked : c.m_ready ≡ true → IsVerified
    pub fresh :
        (ssl : Ssl)
        → c.m_ssl ≡ some ssl
        → tls.is_init_finished ssl ≡ true
        → (c.m_ready ≡ true) ⊎ (c.client.context.closing ≡ true)
    pub open' : IsOpenOrClosing c.client.context

  -- what `verify` finds
  verify-IsVerified :
      (ssl : Ssl) (c : HttpsClient tls sys)
      → Tried ssl
      → c.client.m_req.fingerprint ≡ wanted
      → int_beq (tls.connect ssl).0 (pos 1) ≡ true
      → (verify tls sys (tls.peer_certificate (tls.connect ssl).1) c).0 ≡ true
      → IsVerified
  verify-IsVerified ssl c t w done h =
      elim (Option-cases (tls.peer_certificate (tls.connect ssl).1)) [
        | inl e ↦ absurd (unfold verify in ground (arith, e, h))
        | inr (cert, e) ↦ elim (Option-cases (tls.sha256 cert)) [
          | inl unhashed ↦
              absurd (unfold verify verify_fingerprint in ground (arith, e, h, unhashed))
          | inr (md, hashed) ↦ record {
            session = ssl;
            certificate = cert;
            digest = md;
            tried = t;
            completed = done;
            presented = e;
            hashed = hashed;
            accepted = unfold verify verify_fingerprint in ground (arith, e, h, hashed, w);
          }
        ]
      ]

  -- `verify` sets the fingerprint and nothing else
  verify-keeps :
      (cert : Option Certificate) (c : HttpsClient tls sys)
      → (s : String) × ((verify tls sys cert c).1 ≡ record c { m_fingerprint = s })
  unfolding verify verify_fingerprint
  verify-keeps none c = (c.m_fingerprint, refl)
  verify-keeps (some cert) c = elim (Option-cases (tls.sha256 cert)) [
    | inl e ↦ (c.m_fingerprint, rw (e, verify, verify_fingerprint))
    | inr (md, e) ↦ (to_hex (some (take 32 md)), rw (e, verify, verify_fingerprint))
  ]

  pub flush-IsGuarded :
      (laws : Laws tls) (writable : Bool) (ssl : Ssl) (c : HttpsClient tls sys)
      → IsGuarded c
      → (tls.is_init_finished ssl ≡ true → (c.m_ready ≡ true) ⊎ (c.client.context.closing ≡ true))
      → IsGuarded (flush tls sys writable ssl c)
  unfolding flush
  flush-IsGuarded laws true ssl c g f = record {
    asked = g.asked;
    quiet = g.quiet;
    checked = g.checked;
    fresh = λ s e i. f (ground (arith, laws.flushed ssl));
    open' = g.open';
  }
  flush-IsGuarded laws false ssl c g f = record {
    asked = g.asked;
    quiet = g.quiet;
    checked = g.checked;
    fresh = λ s e i. f (ground arith);
    open' = g.open';
  }

  -- `close` keeps what was found out
  pub close-IsGuarded :
      (status : ℤ) (c : HttpsClient tls sys) → IsGuarded c → IsGuarded (close tls sys status c)
  close-IsGuarded status c g =
      let shut = close-closing status c.client.context g.open' in
      record {
        asked = g.asked;
        quiet = g.quiet;
        checked = g.checked;
        fresh = λ s e i. inr shut;
        open' = inr shut;
      }

  -- a client that is ready has nothing more to prove
  ready-IsGuarded :
      (c : HttpsClient tls sys)
      → c.client.m_req.fingerprint ≡ wanted
      → c.m_ready ≡ true
      → IsVerified
      → IsOpenOrClosing c.client.context
      → IsGuarded c
  ready-IsGuarded c w r v o = record {
    asked = w;
    quiet = λ n. absurd (cc);
    checked = λ _. v;
    fresh = λ s e i. inl r;
    open' = o;
  }

  -- what the parser leaves alone
  record Kept (c c' : HttpsClient tls sys) : Type 0 where
    ready : c'.m_ready ≡ c.m_ready
    req : c'.client.m_req ≡ c.client.m_req
    open' : IsOpenOrClosing c.client.context → IsOpenOrClosing c'.client.context

  parse_piece-Kept :
      (piece : Bytes) (c : HttpsClient tls sys) → Kept c (parse_piece tls sys piece c)
  unfolding parse_piece HttpClient.read
  parse_piece-Kept piece c = record {
    ready = refl;
    req = ground arith;
    open' =
        read-IsOpenOrClosing sys (tls.parse piece c.parser).0 (tls.parse piece c.parser).1
          (length piece) c.client;
  }

  parse_pieces-Kept :
      (pieces : List Bytes) (c : HttpsClient tls sys) → Kept c (parse_pieces tls sys pieces c)
  unfolding parse_pieces
  parse_pieces-Kept [] c = record { ready = refl; req = refl; open' = λ o. o }
  parse_pieces-Kept (piece ∷ pieces) c =
      let k = parse_piece-Kept piece c in
      let l = parse_pieces-Kept pieces (parse_piece tls sys piece c) in
      record { ready = l.ready ∙ k.ready; req = l.req ∙ k.req; open' = λ o. l.open' (k.open' o) }

  pub read_data-IsGuarded :
      (ssl : Ssl) (c : HttpsClient tls sys)
      → IsGuarded c
      → c.m_ready ≡ true
      → IsGuarded (read_data tls sys ssl c)
  unfolding read_data
  read_data-IsGuarded ssl c g r =
      let k =
        parse_pieces-Kept (tls.read_all ssl).0 (record c { m_ssl = some (tls.read_all ssl).2 }) in
      let all =
        ready-IsGuarded
          (parse_pieces tls sys (tls.read_all ssl).0
            (record c { m_ssl = some (tls.read_all ssl).2 }))
          (ap (λ (q : FetchRequest). q.fingerprint) k.req ∙ g.asked) (k.ready ∙ r) (g.checked r)
          (k.open' g.open') in
      elim (Bool-cases (tls.read_all ssl).1) [
        | inl t ↦ rw t (close-IsGuarded tls.eof _ all)
        | inr f ↦ rw f all
      ]

  -- the request is written once the certificate is verified
  send_request-IsGuarded :
      (writable : Bool) (ssl : Ssl) (c : HttpsClient tls sys)
      → c.client.m_req.fingerprint ≡ wanted
      → IsVerified
      → IsOpenOrClosing c.client.context
      → c.m_ready ≡ true
      → IsGuarded (send_request tls sys writable ssl c)
  unfolding send_request write flush HttpClient.put_request
  send_request-IsGuarded true ssl c w v o r = ready-IsGuarded _ w r v o
  send_request-IsGuarded false ssl c w v o r = ready-IsGuarded _ w r v o

  pub connected-IsGuarded :
      (writable : Bool) (ssl : Ssl) (c : HttpsClient tls sys)
      → IsGuarded c
      → Tried ssl
      → int_beq (tls.connect ssl).0 (pos 1) ≡ true
      → IsGuarded (connected tls sys writable (tls.connect ssl).1 c)
  unfolding connected
  connected-IsGuarded writable ssl c g t done =
      let c' : HttpsClient tls sys = record c { m_ssl = some (tls.connect ssl).1 } in
      let cert = tls.peer_certificate (tls.connect ssl).1 in
      let (s, e) = verify-keeps cert c' in
      elim (Bool-cases (verify tls sys cert c').0) [
        | inl good ↦
            rw (good, e)
              (send_request-IsGuarded writable (tls.connect ssl).1
                (record c' { m_fingerprint = s; m_ready = true }) g.asked
                (verify-IsVerified ssl c' t g.asked done good) g.open' refl)
        | inr bad ↦
            let shut = close-closing sys.eproto c.client.context g.open' in
            rw (bad, e)
              (record {
                asked = g.asked;
                quiet = g.quiet;
                checked = g.checked;
                fresh = λ s e i. inr shut;
                open' = inr shut;
              })
      ]
