-- ===== src/Client/Secure.antt =====
-- What the TLS client does with the connection beneath it, up to the first message.
use xmrig_nonces_heatmap.Prelude.{
  ℕ, pos, int_beq, is_negative, ◌≡◌, refl, sym, subst, inl, inr, Bool, true, false, Bytes, [], ◌∷◌,
  ◌++◌, Option, none, some, arith, Bool-cases, Option-cases, ◌&&◌,
}
use mathlib.Core.Option.{some-injective}
use xmrig_nonces_heatmap.HttpContext.Told.{Alike}
use xmrig_nonces_heatmap.HttpClient
use xmrig_nonces_heatmap.HttpClient.{HttpClient, System}
use xmrig_nonces_heatmap.HttpsClient.{
  Tls, HttpsClient, flush, new_session, handshake, verify, verify_fingerprint, write, send_request,
  connected, read_handshake, read_data, read,
}
use xmrig_nonces_heatmap.Client.Answered.{IsAnswered, Alike-IsAnswered, close-IsAnswered}
use xmrig_nonces_heatmap.Client.Pieces.{Laws, parse_pieces-IsReady}

-- `HttpClient::handshake` tells nothing
pub handshake-IsAnswered :
    (type rpc_id : ℕ) (sys : System) (writable : Bool) (c : HttpClient)
    → IsAnswered type rpc_id c.context
    → IsAnswered type rpc_id (HttpClient.handshake sys writable c).context
unfolding HttpClient.handshake Alike
handshake-IsAnswered type rpc_id sys true c v =
    Alike-IsAnswered type rpc_id c.context _ (refl, refl, refl, refl) refl v.tagged v
handshake-IsAnswered type rpc_id sys false c v =
    Alike-IsAnswered type rpc_id c.context _ (refl, refl, refl, refl) refl v.tagged v

-- nor does the request of a TLS client
request-IsAnswered :
    (type rpc_id : ℕ) (sys : System) (c : HttpClient)
    → IsAnswered type rpc_id c.context
    → IsAnswered type rpc_id (HttpClient.take_body (HttpClient.put_request sys c)).context
unfolding HttpClient.put_request Alike
request-IsAnswered type rpc_id sys c v =
    Alike-IsAnswered type rpc_id c.context _ (refl, refl, refl, refl) refl v.tagged v

module _ (tls : Tls) (sys : System) where
  client-flush :
      (writable : Bool) (ssl : Tls.Ssl tls) (c : HttpsClient tls sys)
      → (flush tls sys writable ssl c).client ≡ c.client
  unfolding flush
  client-flush true ssl c = refl
  client-flush false ssl c = refl

  pub client-handshake :
      (writable : Bool) (c : HttpsClient tls sys) → (handshake tls sys writable c).client ≡ c.client
  unfolding handshake
  client-handshake writable c = elim (Option-cases (new_session tls sys c)) [
    | inl e ↦ rw (handshake, e) refl
    | inr (ssl, e) ↦ rw (handshake, e) (client-flush writable (tls.do_handshake ssl) c)
  ]

  client-verify :
      (cert : Option (Tls.Certificate tls)) (c : HttpsClient tls sys)
      → (verify tls sys cert c).1.client ≡ c.client
  unfolding verify verify_fingerprint
  client-verify none c = refl
  client-verify (some cert) c = elim (Option-cases (tls.sha256 cert)) [
    | inl e ↦ rw (verify, verify_fingerprint, e) refl
    | inr (md, e) ↦ rw (verify, verify_fingerprint, e) refl
  ]

  client-write :
      (writable : Bool) (body : Bytes) (ssl : Tls.Ssl tls) (c : HttpsClient tls sys)
      → (write tls sys writable body ssl c).client ≡ c.client
  unfolding write
  client-write writable body ssl c =
      client-flush writable (tls.ssl_write body ssl) (record c { plain = c.plain ++ body ∷ [] })

  client-send_request :
      (writable : Bool) (ssl : Tls.Ssl tls) (c : HttpsClient tls sys)
      → (send_request tls sys writable ssl c).client
        ≡ HttpClient.take_body (HttpClient.put_request sys c.client)
  unfolding send_request
  client-send_request writable ssl c =
      let client' = HttpClient.put_request sys c.client in
      client-write writable client'.context.data'.body ssl
        (record c { client = HttpClient.take_body client' })

  module _ (laws : Laws tls sys) (type rpc_id : ℕ) where
    connected-IsAnswered :
        (writable : Bool) (ssl : Tls.Ssl tls) (c : HttpsClient tls sys)
        → IsAnswered type rpc_id c.client.context
        → IsAnswered type rpc_id (connected tls sys writable ssl c).client.context
    unfolding connected
    connected-IsAnswered writable ssl c v =
        let (verified, c') =
          verify tls sys (tls.peer_certificate ssl) (record c { m_ssl = some ssl }) in
        let same = client-verify (tls.peer_certificate ssl) (record c { m_ssl = some ssl }) in
        let v' = subst (λ (h : HttpClient). IsAnswered type rpc_id h.context) (sym same) v in
        elim (Bool-cases verified) [
          | inl e ↦ rw e (
              subst (λ (h : HttpClient). IsAnswered type rpc_id h.context)
                (sym (client-send_request writable ssl (record c' { m_ready = true })))
                (request-IsAnswered type rpc_id sys c'.client v'))
          | inr e ↦
              rw e (close-IsAnswered type rpc_id sys.eproto c'.client.context laws.protocol v')
        ]

    read_handshake-IsAnswered :
        (writable : Bool) (ssl : Tls.Ssl tls) (c : HttpsClient tls sys)
        → IsAnswered type rpc_id c.client.context
        → IsAnswered type rpc_id (read_handshake tls sys writable ssl c).client.context
    unfolding read_handshake
    read_handshake-IsAnswered writable ssl c v =
        let (rc, ssl') = tls.connect ssl in
        elim (Bool-cases (is_negative rc && tls.wants_read ssl' rc)) [
          | inl e ↦ rw e (
              subst (λ (h : HttpClient). IsAnswered type rpc_id h.context)
                (sym (client-flush writable ssl' c)) v)
          | inr e ↦ elim (Bool-cases (int_beq rc (pos 1))) [
            | inl one ↦ rw (e, one) (connected-IsAnswered writable ssl' c v)
            | inr other ↦ rw (e, other) v
          ]
        ]

    read_data-IsAnswered :
        (ssl : Tls.Ssl tls) (c : HttpsClient tls sys)
        → c.client.context.closing ≡ false
        → IsAnswered type rpc_id c.client.context
        → IsAnswered type rpc_id (read_data tls sys ssl c).client.context
    unfolding read_data
    read_data-IsAnswered ssl c o v =
        let (pieces, ended, ssl') = tls.read_all ssl in
        let (v', _) =
          parse_pieces-IsReady tls sys laws type rpc_id pieces (record c { m_ssl = some ssl' })
            (v, inl o) in
        elim (Bool-cases ended) [
          | inl e ↦ rw e (close-IsAnswered type rpc_id tls.eof _ laws.ended v')
          | inr e ↦ rw e v'
        ]

    pub read-IsAnswered :
        (writable : Bool) (bytes : Bytes) (c c' : HttpsClient tls sys)
        → c.client.context.closing ≡ false
        → IsAnswered type rpc_id c.client.context
        → read tls sys writable bytes c ≡ some c'
        → IsAnswered type rpc_id c'.client.context
    unfolding read
    read-IsAnswered writable bytes c c' o v e = elim (Option-cases c.m_ssl) [
      | inl nothing ↦ absurd (ground (arith, e, nothing))
      | inr (ssl, there) ↦
          let ssl' = tls.bio_write bytes ssl in
          elim (Bool-cases (tls.is_init_finished ssl')) [
            | inl known ↦
                subst (λ (x : HttpsClient tls sys). IsAnswered type rpc_id x.client.context)
                  (some-injective (read_data tls sys ssl' c) c' (ground (arith, e, there, known)))
                  (read_data-IsAnswered ssl' c o v)
            | inr unknown ↦
                subst (λ (x : HttpsClient tls sys). IsAnswered type rpc_id x.client.context)
                  (some-injective (read_handshake tls sys writable ssl' c) c'
                    (ground (arith, e, there, unknown)))
                  (read_handshake-IsAnswered writable ssl' c v)
          ]
    ]
