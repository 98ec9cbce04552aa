-- ===== src/HttpsClient.antt =====
-- base/net/https/HttpsClient.h and HttpsClient.cpp: a client whose connection is TLS. OpenSSL, the
-- vendored HTTP parser and the code of libuv for the end of a stream are the parameter `Tls`. `wire`
-- is what was handed to `HttpContext::write`, `plain` what was handed to `SSL_write`, and `given`
-- what was handed to the parser. Log output is not modelled.
pub mod Guarded
pub mod Handshake
pub mod Verified
use xmrig_nonces_heatmap.Prelude.{
  ℕ, ℤ, pos, negsuc, int_beq, is_negative, Bool, true, false, ◌&&◌, ◌||◌, not, Bytes, List, [], ◌∷◌,
  ◌++◌, Option, none, some, if◌then◌else◌, length, take,
}
use xmrig_nonces_heatmap.String
use xmrig_nonces_heatmap.String.{String}
use xmrig_nonces_heatmap.Cvt.{to_hex}
use xmrig_nonces_heatmap.Fetch.{FetchRequest}
use xmrig_nonces_heatmap.HttpContext.{Callback}
use xmrig_nonces_heatmap.HttpClient
use xmrig_nonces_heatmap.HttpClient.{HttpClient, System, close_client}

-- `Ssl` is a session with the two memory BIOs that `SSL_set_bio` gives to it.
pub record Tls : Type 1 where
  pub Ssl : Type 0
  pub Certificate : Type 0
  pub Parser : Type 0
  -- `SSL_new` with `SSL_set_connect_state`, `SSL_set_bio` and `SSL_set_tlsext_host_name`
  pub ssl_new : Bytes → Option Ssl
  pub do_handshake : Ssl → Ssl
  -- `BIO_write` to the BIO that the session reads
  pub bio_write : Bytes → Ssl → Ssl
  pub is_init_finished : Ssl → Bool
  pub connect : Ssl → ℤ × Ssl
  -- `SSL_get_error` is SSL_ERROR_WANT_READ
  pub wants_read : Ssl → ℤ → Bool
  pub peer_certificate : Ssl → Option Certificate
  -- `SSL_read` until it gives no more: what it gave, whether the last result was 0, and the session
  pub read_all : Ssl → List Bytes × Bool × Ssl
  pub ssl_write : Bytes → Ssl → Ssl
  -- `BIO_get_mem_data` and `BIO_reset` of the BIO that the session writes
  pub take_output : Ssl → Bytes × Ssl
  -- `X509_digest` with SHA-256, where both are there
  pub sha256 : Certificate → Option Bytes
  -- the callbacks of the parser, and how many bytes it took
  pub parse : Bytes → Parser → List Callback × ℕ × Parser
  -- `UV_EOF`
  pub eof : ℤ

module _ (tls : Tls) (sys : System) where
  open tls use {Ssl, Certificate, Parser}

  pub record HttpsClient : Type 0 where
    pub client : HttpClient
    pub m_ctx : Bool
    pub m_ssl : Option Ssl
    pub m_ready : Bool
    pub m_fingerprint : String
    pub parser : Parser
    pub wire : List Bytes
    pub plain : List Bytes
    pub given : List Bytes

  -- the constructor; `SSL_CTX_new` may fail
  unfoldable pub https_client : HttpClient → Bool → Parser → HttpsClient
  https_client client has_ctx parser = record {
    client = client;
    m_ctx = has_ctx;
    m_ssl = none;
    m_ready = false;
    m_fingerprint = String.null_string;
    parser = parser;
    wire = [];
    plain = [];
    given = [];
  }

  -- `flush`, on a stream that can be written to or not; `HttpContext::write` tests the same again
  unfoldable pub flush : Bool → Ssl → HttpsClient → HttpsClient
  flush writable ssl c =
      if writable
      then (let (body, ssl') = tls.take_output ssl in
          record c { m_ssl = some ssl'; wire = c.wire ++ body ∷ [] })
      else record c { m_ssl = some ssl }

  -- the session of `handshake`; `none` where `SSL_new` gives a null pointer
  unfoldable pub new_session : HttpsClient → Option Ssl
  new_session c = if c.m_ctx then tls.ssl_new (HttpClient.text c.client.m_req.host) else none

  -- `handshake`, before the certificate is known
  unfoldable pub handshake : Bool → HttpsClient → HttpsClient
  unfolding flush new_session
  handshake writable c = elim (new_session c) [
    | none ↦ c
    | some ssl ↦ flush writable (tls.do_handshake ssl) c
  ]

  -- `verifyFingerprint`: the answer, and `m_fingerprint`
  unfoldable pub verify_fingerprint : Certificate → HttpsClient → Bool × HttpsClient
  unfolding String.is_equal
  verify_fingerprint cert c = elim (tls.sha256 cert) [
    | none ↦ (false, c)
    | some md ↦
        let fingerprint = to_hex (some (take 32 md)) in
        let wanted = c.client.m_req.fingerprint in
        (
          String.is_null wanted || String.is_equal wanted fingerprint,
          record c { m_fingerprint = fingerprint },
        )
  ]

  -- `verify`
  unfoldable pub verify : Option Certificate → HttpsClient → Bool × HttpsClient
  unfolding verify_fingerprint
  verify none c = (false, c)
  verify (some cert) c = verify_fingerprint cert c

  -- `close` of the base class
  abbrev pub close : ℤ → HttpsClient → HttpsClient
  close status c = record c { client = close_client status c.client }

  -- `write`
  unfoldable pub write : Bool → Bytes → Ssl → HttpsClient → HttpsClient
  unfolding flush
  write writable body ssl c =
      flush writable (tls.ssl_write body ssl) (record c { plain = c.plain ++ body ∷ [] })

  -- `HttpClient::handshake`, whose `write` is the one above, which takes the body always
  unfoldable pub send_request : Bool → Ssl → HttpsClient → HttpsClient
  unfolding write HttpClient.put_request
  send_request writable ssl c =
      let client' = HttpClient.put_request sys c.client in
      write writable client'.context.data'.body ssl
        (record c { client = HttpClient.take_body client' })

  -- the part of `read` where `SSL_connect` has completed the handshake
  unfoldable pub connected : Bool → Ssl → HttpsClient → HttpsClient
  unfolding verify send_request
  connected writable ssl c =
      let (verified, c') = verify (tls.peer_certificate ssl) (record c { m_ssl = some ssl }) in
      if verified
      then send_request writable ssl (record c' { m_ready = true })
      else close sys.eproto c'

  -- `read`, while the session is not established
  unfoldable pub read_handshake : Bool → Ssl → HttpsClient → HttpsClient
  unfolding flush connected
  read_handshake writable ssl c =
      let (rc, ssl') = tls.connect ssl in
      if is_negative rc && tls.wants_read ssl' rc
      then flush writable ssl' c
      else if int_beq rc (pos 1)
      then connected writable ssl' c
      else record c { m_ssl = some ssl' }

  -- `HttpClient::read`
  unfoldable pub parse_piece : Bytes → HttpsClient → HttpsClient
  parse_piece piece c =
      let (callbacks, parsed, parser') = tls.parse piece c.parser in
      record c {
        client = HttpClient.read sys callbacks parsed (length piece) c.client;
        parser = parser';
        given = c.given ++ piece ∷ [];
      }

  -- the loop over `SSL_read`
  unfoldable pub parse_pieces : List Bytes → HttpsClient → HttpsClient
  unfolding parse_piece
  parse_pieces [] c = c
  parse_pieces (piece ∷ pieces) c = parse_pieces pieces (parse_piece piece c)

  -- `read`, once the session is established
  unfoldable pub read_data : Ssl → HttpsClient → HttpsClient
  unfolding parse_pieces
  read_data ssl c =
      let (pieces, ended, ssl') = tls.read_all ssl in
      let c' = parse_pieces pieces (record c { m_ssl = some ssl' }) in
      if ended then close tls.eof c' else c'

  -- `read`; `none` is a session that is a null pointer
  unfoldable pub read : Bool → Bytes → HttpsClient → Option HttpsClient
  unfolding read_handshake read_data
  read writable data' c = elim c.m_ssl [
    | none ↦ none
    | some ssl ↦
        let ssl' = tls.bio_write data' ssl in
        some (
          if not (tls.is_init_finished ssl')
          then read_handshake writable ssl' c
          else read_data ssl' c)
  ]

  -- `onConnect`, whose `handshake` is the one above
  unfoldable pub on_connect : Bool → ℤ → HttpsClient → HttpsClient
  unfolding handshake
  on_connect writable status c =
      if is_negative status
      then close (if int_beq status sys.ecanceled then sys.etimedout else status) c
      else handshake writable c

  -- the callback of `uv_read_start`: data, or an error or the end
  unfoldable pub on_read : Bool → ℤ → Bytes → HttpsClient → Option HttpsClient
  unfolding read
  on_read writable (pos size) data' c = read writable data' c
  on_read writable nread data' c = some (close nread c)
