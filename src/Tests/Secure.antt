-- ===== src/Tests/Secure.antt =====
-- A TLS client that asks for a fingerprint, up to the request.
use xmrig_nonces_heatmap.Prelude.{
  ℕ, pos, negsuc, ◌≡◌, ◌⊎◌, refl, arith, true, false, codes, [], ◌∷◌, Option, none, some, ◌==◌,
  eq_nat, if◌then◌else◌, length,
}
use xmrig_nonces_heatmap.String
use xmrig_nonces_heatmap.String.{String}
use xmrig_nonces_heatmap.Cvt
use xmrig_nonces_heatmap.Fetch.{FetchRequest}
use xmrig_nonces_heatmap.HttpClient
use xmrig_nonces_heatmap.HttpClient.{HttpClient, http_client}
use xmrig_nonces_heatmap.HttpsClient.{Tls, HttpsClient, https_client, on_connect, on_read}
use xmrig_nonces_heatmap.HttpsClient.Guarded.{Laws, IsVerified}
use xmrig_nonces_heatmap.HttpsClient.Verified.{
  Reach, created, then_step, connected, received, IsTried, request-IsVerified,
}
use xmrig_nonces_heatmap.Tests.Messages.{sys}

-- Sessions are 0 when new, 1 when they were written to, and 2 when they are established.
abbrev pub toy : Tls
toy = record {
  Ssl = ℕ;
  Certificate = Unit {0};
  Parser = Unit {0};
  ssl_new = λ host. some 0;
  do_handshake = λ ssl. 0;
  bio_write = λ data' ssl. if ssl == 2 then 2 else 1;
  is_init_finished = λ ssl. ssl == 2;
  connect = λ ssl. (pos 1, 2);
  wants_read = λ ssl rc. false;
  peer_certificate = λ ssl. some tt;
  read_all = λ ssl. ([], false, ssl);
  ssl_write = λ text ssl. ssl;
  take_output = λ ssl. ([], ssl);
  sha256 = λ certificate. some (171 ∷ []);
  parse = λ piece parser. ([], length piece, parser);
  eof = negsuc 4094;
}

toy-Laws : Laws toy
toy-Laws = record {
  started = λ host ssl h. refl;
  written = λ data' ssl. ground arith;
  flushed = λ ssl. refl;
  connected = λ ssl unfinished rc. absurd (cc);
}

abbrev pub pinned : FetchRequest
pinned = record {
  quiet = false;
  tls = true;
  method = 3;
  headers = [];
  body = [];
  fingerprint = record { m_data = some (codes "ab"); m_size = 2 };
  host = record { m_data = some (codes "a.b"); m_size = 3 };
  path = record { m_data = some (codes "/"); m_size = 1 };
  port = 443;
  timeout = 0;
}

abbrev new_client : HttpsClient toy sys
new_client = https_client toy sys (http_client pinned 1 0 0) true tt

abbrev connected_client : HttpsClient toy sys
connected_client = on_connect toy sys true (pos 0) new_client

abbrev or_new : Option (HttpsClient toy sys) → HttpsClient toy sys
or_new none = new_client
or_new (some c) = c

abbrev verified_client : HttpsClient toy sys
verified_client = or_new (on_read toy sys true (pos 2) (1 ∷ 2 ∷ []) connected_client)

verified_client-Reach : Reach toy sys new_client verified_client
unfolding https_client on_connect on_read Cvt.to_hex Cvt.bin2hex String.of_owned String.c_str
verified_client-Reach =
    then_step (then_step created (connected true (pos 0) refl))
      (received true (pos 2) (1 ∷ 2 ∷ []) verified_client refl refl)

request-IsVerified_example :
    ((verified_client.plain ≡ []) × (verified_client.given ≡ []))
    ⊎ IsVerified toy sys pinned.fingerprint (IsTried toy sys new_client verified_client)
request-IsVerified_example =
    request-IsVerified toy sys toy-Laws (http_client pinned 1 0 0) true tt verified_client refl
      verified_client-Reach

-- the request was written
verified_test : length verified_client.plain ≡ 1
unfolding https_client on_connect on_read String.is_equal Cvt.to_hex Cvt.bin2hex String.of_owned
    String.c_str HttpClient.request_text
verified_test = refl
