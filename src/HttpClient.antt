-- ===== src/HttpClient.antt =====
-- base/net/http/HttpClient.h and HttpClient.cpp: the request that a client writes, and the events of
-- its connection. `sent` is what was handed to `write`. The error codes of libuv, the names of the
-- methods, the user agent and the parser's count of consumed bytes are parameters.
pub mod Failures
use xmrig_nonces_heatmap.Prelude.{
  ℕ, ◌+◌, ◌%◌, ◌^◌, ℤ, pos, is_negative, int_beq, Bool, true, false, ◌&&◌, not, Bytes, codes, List,
  [], ◌∷◌, ◌++◌, map, Option, none, some, eq_bytes, if◌then◌else◌, is_nil, ltb, length,
}
use xmrig_nonces_heatmap.Dict
use xmrig_nonces_heatmap.Dict.{Dict}
use xmrig_nonces_heatmap.String
use xmrig_nonces_heatmap.String.{String}
use xmrig_nonces_heatmap.Env.{insert_var}
use xmrig_nonces_heatmap.Fetch.{FetchRequest}
use xmrig_nonces_heatmap.Heatmap.{to_string}
use xmrig_nonces_heatmap.HttpData.{HttpData}
use xmrig_nonces_heatmap.HttpContext.{HttpContext, Callback, http_context, handle_all, close}

pub record HttpClient : Type 0 where
  pub context : HttpContext
  pub m_req : FetchRequest
  pub has_timer : Bool
  pub connecting : Bool
  pub sent : List Bytes

-- what libuv, the parser and the platform give
pub record System : Type 0 where
  pub etimedout : ℤ
  pub eproto : ℤ
  pub ecanceled : ℤ
  pub method_str : ℕ → Bytes
  pub user_agent : Bytes

-- the text of a `const char *` that is not null
abbrev pub text : String → Bytes
text s = String.c_str (String.bytes s)

-- the constructor, and the two fields that `fetch` sets afterwards
abbrev pub http_client : FetchRequest → ℕ → ℕ → ℕ → HttpClient
http_client req id user_type rpc_id = record {
  context = http_context (record {
    method = req.method;
    status = pos 0;
    user_type = user_type;
    headers = req.headers;
    body = req.body;
    url = text req.path;
    rpc_id = rpc_id;
    m_id = id;
  });
  m_req = record req { headers = []; body = [] };
  has_timer = not (ltb req.timeout 1);
  connecting = false;
  sent = [];
}

-- the order of `std::map`
unfoldable pub ordered : Dict Bytes Bytes → Dict Bytes Bytes
unfolding insert_var
ordered [] = []
ordered ((name, value) ∷ m) = insert_var name value (ordered m)

abbrev crlf : Bytes
crlf = 13 ∷ 10 ∷ []

unfoldable pub header_lines : Dict Bytes Bytes → Bytes
header_lines [] = []
header_lines ((name, value) ∷ m) = name ++ (codes ": " ++ (value ++ (crlf ++ header_lines m)))

-- the headers that `handshake` adds
unfoldable pub request_headers : System → FetchRequest → HttpData → Dict Bytes Bytes
request_headers sys req d =
    let m = Dict.insert (codes "Host") (text req.host) d.headers in
    let m = Dict.insert (codes "Connection") (codes "close") m in
    let m = Dict.insert (codes "User-Agent") sys.user_agent m in
    if is_nil d.body then m else Dict.insert (codes "Content-Length") (to_string (length d.body)) m

-- the text of the request
unfoldable pub request_text : System → FetchRequest → HttpData → Bytes
unfolding request_headers header_lines ordered
request_text sys req d =
    sys.method_str d.method
    ++ (codes " "
        ++ (d.url
            ++ (codes " HTTP/1.1"
                ++ (crlf
                    ++ (header_lines (ordered (request_headers sys req d)) ++ (crlf ++ d.body))))))

-- `handshake` before its `write`: the body is the text of the request
unfoldable pub put_request : System → HttpClient → HttpClient
unfolding request_text
put_request sys c =
    let d = c.context.data' in
    let text' = request_text sys c.m_req d in
    record c { context = record c.context { data' = record d { headers = []; body = text' } } }

-- `std::move(body)`
abbrev pub take_body : HttpClient → HttpClient
take_body c = record c {
  context = record c.context { data' = record c.context.data' { body = [] } };
}

-- `HttpContext::write`, which takes the body if the stream can be written to
unfoldable pub write : Bool → HttpClient → HttpClient
write writable c =
    if writable then record (take_body c) { sent = c.sent ++ c.context.data'.body ∷ [] } else c

-- `handshake`, on a connection that can be written to or not
unfoldable pub handshake : System → Bool → HttpClient → HttpClient
unfolding put_request write
handshake sys writable c = write writable (put_request sys c)

-- `close` of the base class
abbrev pub close_client : ℤ → HttpClient → HttpClient
close_client status c = record c { context = close status c.context }

-- `onResolved`, where `dns_empty` says that no address was found
unfoldable pub on_resolved : ℤ → Bool → HttpClient → HttpClient
on_resolved status dns_empty c =
    let c' = record c {
      context = record c.context { data' = record c.context.data' { status = status } };
    } in
    if is_negative status && dns_empty then c' else record c' { connecting = true }

-- `onTimer`
unfoldable pub on_timer : System → HttpClient → HttpClient
on_timer sys c = close_client sys.etimedout c

-- `onConnect`
unfoldable pub on_connect : System → ℤ → Bool → HttpClient → HttpClient
unfolding handshake
on_connect sys status writable c =
    if is_negative status
    then close_client (if int_beq status sys.ecanceled then sys.etimedout else status) c
    else handshake sys writable c

-- `read`: the parser runs its callbacks and says how many of `size` bytes it took
unfoldable pub read : System → List Callback → ℕ → ℕ → HttpClient → HttpClient
unfolding handle_all
read sys callbacks parsed size c =
    let c' = record c { context = handle_all callbacks c.context } in
    if ltb parsed size then close_client sys.eproto c' else c'

-- the callback of `uv_read_start`: a negative `nread` is an error or the end
unfoldable pub on_read : System → ℤ → List Callback → ℕ → HttpClient → HttpClient
unfolding read
on_read sys (pos size) callbacks parsed c = read sys callbacks parsed size c
on_read sys nread callbacks parsed c = close_client nread c
