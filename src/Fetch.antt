-- ===== src/Fetch.antt =====
-- base/net/http/Fetch.h and Fetch.cpp: a request before it is sent.
use xmrig_nonces_heatmap.Prelude.{
  ℕ, Bool, ◌&&◌, ◌||◌, not, Bytes, [], Option, none, some, ◌==◌, eq_nat, eq_bytes, if◌then◌else◌,
  length, is_nil, take,
}
use xmrig_nonces_heatmap.Dict
use xmrig_nonces_heatmap.Dict.{Dict}
use xmrig_nonces_heatmap.Json.{RapidJson}
use xmrig_nonces_heatmap.String
use xmrig_nonces_heatmap.String.{String}
use xmrig_nonces_heatmap.HttpData.{application_json, content_type}

-- `http_method` of the vendored http_parser.h
abbrev pub http_get : ℕ
http_get = 1

abbrev pub http_head : ℕ
http_head = 2

abbrev pub http_post : ℕ
http_post = 3

pub record FetchRequest : Type 0 where
  pub quiet : Bool
  pub tls : Bool
  pub method : ℕ
  pub headers : Dict Bytes Bytes
  pub body : Bytes
  pub fingerprint : String
  pub host : String
  pub path : String
  pub port : ℕ
  pub timeout : ℕ

-- `method == HTTP_GET || method == HTTP_HEAD`
abbrev pub is_bodiless : ℕ → Bool
is_bodiless method = (method == http_get) || (method == http_head)

-- `setBody(const char *data, size_t size, const char *contentType)`
unfoldable pub set_body : FetchRequest → Option Bytes → ℕ → Option Bytes → FetchRequest
unfolding String.c_str
set_body req none size kind = req
set_body req (some bytes) size kind = if is_bodiless req.method then req else record req {
  body = if size == 0 then String.c_str bytes else take size bytes;
  headers = elim kind [
    | none ↦ req.headers
    | some type ↦ Dict.insert content_type type req.headers
  ];
}

-- `hasBody`
unfoldable pub has_body : FetchRequest → Bool
has_body req = not (is_bodiless req.method) && not (is_nil req.body)

module _ (rj : RapidJson) where
  -- `setBody(const rapidjson::Value &value)`
  unfoldable pub set_json_body : FetchRequest → RapidJson.Value rj → FetchRequest
  unfolding set_body
  set_json_body req value =
      if is_bodiless req.method
      then req
      else set_body req (some (rj.write value)) (length (rj.write value)) (some application_json)

  -- the constructor from a JSON value
  unfoldable pub request : ℕ → String → ℕ → String → RapidJson.Value rj → Bool → Bool → FetchRequest
  unfolding set_json_body
  request method host port path value tls quiet =
      set_json_body
        (record {
          quiet = quiet;
          tls = tls;
          method = method;
          headers = [];
          body = [];
          fingerprint = String.null_string;
          host = host;
          path = path;
          port = port;
          timeout = 0;
        })
        value
