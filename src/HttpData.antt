-- ===== src/HttpData.antt =====
-- base/net/http/HttpData.h and HttpData.cpp: what a listener is given of an HTTP message.
use xmrig_nonces_heatmap.Prelude.{ℕ, ℤ, Bool, false, ◌||◌, Bytes, codes, none, some, ◌==◌, eq_bytes}
use xmrig_nonces_heatmap.Dict
use xmrig_nonces_heatmap.Dict.{Dict}

pub record HttpData : Type 0 where
  pub method : ℕ
  pub status : ℤ
  pub user_type : ℕ
  pub headers : Dict Bytes Bytes
  pub body : Bytes
  pub url : Bytes
  pub rpc_id : ℕ
  pub m_id : ℕ

abbrev pub application_json : Bytes
application_json = codes "application/json"

abbrev pub content_type : Bytes
content_type = codes "Content-Type"

abbrev pub content_type_l : Bytes
content_type_l = codes "content-type"

abbrev pub text_plain : Bytes
text_plain = codes "text/plain"

-- `isJSON`
unfoldable pub is_json : HttpData → Bool
is_json d = elim (Dict.find content_type_l d.headers) [
  | none ↦ false
  | some type ↦ (type == application_json) || (type == text_plain)
]
