-- ===== src/HttpContext.antt =====
-- base/net/http/HttpContext.h and HttpContext.cpp: one HTTP message as the callbacks of the vendored
-- http-parser assemble it, and the end of its connection. `stored` says whether the static map
-- `storage` holds the context under its id, `closing` whether `uv_close` was called, and `told` what
-- the listener was called with. `alive` says whether the object behind `m_listener` still exists.
pub mod Headers
pub mod Told
pub mod Open
use xmrig_nonces_heatmap.Prelude.{
  ℕ, ◌+◌, ◌%◌, ◌^◌, ℤ, is_negative, Bool, true, false, ◌&&◌, not, Bytes, List, [], ◌∷◌, ◌++◌, map,
  eq_bytes, if◌then◌else◌, is_nil,
}
use xmrig_nonces_heatmap.Dict
use xmrig_nonces_heatmap.Dict.{Dict}
use xmrig_nonces_heatmap.String
use xmrig_nonces_heatmap.HttpData.{HttpData}

pub record HttpContext : Type 0 where
  pub data' : HttpData
  pub m_was_header_value : Bool
  pub m_last_header_field : Bytes
  pub m_last_header_value : Bytes
  pub m_listener : Bool
  pub alive : Bool
  pub stored : Bool
  pub closing : Bool
  pub told : List HttpData

-- the constructor; the static `SEQUENCE` gives the id
abbrev pub http_context : HttpData → HttpContext
http_context d = record {
  data' = d;
  m_was_header_value = false;
  m_last_header_field = [];
  m_last_header_value = [];
  m_listener = true;
  alive = true;
  stored = true;
  closing = false;
  told = [];
}

-- `httpListener`
abbrev pub http_listener : HttpContext → Bool
http_listener c = c.m_listener && c.alive

-- `setHeader`
unfoldable pub set_header : HttpContext → HttpContext
set_header c = record c {
  data' = record c.data' {
    headers =
        Dict.insert (map String.tolower c.m_last_header_field) c.m_last_header_value
          c.data'.headers;
  };
  m_last_header_field = [];
  m_last_header_value = [];
}

-- `setHeader` where there is a name
abbrev pub flush : HttpContext → HttpContext
flush c = if is_nil c.m_last_header_field then c else set_header c

-- `onHeaderField`
unfoldable pub on_header_field : Bytes → HttpContext → HttpContext
on_header_field at c =
    if c.m_was_header_value
    then record (flush c) { m_last_header_field = at; m_was_header_value = false }
    else record c { m_last_header_field = c.m_last_header_field ++ at }

-- `onHeaderValue`
unfoldable pub on_header_value : Bytes → HttpContext → HttpContext
on_header_value at c =
    if c.m_was_header_value
    then record c { m_last_header_value = c.m_last_header_value ++ at }
    else record c { m_last_header_value = at; m_was_header_value = true }

-- `on_url`
abbrev pub on_url : Bytes → HttpContext → HttpContext
on_url at c = record c { data' = record c.data' { url = at } }

-- `on_headers_complete`, for a parser of requests or of responses
unfoldable pub on_headers_complete : Bool → ℤ → ℕ → HttpContext → HttpContext
on_headers_complete is_request status_code method c = flush (record c {
  data' = record c.data' {
    status = status_code;
    method = if is_request then method else c.data'.method;
  };
})

-- `on_body`
abbrev pub on_body : Bytes → HttpContext → HttpContext
on_body at c = record c { data' = record c.data' { body = c.data'.body ++ at } }

-- `on_message_complete`
unfoldable pub on_message_complete : HttpContext → HttpContext
on_message_complete c =
    if http_listener c then record c { told = c.told ++ c.data' ∷ []; m_listener = false } else c

-- the part of `close` that tells the listener of an error
abbrev pub report : ℤ → HttpContext → HttpContext
report status c =
    let failed = record c.data' { status = status } in
    if is_negative status && http_listener c
    then record c { data' = failed; told = c.told ++ failed ∷ [] }
    else c

-- `close(int status)`
unfoldable pub close : ℤ → HttpContext → HttpContext
close status c =
    if not c.stored then c else record (report status c) { stored = false; closing = true }

-- the callbacks of the parser
pub data Callback : Type 0 where
  url header_field header_value body : Bytes → Callback
  headers_complete : Bool → ℤ → ℕ → Callback
  message_complete : Callback

-- `attach`: what each callback does
unfoldable pub handle : Callback → HttpContext → HttpContext
unfolding on_header_field on_header_value on_headers_complete on_message_complete
handle (url at) c = on_url at c
handle (header_field at) c = on_header_field at c
handle (header_value at) c = on_header_value at c
handle (body at) c = on_body at c
handle (headers_complete is_request status_code method) c =
    on_headers_complete is_request status_code method c
handle message_complete c = on_message_complete c

unfoldable pub handle_all : List Callback → HttpContext → HttpContext
unfolding handle
handle_all [] c = c
handle_all (e ∷ es) c = handle_all es (handle e c)
