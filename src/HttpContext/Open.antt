-- ===== src/HttpContext/Open.antt =====
-- Whether a context is still open: what the callbacks of the parser and `close` do to that.
use xmrig_nonces_heatmap.Prelude.{◌≡◌, refl, ◌∙◌, ◌⊎◌, ℤ, true, List, [], ◌∷◌, arith}
use xmrig_nonces_heatmap.HttpContext.{
  HttpContext, set_header, on_header_field, on_header_value, on_headers_complete,
  on_message_complete, close, Callback, url, header_field, header_value, body, headers_complete,
  message_complete, handle, handle_all,
}

-- A context is stored until `uv_close` was called for it.
abbrev pub IsOpenOrClosing : HttpContext → Type 0
IsOpenOrClosing c = (c.stored ≡ true) ⊎ (c.closing ≡ true)

-- the callbacks do not close
pub stored-handle :
    (e : Callback) (c : HttpContext)
    → ((handle e c).stored ≡ c.stored) × ((handle e c).closing ≡ c.closing)
unfolding handle on_header_field on_header_value on_headers_complete on_message_complete set_header
stored-handle (url at) c = (refl, refl)
stored-handle (body at) c = (refl, refl)
stored-handle (header_field at) c = ground arith
stored-handle (header_value at) c = ground arith
stored-handle (headers_complete q s m) c = ground arith
stored-handle message_complete c = ground arith

pub stored-handle_all :
    (es : List Callback) (c : HttpContext)
    → ((handle_all es c).stored ≡ c.stored) × ((handle_all es c).closing ≡ c.closing)
unfolding handle_all
stored-handle_all [] c = (refl, refl)
stored-handle_all (e ∷ es) c = ground (arith, stored-handle e c, stored-handle_all es (handle e c))

-- nor change the id
pub m_id-handle : (e : Callback) (c : HttpContext) → (handle e c).data'.m_id ≡ c.data'.m_id
unfolding handle on_header_field on_header_value on_headers_complete on_message_complete set_header
m_id-handle (url at) c = refl
m_id-handle (body at) c = refl
m_id-handle (header_field at) c = ground arith
m_id-handle (header_value at) c = ground arith
m_id-handle (headers_complete q s m) c = ground arith
m_id-handle message_complete c = ground arith

pub m_id-handle_all :
    (es : List Callback) (c : HttpContext) → (handle_all es c).data'.m_id ≡ c.data'.m_id
unfolding handle_all
m_id-handle_all [] c = refl
m_id-handle_all (e ∷ es) c = m_id-handle_all es (handle e c) ∙ m_id-handle e c

pub close-closing :
    (status : ℤ) (c : HttpContext) → IsOpenOrClosing c → (close status c).closing ≡ true
unfolding close
close-closing status c o = ground arith
