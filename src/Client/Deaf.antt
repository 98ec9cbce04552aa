-- ===== src/Client/Deaf.antt =====
-- A context that has nobody to tell: its listener is gone, or was told a message.
use xmrig_nonces_heatmap.Prelude.{
  ℕ, ℤ, ◌≡◌, refl, inl, inr, Bool, true, false, List, [], ◌∷◌, arith, Bool-cases, any,
}
use xmrig_nonces_heatmap.HttpContext.{
  HttpContext, http_listener, close, Callback, url, header_field, header_value, body,
  headers_complete, message_complete, handle, handle_all, set_header, on_header_field,
  on_header_value, on_headers_complete, on_message_complete,
}
use xmrig_nonces_heatmap.HttpContext.Told.{
  Alike, flush-Alike, on_header_field-Alike, on_header_value-Alike,
}
use xmrig_nonces_heatmap.Client.Answered.{IsAnswered, Alike-IsAnswered, IsTagged-handle}

-- a context whose listener is gone or was told a message
abbrev pub IsDeaf : HttpContext → Type 0
IsDeaf c = http_listener c ≡ false

handle-Alike :
    (e : Callback) (c : HttpContext)
    → IsDeaf c
    → Alike c (handle e c) × ((handle e c).alive ≡ c.alive)
unfolding handle on_headers_complete on_message_complete on_header_field on_header_value set_header
    Alike
handle-Alike (url at) c d = ((refl, refl, refl, refl), refl)
handle-Alike (body at) c d = ((refl, refl, refl, refl), refl)
handle-Alike (header_field at) c d = (on_header_field-Alike at c, ground arith)
handle-Alike (header_value at) c d = (on_header_value-Alike at c, ground arith)
handle-Alike (headers_complete q s m) c d = (flush-Alike _, ground arith)
handle-Alike message_complete c d = rw d ((refl, refl, refl, refl), refl)

handle_all-IsDeaf : (es : List Callback) (c : HttpContext) → IsDeaf c → IsDeaf (handle_all es c)
unfolding handle_all Alike
handle_all-IsDeaf [] c d = d
handle_all-IsDeaf (e ∷ es) c d =
    let (alike, lives) = handle-Alike e c d in
    handle_all-IsDeaf es (handle e c) (ground (arith, alike.2, lives, d))

-- a deaf context stays deaf, and keeps the invariant even where it is closing
pub IsDeaf-handle_all :
    (type rpc_id : ℕ) (es : List Callback) (c : HttpContext)
    → IsDeaf c
    → IsAnswered type rpc_id c
    → IsAnswered type rpc_id (handle_all es c) × IsDeaf (handle_all es c)
unfolding handle_all Alike
IsDeaf-handle_all type rpc_id [] c d v = (v, d)
IsDeaf-handle_all type rpc_id (e ∷ es) c d v =
    let (alike, lives) = handle-Alike e c d in
    IsDeaf-handle_all type rpc_id es (handle e c) (ground (arith, alike.2, lives, d)) (
      Alike-IsAnswered type rpc_id c (handle e c) alike lives
        (IsTagged-handle type rpc_id e c v.tagged) v)

abbrev pub is_complete : Callback → Bool
is_complete message_complete = true
is_complete (url at) = false
is_complete (header_field at) = false
is_complete (header_value at) = false
is_complete (body at) = false
is_complete (headers_complete q s m) = false

-- the end of a message makes the context deaf
message-IsDeaf : (c : HttpContext) → IsDeaf (on_message_complete c)
unfolding on_message_complete
message-IsDeaf c = elim (Bool-cases (http_listener c)) [ inl e ↦ rw e refl | inr e ↦ rw e e ]

-- so do callbacks with the end of a message among them
pub handle_all-completes :
    (es : List Callback) (c : HttpContext) → any is_complete es ≡ true → IsDeaf (handle_all es c)
unfolding handle_all handle
handle_all-completes [] c h = absurd (cc)
handle_all-completes (message_complete ∷ es) c h =
    handle_all-IsDeaf es (on_message_complete c) (message-IsDeaf c)
handle_all-completes (url at ∷ es) c h = handle_all-completes es _ h
handle_all-completes (body at ∷ es) c h = handle_all-completes es _ h
handle_all-completes (header_field at ∷ es) c h = handle_all-completes es _ h
handle_all-completes (header_value at ∷ es) c h = handle_all-completes es _ h
handle_all-completes (headers_complete q s m ∷ es) c h = handle_all-completes es _ h

pub close-IsDeaf : (status : ℤ) (c : HttpContext) → IsDeaf c → IsDeaf (close status c)
unfolding close
close-IsDeaf status c d = ground arith
