-- ===== src/HttpContext/Told.antt =====
-- How often the listener of a context is told: callbacks, closes and the end of the listener, in any
-- order.
use xmrig_nonces_heatmap.Prelude.{
  ◌≡◌, refl, ◌⊎◌, inl, inr, ℤ, is_negative, Bytes, true, false, ◌&&◌, [], ◌∷◌, arith, length,
  length-append, Bool-cases, is_nil,
}
use xmrig_nonces_heatmap.HttpData.{HttpData}
use xmrig_nonces_heatmap.HttpContext.{
  HttpContext, http_context, http_listener, set_header, flush, on_header_field, on_header_value,
  on_headers_complete, on_message_complete, close, Callback, url, header_field, header_value, body,
  headers_complete, message_complete, handle,
}

-- A step in the life of a context while the parser runs only on an open connection: libuv reads
-- nothing more after `uv_close`. The loop over `SSL_read`, which may go on after a close, is left to
-- Client.Life. The listener may go at any time.
pub data Step (c : HttpContext) : HttpContext → Type 0 where
  callback : (e : Callback) → c.closing ≡ false → Step c (handle e c)
  closed : (status : ℤ) → Step c (close status c)
  expired : Step c (record c { alive = false })

pub data Reach (d : HttpData) : HttpContext → Type 0 where
  created : Reach d (http_context d)
  then_step : {c c' : HttpContext} → Reach d c → Step c c' → Reach d c'

-- nothing was told, or one message was and nothing more can be
pub record IsToldOnce (c : HttpContext) : Type 0 where
  pub open_or_closing : (c.stored ≡ true) ⊎ (c.closing ≡ true)
  pub so_far :
      ((c.m_listener ≡ true) × (length c.told ≡ 0))
      ⊎ ((length c.told ≡ 1) × ((c.m_listener ≡ false) ⊎ ((c.stored ≡ false) × (c.closing ≡ true))))

-- what the invariant reads is the same in both
unfoldable pub Alike : HttpContext → HttpContext → Type 0
Alike c c' =
    (c'.stored ≡ c.stored)
    × (c'.closing ≡ c.closing)
    × (c'.m_listener ≡ c.m_listener)
    × (c'.told ≡ c.told)

pub Alike-IsToldOnce : (c c' : HttpContext) → Alike c c' → IsToldOnce c → IsToldOnce c'
unfolding Alike
Alike-IsToldOnce c c' (a, b, d, e) t = record {
  open_or_closing = ground (arith, t.open_or_closing, a, b);
  so_far = ground (arith, t.so_far, a, b, d, e);
}

pub flush-Alike : (c : HttpContext) → Alike c (flush c)
unfolding Alike set_header
flush-Alike c = elim (Bool-cases (is_nil c.m_last_header_field)) [
  | inl e ↦ rw e (refl, refl, refl, refl)
  | inr e ↦ rw e (refl, refl, refl, refl)
]

pub on_header_field-Alike : (at : Bytes) (c : HttpContext) → Alike c (on_header_field at c)
unfolding Alike on_header_field
on_header_field-Alike at c = elim (Bool-cases c.m_was_header_value) [
  | inl e ↦ simp e (flush-Alike c)
  | inr e ↦ rw e (refl, refl, refl, refl)
]

pub on_header_value-Alike : (at : Bytes) (c : HttpContext) → Alike c (on_header_value at c)
unfolding Alike on_header_value
on_header_value-Alike at c = elim (Bool-cases c.m_was_header_value) [
  | inl e ↦ rw e (refl, refl, refl, refl)
  | inr e ↦ rw e (refl, refl, refl, refl)
]

message-IsToldOnce :
    (c : HttpContext) → c.closing ≡ false → IsToldOnce c → IsToldOnce (on_message_complete c)
unfolding on_message_complete
message-IsToldOnce c o t = elim (Bool-cases (http_listener c)) [
  | inl e ↦ rw e (record {
    open_or_closing = t.open_or_closing;
    so_far = inr (ground (arith, t.so_far, length-append c.told (c.data' ∷ [])), inl refl);
  })
  | inr e ↦ rw e t
]

pub handle-IsToldOnce :
    (e : Callback) (c : HttpContext) → c.closing ≡ false → IsToldOnce c → IsToldOnce (handle e c)
unfolding handle on_headers_complete Alike
handle-IsToldOnce (url at) c o t = Alike-IsToldOnce c _ (refl, refl, refl, refl) t
handle-IsToldOnce (body at) c o t = Alike-IsToldOnce c _ (refl, refl, refl, refl) t
handle-IsToldOnce (header_field at) c o t = Alike-IsToldOnce c _ (on_header_field-Alike at c) t
handle-IsToldOnce (header_value at) c o t = Alike-IsToldOnce c _ (on_header_value-Alike at c) t
handle-IsToldOnce (headers_complete q s m) c o t = Alike-IsToldOnce c _ (flush-Alike _) t
handle-IsToldOnce message_complete c o t = message-IsToldOnce c o t

pub close-IsToldOnce : (status : ℤ) (c : HttpContext) → IsToldOnce c → IsToldOnce (close status c)
unfolding close
close-IsToldOnce status c t = elim (Bool-cases c.stored) [
  | inl e ↦ elim (Bool-cases (is_negative status && http_listener c)) [
    | inl told ↦
        simp (e, told)
          (record {
            open_or_closing = inr refl;
            so_far = inr (
              ground (
                arith,
                t.so_far,
                e,
                told,
                length-append c.told (record c.data' { status = status } ∷ []),
              ),
              inr (refl, refl),
            );
          })
    | inr silent ↦
        simp (e, silent) (record { open_or_closing = inr refl; so_far = ground (arith, t.so_far) })
  ]
  | inr e ↦ simp e t
]

Reach-IsToldOnce : (d : HttpData) (c : HttpContext) → Reach d c → IsToldOnce c
Reach-IsToldOnce d c created = record { open_or_closing = inl refl; so_far = inl (refl, refl) }
Reach-IsToldOnce d _ (then_step r (callback e o)) = handle-IsToldOnce e _ o (Reach-IsToldOnce d _ r)
Reach-IsToldOnce d _ (then_step r (closed status)) =
    close-IsToldOnce status _ (Reach-IsToldOnce d _ r)
Reach-IsToldOnce d _ (then_step {c = c} r expired) =
    let t = Reach-IsToldOnce d c r in
    record { open_or_closing = t.open_or_closing; so_far = t.so_far }

-- an error tells a listener that is alive, unless it was told before
pub close-length :
    (status : ℤ) (c : HttpContext)
    → is_negative status ≡ true
    → IsToldOnce c
    → c.stored ≡ true
    → c.alive ≡ true
    → length (close status c).told ≡ 1
unfolding close
close-length status c failed t stored lives =
    ground (arith, t.so_far, length-append c.told (record c.data' { status = status } ∷ []))

-- When a context that is still open is closed with an error, and its listener is alive, then the
-- listener has been told of exactly one message: the answer before, or the error now.
pub close-tells :
    (d : HttpData) (c : HttpContext) (status : ℤ)
    → Reach d c
    → c.stored ≡ true
    → c.alive ≡ true
    → is_negative status ≡ true
    → length (close status c).told ≡ 1
close-tells d c status r stored alive failed =
    close-length status c failed (Reach-IsToldOnce d c r) stored alive
