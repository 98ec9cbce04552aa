-- ===== src/Client/Answered.antt =====
-- What a context has told its listener, and under which request.
use xmrig_nonces_heatmap.Prelude.{
  ℕ, ℤ, ◌≡◌, refl, sym, subst, inl, inr, is_negative, true, false, ◌&&◌, List, [], ◌∷◌, arith,
  length, Bool-cases, All, All-append,
}
use xmrig_nonces_heatmap.HttpData.{HttpData}
use xmrig_nonces_heatmap.HttpContext.{
  HttpContext, http_listener, http_context, close, Callback, url, header_field, header_value, body,
  headers_complete, message_complete, handle, handle_all, set_header, on_header_field,
  on_header_value, on_headers_complete, on_message_complete,
}
use xmrig_nonces_heatmap.HttpContext.Open.{stored-handle}
use xmrig_nonces_heatmap.HttpContext.Told.{
  IsToldOnce, Alike, Alike-IsToldOnce, handle-IsToldOnce, close-IsToldOnce, close-length,
  flush-Alike, on_header_field-Alike, on_header_value-Alike,
}

-- `userType` and `rpcId` that `fetch` was called with
abbrev pub IsTagged : ℕ → ℕ → HttpData → Type 0
IsTagged type rpc_id d = (d.user_type ≡ type) × (d.rpc_id ≡ rpc_id)

-- The listener is told once at most, and only under the request's tags; once the connection is
-- closing, a listener that is alive has been told.
pub record IsAnswered (type rpc_id : ℕ) (c : HttpContext) : Type 0 where
  pub tagged : IsTagged type rpc_id c.data'
  pub told_tagged : All (IsTagged type rpc_id) c.told
  pub once : IsToldOnce c
  pub answered : c.closing ≡ true → c.alive ≡ true → length c.told ≡ 1

pub close-alive : (status : ℤ) (c : HttpContext) → (close status c).alive ≡ c.alive
unfolding close
close-alive status c = ground arith

module _ (type rpc_id : ℕ) where
  pub http_context-IsAnswered :
      (d : HttpData) → IsTagged type rpc_id d → IsAnswered type rpc_id (http_context d)
  http_context-IsAnswered d t = record {
    tagged = t;
    told_tagged = tt;
    once = record { open_or_closing = inl refl; so_far = inl (refl, refl) };
    answered = λ shut lives. absurd (ground (arith, shut));
  }

  -- what the invariant reads is the same in both
  pub Alike-IsAnswered :
      (c c' : HttpContext)
      → Alike c c'
      → c'.alive ≡ c.alive
      → IsTagged type rpc_id c'.data'
      → IsAnswered type rpc_id c
      → IsAnswered type rpc_id c'
  unfolding Alike
  Alike-IsAnswered c c' (a, b, d, e) alive tagged v = record {
    tagged = tagged;
    told_tagged = subst (All (IsTagged type rpc_id)) (sym e) v.told_tagged;
    once = Alike-IsToldOnce c c' (a, b, d, e) v.once;
    answered = λ shut lives. ground (arith, v.answered, alive, b, e);
  }

  -- the callbacks keep the tags
  pub IsTagged-handle :
      (e : Callback) (c : HttpContext)
      → IsTagged type rpc_id c.data'
      → IsTagged type rpc_id (handle e c).data'
  unfolding handle on_header_field on_header_value on_headers_complete on_message_complete
      set_header
  IsTagged-handle (url at) c t = t
  IsTagged-handle (body at) c t = t
  IsTagged-handle (header_field at) c (t, i) = ground (arith, t, i)
  IsTagged-handle (header_value at) c (t, i) = ground (arith, t, i)
  IsTagged-handle (headers_complete q s m) c (t, i) = ground (arith, t, i)
  IsTagged-handle message_complete c (t, i) = ground (arith, t, i)

  told-handle :
      (e : Callback) (c : HttpContext)
      → IsTagged type rpc_id c.data'
      → All (IsTagged type rpc_id) c.told
      → All (IsTagged type rpc_id) (handle e c).told
  unfolding handle on_headers_complete on_message_complete Alike
  told-handle (url at) c t v = v
  told-handle (body at) c t v = v
  told-handle (header_field at) c t v =
      subst (All (IsTagged type rpc_id)) (sym (on_header_field-Alike at c).3) v
  told-handle (header_value at) c t v =
      subst (All (IsTagged type rpc_id)) (sym (on_header_value-Alike at c).3) v
  told-handle (headers_complete q s m) c t v =
      subst (All (IsTagged type rpc_id)) (sym (flush-Alike _).3) v
  told-handle message_complete c t v = elim (Bool-cases (http_listener c)) [
    | inl e ↦ rw e (All-append (IsTagged type rpc_id) c.told (c.data' ∷ []) v (t, tt))
    | inr e ↦ rw e v
  ]

  -- a callback on a connection that is open
  pub handle-IsAnswered :
      (e : Callback) (c : HttpContext)
      → c.closing ≡ false
      → IsAnswered type rpc_id c
      → IsAnswered type rpc_id (handle e c)
  handle-IsAnswered e c o v = record {
    tagged = IsTagged-handle e c v.tagged;
    told_tagged = told-handle e c v.tagged v.told_tagged;
    once = handle-IsToldOnce e c o v.once;
    answered = λ shut lives. absurd (ground (arith, shut, (stored-handle e c).1, o));
  }

  pub handle_all-IsAnswered :
      (es : List Callback) (c : HttpContext)
      → c.closing ≡ false
      → IsAnswered type rpc_id c
      → IsAnswered type rpc_id (handle_all es c)
  unfolding handle_all
  handle_all-IsAnswered [] c o v = v
  handle_all-IsAnswered (e ∷ es) c o v =
      handle_all-IsAnswered es (handle e c) (ground (arith, (stored-handle e c).1, o))
        (handle-IsAnswered e c o v)

  close-IsTagged :
      (c : HttpContext) (status : ℤ)
      → IsTagged type rpc_id c.data'
      → IsTagged type rpc_id (close status c).data'
  unfolding close
  close-IsTagged c status (t, i) = ground (arith, t, i)

  told-close :
      (c : HttpContext) (status : ℤ)
      → IsTagged type rpc_id c.data'
      → All (IsTagged type rpc_id) c.told
      → All (IsTagged type rpc_id) (close status c).told
  unfolding close
  told-close c status t v = elim (Bool-cases c.stored) [
    | inl stored ↦ elim (Bool-cases (is_negative status && http_listener c)) [
      | inl told ↦
          simp (stored, told)
            (All-append (IsTagged type rpc_id) c.told (record c.data' { status = status } ∷ []) v
              (t, tt))
      | inr silent ↦ simp (stored, silent) v
    ]
    | inr gone ↦ simp gone v
  ]

  -- the end of a connection by an error
  pub close-IsAnswered :
      (status : ℤ) (c : HttpContext)
      → is_negative status ≡ true
      → IsAnswered type rpc_id c
      → IsAnswered type rpc_id (close status c)
  unfolding close
  close-IsAnswered status c failed v = elim (Bool-cases c.stored) [
    | inl stored ↦ record {
      tagged = close-IsTagged c status v.tagged;
      told_tagged = told-close c status v.tagged v.told_tagged;
      once = close-IsToldOnce status c v.once;
      answered = λ shut lives.
          ground (
            arith,
            v.once.so_far,
            close-length status c failed v.once stored,
            close-alive status c,
          );
    }
    | inr gone ↦ simp gone v
  ]
