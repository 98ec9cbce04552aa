-- ===== src/HttpsClient/Handshake.antt =====
-- The handshake of a TLS client, and its `read`, keep the invariant.
use xmrig_nonces_heatmap.Prelude.{
  ℤ, pos, negsuc, int_beq, is_negative, ◌≡◌, refl, inl, inr, Bool, true, false, ◌&&◌, Bytes, some,
  arith, Bool-cases, Option-cases, some_unique, subst,
}
use xmrig_nonces_heatmap.String.{String}
use xmrig_nonces_heatmap.HttpClient
use xmrig_nonces_heatmap.HttpClient.{HttpClient, System, close_client}
use xmrig_nonces_heatmap.HttpsClient.{
  Tls, HttpsClient, new_session, handshake, read_handshake, read,
}
use xmrig_nonces_heatmap.HttpsClient.Guarded.{
  Laws, IsGuarded, flush-IsGuarded, connected-IsGuarded, read_data-IsGuarded,
}

negative-ne-one : (z : ℤ) (b : Bool) → (is_negative z && b) ≡ true → int_beq z (pos 1) ≡ false
negative-ne-one (pos n) b h = absurd (cc)
negative-ne-one (negsuc n) b h = refl

module _ (tls : Tls) (sys : System) (wanted : String) (Tried : Tls.Ssl tls → Type 0)
    (laws : Laws tls) where
  read_handshake-IsGuarded :
      (writable : Bool) (ssl : Tls.Ssl tls) (c : HttpsClient tls sys)
      → IsGuarded tls sys wanted Tried c
      → Tried ssl
      → tls.is_init_finished ssl ≡ false
      → IsGuarded tls sys wanted Tried (read_handshake tls sys writable ssl c)
  unfolding read_handshake
  read_handshake-IsGuarded writable ssl c g t unfinished =
      let (rc, ssl') = tls.connect ssl in
      elim (Bool-cases (is_negative rc && tls.wants_read ssl' rc)) [
        | inl waits ↦ rw waits (
            flush-IsGuarded tls sys wanted Tried laws writable ssl' c g
              (λ i. absurd (cc (laws.connected ssl unfinished (negative-ne-one rc _ waits), i))))
        | inr other ↦ elim (Bool-cases (int_beq rc (pos 1))) [
          | inl done ↦
              rw (other, done) (connected-IsGuarded tls sys wanted Tried writable ssl c g t done)
          | inr not_done ↦
              rw (other, not_done)
                (record {
                  asked = g.asked;
                  quiet = g.quiet;
                  checked = g.checked;
                  fresh = λ s e i.
                      absurd (ground (arith, laws.connected ssl unfinished not_done, e, i));
                  open' = g.open';
                })
        ]
      ]

  new_session-unfinished :
      (c : HttpsClient tls sys) (ssl : Tls.Ssl tls)
      → new_session tls sys c ≡ some ssl
      → tls.is_init_finished (tls.do_handshake ssl) ≡ false
  unfolding new_session
  new_session-unfinished c ssl e =
      ground (arith, laws.started (HttpClient.text c.client.m_req.host) ssl)

  pub handshake-IsGuarded :
      (writable : Bool) (c : HttpsClient tls sys)
      → IsGuarded tls sys wanted Tried c
      → IsGuarded tls sys wanted Tried (handshake tls sys writable c)
  unfolding handshake
  handshake-IsGuarded writable c g = elim (Option-cases (new_session tls sys c)) [
    | inl e ↦ rw (e, handshake) g
    | inr (ssl, e) ↦
        rw (e, handshake)
          (flush-IsGuarded tls sys wanted Tried laws writable (tls.do_handshake ssl) c g
            (λ i. absurd (cc (new_session-unfinished c ssl e, i))))
  ]

  pub read-IsGuarded :
      (writable : Bool) (data' : Bytes) (c c' : HttpsClient tls sys)
      → IsGuarded tls sys wanted Tried c
      → c.client.context.closing ≡ false
      → ((ssl : Tls.Ssl tls)
          → c.m_ssl ≡ some ssl
          → tls.is_init_finished (tls.bio_write data' ssl) ≡ false
          → Tried (tls.bio_write data' ssl))
      → read tls sys writable data' c ≡ some c'
      → IsGuarded tls sys wanted Tried c'
  unfolding read
  read-IsGuarded writable data' c c' g o tried e = elim (Option-cases c.m_ssl) [
    | inl none' ↦ absurd (ground (arith, none', e))
    | inr (ssl, at) ↦
        let ssl' = tls.bio_write data' ssl in
        elim (Bool-cases (tls.is_init_finished ssl')) [
          | inl done ↦
              let ready : c.m_ready ≡ true =
                ground (arith, g.fresh ssl at, laws.written data' ssl) in
              subst (IsGuarded tls sys wanted Tried) (some_unique (rw (at, read, done)) e)
                (read_data-IsGuarded tls sys wanted Tried ssl' c g ready)
          | inr open'' ↦
              subst (IsGuarded tls sys wanted Tried) (some_unique (rw (at, read, open'')) e)
                (read_handshake-IsGuarded writable ssl' c g (tried ssl at open'') open'')
        ]
  ]
