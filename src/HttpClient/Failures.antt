-- ===== src/HttpClient/Failures.antt =====
-- Connections that fail: what the listener of the client hears.
use xmrig_nonces_heatmap.Prelude.{
  ℕ, ◌≡◌, refl, inl, inr, negsuc, is_negative, int_beq, Bool, true, List, length, Bool-cases,
}
use xmrig_nonces_heatmap.HttpData.{HttpData}
use xmrig_nonces_heatmap.HttpContext.{Callback}
use xmrig_nonces_heatmap.HttpContext.Told.{Reach, close-tells}
use xmrig_nonces_heatmap.HttpClient.{HttpClient, System, on_timer, on_connect, on_read}

-- libuv's error codes are negative
pub record AreErrors (sys : System) : Type 0 where
  pub timeout : is_negative sys.etimedout ≡ true

-- the ways in which a connection fails
pub data Failed (sys : System) (c : HttpClient) : HttpClient → Type 0 where
  timed_out : Failed sys c (on_timer sys c)
  not_connected : (n : ℕ) (writable : Bool) → Failed sys c (on_connect sys (negsuc n) writable c)
  read_failed :
      (n : ℕ) (callbacks : List Callback) (parsed : ℕ)
      → Failed sys c (on_read sys (negsuc n) callbacks parsed c)

-- When a connection fails by the timer, when connecting, or when reading, before the client was
-- closed and while its listener is alive, then the listener has been told of exactly one message.
-- The error code of libuv for a timeout is negative.
failure-told_once :
    (sys : System) (d : HttpData) (c c' : HttpClient)
    → AreErrors sys
    → Reach d c.context
    → c.context.stored ≡ true
    → c.context.alive ≡ true
    → Failed sys c c'
    → length c'.context.told ≡ 1
unfolding on_timer on_connect on_read
failure-told_once sys d c _ e r stored alive timed_out =
    close-tells d c.context sys.etimedout r stored alive e.timeout
failure-told_once sys d c _ e r stored alive (not_connected n writable) =
    elim (Bool-cases (int_beq (negsuc n) sys.ecanceled)) [
      | inl same ↦ rw same (close-tells d c.context sys.etimedout r stored alive e.timeout)
      | inr other ↦ rw other (close-tells d c.context (negsuc n) r stored alive refl)
    ]
failure-told_once sys d c _ e r stored alive (read_failed n callbacks parsed) =
    close-tells d c.context (negsuc n) r stored alive refl
