-- ===== src/Contexts/Life.antt =====
-- Contexts that come and go, and what holds of them at every moment.
use xmrig_nonces_heatmap.Prelude.{
  ℕ, ◌+◌, ◌^◌, ◌<◌, ◌≡◌, refl, ap, inl, inr, ℤ, Bool, true, false, List, ◌∷◌, Option, none, some,
  eq_nat, arith, Option-cases, All,
}
use xmrig_nonces_heatmap.Dict
use xmrig_nonces_heatmap.Dict.{find, find-assign, find-erase, find-assign_cases, find-erase_cases}
use xmrig_nonces_heatmap.HttpData.{HttpData}
use xmrig_nonces_heatmap.HttpContext.{HttpContext, Callback, handle_all}
use xmrig_nonces_heatmap.HttpContext.Open.{stored-handle_all, m_id-handle_all}
use xmrig_nonces_heatmap.Contexts.{Contexts, contexts, create, get, close, write, written, delete}
use xmrig_nonces_heatmap.Contexts.Valid.{IsOpen, IsValid, contexts-IsValid}
use xmrig_nonces_heatmap.Contexts.Updated.{create-IsValid, update-IsValid}
use xmrig_nonces_heatmap.Contexts.Closed.{
  Succeeds-IsValid, close-Succeeds, write-IsValid, written-Succeeds, delete-IsValid,
}

-- What happens to contexts. Each has memory of its own as long as it lives. libuv ends the writes of
-- a stream before it calls back for the stream's `uv_close`.
pub data Reach : Contexts → Type 0 where
  started : Reach contexts
  created :
      {w : Contexts}
      → Reach w
      → (at : ℕ) (d : HttpData) → find at w.heap ≡ none
      → w.sequence + 1 < 2 ^ 64
      → Reach (create at d w)
  closed :
      {w w' : Contexts}
      → Reach w
      → (at : ℕ) (status : ℤ) (c : HttpContext) → find at w.heap ≡ some c
      → close at status w ≡ some w'
      → Reach w'
  -- `parse`, with the callbacks that the parser makes
  parsed :
      {w : Contexts}
      → Reach w
      → (at : ℕ) (es : List Callback) (c : HttpContext) → find at w.heap ≡ some c
      → Reach (record w { heap = Dict.assign at (handle_all es c) w.heap })
  -- the listener ends
  expired :
      {w : Contexts}
      → Reach w
      → (at : ℕ) (c : HttpContext) → find at w.heap ≡ some c
      → Reach (record w { heap = Dict.assign at (record c { alive = false }) w.heap })
  wrote :
      {w : Contexts}
      → Reach w
      → (at : ℕ) (writable close : Bool) (c : HttpContext) → find at w.heap ≡ some c
      → Reach (write writable at close w)
  finished :
      {w w' : Contexts}
      → Reach w
      → (b : Option ℕ) (bs : List (Option ℕ)) → w.batons ≡ b ∷ bs
      → written b (record w { batons = bs }) ≡ some w'
      → Reach w'
  deleted :
      {w : Contexts}
      → Reach w
      → (at : ℕ) (c : HttpContext) → find at w.heap ≡ some c
      → c.closing ≡ true
      → All (λ b. (b ≡ some at) → ⊥) w.batons
      → Reach (delete at w)

-- every reachable state is sound
Reach-IsValid : {w : Contexts} → Reach w → IsValid w
Reach-IsValid started = contexts-IsValid
Reach-IsValid (created {w} r at d fresh small) = create-IsValid w at d (Reach-IsValid r) fresh small
Reach-IsValid (closed {w} r at status c h e) =
    Succeeds-IsValid (close-Succeeds w at status c (Reach-IsValid r) h) e
Reach-IsValid (parsed {w} r at es c h) =
    let (stored, shut) = stored-handle_all es c in
    update-IsValid w at c (handle_all es c) w.storage (Reach-IsValid r) h (m_id-handle_all es c)
      (inl (shut, stored, refl))
Reach-IsValid (expired {w} r at c h) =
    update-IsValid w at c (record c { alive = false }) w.storage (Reach-IsValid r) h refl
      (inl (refl, refl, refl))
Reach-IsValid (wrote {w} r at writable shut c h) =
    write-IsValid w writable shut at c (Reach-IsValid r) h
Reach-IsValid (finished {w} r b bs pending e) =
    Succeeds-IsValid (written-Succeeds w b bs (Reach-IsValid r) pending) e
Reach-IsValid (deleted {w} r at c h shut idle) = delete-IsValid w at c (Reach-IsValid r) h shut idle

-- `close` takes the context's id from the map
get-close :
    (w w' : Contexts) (at : ℕ) (status : ℤ) (c : HttpContext)
    → find at w.heap ≡ some c
    → close at status w ≡ some w'
    → get c.data'.m_id w' ≡ none
unfolding close
get-close w w' at status c h e = elim (Option-cases (get c.data'.m_id w)) [
  | inl nothing ↦ cc
  | inr (other, there) ↦
      ground
        (arith, find-erase c.data'.m_id c.data'.m_id w.storage, ap (λ (x : Option Contexts). x) e)
]

pub record IsSound (w : Contexts) : Type 0 where
  pub stored : (id at : ℕ) → get id w ≡ some at → IsOpen id at w
  pub found :
      (at : ℕ) (c : HttpContext)
      → find at w.heap ≡ some c
      → c.closing ≡ false
      → get c.data'.m_id w ≡ some at
  pub closes :
      (at : ℕ) (status : ℤ) (c : HttpContext)
      → find at w.heap ≡ some c
      → (w' : Contexts) × (close at status w ≡ some w') × (get c.data'.m_id w' ≡ none)
  pub writes :
      (b : Option ℕ) (bs : List (Option ℕ))
      → w.batons ≡ b ∷ bs
      → (w' : Contexts) × (written b (record w { batons = bs }) ≡ some w')

-- In every reachable state, where fewer than 2 ^ 64 contexts were made: an id in the static map gives
-- a context that is alive, has that id and is not closing; a context that is alive and not closing is
-- found under its id; `close` of a context that is alive touches no freed memory, and its id is gone
-- from the map after it; the end of the next write touches no freed memory either, also where the
-- context to close was closed before.
pub Reach-IsSound : {w : Contexts} → Reach w → IsSound w
Reach-IsSound {w} r =
    let v = Reach-IsValid r in
    record {
      stored = v.stored;
      found = v.found;
      closes = λ at status c h.
          let (w', e, _) = close-Succeeds w at status c v h in
          (w', e, get-close w w' at status c h e);
      writes = λ b bs e. let (w', e', _) = written-Succeeds w b bs v e in (w', e');
    }
