-- ===== src/NetBuffer/Spec.antt =====
-- The pool as an allocator: what the holders of buffers may rely on.
use xmrig_nonces_heatmap.Prelude.{
  ℕ, ◌+◌, ◌*◌, ◌≤◌, ◌≡◌, ◌↔◌, sym, subst, true, [], ◌∷◌, Option, none, some, arith, eq_nat,
  some_unique, is_nil,
}
use xmrig_nonces_heatmap.Dict
use xmrig_nonces_heatmap.Dict.{Dict}
use xmrig_nonces_heatmap.MemPool.{MemPool, Pointer, eq_pointer, mem_pool, chunk}
use xmrig_nonces_heatmap.MemPool.Steps.{Apart, chunk_bounds, chunks-Apart}
use xmrig_nonces_heatmap.NetBuffer.{chunk_size, init_chunks, get_pool, on_alloc, may_destroy}
use xmrig_nonces_heatmap.NetBuffer.Holders.{
  Buffers, Step, asked, released, Reach, Agrees, used_chunk, asked_for, on_alloc_lem, given,
  Reach-Agrees,
}

-- What an allocator promises: a buffer that it gives shares no byte with one that is held.
pub data Spec (held : Dict Pointer (Unit {0})) : Dict Pointer (Unit {0}) → Type 0 where
  give :
      (p : Pointer)
      → ((q : Pointer) → Dict.find q held ≡ some tt → Apart chunk_size p q)
      → Spec held (Dict.insert p tt held)
  take_back : (p : Pointer) → Dict.find p held ≡ some tt → Spec held (Dict.erase p held)

new-Apart :
    (b : Buffers) (g : Agrees b) (q : Pointer)
    → Dict.find q b.held ≡ some tt
    → Apart chunk_size (chunk chunk_size init_chunks (asked_for b g).i) q
new-Apart b g q there =
    let a = asked_for b g in
    let (j, used) = used_chunk b q g there in
    let at = (g.valid.used q j used).0 in
    subst (Apart chunk_size (chunk chunk_size init_chunks a.i)) (sym at)
      (chunks-Apart chunk_size init_chunks a.i j λ e. cc (a.not_used_before, used, at))

Step-Spec : {b b' : Buffers} → Agrees b → Step b b' → Spec b.held b'.held
Step-Spec {b} g (asked buf pool' e) =
    subst (λ r. Spec b.held (given b r).held) (some_unique (on_alloc_lem b g) e)
      (give (chunk chunk_size init_chunks (asked_for b g).i) (new-Apart b g))
Step-Spec g (released p there) = take_back p there

-- In whatever order buffers are asked for and released from the start of the program on, `onAlloc`
-- gives a buffer of 64 KiB that lies within one array of the pool, and each step is one of an
-- allocator: a buffer that is given shares no byte with those that are held.
pub buffers-Spec :
    (b : Buffers)
    → Reach b
    → ((p : Pointer) × (pool' : MemPool) × (on_alloc b.pool ≡ some ((p, chunk_size), some pool'))
        × (n : ℕ) × (Dict.find p.block pool'.m_data ≡ some n)
        × (p.offset + chunk_size ≤ n))
      × ((b' : Buffers) → Step b b' → Spec b.held b'.held)
buffers-Spec b r =
    let g = Reach-Agrees r in
    let a = asked_for b g in
    (
      (
        chunk chunk_size init_chunks a.i,
        a.pool',
        on_alloc_lem b g,
        chunk_size * init_chunks,
        a.in_array,
        chunk_bounds chunk_size init_chunks a.i (omega arith),
      ),
      λ b' st. Step-Spec g st,
    )

destroy_counts :
    (pool : Option MemPool) (held : Dict Pointer (Unit {0}))
    → Dict.size held ≡ Dict.size (get_pool pool).m_used
    → Dict.size (get_pool pool).m_free + Dict.size (get_pool pool).m_used
      ≡ Dict.size (get_pool pool).m_data * init_chunks
    → (may_destroy pool ≡ true) ↔ (is_nil held ≡ true)
unfolding may_destroy get_pool mem_pool
destroy_counts none [] e n = ground arith
destroy_counts none (x ∷ held) e n = absurd (omega arith)
destroy_counts (some pool) [] e n = ground arith
destroy_counts (some pool) (x ∷ held) e n = ground arith

-- The assertion of `destroy` holds exactly when every buffer was released.
pub may_destroy_iff : (b : Buffers) → Reach b → (may_destroy b.pool ≡ true) ↔ (is_nil b.held ≡ true)
may_destroy_iff b r =
    let g = Reach-Agrees r in destroy_counts b.pool b.held g.as_many g.valid.counted
