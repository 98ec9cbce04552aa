-- ===== src/Tests/Buffers.antt =====
-- The pool of network buffers after a first read has begun.
use xmrig_nonces_heatmap.Prelude.{
  ℕ, ◌+◌, ◌≤◌, ◌≡◌, ◌↔◌, refl, true, false, [], ◌∷◌, none, some, eq_nat,
}
use xmrig_nonces_heatmap.Dict
use xmrig_nonces_heatmap.MemPool
use xmrig_nonces_heatmap.MemPool.{MemPool, Pointer, eq_pointer}
use xmrig_nonces_heatmap.NetBuffer.{chunk_size, on_alloc, may_destroy}
use xmrig_nonces_heatmap.NetBuffer.Holders.{Buffers, Reach, Step, started, then_step, asked}
use xmrig_nonces_heatmap.NetBuffer.Spec.{Spec, buffers-Spec, may_destroy_iff}

abbrev first : Pointer
first = record { block = 0; offset = 0 }

abbrev one_used : MemPool
one_used = record {
  m_used = (first, 0) ∷ [];
  m_data = (0, 262144) ∷ [];
  m_free = (1, tt) ∷ (2, tt) ∷ (3, tt) ∷ [];
}

abbrev one_read : Buffers
one_read = record { pool = some one_used; held = (first, tt) ∷ [] }

first_buffer : on_alloc none ≡ some ((first, chunk_size), some one_used)
unfolding on_alloc MemPool.allocate MemPool.begin MemPool.mem_pool Dict.insert Dict.erase
first_buffer = refl

one_read-Reach : Reach one_read
unfolding Dict.insert
one_read-Reach = then_step started (asked (first, chunk_size) (some one_used) first_buffer)

buffers-Spec_example :
    ((p : Pointer) × (pool' : MemPool) × (on_alloc (some one_used)
        ≡ some ((p, chunk_size), some pool'))
      × (n : ℕ) × (Dict.find p.block pool'.m_data ≡ some n)
      × (p.offset + chunk_size ≤ n))
    × ((b' : Buffers) → Step one_read b' → Spec one_read.held b'.held)
buffers-Spec_example = buffers-Spec one_read one_read-Reach

may_destroy_iff_example : (may_destroy (some one_used) ≡ true) ↔ (false ≡ true)
may_destroy_iff_example = may_destroy_iff one_read one_read-Reach

second_buffer :
    on_alloc (some one_used)
    ≡ some (
      (record { block = 0; offset = 65536 }, chunk_size),
      some (record {
        m_used = (first, 0) ∷ (record { block = 0; offset = 65536 }, 1) ∷ [];
        m_data = (0, 262144) ∷ [];
        m_free = (2, tt) ∷ (3, tt) ∷ [];
      }),
    )
unfolding on_alloc MemPool.allocate MemPool.begin Dict.insert Dict.erase
second_buffer = refl
