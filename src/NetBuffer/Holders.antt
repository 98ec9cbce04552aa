-- ===== src/NetBuffer/Holders.antt =====
-- Who holds which buffer: the reads of all connections, from the program's start on.
use xmrig_nonces_heatmap.Prelude.{
  ℕ, ◌≡◌, refl, ap, subst, [], Option, none, some, arith, eq_nat, Option-cases, inl, inr, is_some,
  some_unique,
}
use xmrig_nonces_heatmap.Dict
use xmrig_nonces_heatmap.Dict.{Dict, find-insert, find-erase}
use xmrig_nonces_heatmap.Dict.Unique.{
  IsUnique, insert-IsUnique, erase-IsUnique, size-insert_absent, size-erase_present, insert_present,
}
use xmrig_nonces_heatmap.MemPool
use xmrig_nonces_heatmap.MemPool.{
  MemPool, Pointer, eq_pointer, pointer_beq_iff, mem_pool, or_zero, chunk, deallocate,
}
use xmrig_nonces_heatmap.MemPool.Valid.{IsValid, mem_pool-IsValid}
use xmrig_nonces_heatmap.MemPool.Steps.{deallocate-IsValid, Allocated, allocate-Allocated}
use xmrig_nonces_heatmap.NetBuffer.{chunk_size, init_chunks, get_pool, allocate, on_alloc, release}

-- the static pool, and the buffers that were given out and not released since
pub record Buffers : Type 0 where
  pub pool : Option MemPool
  pub held : Dict Pointer (Unit {0})

-- libuv asks for a buffer before it reads, and the callback of the read releases that buffer.
pub data Step (b : Buffers) : Buffers → Type 0 where
  asked :
      (buf : Pointer × ℕ) (pool' : Option MemPool)
      → on_alloc b.pool ≡ some (buf, pool')
      → Step b (record { pool = pool'; held = Dict.insert buf.0 tt b.held })
  released :
      (ptr : Pointer)
      → Dict.find ptr b.held ≡ some tt
      → Step b (record { pool = release (some ptr) b.pool; held = Dict.erase ptr b.held })

pub data Reach : Buffers → Type 0 where
  started : Reach (record { pool = none; held = [] })
  then_step : {b b' : Buffers} → Reach b → Step b b' → Reach b'

-- what is held is what the pool counts as used
pub record Agrees (b : Buffers) : Type 0 where
  pub valid : IsValid chunk_size init_chunks (get_pool b.pool)
  pub same :
      (p : Pointer) → is_some (Dict.find p b.held) ≡ is_some (Dict.find p (get_pool b.pool).m_used)
  pub held_once : IsUnique b.held
  pub as_many : Dict.size b.held ≡ Dict.size (get_pool b.pool).m_used

-- a pointer that is held is that of a used chunk
pub used_chunk :
    (b : Buffers) (p : Pointer)
    → Agrees b
    → Dict.find p b.held ≡ some tt
    → (i : ℕ) × (Dict.find p (get_pool b.pool).m_used ≡ some i)
used_chunk b p g there = elim (Option-cases (Dict.find p (get_pool b.pool).m_used)) [
  | inl e ↦ absurd (ground (arith, g.same p))
  | inr found ↦ found
]

released-Agrees :
    (b : Buffers) (p : Pointer)
    → Dict.find p b.held ≡ some tt
    → Agrees b
    → Agrees (record { pool = release (some p) b.pool; held = Dict.erase p b.held })
unfolding release get_pool deallocate
released-Agrees b p there g =
    let (i, used) = used_chunk b p g there in
    let again = insert_present p 0 (get_pool b.pool).m_used used in
    record {
      valid =
          unfold deallocate in
          deallocate-IsValid chunk_size init_chunks (get_pool b.pool) p g.valid used;
      same = λ q. rw again (
          ground (arith, g.same q, find-erase p q b.held, find-erase p q (get_pool b.pool).m_used));
      held_once = erase-IsUnique p b.held g.held_once;
      as_many = rw again (
          omega (
            arith,
            g.as_many,
            size-erase_present p b.held g.held_once there,
            size-erase_present p (get_pool b.pool).m_used g.valid.used_once used,
          ));
    }

pub asked_for :
    (b : Buffers)
    → Agrees b
    → Allocated chunk_size init_chunks
        (get_pool b.pool)
        (MemPool.allocate chunk_size init_chunks (get_pool b.pool))
asked_for b g =
    allocate-Allocated chunk_size init_chunks (omega arith) (omega arith) (get_pool b.pool) g.valid

-- `onAlloc`, in the words of the pool
pub on_alloc_lem :
    (b : Buffers) (g : Agrees b)
    → on_alloc b.pool
      ≡ some
          ((chunk chunk_size init_chunks (asked_for b g).i, chunk_size), some (asked_for b g).pool')
unfolding on_alloc allocate
on_alloc_lem b g = rw ((asked_for b g).result, on_alloc, allocate)

pub given-Agrees :
    (b : Buffers) (g : Agrees b)
    → Agrees (record {
      pool = some (asked_for b g).pool';
      held = Dict.insert (chunk chunk_size init_chunks (asked_for b g).i) tt b.held;
    })
unfolding get_pool
given-Agrees b g =
    let a = asked_for b g in
    let p = chunk chunk_size init_chunks a.i in
    let free : Dict.find p b.held ≡ none = ground (arith, g.same p, a.not_used_before) in
    record {
      valid = a.valid;
      same = λ q. rw a.used_now (
          ground (
            arith,
            g.same q,
            find-insert p q tt b.held,
            find-insert p q a.i (get_pool b.pool).m_used,
          ));
      held_once = insert-IsUnique p tt b.held g.held_once;
      as_many = omega (
        arith,
        g.as_many,
        ap Dict.size a.used_now,
        size-insert_absent p tt b.held free,
        size-insert_absent p a.i (get_pool b.pool).m_used a.not_used_before,
      );
    }

-- the state after a buffer was asked for
abbrev pub given : (b : Buffers) → (Pointer × ℕ) × Option MemPool → Buffers
given b (buf, pool') = record { pool = pool'; held = Dict.insert buf.0 tt b.held }

Step-Agrees : {b b' : Buffers} → Step b b' → Agrees b → Agrees b'
Step-Agrees {b} (asked buf pool' e) g =
    subst (λ r. Agrees (given b r)) (some_unique (on_alloc_lem b g) e) (given-Agrees b g)
Step-Agrees {b} (released p there) g = released-Agrees b p there g

pub Reach-Agrees : {b : Buffers} → Reach b → Agrees b
unfolding get_pool Dict.find mem_pool
Reach-Agrees started = record {
  valid = mem_pool-IsValid chunk_size init_chunks;
  same = λ p. refl;
  held_once = tt;
  as_many = refl;
}
Reach-Agrees (then_step r st) = Step-Agrees st (Reach-Agrees r)
