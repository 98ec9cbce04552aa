-- ===== src/MemPool.antt =====
-- base/net/tools/MemPool.h: the pool of the buffers that sockets read into.
-- A pointer is the number of the array that it points into and the offset in that array: the nodes
-- of a `std::map` stay where they are. `m_data` keeps the size of each array, not its bytes, and
-- the set `m_free` is the map of its elements. A chunk's number does not reach 2^64, since
-- each chunk is memory of its own. The sizes are the parameters of the template.
pub mod Valid
pub mod Steps
use xmrig_nonces_heatmap.Prelude.{
  ℕ, zero, suc, ◌+◌, ◌-◌, ◌*◌, ◌/◌, ◌≡◌, ◌↔◌, Bool, true, false, ◌&&◌, List, [], ◌∷◌, Option, none,
  some, arith, Eq, ◌==◌, eq_nat, nat_beq, nat_beq_iff, if◌then◌else◌, min,
}
use xmrig_nonces_heatmap.Dict
use xmrig_nonces_heatmap.Dict.{Dict}

-- `const char *`
pub record Pointer : Type 0 where
  pub block : ℕ
  pub offset : ℕ

abbrev pub pointer_beq : Pointer → Pointer → Bool
pointer_beq p q = nat_beq p.block q.block && nat_beq p.offset q.offset

pub pointer_beq_iff : (p q : Pointer) → (pointer_beq p q ≡ true) ↔ (p ≡ q)
pointer_beq_iff p q = ground arith

instance abbrev pub eq_pointer : Eq Pointer
eq_pointer = record { same_iff = pointer_beq_iff; same = pointer_beq }

-- `std::set<size_t>`
abbrev pub Set : Type 0
Set = Dict ℕ (Unit {0})

-- `*begin()`, the smallest element
unfoldable pub begin : Set → Option ℕ
begin [] = none
begin ((i, _) ∷ s) = elim (begin s) [ none ↦ some i | some j ↦ some (min i j) ]

pub record MemPool : Type 0 where
  pub m_used : Dict Pointer ℕ
  pub m_data : Dict ℕ ℕ
  pub m_free : Set

unfoldable pub mem_pool : MemPool
mem_pool = record { m_used = []; m_data = []; m_free = [] }

-- `m_used[ptr]`, which is 0 for a pointer that is not there
abbrev pub or_zero : Option ℕ → ℕ
or_zero none = 0
or_zero (some i) = i

-- the loop of `resize`, from `i` on: `count` rounds
unfoldable pub emplace_all : ℕ → ℕ → Set → Set
emplace_all zero i s = s
emplace_all (suc count) i s = emplace_all count (suc i) (Dict.insert i tt s)

module _ (chunk_size init_size : ℕ) where
  unfoldable pub resize : MemPool → MemPool
  unfolding emplace_all
  resize pool = record pool {
    m_data = Dict.insert (Dict.size pool.m_data) (chunk_size * init_size) pool.m_data;
    m_free = emplace_all init_size (Dict.size pool.m_data * init_size) pool.m_free;
  }

  -- where chunk `i` lies
  unfoldable pub chunk : ℕ → Pointer
  chunk i = record { block = i / init_size; offset = (i - i / init_size * init_size) * chunk_size }

  -- `allocate`, once there is a free chunk; `none` is a read of `begin()` where there is none
  unfoldable pub take_chunk : MemPool → Option (Pointer × MemPool)
  unfolding chunk
  take_chunk pool = elim (begin pool.m_free) [
    | none ↦ none
    | some i ↦ some (
      chunk i,
      record {
        m_data = Dict.insert (i / init_size) (chunk_size * init_size) pool.m_data;
        m_used = Dict.insert (chunk i) i pool.m_used;
        m_free = Dict.erase i pool.m_free;
      },
    )
  ]

  unfoldable pub allocate : MemPool → Option (Pointer × MemPool)
  unfolding take_chunk resize
  allocate pool = take_chunk (if Dict.empty pool.m_free then resize pool else pool)

  -- `freeSize` and `size`
  abbrev pub free_size : MemPool → ℕ
  free_size pool = Dict.size pool.m_free * chunk_size

  abbrev pub size : MemPool → ℕ
  size pool = Dict.size pool.m_data * chunk_size * init_size

-- `deallocate`
unfoldable pub deallocate : Option Pointer → MemPool → MemPool
deallocate none pool = pool
deallocate (some ptr) pool = record pool {
  m_free = Dict.insert (or_zero (Dict.find ptr pool.m_used)) tt pool.m_free;
  m_used = Dict.erase ptr (Dict.insert ptr 0 pool.m_used);
}
