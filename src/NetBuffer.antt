-- ===== src/NetBuffer.antt =====
-- base/net/tools/NetBuffer.cpp: the static pool, made when it is first asked for. The sizes are those
-- of config/properties.h.
pub mod Holders
pub mod Spec
use xmrig_nonces_heatmap.Prelude.{ℕ, Bool, true, ◌==◌, eq_nat, Option, none, some}
use xmrig_nonces_heatmap.MemPool
use xmrig_nonces_heatmap.MemPool.{MemPool, Pointer, mem_pool}

-- `XMRIG_NET_BUFFER_CHUNK_SIZE`
abbrev pub chunk_size : ℕ
chunk_size = 65536

-- `XMRIG_NET_BUFFER_INIT_CHUNKS`
abbrev pub init_chunks : ℕ
init_chunks = 4

-- `getPool`, with `none` for the null pointer
unfoldable pub get_pool : Option MemPool → MemPool
get_pool none = mem_pool
get_pool (some pool) = pool

-- `allocate`, and the base of the buffer that `onAlloc` gives to libuv
unfoldable pub allocate : Option MemPool → Option (Pointer × Option MemPool)
unfolding get_pool
allocate pool = elim (MemPool.allocate chunk_size init_chunks (get_pool pool)) [
  | none ↦ none
  | some (ptr, pool') ↦ some (ptr, some pool')
]

-- `onAlloc`: the base and the length of the buffer
unfoldable pub on_alloc : Option MemPool → Option ((Pointer × ℕ) × Option MemPool)
unfolding allocate
on_alloc pool = elim (allocate pool) [
  | none ↦ none
  | some (ptr, pool') ↦ some ((ptr, chunk_size), pool')
]

-- `release`
unfoldable pub release : Option Pointer → Option MemPool → Option MemPool
unfolding get_pool
release buf pool = some (MemPool.deallocate buf (get_pool pool))

-- the assertion in `destroy`
unfoldable pub may_destroy : Option MemPool → Bool
may_destroy none = true
may_destroy (some pool) =
    MemPool.free_size chunk_size init_chunks pool == MemPool.size chunk_size init_chunks pool

-- `destroy`; `none` is the assertion that fails
unfoldable pub destroy : Option MemPool → Option (Option MemPool)
unfolding may_destroy
destroy pool = elim (may_destroy pool) [ true ↦ some none | _ ↦ none ]
