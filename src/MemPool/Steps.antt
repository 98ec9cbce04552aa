-- ===== src/MemPool/Steps.antt =====
-- `allocate` and `deallocate` on a valid pool, and where the chunks lie in memory.
use native.Mathlib.Nat.{div-mul-le_self, lt-div-mul-add, mul-le-mul_right}
use xmrig_nonces_heatmap.Prelude.{
  ℕ, suc, ◌+◌, ◌-◌, ◌*◌, ◌/◌, ◌≤◌, ◌≡◌, ◌≢◌, ◌⊎◌, refl, ap, ◌∙◌, true, false, Option, none, some,
  arith, ltb, eq_nat, nat_beq_iff, nat_beq, Bool-cases, Option-cases, inl, inr,
}
use xmrig_nonces_heatmap.Dict
use xmrig_nonces_heatmap.Dict.{Dict, find-insert, find-erase, kept, find-none_of_empty}
use xmrig_nonces_heatmap.Dict.Unique.{
  insert-IsUnique, erase-IsUnique, size-insert_absent, size-erase_present, insert_present,
}
use xmrig_nonces_heatmap.MemPool.{
  Pointer, eq_pointer, pointer_beq_iff, Set, begin, MemPool, resize, chunk, take_chunk, allocate,
  deallocate, emplace_all,
}
use xmrig_nonces_heatmap.MemPool.Valid.{
  IsValid, resize-IsValid, taken-IsValid, begin-none, find-emplace_all, not_used, has_array,
}

-- Two chunks have no byte in common.
abbrev pub Apart : ℕ → Pointer → Pointer → Type 0
Apart chunk_size p q =
    (p.block ≢ q.block) ⊎ (p.offset + chunk_size ≤ q.offset) ⊎ (q.offset + chunk_size ≤ p.offset)

chunk_after : (a b c : ℕ) → suc a ≤ b → a * c + c ≤ b * c
chunk_after a b c h = grind (arith, mul-le-mul_right c h)

module _ (chunk_size init_size : ℕ) where
  -- a chunk ends where its array does, at the latest
  pub chunk_bounds :
      (i : ℕ)
      → 1 ≤ init_size
      → (chunk chunk_size init_size i).offset + chunk_size ≤ chunk_size * init_size
  unfolding chunk
  chunk_bounds i h =
      let within : suc (i - i / init_size * init_size) ≤ init_size =
        omega (arith, lt-div-mul-add {a = i} h, div-mul-le_self i init_size) in
      grind (arith, chunk_after (i - i / init_size * init_size) init_size chunk_size within)

  pub chunks-Apart :
      (i j : ℕ)
      → i ≢ j
      → Apart chunk_size (chunk chunk_size init_size i) (chunk chunk_size init_size j)
  unfolding chunk
  chunks-Apart i j ne = elim (Bool-cases (nat_beq (i / init_size) (j / init_size))) [
    | inl same ↦
        apart (ap (λ t. t * init_size) ((nat_beq_iff (i / init_size) (j / init_size)).0 same))
          (Bool-cases (ltb (i - i / init_size * init_size) (j - j / init_size * init_size)))
    | inr other ↦ inl (ground (arith, nat_beq_iff (i / init_size) (j / init_size)))
  ]
    where
      apart :
          i / init_size * init_size ≡ j / init_size * init_size
          → (ltb (i - i / init_size * init_size) (j - j / init_size * init_size) ≡ true)
            ⊎ (ltb (i - i / init_size * init_size) (j - j / init_size * init_size) ≡ false)
          → Apart chunk_size (chunk chunk_size init_size i) (chunk chunk_size init_size j)
      apart e (inl less) = inr (inl (chunk_after _ _ chunk_size (ground arith)))
      apart e (inr not_less) = inr (
          inr (
            chunk_after _ _ chunk_size
              (ground (arith, div-mul-le_self i init_size, div-mul-le_self j init_size))))

  -- `deallocate` of a chunk that is used
  pub deallocate-IsValid :
      (pool : MemPool) (p : Pointer) {i : ℕ}
      → IsValid chunk_size init_size pool
      → Dict.find p pool.m_used ≡ some i
      → IsValid chunk_size init_size (deallocate (some p) pool)
  unfolding deallocate
  deallocate-IsValid pool p {i} v there =
      let (at, low, gone) = v.used p i there in
      rw (there, insert_present p 0 pool.m_used there)
        (record {
          arrays = v.arrays;
          used = λ q j h. ground (
            arith,
            v.used q j,
            at,
            find-erase p q pool.m_used,
            find-insert i j tt pool.m_free,
            pointer_beq_iff p q,
            nat_beq_iff i j,
          );
          free =
              λ j h. ground (arith, v.free j, low, find-insert i j tt pool.m_free, nat_beq_iff i j);
          counted = omega (
            arith,
            v.counted,
            size-insert_absent i tt pool.m_free gone,
            size-erase_present p pool.m_used v.used_once there,
          );
          free_once = insert-IsUnique i tt pool.m_free v.free_once;
          used_once = erase-IsUnique p pool.m_used v.used_once;
        })

-- What `allocate` does to a pool: it succeeds, and gives a chunk that was not used and lies in one
-- of the arrays.
pub record Allocated (chunk_size init_size : ℕ) (pool : MemPool) (r : Option (Pointer × MemPool))
    : Type 0 where
  pub i : ℕ
  pub pool' : MemPool
  pub result : r ≡ some (chunk chunk_size init_size i, pool')
  pub valid : IsValid chunk_size init_size pool'
  pub not_used_before : Dict.find (chunk chunk_size init_size i) pool.m_used ≡ none
  pub used_now : pool'.m_used ≡ Dict.insert (chunk chunk_size init_size i) i pool.m_used
  pub in_array :
      Dict.find (chunk chunk_size init_size i).block pool'.m_data ≡ some (chunk_size * init_size)

module _ (chunk_size init_size : ℕ) (c : 1 ≤ chunk_size) (some_chunks : 1 ≤ init_size) where
  take_chunk-Allocated :
      (pool : MemPool) (i : ℕ)
      → IsValid chunk_size init_size pool
      → begin pool.m_free ≡ some i
      → Allocated chunk_size init_size pool (take_chunk chunk_size init_size pool)
  unfolding take_chunk chunk
  take_chunk-Allocated pool i v first = record {
    i = i;
    pool' = _;
    result = rw (first, take_chunk);
    valid = taken-IsValid chunk_size init_size pool i c some_chunks v first;
    not_used_before = not_used chunk_size init_size pool i c some_chunks v first;
    used_now = refl;
    in_array =
        ap (Dict.find (i / init_size)) (
          insert_present (i / init_size) (chunk_size * init_size) pool.m_data
            (has_array chunk_size init_size pool i c some_chunks v first))
        ∙ has_array chunk_size init_size pool i c some_chunks v first;
  }

  begin-some : (s : Set) → Dict.empty s ≡ false → (i : ℕ) × (begin s ≡ some i)
  begin-some s h = elim (Option-cases (begin s)) [
    | inl e ↦ absurd (ground (arith, begin-none s e))
    | inr found ↦ found
  ]

  refilled : (pool : MemPool) → Dict.empty (resize chunk_size init_size pool).m_free ≡ false
  unfolding resize
  refilled pool =
      let k = Dict.size pool.m_data * init_size in
      let s = emplace_all init_size k pool.m_free in
      elim (Bool-cases (Dict.empty s)) [
        | inl t ↦ absurd (
            ground (
              arith,
              find-none_of_empty k s t,
              find-emplace_all init_size k k pool.m_free,
              Option-cases (Dict.find k pool.m_free),
            ))
        | inr f ↦ f
      ]

  pub allocate-Allocated :
      (pool : MemPool)
      → IsValid chunk_size init_size pool
      → Allocated chunk_size init_size pool (allocate chunk_size init_size pool)
  unfolding allocate
  allocate-Allocated pool v = elim (Bool-cases (Dict.empty pool.m_free)) [
    | inl e ↦
        let filled : Dict.empty (resize chunk_size init_size pool).m_free ≡ false = refilled pool in
        let (i, first) = begin-some (resize chunk_size init_size pool).m_free filled in
        let a =
          take_chunk-Allocated (resize chunk_size init_size pool) i
            (resize-IsValid chunk_size init_size pool v) first in
        rw e (record {
          i = a.i;
          pool' = a.pool';
          result = a.result;
          valid = a.valid;
          not_used_before = unfold resize in a.not_used_before;
          used_now = unfold resize in a.used_now;
          in_array = a.in_array;
        })
    | inr e ↦
        let (i, first) = begin-some pool.m_free e in rw e (take_chunk-Allocated pool i v first)
  ]
