-- ===== src/MemPool/Valid.antt =====
-- The invariant of the pool: each chunk of each array is either free or used, never both.
use native.Mathlib.Nat.{mul-div_cancel, div-mul-le_self, div-lt_iff_lt-mul}
use xmrig_nonces_heatmap.Prelude.{
  ℕ, zero, suc, ◌+◌, ◌-◌, ◌*◌, ◌/◌, ◌≤◌, ◌<◌, ◌≡◌, refl, sym, ap, ◌∙◌, true, ◌&&◌, [], ◌∷◌, none,
  some, arith, eq_nat, nat_beq_iff, if◌then◌else◌, leb, ltb, Option-cases, inl, inr,
}
use xmrig_nonces_heatmap.Dict
use xmrig_nonces_heatmap.Dict.{Dict, find-insert, find-erase, kept}
use xmrig_nonces_heatmap.Dict.Unique.{
  IsUnique, insert-IsUnique, erase-IsUnique, size-insert_absent, size-erase_present, insert_present,
}
use xmrig_nonces_heatmap.MemPool.{
  Pointer, eq_pointer, pointer_beq_iff, Set, begin, MemPool, mem_pool, emplace_all, resize, chunk,
}

pub begin-find : (s : Set) {i : ℕ} → begin s ≡ some i → Dict.find i s ≡ some tt
unfolding begin Dict.find
begin-find [] h = absurd (ground arith)
begin-find ((j, tt) ∷ s) {i} h = elim (Option-cases (begin s)) [
  | inl e ↦ ground (arith, nat_beq_iff j i)
  | inr (k, e) ↦ ground (arith, begin-find s e, nat_beq_iff j i)
]

pub begin-none : (s : Set) → begin s ≡ none → Dict.empty s ≡ true
unfolding begin
begin-none [] h = refl
begin-none ((j, tt) ∷ s) h = elim (Option-cases (begin s)) [
  | inl e ↦ ground arith
  | inr (k, e) ↦ ground arith
]

-- what the loop of `resize` puts in
pub find-emplace_all :
    (count i j : ℕ) (s : Set)
    → Dict.find j (emplace_all count i s)
      ≡ kept (Dict.find j s) (if leb i j && ltb j (i + count) then some tt else none)
unfolding emplace_all
find-emplace_all zero i j s = ground arith
find-emplace_all (suc count) i j s = ground (
  arith,
  find-emplace_all count (suc i) j (Dict.insert i tt s),
  find-insert i j tt s,
  nat_beq_iff i j,
)

size-emplace_all :
    (count i : ℕ) (s : Set)
    → ((j : ℕ) → i ≤ j → Dict.find j s ≡ none)
    → Dict.size (emplace_all count i s) ≡ count + Dict.size s
unfolding emplace_all
size-emplace_all zero i s h = omega arith
size-emplace_all (suc count) i s h = omega (
  arith,
  size-emplace_all count (suc i) (Dict.insert i tt s)
      (λ j le. ground (arith, find-insert i j tt s, h j (omega arith))),
  size-insert_absent i tt s (h i (omega arith)),
)

emplace_all-IsUnique : (count i : ℕ) (s : Set) → IsUnique s → IsUnique (emplace_all count i s)
unfolding emplace_all
emplace_all-IsUnique zero i s u = u
emplace_all-IsUnique (suc count) i s u =
    emplace_all-IsUnique count (suc i) (Dict.insert i tt s) (insert-IsUnique i tt s u)

times_cancel : (a b : ℕ) {c : ℕ} → 1 ≤ c → a * c ≡ b * c → a ≡ b
times_cancel a b {c} h e = sym (mul-div_cancel a h) ∙ ap (λ t. t / c) e ∙ mul-div_cancel b h

module _ (chunk_size init_size : ℕ) where
  -- Chunks are numbered through all arrays.
  pub record IsValid (pool : MemPool) : Type 0 where
    pub arrays :
        (r : ℕ)
        → Dict.find r pool.m_data
          ≡ (if ltb r (Dict.size pool.m_data) then some (chunk_size * init_size) else none)
    pub used :
        (p : Pointer) (i : ℕ)
        → Dict.find p pool.m_used ≡ some i
        → (p ≡ chunk chunk_size init_size i)
          × (i < Dict.size pool.m_data * init_size)
          × (Dict.find i pool.m_free ≡ none)
    pub free : (i : ℕ) → Dict.find i pool.m_free ≡ some tt → i < Dict.size pool.m_data * init_size
    pub counted : Dict.size pool.m_free + Dict.size pool.m_used ≡ Dict.size pool.m_data * init_size
    pub free_once : IsUnique pool.m_free
    pub used_once : IsUnique pool.m_used

  pub mem_pool-IsValid : IsValid mem_pool
  unfolding mem_pool Dict.find
  mem_pool-IsValid = record {
    arrays = λ r. ground arith;
    used = λ p i h. absurd (ground arith);
    free = λ i h. absurd (ground arith);
    counted = omega arith;
    free_once = tt;
    used_once = tt;
  }

  -- a new array, all of whose chunks are free
  pub resize-IsValid : (pool : MemPool) → IsValid pool → IsValid (resize chunk_size init_size pool)
  unfolding resize
  resize-IsValid pool v =
      let n = Dict.size pool.m_data in
      let gone : Dict.find n pool.m_data ≡ none = ground (arith, v.arrays n) in
      let grown : Dict.size (Dict.insert n (chunk_size * init_size) pool.m_data) ≡ suc n =
        size-insert_absent n (chunk_size * init_size) pool.m_data gone in
      let total : Dict.size (Dict.insert n (chunk_size * init_size) pool.m_data) * init_size
          ≡ n * init_size + init_size =
        ap (λ t. t * init_size) grown ∙ grind arith in
      record {
        arrays = λ r.
            ground (arith, v.arrays r, find-insert n r (chunk_size * init_size) pool.m_data, grown);
        used = λ p i h.
            ground (
              arith,
              v.used p i h,
              total,
              find-emplace_all init_size (n * init_size) i pool.m_free,
            );
        free = λ i h.
            ground
              (arith, v.free i, total, find-emplace_all init_size (n * init_size) i pool.m_free);
        counted = omega (
          arith,
          total,
          v.counted,
          size-emplace_all init_size (n * init_size) pool.m_free (λ j le.
              elim (Option-cases (Dict.find j pool.m_free)) [
                | inl e ↦ e
                | inr (tt, e) ↦ absurd (omega (arith, v.free j e))
              ]),
        );
        free_once = emplace_all-IsUnique init_size (n * init_size) pool.m_free v.free_once;
        used_once = v.used_once;
      }

  pub chunk_inj :
      (i j : ℕ)
      → 1 ≤ chunk_size
      → chunk chunk_size init_size i ≡ chunk chunk_size init_size j
      → i ≡ j
  unfolding chunk
  chunk_inj i j c e =
      let same : i / init_size ≡ j / init_size = ap (λ (p : Pointer). p.block) e in
      let rest : i - i / init_size * init_size ≡ j - j / init_size * init_size =
        times_cancel _ _ c (ap (λ (p : Pointer). p.offset) e) in
      omega (
        arith,
        rest,
        ap (λ t. t * init_size) same,
        div-mul-le_self i init_size,
        div-mul-le_self j init_size,
      )

  module _ (pool : MemPool) (i : ℕ) (c : 1 ≤ chunk_size) (some_chunks : 1 ≤ init_size)
      (v : IsValid pool) (first : begin pool.m_free ≡ some i) where
    pub not_used : Dict.find (chunk chunk_size init_size i) pool.m_used ≡ none
    not_used = elim (Option-cases (Dict.find (chunk chunk_size init_size i) pool.m_used)) [
      | inl e ↦ e
      | inr (j, e) ↦
          let (at, _, gone) = v.used (chunk chunk_size init_size i) j e in
          absurd (ground (arith, chunk_inj i j c at, gone, begin-find pool.m_free first))
    ]

    pub has_array : Dict.find (i / init_size) pool.m_data ≡ some (chunk_size * init_size)
    has_array =
        let low =
          (div-lt_iff_lt-mul {x = i} {y = Dict.size pool.m_data} some_chunks).1
            (v.free i (begin-find pool.m_free first)) in
        ground (arith, v.arrays (i / init_size), low)

    -- what `allocate` leaves behind
    pub taken-IsValid : IsValid (record {
      m_data = Dict.insert (i / init_size) (chunk_size * init_size) pool.m_data;
      m_used = Dict.insert (chunk chunk_size init_size i) i pool.m_used;
      m_free = Dict.erase i pool.m_free;
    })
    taken-IsValid =
        let hit = begin-find pool.m_free first in
        rw (insert_present (i / init_size) (chunk_size * init_size) pool.m_data has_array) (record {
          arrays = v.arrays;
          used = λ p j h. ground (
            arith,
            v.used p j,
            v.free i hit,
            not_used,
            find-insert (chunk chunk_size init_size i) p i pool.m_used,
            find-erase i j pool.m_free,
            pointer_beq_iff (chunk chunk_size init_size i) p,
            nat_beq_iff i j,
          );
          free = λ j h. ground (arith, v.free j, find-erase i j pool.m_free);
          counted = omega (
            arith,
            v.counted,
            size-erase_present i pool.m_free v.free_once hit,
            size-insert_absent (chunk chunk_size init_size i) i pool.m_used not_used,
          );
          free_once = erase-IsUnique i pool.m_free v.free_once;
          used_once = insert-IsUnique (chunk chunk_size init_size i) i pool.m_used v.used_once;
        })
