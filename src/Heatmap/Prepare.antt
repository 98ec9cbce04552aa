-- ===== src/Heatmap/Prepare.antt =====
-- The checks of Heatmap.render: which blocks are drawn, and how large the image is.
use xmrig_nonces_heatmap.Prelude.{
  ℕ, zero, suc, ◌+◌, ◌-◌, ◌*◌, ◌%◌, ◌^◌, max, ◌≤◌, ◌<◌, ◌≡◌, ◌≢◌, refl, sym, ap, subst, ◌↔◌, arith,
  ℤ, pos, negsuc, Bool, true, false, ◌⊎◌, List, [], ◌∷◌, Option, ◌==◌, eq_nat, leb, ltb, length,
  is_nil, take, drop, length-take, length-drop, inl, inr, Bytes,
}
use xmrig_nonces_heatmap.Dict.{Dict}
use xmrig_nonces_heatmap.String.{String}
use xmrig_nonces_heatmap.Float.{ceil_div}
use xmrig_nonces_heatmap.Heatmap.{
  Error, Outcome, ok, throw, crash, ◌>>=◌, ◌>>◌, reject, max_uint32, Heatmap, get_iterator, prepare,
  gen_name, choose_x, nonces_empty, no_height, invalid_start, invalid_end, too_big,
}

-- A chain succeeds only by its parts.
pub bind-ok {ℓ κ} :
    {A : Type ℓ} {B : Type κ} (m : Outcome A) (f : A → Outcome B) (b : B)
    → (m >>= f) ≡ ok b
    → (a : A) × (m ≡ ok a) × (f a ≡ ok b)
bind-ok (ok a) f b h = (a, refl, h)
bind-ok (throw e) f b h = ground arith
bind-ok crash f b h = ground arith

pub reject-ok {κ} :
    {B : Type κ} (test : Bool) (e : Error) (k : Outcome B) (b : B)
    → (reject test e >> k) ≡ ok b
    → (test ≡ false) × (k ≡ ok b)
reject-ok true e k b h = ground arith
reject-ok false e k b h = (refl, h)

-- The value of a success is determined.
pub ok_unique {ℓ} : {A : Type ℓ} (a b : A) → ok a ≡ ok b → a ≡ b
ok_unique {A} a b h = ap value h
  where
    value : Outcome A → A
    value (ok c) = c
    value (throw e) = a
    value crash = a

-- An iterator never passes the end.
pub get_iterator-le : (start : Bool) (size : ℕ) (p : ℤ) → get_iterator start size p ≤ size
unfolding get_iterator
get_iterator-le start size (pos zero) = ground arith
get_iterator-le start size (pos (suc n)) = ground arith
get_iterator-le start size (negsuc n) = ground arith

-- the index of the first block that a job selects, and the index behind the last
abbrev pub first : Heatmap → ℕ
first h = get_iterator true (length h.m_nonces) h.m_job.m_start

abbrev pub behind : Heatmap → ℕ
behind h = get_iterator false (length h.m_nonces) h.m_job.m_end

-- the blocks per column where the job does not say: about twice as many columns as rows
abbrev pub automatic_x : Heatmap → ℕ
automatic_x h = max (ceil_div ((behind h - first h) % 2 ^ 32) (h.m_job.m_height * 2 % 2 ^ 32)) 1

-- `x` blocks per column are the job's choice, or else the automatic one where it can be computed
abbrev pub Uses : Heatmap → ℕ → Type 0
Uses h x =
    ((h.m_job.m_x ≢ 0) × (x ≡ h.m_job.m_x))
    ⊎ ((h.m_job.m_x ≡ 0) × (h.m_job.m_height * 2 % 2 ^ 32 ≢ 0) × (x ≡ automatic_x h))

-- The job selects at least one block, and its image has a height and a size in bytes that is below
-- 2^32 as `size_t` computes it, that is, modulo 2^64.
pub record IsDrawable (h : Heatmap) (x : ℕ) : Type 0 where
  pub has_height : 0 < h.m_job.m_height
  pub has_blocks : first h < behind h
  pub uses : Uses h x
  pub fits : ceil_div (behind h - first h) x * h.m_job.m_height * 4 % 2 ^ 64 ≤ max_uint32

choose_x-ok :
    (h : Heatmap) (x : ℕ) → Uses h x → choose_x ((behind h - first h) % 2 ^ 32) h.m_job ≡ ok x
unfolding choose_x
choose_x-ok h x (inl (given, e)) = ground arith
choose_x-ok h x (inr (auto, positive, e)) = ground arith

pub choose_x-Uses :
    (h : Heatmap) (x : ℕ) → choose_x ((behind h - first h) % 2 ^ 32) h.m_job ≡ ok x → Uses h x
unfolding choose_x
choose_x-Uses h x e = ground arith

is_nil-false {ℓ} : {A : Type ℓ} (xs : List A) → 0 < length xs → is_nil xs ≡ false
is_nil-false [] h = elim h [ ]
is_nil-false (x ∷ xs) h = refl

abbrev pub blocks : Heatmap → List ℕ
blocks h = take (behind h - first h) (drop (first h) h.m_nonces)

module _ (builtin : Dict Bytes String) (getenv : Bytes → Option Bytes) where
  -- the state behind the checks
  abbrev pub prepared : Heatmap → ℕ → Heatmap
  prepared h x = gen_name builtin getenv (first h) (behind h) (record h {
    m_count = (behind h - first h) % 2 ^ 32;
    m_x = x;
    m_width = ceil_div (behind h - first h) x;
  })

  -- The checks of `render` pass whenever the job is drawable with `x` blocks per column, the job's
  -- choice or the automatic one; they leave the fields set for the selected blocks.
  pub IsDrawable-prepare :
      (h : Heatmap) (x : ℕ)
      → IsDrawable h x
      → prepare builtin getenv h ≡ ok (prepared h x, blocks h)
  unfolding prepare
  IsDrawable-prepare h x d =
      let le = get_iterator-le false (length h.m_nonces) h.m_job.m_end in
      let height : (h.m_job.m_height == 0) ≡ false = ground (arith, d.has_height) in
      let begin : (first h == length h.m_nonces) ≡ false = ground (arith, le, d.has_blocks) in
      let last : leb (behind h) (first h) ≡ false = ground (arith, d.has_blocks) in
      let size : ltb max_uint32 (ceil_div (behind h - first h) x * h.m_job.m_height * 4 % 2 ^ 64)
          ≡ false =
        ground (arith, d.fits) in
      simp (
        is_nil-false h.m_nonces (omega (arith, le, d.has_blocks)),
        height,
        begin,
        last,
        choose_x-ok h x d.uses,
        size,
      )

  -- The checks of `render` pass only if the job is drawable with some `x` blocks per column, which
  -- the job chooses or which are the automatic number; then they leave the fields for that `x`, and
  -- the selected blocks.
  pub prepare-IsDrawable :
      (h : Heatmap) (r : Heatmap × List ℕ)
      → prepare builtin getenv h ≡ ok r
      → (x : ℕ) × IsDrawable h x × (r ≡ (prepared h x, blocks h))
  unfolding prepare
  prepare-IsDrawable h r e =
      let (e1, k1) = reject-ok (is_nil h.m_nonces) nonces_empty _ r e in
      let (e2, k2) = reject-ok (h.m_job.m_height == 0) no_height _ r k1 in
      let (e3, k3) = reject-ok (first h == length h.m_nonces) invalid_start _ r k2 in
      let (e4, k4) = reject-ok (leb (behind h) (first h)) invalid_end _ r k3 in
      let (x, e5, k5) = bind-ok (choose_x ((behind h - first h) % 2 ^ 32) h.m_job) _ r k4 in
      let (e6, k6) =
        reject-ok (ltb max_uint32 (ceil_div (behind h - first h) x * h.m_job.m_height * 4 % 2 ^ 64))
          too_big _ r k5 in
      (
        x,
        record {
          has_height = ground arith;
          has_blocks = ground (arith, e4);
          uses = choose_x-Uses h x e5;
          fits = ground (arith, e6);
        },
        sym (ok_unique _ r k6),
      )

  -- The checks of `render` pass exactly where, for some `x` blocks per column that the job chooses or
  -- that are the automatic number, the job selects a block, has a height, and has an image whose
  -- size in bytes, modulo 2^64 as `size_t` computes it, is below 2^32; then they leave the fields
  -- for that `x`, and the selected blocks.
  pub prepare_iff :
      (h : Heatmap) (r : Heatmap × List ℕ)
      → (prepare builtin getenv h ≡ ok r)
        ↔ ((x : ℕ) × IsDrawable h x × (r ≡ (prepared h x, blocks h)))
  prepare_iff h r = (
    prepare-IsDrawable h r,
    λ (x, d, e). subst (λ q. prepare builtin getenv h ≡ ok q) (sym e) (IsDrawable-prepare h x d),
  )

  -- With fewer than 2^32 nonces, what is saved about a drawable job describes its blocks: their
  -- number, at least one, and the indices of the first and of the last, which is a valid index.
  prepared-blocks :
      (h : Heatmap) (x : ℕ)
      → IsDrawable h x
      → length h.m_nonces < 2 ^ 32
      → let p = prepared h x in
        (p.m_count ≡ length (blocks h))
        × (0 < p.m_count)
        × (p.m_end + 1 ≡ p.m_start + p.m_count)
        × (p.m_end < length h.m_nonces)
  unfolding gen_name
  prepared-blocks h x d small =
      let le = get_iterator-le false (length h.m_nonces) h.m_job.m_end in
      let taken = length-take (behind h - first h) (drop (first h) h.m_nonces) in
      let left = length-drop (first h) h.m_nonces in
      let lt = d.has_blocks in
      (
        omega (arith, le, taken, left, lt),
        omega (arith, lt, le),
        omega (arith, lt, le),
        omega (arith, lt, le),
      )
