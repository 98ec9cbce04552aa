-- ===== src/Heatmap/Errors.antt =====
-- What each exception of Heatmap.render means.
use xmrig_nonces_heatmap.Prelude.{
  ℕ, ◌-◌, ◌*◌, ◌%◌, ◌^◌, ◌≤◌, ◌<◌, ◌≡◌, ◌≢◌, ◌⊎◌, refl, ap, subst, arith, Bool, true, false, List,
  [], ◌∷◌, Option, ◌==◌, eq_nat, leb, ltb, length, is_nil, inl, inr, Bytes,
}
use xmrig_nonces_heatmap.Dict.{Dict}
use xmrig_nonces_heatmap.String.{String}
use xmrig_nonces_heatmap.Float.{ceil_div}
use xmrig_nonces_heatmap.Heatmap.{
  Error, Outcome, ok, throw, crash, ◌>>=◌, ◌>>◌, reject, max_uint32, Heatmap, prepare, choose_x,
  nonces_empty, no_height, invalid_start, invalid_end, too_big, encoder,
}
use xmrig_nonces_heatmap.Heatmap.Prepare.{first, behind, Uses, choose_x-Uses}

-- A check throws its own error, or passes and the rest throws.
reject-throw {κ} :
    {B : Type κ} (test : Bool) (e : Error) (k : Outcome B) (e' : Error)
    → (reject test e >> k) ≡ throw e'
    → ((test ≡ true) × (e ≡ e')) ⊎ ((test ≡ false) × (k ≡ throw e'))
reject-throw {B} true e k e' h = inl (refl, ap error h)
  where
    error : Outcome B → Error
    error (throw c) = c
    error (ok b) = e
    error crash = e
reject-throw false e k e' h = inr (refl, h)

bind-throw {ℓ κ} :
    {A : Type ℓ} {B : Type κ} (m : Outcome A) (f : A → Outcome B) (e : Error)
    → ((a : Error) → m ≢ throw a)
    → (m >>= f) ≡ throw e
    → (a : A) × (m ≡ ok a) × (f a ≡ throw e)
bind-throw (ok a) f e never h = (a, refl, h)
bind-throw (throw c) f e never h = absurd (never c refl)
bind-throw crash f e never h = ground arith

choose_x-never_throws : (count : ℕ) (h : Heatmap) (e : Error) → choose_x count h.m_job ≢ throw e
unfolding choose_x
choose_x-never_throws count h e t = ground arith

-- what is wrong with a job that is refused with an error
abbrev pub Refused : Heatmap → Error → Type 0
Refused h nonces_empty = h.m_nonces ≡ []
Refused h no_height = h.m_job.m_height ≡ 0
Refused h invalid_start = first h ≡ length h.m_nonces
Refused h invalid_end = behind h ≤ first h
Refused h too_big =
    (x : ℕ) × Uses h x × (max_uint32 < ceil_div (behind h - first h) x * h.m_job.m_height * 4)
Refused h (encoder n) = ⊥

is_nil_lem {ℓ} : {A : Type ℓ} (xs : List A) → is_nil xs ≡ true → xs ≡ []
is_nil_lem [] h = refl
is_nil_lem (x ∷ xs) h = ground arith

module _ (builtin : Dict Bytes String) (getenv : Bytes → Option Bytes) where
  -- An exception of the checks of `render` names what is wrong: an empty list of nonces, no height,
  -- a start behind the last block, an end that is not behind the start, or an image of 2^32 bytes
  -- or more for the number of blocks per column in use.
  pub prepare-Refused : (h : Heatmap) (e : Error) → prepare builtin getenv h ≡ throw e → Refused h e
  unfolding prepare
  prepare-Refused h e t0 = elim (reject-throw (is_nil h.m_nonces) nonces_empty _ e t0) [
    | inl (b, s) ↦ subst (Refused h) s (is_nil_lem h.m_nonces b)
    | inr (_, t1) ↦ elim (reject-throw (h.m_job.m_height == 0) no_height _ e t1) [
      | inl (b, s) ↦ subst (Refused h) s (ground arith)
      | inr (_, t2) ↦ elim (reject-throw (first h == length h.m_nonces) invalid_start _ e t2) [
        | inl (b, s) ↦ subst (Refused h) s (ground arith)
        | inr (_, t3) ↦ elim (reject-throw (leb (behind h) (first h)) invalid_end _ e t3) [
          | inl (b, s) ↦ subst (Refused h) s (ground arith)
          | inr (_, t4) ↦
              let count = (behind h - first h) % 2 ^ 32 in
              let (x, chosen, t5) =
                bind-throw (choose_x count h.m_job) _ e (choose_x-never_throws count h) t4 in
              elim (reject-throw
                (ltb max_uint32 (ceil_div (behind h - first h) x * h.m_job.m_height * 4 % 2 ^ 64))
                too_big _ e t5) [
                  | inl (b, s) ↦
                      subst (Refused h) s (x, choose_x-Uses h x chosen, ground (arith, b))
                  | inr (_, t6) ↦ ground (arith, t6)
                ]
        ]
      ]
    ]
  ]
