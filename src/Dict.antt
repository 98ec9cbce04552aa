-- ===== src/Dict.antt =====
-- `std::map` as the program uses it: `find`, `count`, `insert` (which keeps a present entry), `erase`
-- and `size`. The program's numeric maps are never iterated in an order that matters, so entries
-- stand in the order of their insertion.
pub mod Unique
use xmrig_nonces_heatmap.Prelude.{
  ℕ, ◌+◌, ◌≤◌, ◌<◌, ◌≡◌, refl, Bool, true, false, List, [], ◌∷◌, Option, none, some, arith, Eq,
  ◌==◌, if◌then◌else◌, length, ◌⊎◌, inl, inr, Bool-cases,
}

abbrev pub Dict {ℓ κ} : Type ℓ → Type κ → Type (ℓ ⊔ κ)
Dict K V = List (K × V)

-- what `find` gives after an `insert`: the entry that was there before, or the new one
abbrev pub kept {ℓ} : {V : Type ℓ} → Option V → Option V → Option V
kept (some w) new = some w
kept none new = new

module _ {ℓ κ} {K : Type ℓ} {V : Type κ} where
  abbrev pub size : Dict K V → ℕ
  size m = length m

  abbrev pub empty : Dict K V → Bool
  empty [] = true
  empty (e ∷ m) = false

module _ {ℓ κ} {K : Type ℓ} {V : Type κ} ⦃e : Eq K⦄ where
  unfoldable pub find : K → Dict K V → Option V
  find k [] = none
  find k ((j, v) ∷ m) = if j == k then some v else find k m

  unfoldable pub insert : K → V → Dict K V → Dict K V
  insert k v [] = (k, v) ∷ []
  insert k v ((j, w) ∷ m) = if j == k then (j, w) ∷ m else (j, w) ∷ insert k v m

  unfoldable pub erase : K → Dict K V → Dict K V
  erase k [] = []
  erase k ((j, w) ∷ m) = if j == k then erase k m else (j, w) ∷ erase k m

  -- `m[k] = v`
  unfoldable pub assign : K → V → Dict K V → Dict K V
  unfolding insert erase
  assign k v m = insert k v (erase k m)

  pub find-insert :
      (k j : K) (v : V) (m : Dict K V)
      → find j (insert k v m) ≡ kept (find j m) (if k == j then some v else none)
  unfolding find insert
  find-insert k j v [] = refl
  find-insert k j v ((i, w) ∷ m) =
      ground (arith, e.same_iff k j, e.same_iff i k, e.same_iff i j, find-insert k j v m)

  pub find-erase :
      (k j : K) (m : Dict K V) → find j (erase k m) ≡ (if k == j then none else find j m)
  unfolding find erase
  find-erase k j [] = ground arith
  find-erase k j ((i, w) ∷ m) =
      ground (arith, e.same_iff k j, e.same_iff i k, e.same_iff i j, find-erase k j m)

  pub find-assign :
      (k j : K) (v : V) (m : Dict K V)
      → find j (assign k v m) ≡ (if k == j then some v else find j m)
  unfolding assign
  find-assign k j v m = ground (arith, find-insert k j v (erase k m), find-erase k j m)

  -- where an entry that is found comes from
  pub find-assign_cases :
      (k j : K) (v w : V) (m : Dict K V)
      → find j (assign k v m) ≡ some w
      → ((k ≡ j) × (v ≡ w)) ⊎ (((k == j) ≡ false) × (find j m ≡ some w))
  find-assign_cases k j v w m h = elim (Bool-cases (k == j)) [
    | inl same ↦ inl (ground (arith, e.same_iff k j), ground (arith, find-assign k j v m))
    | inr differ ↦ inr (differ, ground (arith, find-assign k j v m))
  ]

  pub find-erase_cases :
      (k j : K) (w : V) (m : Dict K V)
      → find j (erase k m) ≡ some w
      → ((k == j) ≡ false) × (find j m ≡ some w)
  find-erase_cases k j w m h = elim (Bool-cases (k == j)) [
    | inl same ↦ absurd (ground (arith, find-erase k j m))
    | inr differ ↦ (differ, ground (arith, find-erase k j m))
  ]

  pub size-insert-le : (k : K) (v : V) (m : Dict K V) → size (insert k v m) ≤ size m + 1
  unfolding insert
  size-insert-le k v [] = omega arith
  size-insert-le k v ((j, w) ∷ m) = ground (arith, size-insert-le k v m)

  pub size-le-insert : (k : K) (v : V) (m : Dict K V) → size m ≤ size (insert k v m)
  unfolding insert
  size-le-insert k v [] = omega arith
  size-le-insert k v ((j, w) ∷ m) = ground (arith, size-le-insert k v m)

  pub size-erase-le : (k : K) (m : Dict K V) → size (erase k m) ≤ size m
  unfolding erase
  size-erase-le k [] = omega arith
  size-erase-le k ((j, w) ∷ m) = ground (arith, size-erase-le k m)

  -- an entry that is there is gone afterwards
  pub size-erase-lt : (k : K) (m : Dict K V) {v : V} → find k m ≡ some v → size (erase k m) < size m
  unfolding find erase
  size-erase-lt k [] h = absurd (ground arith)
  size-erase-lt k ((j, w) ∷ m) {v} h = ground (arith, size-erase-lt k m {v = v}, size-erase-le k m)

  pub find-none_of_empty : (k : K) (m : Dict K V) → empty m ≡ true → find k m ≡ none
  unfolding find
  find-none_of_empty k [] h = refl
  find-none_of_empty k (a ∷ m) h = ground arith
