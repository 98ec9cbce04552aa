-- ===== src/Dict/Unique.antt =====
-- Maps in which a key stands once: how many entries they have after `insert` and `erase`.
use xmrig_nonces_heatmap.Prelude.{
  suc, ◌≡◌, refl, inl, inr, [], ◌∷◌, none, some, arith, Eq, ◌==◌, Bool-cases,
}
use xmrig_nonces_heatmap.Dict.{Dict, size, find, insert, erase, find-insert, find-erase}

module _ {ℓ κ} {K : Type ℓ} {V : Type κ} ⦃e : Eq K⦄ where
  abbrev pub IsUnique : Dict K V → Type κ
  IsUnique [] = Unit
  IsUnique ((k, v) ∷ m) = (find k m ≡ none) × IsUnique m

  pub insert-IsUnique : (k : K) (v : V) (m : Dict K V) → IsUnique m → IsUnique (insert k v m)
  unfolding insert
  insert-IsUnique k v [] u = (unfold find in refl, tt)
  insert-IsUnique k v ((j, w) ∷ m) (absent, u) = elim (Bool-cases (j == k)) [
    | inl same ↦ rw same (absent, u)
    | inr other ↦ rw other (
      ground (arith, find-insert k j v m, e.same_iff k j, e.same_iff j k),
      insert-IsUnique k v m u,
    )
  ]

  pub erase_absent : (k : K) (m : Dict K V) → find k m ≡ none → erase k m ≡ m
  unfolding find erase
  erase_absent k [] h = refl
  erase_absent k ((j, w) ∷ m) h = ground (arith, erase_absent k m)

  pub erase-IsUnique : (k : K) (m : Dict K V) → IsUnique m → IsUnique (erase k m)
  unfolding erase
  erase-IsUnique k [] u = tt
  erase-IsUnique k ((j, w) ∷ m) (absent, u) = elim (Bool-cases (j == k)) [
    | inl same ↦ rw same (erase-IsUnique k m u)
    | inr other ↦ rw other (ground (arith, find-erase k j m), erase-IsUnique k m u)
  ]

  pub size-insert_absent :
      (k : K) (v : V) (m : Dict K V) → find k m ≡ none → size (insert k v m) ≡ suc (size m)
  unfolding find insert
  size-insert_absent k v [] h = refl
  size-insert_absent k v ((j, w) ∷ m) h = ground (arith, size-insert_absent k v m)

  pub size-erase_present :
      (k : K) (m : Dict K V) {v : V}
      → IsUnique m
      → find k m ≡ some v
      → suc (size (erase k m)) ≡ size m
  unfolding find erase
  size-erase_present k [] u h = absurd (ground arith)
  size-erase_present k ((j, w) ∷ m) {v} (absent, u) h = elim (Bool-cases (j == k)) [
    | inl same ↦ ground (arith, e.same_iff j k, erase_absent k m)
    | inr other ↦ ground (arith, size-erase_present k m {v = v} u)
  ]

  pub insert_present : (k : K) (v : V) (m : Dict K V) {w : V} → find k m ≡ some w → insert k v m ≡ m
  unfolding find insert
  insert_present k v [] h = absurd (ground arith)
  insert_present k v ((j, u) ∷ m) {w} h = ground (arith, insert_present k v m {w = w})
