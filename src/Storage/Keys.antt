-- ===== src/Storage/Keys.antt =====
-- A key is used for one object only.
use xmrig_nonces_heatmap.Prelude.{
  ℕ, ◌+◌, ◌≤◌, ◌<◌, ◌≡◌, refl, none, some, ◌==◌, eq_nat, if◌then◌else◌, arith, List, [], ◌∷◌,
  Option-cases, inl, inr, Bool, false, not, any, length, ◌∙◌,
}
use xmrig_nonces_heatmap.Dict.{find, find-assign, find-erase}
use xmrig_nonces_heatmap.Storage.{Storage, storage, add, may_get, get, release}

-- no object has a key that was not given out yet
pub record IsBelow {ℓ} {A : Type ℓ} (s : Storage A) : Type ℓ where
  pub free : (k : ℕ) → s.m_counter ≤ k → find k s.m_data ≡ none

module _ {ℓ} {A : Type ℓ} where
  pub storage-IsBelow : IsBelow (storage {A = A})
  storage-IsBelow = record { free = λ k h. unfold find in refl }

  pub get_next : (s : Storage A) → IsBelow s → get s.m_counter s ≡ none
  unfolding get
  get_next s b = b.free s.m_counter (omega arith)

  pub get-add :
      (ptr : A) (j : ℕ) (s : Storage A)
      → get j (add ptr s).1 ≡ (if s.m_counter == j then some ptr else get j s)
  unfolding add get
  get-add ptr j s = find-assign s.m_counter j ptr s.m_data

  pub get-release :
      (k j : ℕ) (s : Storage A) → get j (release k s).1 ≡ (if k == j then none else get j s)
  unfolding release get
  get-release k j s = elim (Option-cases (find k s.m_data)) [
    | inl e ↦ rw (e, release) (ground (arith, e))
    | inr (v, e) ↦ rw (e, release) (find-erase k j s.m_data)
  ]

  pub release-counter : (k : ℕ) (s : Storage A) → (release k s).1.m_counter ≡ s.m_counter
  unfolding release
  release-counter k s = elim (Option-cases (get k s)) [
    | inl e ↦ rw (e, release) refl
    | inr (v, e) ↦ rw (e, release) refl
  ]

  pub add-IsBelow :
      (ptr : A) (s : Storage A)
      → IsBelow s
      → s.m_counter + 1 < 18446744073709551616
      → IsBelow (add ptr s).1
  unfolding add
  add-IsBelow ptr s b small = record {
    free = λ k h. ground (arith, find-assign s.m_counter k ptr s.m_data, b.free k);
  }

  pub release-IsBelow : (k : ℕ) (s : Storage A) → IsBelow s → IsBelow (release k s).1
  unfolding release get
  release-IsBelow k s b = elim (Option-cases (find k s.m_data)) [
    | inl e ↦ rw (e, release) b
    | inr (v, e) ↦
        rw (e, release) (record { free = λ j h. ground (arith, find-erase k j s.m_data, b.free j) })
  ]

-- the calls that change a storage
pub data Call {ℓ} (A : Type ℓ) : Type ℓ where
  added : A → Call A
  released : ℕ → Call A

abbrev pub is_release {ℓ} : {A : Type ℓ} → ℕ → Call A → Bool
is_release k (added ptr) = false
is_release k (released id) = id == k

module _ {ℓ} {A : Type ℓ} where
  pub call : Call A → Storage A → Storage A
  call (added ptr) s = (add ptr s).1
  call (released id) s = (release id s).1

  pub calls : List (Call A) → Storage A → Storage A
  calls [] s = s
  calls (c ∷ cs) s = calls cs (call c s)

  call-get :
      (c : Call A) (k : ℕ) (s : Storage A)
      → k < s.m_counter
      → get k (call c s) ≡ (if is_release k c then none else get k s)
  unfolding call
  call-get (added ptr) k s old = ground (arith, get-add ptr k s)
  call-get (released id) k s old = get-release id k s

  call-counter :
      (c : Call A) (s : Storage A)
      → s.m_counter + 1 < 18446744073709551616
      → (s.m_counter ≤ (call c s).m_counter) × ((call c s).m_counter ≤ s.m_counter + 1)
  unfolding call add
  call-counter (added ptr) s small = (omega arith, omega arith)
  call-counter (released id) s small = rw (release-counter id s) (omega arith, omega arith)

  calls-get :
      (cs : List (Call A)) (k : ℕ) (s : Storage A)
      → k < s.m_counter
      → s.m_counter + length cs < 18446744073709551616
      → get k (calls cs s) ≡ (if any (is_release k) cs then none else get k s)
  unfolding calls
  calls-get [] k s old small = refl
  calls-get (c ∷ cs) k s old small =
      let (up, one) = call-counter c s (omega arith) in
      let step = call-get c k s old in
      let later = calls-get cs k (call c s) (omega arith) (omega arith) in
      ground (arith, step, later)

  -- what the assertion of `get` finds out
  may_get-get :
      (k : ℕ) (s : Storage A) (b : Bool) (ptr : A)
      → get k s ≡ (if b then none else some ptr)
      → may_get k s ≡ not b
  unfolding may_get get
  may_get-get k s b ptr e = ground (arith, e)

  -- For the key that `add` gives to an object, the assertion of `get` holds exactly as long as the key
  -- is not released, whatever is added or released in between: no key is given out twice. So long,
  -- `get` gives the object. Ever after the assertion fails, and in a build without assertions `get`
  -- gives a null pointer. The counter and the number of calls together stay below 2^64.
  pub get-add-calls :
      (ptr : A) (cs : List (Call A)) (s : Storage A)
      → s.m_counter + 1 + length cs < 18446744073709551616
      → let released' = any (is_release (add ptr s).0) cs in
        let later = calls cs (add ptr s).1 in
        (may_get (add ptr s).0 later ≡ not released')
        × (get (add ptr s).0 later ≡ (if released' then none else some ptr))
  unfolding add
  get-add-calls ptr cs s small =
      let gives =
        calls-get cs s.m_counter (add ptr s).1 (omega arith) (omega arith)
        ∙ ground (arith, get-add ptr s.m_counter s) in
      (may_get-get s.m_counter _ (any (is_release s.m_counter) cs) ptr gives, gives)
