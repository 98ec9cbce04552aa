-- ===== src/Storage.antt =====
-- base/net/tools/Storage.h: a map from keys to the objects that are alive, so that a callback finds
-- out whether its object is still there. A pointer is an `A`, and a null pointer is `none`. The keys
-- are 64 bits wide. `ptr` and the overloads over `const void *` only cast. The default build, Release,
-- defines NDEBUG, so that `assert` is empty: `get` and `release` are those of that build, and `may_get`
-- is the condition that `get` asserts in other builds, which abort where it is false.
pub mod Keys
use xmrig_nonces_heatmap.Prelude.{
  ℕ, Bool, true, false, ◌+◌, ◌%◌, ◌^◌, [], Option, none, some, eq_nat,
}
use xmrig_nonces_heatmap.Dict
use xmrig_nonces_heatmap.Dict.{Dict}

pub record Storage {ℓ} (A : Type ℓ) : Type ℓ where
  pub m_data : Dict ℕ A
  pub m_counter : ℕ

module _ {ℓ} {A : Type ℓ} where
  abbrev pub storage : Storage A
  storage = record { m_data = []; m_counter = 0 }

  -- `add`: the key, and the storage
  unfoldable pub add : A → Storage A → ℕ × Storage A
  add ptr s = (
    s.m_counter,
    record {
      m_data = Dict.assign s.m_counter ptr s.m_data;
      m_counter = (s.m_counter + 1) % 18446744073709551616;
    },
  )

  -- the assertion of `get`
  unfoldable pub may_get : ℕ → Storage A → Bool
  unfolding Dict.find
  may_get id s = elim (Dict.find id s.m_data) [ none ↦ false | some obj ↦ true ]

  -- `get` behind its assertion
  unfoldable pub get : ℕ → Storage A → Option A
  unfolding Dict.find
  get id s = Dict.find id s.m_data

  -- `release`: the object, and the storage
  unfoldable pub release : ℕ → Storage A → Option A × Storage A
  unfolding get
  release id s = elim (get id s) [
    | none ↦ (none, s)
    | some obj ↦ (some obj, record s { m_data = Dict.erase id s.m_data })
  ]

  -- `remove`, whose `delete` is the caller's: the object is the first component of `release`
  abbrev pub remove : ℕ → Storage A → Storage A
  remove id s = (release id s).1
