-- ===== src/Network/Coverage.antt =====
-- What the downloaded headers (`m_data`) and the ranges in flight (`m_req`) hold of the chain.
use native.Mathlib.Nat.{zero-add, suc-add}
use xmrig_nonces_heatmap.Prelude.{
  ℕ, zero, suc, ◌+◌, ◌≤◌, ◌<◌, ◌≡◌, refl, ap, ◌⊎◌, inl, inr, List, [], ◌∷◌, ◌++◌, none, some, arith,
  codes, length, subst, eq_nat,
}
use xmrig_nonces_heatmap.Dict
use xmrig_nonces_heatmap.Dict.{Dict}
use xmrig_nonces_heatmap.Json
use xmrig_nonces_heatmap.Json.{RapidJson}
use xmrig_nonces_heatmap.Network.{Range, collect, insert_headers}

-- the nonces of `count` blocks from height `i` on
abbrev pub segment : (ℕ → ℕ) → ℕ → ℕ → List ℕ
segment chain i zero = []
segment chain i (suc count) = chain i ∷ segment chain (i + 1) count

pub length-segment : (chain : ℕ → ℕ) (i count : ℕ) → length (segment chain i count) ≡ count
length-segment chain i zero = refl
length-segment chain i (suc count) = ap suc (length-segment chain (i + 1) count)

pub segment-append :
    (chain : ℕ → ℕ) (i j a b : ℕ)
    → i + a ≡ j
    → segment chain i a ++ segment chain j b ≡ segment chain i (a + b)
segment-append chain i j zero b e = rw (zero-add b) (ground arith)
segment-append chain i j (suc a) b e =
    rw (suc-add a b) (ap (◌∷◌ (chain i)) (segment-append chain (i + 1) j a b (omega arith)))

module _ (chain : ℕ → ℕ) where
  -- every nonce that is held is the chain's
  abbrev pub IsHonest : Dict ℕ ℕ → Type 0
  IsHonest m = (h : ℕ) → (Dict.find h m ≡ none) ⊎ (Dict.find h m ≡ some (chain h))

  pub insert-IsHonest :
      (k v : ℕ) (m : Dict ℕ ℕ) → v ≡ chain k → IsHonest m → IsHonest (Dict.insert k v m)
  insert-IsHonest k v m e honest h = ground (arith, Dict.find-insert k h v m, honest h)

  pub find-insert_kept :
      (k v h : ℕ) (m : Dict ℕ ℕ)
      → Dict.find h m ≡ some (chain h)
      → Dict.find h (Dict.insert k v m) ≡ some (chain h)
  find-insert_kept k v h m e = ground (arith, Dict.find-insert k h v m)

  pub find-insert_new :
      (k v : ℕ) (m : Dict ℕ ℕ)
      → v ≡ chain k
      → IsHonest m
      → Dict.find k (Dict.insert k v m) ≡ some (chain k)
  find-insert_new k v m e honest = ground (arith, Dict.find-insert k k v m, honest k)

  -- the loop of `save` succeeds where every height is held
  pub collect-segment :
      (m : Dict ℕ ℕ) (count i : ℕ)
      → ((h : ℕ) → i ≤ h → h < i + count → Dict.find h m ≡ some (chain h))
      → collect m count i ≡ some (segment chain i count)
  unfolding collect
  collect-segment m zero i held = refl
  collect-segment m (suc count) i held = ground (
    arith,
    held i (omega arith) (omega arith),
    collect-segment m count (i + 1) (λ h a b. held h (omega arith) (omega arith)),
  )

  module _ (rj : RapidJson) where
    open rj use {Value}

    abbrev pub height_of : Value → ℕ
    height_of header = Json.get_uint rj header (codes "height") 0

    abbrev pub nonce_of : Value → ℕ
    nonce_of header = Json.get_uint rj header (codes "nonce") 0

    -- every header has the chain's nonce for its height
    abbrev pub AreHonest : List Value → Type 0
    AreHonest [] = Unit
    AreHonest (header ∷ headers) = (nonce_of header ≡ chain (height_of header)) × AreHonest headers

    -- some header is that of the block at height `h`
    abbrev pub Lists : ℕ → List Value → Type 0
    Lists h [] = ⊥
    Lists h (header ∷ headers) = (height_of header ≡ h) ⊎ Lists h headers

    pub insert_headers-IsHonest :
        (headers : List Value) (m : Dict ℕ ℕ)
        → AreHonest headers
        → IsHonest m
        → IsHonest (insert_headers rj headers m)
    unfolding insert_headers
    insert_headers-IsHonest [] m a honest = honest
    insert_headers-IsHonest (header ∷ headers) m a honest =
        insert_headers-IsHonest headers _ a.1
          (insert-IsHonest (height_of header) (nonce_of header) m a.0 honest)

    pub insert_headers_kept :
        (headers : List Value) (m : Dict ℕ ℕ) (h : ℕ)
        → Dict.find h m ≡ some (chain h)
        → Dict.find h (insert_headers rj headers m) ≡ some (chain h)
    unfolding insert_headers
    insert_headers_kept [] m h e = e
    insert_headers_kept (header ∷ headers) m h e =
        insert_headers_kept headers _ h
          (find-insert_kept (height_of header) (nonce_of header) h m e)

    pub insert_headers_listed :
        (headers : List Value) (m : Dict ℕ ℕ) (h : ℕ)
        → AreHonest headers
        → IsHonest m
        → Lists h headers
        → Dict.find h (insert_headers rj headers m) ≡ some (chain h)
    unfolding insert_headers
    insert_headers_listed [] m h a honest l = absurd l
    insert_headers_listed (header ∷ headers) m h a honest (inl e) =
        insert_headers_kept headers _ h (
          subst
            (λ x. Dict.find x (Dict.insert (height_of header) (nonce_of header) m) ≡ some (chain x))
            e (find-insert_new (height_of header) (nonce_of header) m a.0 honest))
    insert_headers_listed (header ∷ headers) m h a honest (inr l) =
        insert_headers_listed headers _ h a.1
          (insert-IsHonest (height_of header) (nonce_of header) m a.0 honest) l

-- a range in flight covers the height
abbrev pub InFlight : ℕ → Dict ℕ Range → Type 0
InFlight h req = (id : ℕ) × (r : Range) × (Dict.find id req ≡ some r) × (r.start ≤ h) × (h ≤ r.end)
