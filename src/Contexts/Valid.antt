-- ===== src/Contexts/Valid.antt =====
-- What holds of the contexts at every moment: the map and the heap agree, and a write that libuv has
-- not finished refers to memory that is in use.
use xmrig_nonces_heatmap.Prelude.{
  ℕ, ◌<◌, ◌≡◌, inl, inr, true, false, List, [], ◌∷◌, Option, none, some, eq_nat, nat_beq_iff, ◌==◌,
  arith, Bool-cases, All,
}
use xmrig_nonces_heatmap.Dict
use xmrig_nonces_heatmap.Dict.{find, find-assign, find-erase, find-assign_cases, find-erase_cases}
use xmrig_nonces_heatmap.HttpContext.{HttpContext}
use xmrig_nonces_heatmap.Contexts.{Contexts, contexts, get}

-- the context is alive
abbrev pub IsAlive : Contexts → Option ℕ → Type 0
IsAlive w none = Unit {0}
IsAlive w (some at) = (c : HttpContext) × (find at w.heap ≡ some c)

-- an entry of the map is an open context of that id
pub record IsOpen (id at : ℕ) (w : Contexts) : Type 0 where
  pub c : HttpContext
  pub alive : find at w.heap ≡ some c
  pub same_id : c.data'.m_id ≡ id
  pub is_open : c.closing ≡ false
  pub is_stored : c.stored ≡ true

pub record IsValid (w : Contexts) : Type 0 where
  pub stored : (id at : ℕ) → get id w ≡ some at → IsOpen id at w
  pub found :
      (at : ℕ) (c : HttpContext)
      → find at w.heap ≡ some c
      → c.closing ≡ false
      → get c.data'.m_id w ≡ some at
  pub below : (at : ℕ) (c : HttpContext) → find at w.heap ≡ some c → c.data'.m_id < w.sequence
  pub unique :
      (at other : ℕ) (c d : HttpContext)
      → find at w.heap ≡ some c
      → find other w.heap ≡ some d
      → c.data'.m_id ≡ d.data'.m_id
      → at ≡ other
  pub pending : All (IsAlive w) w.batons

pub contexts-IsValid : IsValid contexts
unfolding find
contexts-IsValid = record {
  stored = λ id at h. absurd (ground arith);
  found = λ at c h o. absurd (ground arith);
  below = λ at c h. absurd (ground arith);
  unique = λ at other c d h k e. absurd (ground arith);
  pending = tt;
}

-- what is alive stays alive
pub All-IsAlive :
    (w w' : Contexts)
    → ((at : ℕ) (c : HttpContext)
        → find at w.heap ≡ some c
        → (c' : HttpContext) × (find at w'.heap ≡ some c'))
    → (bs : List (Option ℕ)) → All (IsAlive w) bs
    → All (IsAlive w') bs
All-IsAlive w w' keeps [] h = tt
All-IsAlive w w' keeps (none ∷ bs) (h, hs) = (tt, All-IsAlive w w' keeps bs hs)
All-IsAlive w w' keeps (some at ∷ bs) ((c, h), hs) = (keeps at c h, All-IsAlive w w' keeps bs hs)

-- a write to the heap keeps what is alive
pub find-assign_alive :
    (heap : Dict.Dict ℕ HttpContext) (at : ℕ) (d : HttpContext) (other : ℕ) (c : HttpContext)
    → find other heap ≡ some c
    → (c' : HttpContext) × (find other (Dict.assign at d heap) ≡ some c')
find-assign_alive heap at d other c h = elim (Bool-cases (at == other)) [
  | inl e ↦ (d, ground (arith, find-assign at other d heap, e))
  | inr e ↦ (c, ground (arith, find-assign at other d heap, e))
]

-- one address, one context
pub same_context :
    (at other : ℕ) (c d : HttpContext) (heap : Dict.Dict ℕ HttpContext)
    → (at == other) ≡ true
    → find at heap ≡ some c
    → find other heap ≡ some d
    → c ≡ d
same_context at other c d heap same h k = ground (arith, nat_beq_iff at other)
