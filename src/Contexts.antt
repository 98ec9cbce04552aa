-- ===== src/Contexts.antt =====
-- base/net/http/HttpContext.cpp: the contexts that are alive, the static map `storage` of those that
-- are open, and the writes that libuv has not finished. Addresses are numbers; `none` is an access
-- to freed memory.
pub mod Valid
mod Updated
mod Closed
pub mod Life
use xmrig_nonces_heatmap.Prelude.{
  ℕ, ◌+◌, ◌%◌, ◌^◌, ℤ, pos, Bool, true, false, List, [], ◌∷◌, ◌++◌, Option, none, some, eq_nat,
  if◌then◌else◌,
}
use xmrig_nonces_heatmap.Dict
use xmrig_nonces_heatmap.Dict.{Dict}
use xmrig_nonces_heatmap.HttpData.{HttpData}
use xmrig_nonces_heatmap.HttpContext
use xmrig_nonces_heatmap.HttpContext.{HttpContext, http_context}

-- `sequence` is `SEQUENCE`; a baton holds the context to close after the write, if there is one
pub record Contexts : Type 0 where
  pub sequence : ℕ
  pub storage : Dict ℕ ℕ
  pub heap : Dict ℕ HttpContext
  pub batons : List (Option ℕ)

abbrev pub contexts : Contexts
contexts = record { sequence = 0; storage = []; heap = []; batons = [] }

-- the constructor, at the address `at`
unfoldable pub create : (at : ℕ) → HttpData → Contexts → Contexts
create at d w = record w {
  sequence = (w.sequence + 1) % 2 ^ 64;
  storage = Dict.assign w.sequence at w.storage;
  heap = Dict.assign at (http_context (record d { m_id = w.sequence })) w.heap;
}

-- `get`
abbrev pub get : ℕ → Contexts → Option ℕ
get id w = Dict.find id w.storage

-- `close` of the context at `at`
unfoldable pub close : (at : ℕ) → ℤ → Contexts → Option Contexts
close at status w = elim (Dict.find at w.heap) [
  | none ↦ none
  | some c ↦ elim (get c.data'.m_id w) [
    | none ↦ some w
    | some _ ↦ some (record w {
      storage = Dict.erase c.data'.m_id w.storage;
      heap = Dict.assign at (HttpContext.close status c) w.heap;
    })
  ]
]

-- `write`, on a stream that can be written to or not
unfoldable pub write : (writable : Bool) → (at : ℕ) → (close : Bool) → Contexts → Contexts
write writable at close w =
    if writable then record w { batons = w.batons ++ (if close then some at else none) ∷ [] } else w

-- the end of a write, which deletes the baton
unfoldable pub written : Option ℕ → Contexts → Option Contexts
unfolding close
written none w = some w
written (some at) w = close at (pos 0) w

-- the callback of `uv_close`, which deletes the context
unfoldable pub delete : (at : ℕ) → Contexts → Contexts
delete at w = record w { heap = Dict.erase at w.heap }

-- the loop of `closeAll`; `none` is an entry of a context that was deleted
unfoldable pub close_handles : Dict ℕ ℕ → Dict ℕ HttpContext → Option (Dict ℕ HttpContext)
close_handles [] heap = some heap
close_handles ((id, at) ∷ storage) heap = elim (Dict.find at heap) [
  | none ↦ none
  | some c ↦ close_handles storage (Dict.assign at (record c { closing = true }) heap)
]

-- `closeAll`
unfoldable pub close_all : Contexts → Option Contexts
unfolding close_handles
close_all w = elim (close_handles w.storage w.heap) [
  | none ↦ none
  | some heap ↦ some (record w { heap = heap })
]
