-- ===== src/Contexts/Closed.antt =====
-- `close`, the writes, and the end of a context's memory.
use xmrig_nonces_heatmap.Prelude.{
  ℕ, ◌≡◌, refl, sym, ap, ◌∙◌, inl, inr, ℤ, pos, is_negative, Bool, true, false, List, [], ◌∷◌,
  Option, none, some, eq_nat, nat_beq_iff, ◌==◌, ◌&&◌, subst, arith, Bool-cases, Option-cases, All,
  All-append,
}
use xmrig_nonces_heatmap.Dict
use xmrig_nonces_heatmap.Dict.{find, find-assign, find-erase, find-assign_cases, find-erase_cases}
use xmrig_nonces_heatmap.HttpContext
use xmrig_nonces_heatmap.HttpContext.{HttpContext, Callback, handle, http_context, http_listener}
use mathlib.Core.Option.{some-injective}
use xmrig_nonces_heatmap.Contexts.{Contexts, get, close, write, written, delete}
use xmrig_nonces_heatmap.Contexts.Valid.{IsAlive, IsValid, All-IsAlive, same_context}
use xmrig_nonces_heatmap.Contexts.Updated.{update-IsValid}

-- `HttpContext.close` marks the handle and keeps the id
close-lem :
    (status : ℤ) (c : HttpContext)
    → c.stored ≡ true
    → ((HttpContext.close status c).data'.m_id ≡ c.data'.m_id)
      × ((HttpContext.close status c).closing ≡ true)
unfolding HttpContext.close
close-lem status c h = rw h (elim (Bool-cases (is_negative status && http_listener c)) [
  | inl told ↦ rw told (refl, refl)
  | inr untold ↦ rw untold (refl, refl)
])

-- an operation that touches no freed memory and keeps the invariant
abbrev pub Succeeds : Option Contexts → Type 0
Succeeds r = (w' : Contexts) × (r ≡ some w') × IsValid w'

pub Succeeds-IsValid : {r : Option Contexts} {w : Contexts} → Succeeds r → r ≡ some w → IsValid w
Succeeds-IsValid {r} {w} (w', e, v) e' = subst IsValid (some-injective w' w (sym e ∙ e')) v

pub close-Succeeds :
    (w : Contexts) (at : ℕ) (status : ℤ) (c : HttpContext)
    → IsValid w
    → find at w.heap ≡ some c
    → Succeeds (close at status w)
unfolding close
close-Succeeds w at status c v h = elim (Option-cases (get c.data'.m_id w)) [
  | inl nothing ↦ (w, ground arith, v)
  | inr (other, there) ↦
      let o = v.stored c.data'.m_id other there in
      let same = v.unique at other c o.c h o.alive (sym o.same_id) in
      let this =
        same_context at other c o.c w.heap (ground (arith, nat_beq_iff at other)) h o.alive in
      let (same_id, shut) =
        close-lem status c (ap (λ (x : HttpContext). x.stored) this ∙ o.is_stored) in
      (
        record w {
          storage = Dict.erase c.data'.m_id w.storage;
          heap = Dict.assign at (HttpContext.close status c) w.heap;
        },
        ground arith,
        update-IsValid w at c (HttpContext.close status c) (Dict.erase c.data'.m_id w.storage) v h
            same_id (inr (shut, refl)),
      )
]

-- fewer or other writes
batons-IsValid :
    (w : Contexts) (bs : List (Option ℕ))
    → IsValid w
    → All (IsAlive w) bs
    → IsValid (record w { batons = bs })
batons-IsValid w bs v h = record {
  stored = λ id at k.
      let o = v.stored id at k in
      record {
        c = o.c;
        alive = o.alive;
        same_id = o.same_id;
        is_open = o.is_open;
        is_stored = o.is_stored;
      };
  found = v.found;
  below = v.below;
  unique = v.unique;
  pending = All-IsAlive w (record w { batons = bs }) (λ at c k. (c, k)) bs h;
}

pub write-IsValid :
    (w : Contexts) (writable shut : Bool) (at : ℕ) (c : HttpContext)
    → IsValid w
    → find at w.heap ≡ some c
    → IsValid (write writable at shut w)
unfolding write
write-IsValid w false shut at c v h = v
write-IsValid w true false at c v h =
    batons-IsValid w _ v (All-append (IsAlive w) w.batons (none ∷ []) v.pending (tt, tt))
write-IsValid w true true at c v h =
    batons-IsValid w _ v (All-append (IsAlive w) w.batons (some at ∷ []) v.pending ((c, h), tt))

pub written-Succeeds :
    (w : Contexts) (b : Option ℕ) (bs : List (Option ℕ))
    → IsValid w
    → w.batons ≡ b ∷ bs
    → Succeeds (written b (record w { batons = bs }))
unfolding written
written-Succeeds w none bs v e =
    (record w { batons = bs }, refl, batons-IsValid w bs v (subst (All (IsAlive w)) e v.pending).1)
written-Succeeds w (some at) bs v e =
    let ((c, h), hs) = subst (All (IsAlive w)) e v.pending in
    close-Succeeds (record w { batons = bs }) at (pos 0) c (batons-IsValid w bs v hs) h

-- writes that are for another context stay pending
idle-IsAlive :
    (w : Contexts) (at : ℕ) (bs : List (Option ℕ))
    → All (IsAlive w) bs
    → All (λ b. (b ≡ some at) → ⊥) bs
    → All (IsAlive (record w { heap = Dict.erase at w.heap })) bs
idle-IsAlive w at [] hs idle = tt
idle-IsAlive w at (none ∷ bs) (h, hs) (other, idle) = (tt, idle-IsAlive w at bs hs idle)
idle-IsAlive w at (some a ∷ bs) ((c, h), hs) (other, idle) = (
  (
    c,
    ground (
      arith,
      find-erase at a w.heap,
      nat_beq_iff at a,
      h,
      λ (e : at ≡ a). other (ap some (sym e)),
    ),
  ),
  idle-IsAlive w at bs hs idle,
)

pub delete-IsValid :
    (w : Contexts) (at : ℕ) (c : HttpContext)
    → IsValid w
    → find at w.heap ≡ some c
    → c.closing ≡ true
    → All (λ b. (b ≡ some at) → ⊥) w.batons
    → IsValid (delete at w)
unfolding delete
delete-IsValid w at c v h shut idle = record {
  stored = λ id other k.
      let o = v.stored id other k in
      elim (Bool-cases (at == other)) [
        | inl same ↦
            let this = same_context at other c o.c w.heap same h o.alive in
            absurd (ground (arith, ap (λ (x : HttpContext). x.closing) this, shut, o.is_open))
        | inr differ ↦ record {
          c = o.c;
          alive = ground (arith, find-erase at other w.heap, o.alive);
          same_id = o.same_id;
          is_open = o.is_open;
          is_stored = o.is_stored;
        }
      ];
  found = λ other d k is_open. v.found other d (find-erase_cases at other d w.heap k).1 is_open;
  below = λ other d k. v.below other d (find-erase_cases at other d w.heap k).1;
  unique = λ a b d e k l same.
      v.unique a b d e (find-erase_cases at a d w.heap k).1 (find-erase_cases at b e w.heap l).1
        same;
  pending = idle-IsAlive w at w.batons v.pending idle;
}
