-- ===== src/Contexts/Updated.antt =====
-- A context that comes, and one that changes.
use xmrig_nonces_heatmap.Prelude.{
  ℕ, ◌+◌, ◌^◌, ◌<◌, ◌≡◌, ◌⊎◌, refl, sym, ap, ◌∙◌, inl, inr, true, none, some, eq_nat, nat_beq_iff,
  ◌==◌, arith, Bool-cases,
}
use xmrig_nonces_heatmap.Dict
use xmrig_nonces_heatmap.Dict.{find, find-assign, find-erase, find-assign_cases, find-erase_cases}
use xmrig_nonces_heatmap.HttpData.{HttpData}
use xmrig_nonces_heatmap.HttpContext.{HttpContext, http_context}
use xmrig_nonces_heatmap.Contexts.{Contexts, create}
use xmrig_nonces_heatmap.Contexts.Valid.{IsValid, All-IsAlive, find-assign_alive, same_context}

pub create-IsValid :
    (w : Contexts) (at : ℕ) (d : HttpData)
    → IsValid w
    → find at w.heap ≡ none
    → w.sequence + 1 < 2 ^ 64
    → IsValid (create at d w)
unfolding create
create-IsValid w at d v fresh small =
    let new = http_context (record d { m_id = w.sequence }) in
    record {
      stored = λ id other h. elim (find-assign_cases w.sequence id at other w.storage h) [
        | inl (same_id, same) ↦ record {
          c = new;
          alive = rw (← same) (ground (arith, find-assign at at new w.heap));
          same_id = same_id;
          is_open = refl;
          is_stored = refl;
        }
        | inr (differ, there) ↦
            let o = v.stored id other there in
            record {
              c = o.c;
              alive = ground (arith, find-assign at other new w.heap, o.alive);
              same_id = o.same_id;
              is_open = o.is_open;
              is_stored = o.is_stored;
            }
      ];
      found = λ other c h o. elim (find-assign_cases at other new c w.heap h) [
        | inl (same, kept) ↦
            rw (← kept, ← same) (ground (arith, find-assign w.sequence w.sequence at w.storage))
        | inr (differ, there) ↦ ground (
          arith,
          find-assign w.sequence c.data'.m_id at w.storage,
          v.found other c there o,
          v.below other c there,
        )
      ];
      below = λ other c h. elim (find-assign_cases at other new c w.heap h) [
        | inl (same, kept) ↦ rw (← kept) (omega arith)
        | inr (differ, there) ↦ omega (arith, v.below other c there)
      ];
      unique = λ a b c e h k same. elim (find-assign_cases at a new c w.heap h) [
        | inl (at_a, new_c) ↦ elim (find-assign_cases at b new e w.heap k) [
          | inl (at_b, new_e) ↦ sym at_a ∙ at_b
          | inr (differ, there) ↦
              absurd (
                omega
                  (arith, ap (λ (x : HttpContext). x.data'.m_id) new_c, same, v.below b e there))
        ]
        | inr (differ, there) ↦ elim (find-assign_cases at b new e w.heap k) [
          | inl (at_b, new_e) ↦
              absurd (
                omega
                  (arith, ap (λ (x : HttpContext). x.data'.m_id) new_e, same, v.below a c there))
          | inr (differ', there') ↦ v.unique a b c e there there' same
        ]
      ];
      pending = All-IsAlive w (create at d w) (find-assign_alive w.heap at new) w.batons v.pending;
    }

-- another version of a context that has its id, and an entry less where it is closed
pub update-IsValid :
    (w : Contexts) (at : ℕ) (c c' : HttpContext) (storage : Dict.Dict ℕ ℕ)
    → IsValid w
    → find at w.heap ≡ some c
    → c'.data'.m_id ≡ c.data'.m_id
    → ((c'.closing ≡ c.closing) × (c'.stored ≡ c.stored) × (storage ≡ w.storage))
      ⊎ ((c'.closing ≡ true) × (storage ≡ Dict.erase c.data'.m_id w.storage))
    → IsValid (record w { storage = storage; heap = Dict.assign at c' w.heap })
update-IsValid w at c c' storage v h same_id how = record {
  stored = λ id other k.
      let o = v.stored id other (elim how [
        | inl (_, _, kept) ↦ rw (← kept) k
        | inr (_, less) ↦ (find-erase_cases c.data'.m_id id other w.storage (rw (← less) k)).1
      ]) in
      elim (Bool-cases (at == other)) [
        | inl same ↦
            let this = same_context at other c o.c w.heap same h o.alive in
            elim how [
              | inl (still, kept_stored, _) ↦ record {
                c = c';
                alive = ground (arith, find-assign at other c' w.heap);
                same_id = same_id ∙ ap (λ (x : HttpContext). x.data'.m_id) this ∙ o.same_id;
                is_open = still ∙ ap (λ (x : HttpContext). x.closing) this ∙ o.is_open;
                is_stored = kept_stored ∙ ap (λ (x : HttpContext). x.stored) this ∙ o.is_stored;
              }
              | inr (_, less) ↦ absurd (
                  ground (
                    arith,
                    find-erase_cases c.data'.m_id id other w.storage (rw (← less) k),
                    nat_beq_iff c.data'.m_id id,
                    ap (λ (x : HttpContext). x.data'.m_id) this,
                    o.same_id,
                  ))
            ]
        | inr differ ↦ record {
          c = o.c;
          alive = ground (arith, find-assign at other c' w.heap, o.alive);
          same_id = o.same_id;
          is_open = o.is_open;
          is_stored = o.is_stored;
        }
      ];
  found = λ other d k is_open. elim (find-assign_cases at other c' d w.heap k) [
    | inl (same, kept) ↦ elim how [
      | inl (still, _, kept_storage) ↦
          rw (kept_storage, ← same, ← kept, same_id)
            (v.found at c h (sym still ∙ ap (λ (x : HttpContext). x.closing) kept ∙ is_open))
      | inr (shut, _) ↦
          absurd (ground (arith, shut, is_open, ap (λ (x : HttpContext). x.closing) kept))
    ]
    | inr (differ, there) ↦ elim how [
      | inl (_, _, kept_storage) ↦ rw kept_storage (v.found other d there is_open)
      | inr (_, less) ↦ elim (Bool-cases (c.data'.m_id == d.data'.m_id)) [
        | inl equal ↦ absurd (
            ground (
              arith,
              nat_beq_iff at other,
              nat_beq_iff c.data'.m_id d.data'.m_id,
              v.unique at other c d h there,
            ))
        | inr apart ↦ ground (
          arith,
          less,
          find-erase c.data'.m_id d.data'.m_id w.storage,
          v.found other d there is_open,
        )
      ]
    ]
  ];
  below = λ other d k. elim (find-assign_cases at other c' d w.heap k) [
    | inl (same, kept) ↦ rw (← kept, same_id) (v.below at c h)
    | inr (differ, there) ↦ v.below other d there
  ];
  unique = λ a b d e k l same. elim (find-assign_cases at a c' d w.heap k) [
    | inl (at_a, kept) ↦ elim (find-assign_cases at b c' e w.heap l) [
      | inl (at_b, _) ↦ sym at_a ∙ at_b
      | inr (_, there) ↦
          sym at_a
          ∙ v.unique at b c e h there
              (sym same_id ∙ ap (λ (x : HttpContext). x.data'.m_id) kept ∙ same)
    ]
    | inr (_, there) ↦ elim (find-assign_cases at b c' e w.heap l) [
      | inl (at_b, kept) ↦
          v.unique a at d c there h
            (same ∙ sym (ap (λ (x : HttpContext). x.data'.m_id) kept) ∙ same_id)
          ∙ at_b
      | inr (_, there') ↦ v.unique a b d e there there' same
    ]
  ];
  pending =
      All-IsAlive w (record w { storage = storage; heap = Dict.assign at c' w.heap })
        (find-assign_alive w.heap at c') w.batons v.pending;
}
