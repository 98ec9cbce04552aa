-- ===== src/Log/Writes.antt =====
-- A write into the buffer of a line, behind what is there.
use xmrig_nonces_heatmap.Prelude.{
  take-append, take_all, ℕ, ◌+◌, ◌-◌, ◌≤◌, ◌<◌, ◌≡◌, sym, ap, ◌∙◌, true, false, Bytes, [], ◌∷◌,
  ◌++◌, Option, some, ◌==◌, eq_nat, leb, length, take, drop, length-append, length-take,
  length-drop, arith, append_assoc,
}
use xmrig_nonces_heatmap.Log.{max_buffer_size, store, print_at}

-- the buffer begins with a line
pub record Holds (line buf : Bytes) : Type 0 where
  pub rest : Bytes
  pub split : buf ≡ line ++ rest
  pub whole : length buf ≡ max_buffer_size

-- a part of a line
pub Holds-start : (p q buf : Bytes) → Holds (p ++ q) buf → Holds p buf
Holds-start p q buf h = record {
  rest = q ++ h.rest;
  split = h.split ∙ append_assoc p q h.rest;
  whole = h.whole;
}

-- a write behind the line, with room for it
pub record Stored (line : Bytes) (r : Option Bytes) : Type 0 where
  pub buf' : Bytes
  pub result : r ≡ some buf'
  pub holds : Holds line buf'

pub store-Holds :
    (at : ℕ) (p q buf : Bytes)
    → Holds p buf
    → at ≡ length p
    → at + length q ≤ max_buffer_size
    → Stored (p ++ q) (store at q buf)
unfolding store
store-Holds at p q buf h e fits =
    let inside : leb (at + length q) (length buf) ≡ true = ground (arith, h.whole) in
    let start : take at buf ≡ p = rw (e, h.split) (take-append p h.rest) in
    record {
      buf' = take at buf ++ (q ++ drop (at + length q) buf);
      result = rw inside;
      holds = record {
        rest = drop (at + length q) buf;
        split =
            ap (λ t. t ++ (q ++ drop (at + length q) buf)) start
            ∙ sym (append_assoc p q (drop (at + length q) buf));
        whole = omega (
          arith,
          length-append (take at buf) (q ++ drop (at + length q) buf),
          length-append q (drop (at + length q) buf),
          length-take at buf,
          length-drop (at + length q) buf,
          h.whole,
        );
      };
    }

-- a text that `snprintf` has room for
pub print_at-Holds :
    (at limit : ℕ) (p text buf : Bytes)
    → Holds p buf
    → at ≡ length p
    → length text < limit
    → at + length text + 1 ≤ max_buffer_size
    → Stored (p ++ (text ++ 0 ∷ [])) (print_at at limit text buf)
unfolding print_at
print_at-Holds at limit p text buf h e fits space =
    let some_room : (limit == 0) ≡ false = ground arith in
    let all : take (limit - 1) text ≡ text = take_all (limit - 1) text (omega arith) in
    rw (some_room, all)
      (store-Holds at p (text ++ 0 ∷ []) buf h e (omega (arith, length-append text (0 ∷ []))))

-- a text that `snprintf` cuts
pub print_at-cut :
    (at limit : ℕ) (p text buf : Bytes)
    → Holds p buf
    → at ≡ length p
    → 1 ≤ limit
    → limit ≤ length text
    → at + limit ≤ max_buffer_size
    → Stored (p ++ (take (limit - 1) text ++ 0 ∷ [])) (print_at at limit text buf)
unfolding print_at
print_at-cut at limit p text buf h e some_limit long space =
    let some_room : (limit == 0) ≡ false = ground arith in
    rw some_room (
      store-Holds at p (take (limit - 1) text ++ 0 ∷ []) buf h e (
        omega
          (arith, length-append (take (limit - 1) text) (0 ∷ []), length-take (limit - 1) text)))
