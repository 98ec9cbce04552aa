-- ===== src/Log/Strip.antt =====
-- The loop that takes the colours out of a line.
use xmrig_nonces_heatmap.Prelude.{
  drop-append, drop_all-append, take-append, ℕ, zero, suc, ◌+◌, ◌-◌, ◌%◌, ◌<◌, ◌≡◌, refl, sym, ap,
  ◌∙◌, false, Bytes, List, [], ◌∷◌, ◌++◌, none, some, ◌==◌, eq_nat, nat_beq_iff, length, drop,
  length-append, All, All-append, arith, append_assoc, append-nil,
}
use xmrig_nonces_heatmap.Arguments.{index_of}
use xmrig_nonces_heatmap.Log.{style, find_csi, find_m, erase, strip, npos}

-- A line is made of texts without an escape character and of colours, whose codes have no `m`.
pub data Segment : Type 0 where
  plain : (text : Bytes) → All (λ b. (b == 27) ≡ false) text → Segment
  colour : (code : Bytes) → All (λ b. (b == b'm') ≡ false) code → Segment

unfoldable pub written : List Segment → Bytes
written [] = []
written (plain text _ ∷ segments) = text ++ written segments
written (colour code _ ∷ segments) = style code ++ written segments

unfoldable pub visible : List Segment → Bytes
visible [] = []
visible (plain text _ ∷ segments) = text ++ visible segments
visible (colour code _ ∷ segments) = visible segments

find_csi-none : (s : Bytes) → All (λ b. (b == 27) ≡ false) s → find_csi s ≡ none
unfolding find_csi
find_csi-none [] h = refl
find_csi-none (a ∷ []) h = refl
find_csi-none (a ∷ b ∷ s) (ha, h) = ground (arith, find_csi-none (b ∷ s) h)

find_csi-append :
    (s t : Bytes) → All (λ b. (b == 27) ≡ false) s → find_csi (s ++ 27 ∷ 91 ∷ t) ≡ some (length s)
unfolding find_csi
find_csi-append [] t h = refl
find_csi-append (a ∷ []) t (ha, h) = ground (arith, find_csi-append [] t tt)
find_csi-append (a ∷ b ∷ s) t (ha, h) = ground (arith, find_csi-append (b ∷ s) t h)

index_of-append :
    (c : ℕ) (s t : Bytes)
    → All (λ b. (b == c) ≡ false) s
    → index_of c (s ++ c ∷ t) ≡ some (length s)
unfolding index_of
index_of-append c [] t h = ground (arith, nat_beq_iff c c)
index_of-append c (b ∷ s) t (hb, h) = ground (arith, index_of-append c s t h)

pub length-style : (code : Bytes) → length (style code) ≡ length code + 3
length-style code = omega (arith, length-append code (b'm' ∷ []))

-- one round takes out the first colour
module _ (acc code rest : Bytes) (acc_plain : All (λ b. (b == 27) ≡ false) acc)
    (code_ends : All (λ b. (b == b'm') ≡ false) code) where
  find_m_lem : find_m (length acc) (acc ++ (style code ++ rest)) ≡ length acc + (length code + 2)
  unfolding find_m
  find_m_lem =
      let tail : drop (length acc) (acc ++ (style code ++ rest)) ≡ style code ++ rest =
        drop_all-append acc (style code ++ rest) (length acc) refl in
      let found : index_of b'm' (style code ++ rest) ≡ some (length code + 2) =
        rw (append_assoc code (b'm' ∷ []) rest) (
          index_of-append b'm' (27 ∷ 91 ∷ code) rest (refl, (refl, code_ends))
          ∙ ap some (omega arith)) in
      rw (tail, found, find_m)

  erase_lem : erase (length acc) (length code + 3) (acc ++ (style code ++ rest)) ≡ acc ++ rest
  unfolding erase
  erase_lem =
      let tail : drop (length acc + (length code + 3)) (acc ++ (style code ++ rest)) ≡ rest =
        drop-append acc (style code ++ rest) (length code + 3)
        ∙ drop_all-append (style code) rest (length code + 3) (sym (length-style code)) in
      rw (take-append acc (style code ++ rest), tail, erase)

  strip-style :
      (fuel : ℕ)
      → length acc + length code + 3 < npos
      → strip (suc fuel) (acc ++ (style code ++ rest)) ≡ strip fuel (acc ++ rest)
  unfolding strip
  strip-style fuel small =
      let found = find_csi-append acc ((code ++ b'm' ∷ []) ++ rest) acc_plain in
      let count : (find_m (length acc) (acc ++ (style code ++ rest))
              + (18446744073709551616 - length acc)
              + 1)
            % 18446744073709551616
          ≡ length code + 3 =
        omega (arith, find_m_lem) in
      rw (found, strip, count, erase_lem)

strip_plain :
    (acc : Bytes) (fuel : ℕ) → All (λ b. (b == 27) ≡ false) acc → strip (suc fuel) acc ≡ some acc
unfolding strip
strip_plain acc fuel h = rw (find_csi-none acc h, strip)

pub strip-segments :
    (segments : List Segment) (acc : Bytes) (fuel : ℕ)
    → All (λ b. (b == 27) ≡ false) acc
    → length acc + length (written segments) < npos
    → length (written segments) < fuel
    → strip fuel (acc ++ written segments) ≡ some (acc ++ visible segments)
unfolding written visible strip
strip-segments segments acc zero h small enough = absurd (omega arith)
strip-segments [] acc (suc fuel) h small enough = rw (append-nil acc) (strip_plain acc fuel h)
strip-segments (plain text p ∷ segments) acc (suc fuel) h small enough =
    rw (← append_assoc acc text (written segments), ← append_assoc acc text (visible segments))
      (strip-segments segments (acc ++ text) (suc fuel) (All-append _ acc text h p)
        (omega (arith, length-append acc text, length-append text (written segments)))
        (omega (arith, length-append text (written segments))))
strip-segments (colour code p ∷ segments) acc (suc fuel) h small enough =
    strip-style acc code (written segments) h p fuel
      (omega (arith, length-append (style code) (written segments), length-style code))
    ∙ strip-segments segments acc fuel h
        (omega (arith, length-append (style code) (written segments)))
        (omega (arith, length-append (style code) (written segments), length-style code))
