-- ===== src/Png/Rows.antt =====
-- The row pointers that libpng is given.
use xmrig_nonces_heatmap.Prelude.{
  ℕ, zero, suc, ◌+◌, ◌*◌, ◌%◌, ◌^◌, ◌≤◌, ◌<◌, ◌≡◌, refl, ap, subst, ◌∙◌, sym, Bytes, List, [], ◌∷◌,
  ◌++◌, arith, length, take, drop, All, take-append-drop,
}
use native.Mathlib.Nat.{add-mul}
use xmrig_nonces_heatmap.Png.{row_pointers}

next_row : (y width : ℕ) → (y + 1) * width * 4 ≡ y * width * 4 + width * 4
next_row y width = let e = add-mul y 1 width in omega (arith, e)

same_height : (y n : ℕ) → y + suc n ≡ y + 1 + n
same_height y n = omega arith

-- row `y` ends before the end of the image
row_inside : (y n width : ℕ) → y * width * 4 + width * 4 ≤ (y + suc n) * width * 4
row_inside y n width =
    let e = add-mul (y + 1) n width in rw (same_height y n) (omega (arith, e, next_row y width))

drop_beyond : (n : ℕ) (xs : Bytes) → length xs ≤ n → drop n xs ≡ []
drop_beyond zero [] h = refl
drop_beyond zero (x ∷ xs) h = absurd (omega arith)
drop_beyond (suc n) [] h = refl
drop_beyond (suc n) (x ∷ xs) h = drop_beyond n xs (omega arith)

drop-drop : (n m : ℕ) (xs : Bytes) → drop m (drop n xs) ≡ drop (n + m) xs
drop-drop zero m xs = let e : 0 + m ≡ m = omega arith in rw e refl
drop-drop (suc n) m [] =
    let e : suc n + m ≡ suc (n + m) = omega arith in rw e (drop_beyond m [] (omega arith))
drop-drop (suc n) m (x ∷ xs) =
    let e : suc n + m ≡ suc (n + m) = omega arith in rw e (drop-drop n m xs)

-- the bytes that libpng reads, a row after the other
unfoldable pub image_of : (width : ℕ) → Bytes → List ℕ → Bytes
image_of width data' [] = []
image_of width data' (offset ∷ rows) =
    take (width * 4) (drop offset data') ++ image_of width data' rows

pub row_pointers-image :
    (width y n : ℕ) (data' : Bytes)
    → length data' ≡ (y + n) * width * 4
    → length data' < 2 ^ 64
    → image_of width data' (row_pointers width y n) ≡ drop (y * width * 4) data'
unfolding image_of row_pointers
row_pointers-image width y zero data' h small =
    sym (
      drop_beyond (y * width * 4) data'
        (let e : y + 0 ≡ y = omega arith in rw (h, e) (omega arith)))
row_pointers-image width y (suc n) data' h small =
    let here : y * width * 4 % 2 ^ 64 ≡ y * width * 4 = omega (arith, h, row_inside y n width) in
    let rest =
      row_pointers-image width (y + 1) n data' (h ∙ ap (λ k. k * width * 4) (same_height y n))
        small in
    rw (here, rest, next_row y width, ← drop-drop (y * width * 4) (width * 4) data')
      (take-append-drop (width * 4) (drop (y * width * 4) data'))

-- each row lies in the image
pub row_pointers-inside :
    (width y n : ℕ)
    → (y + n) * width * 4 < 2 ^ 64
    → All (λ offset. offset + width * 4 ≤ (y + n) * width * 4) (row_pointers width y n)
unfolding row_pointers
row_pointers-inside width y zero small = tt
row_pointers-inside width y (suc n) small =
    let here : y * width * 4 % 2 ^ 64 ≡ y * width * 4 = omega (arith, row_inside y n width) in
    let same = same_height y n in
    (
      rw here (row_inside y n width),
      subst (λ k. All (λ offset. offset + width * 4 ≤ k * width * 4) (row_pointers width (y + 1) n))
          (sym same)
          (row_pointers-inside width (y + 1) n (subst (λ k. k * width * 4 < 2 ^ 64) same small)),
    )
