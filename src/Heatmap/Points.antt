-- ===== src/Heatmap/Points.antt =====
-- The points of nonces_heatmap in Heatmap.cpp: which lie inside the image, and when the loop
-- divides by zero.
use xmrig_nonces_heatmap.Prelude.{
  ℕ, suc, ◌+◌, ◌-◌, ◌/◌, ◌%◌, ◌^◌, ◌≤◌, ◌<◌, ◌≡◌, ◌↔◌, refl, sym, ap, subst, arith, true, ◌&&◌,
  List, [], ◌∷◌, none, eq_nat, leb, length, All, any,
}
use native.Mathlib.Nat.{div-lt_iff_lt-mul, div-add-mod, le-div_iff_mul-le}
use xmrig_nonces_heatmap.Float.{ceil_div}
use xmrig_nonces_heatmap.Float.Exact.{ceil_div_exact}
use xmrig_nonces_heatmap.Heatmap.{plot, plot_custom, max_uint32}

-- one row: v is drawn inside exactly when it is above the remainder
row_lem :
    (top height v : ℕ)
    → 0 < height
    → height ≤ top
    → v ≤ top
    → ((top - v) / (top / height) < height) ↔ (top % height < v)
row_lem top height v hh fits le =
    let split = div-add-mod top height in
    let step : 0 < top / height = (le-div_iff_mul-le {x = 1} {y = top} hh).1 (omega arith) in
    let iff = div-lt_iff_lt-mul {k = top / height} {x = top - v} {y = height} step in
    (λ inside. omega (arith, iff.0 inside, split), λ above. iff.1 (omega (arith, split)))

column_lem : (x i n : ℕ) → 0 < x → i < n → i / x < suc ((n - 1) / x)
column_lem x i n hx h =
    let split = div-add-mod (n - 1) x in
    (div-lt_iff_lt-mul {x = i} {y = suc ((n - 1) / x)} hx).1 (omega (arith, split))

plot-columns :
    (x height i n : ℕ) (nonces : List ℕ)
    → 0 < x
    → i + length nonces ≤ n
    → All (λ p. p.0 < suc ((n - 1) / x)) (plot x height i nonces)
unfolding plot
plot-columns x height i n [] hx h = tt
plot-columns x height i n (nonce ∷ nonces) hx h =
    (column_lem x i n hx (omega arith), plot-columns x height (i + 1) n nonces hx (omega arith))

length-plot : (x height i : ℕ) (nonces : List ℕ) → length (plot x height i nonces) ≡ length nonces
unfolding plot
length-plot x height i [] = refl
length-plot x height i (nonce ∷ nonces) = ap suc (length-plot x height (i + 1) nonces)

-- For fewer than 2^24 blocks and x below 2^24, `nonces_heatmap` draws one point for each block,
-- and each in a column of the image, whose width comes from float arithmetic.
plot-in_width :
    (x height : ℕ) (nonces : List ℕ)
    → 0 < x
    → x < 2 ^ 24
    → 0 < length nonces
    → length nonces < 2 ^ 24
    → (length (plot x height 0 nonces) ≡ length nonces)
      × All (λ p. p.0 < ceil_div (length nonces) x) (plot x height 0 nonces)
plot-in_width x height nonces hx x_small hn n_small = (
  length-plot x height 0 nonces,
  subst (λ w. All (λ p. p.0 < w) (plot x height 0 nonces))
      (sym (ceil_div_exact (length nonces) x hn n_small hx x_small))
      (plot-columns x height 0 (length nonces) nonces hx (omega arith)),
)

-- For a height from 1 to 2^32 - 1, every point of the plot over all nonces lies in a row of the
-- image exactly when every nonce is above the remainder of 2^32 - 1 by the height.
plot-in_height :
    (x height i : ℕ) (nonces : List ℕ)
    → 0 < height
    → height ≤ max_uint32
    → All (λ v. v ≤ max_uint32) nonces
    → All (λ p. p.1 < height) (plot x height i nonces) ↔ All (λ v. max_uint32 % height < v) nonces
unfolding plot
plot-in_height x height i [] hh fits bounded = (λ _. tt, λ _. tt)
plot-in_height x height i (nonce ∷ nonces) hh fits (b, bounded) =
    let row = row_lem max_uint32 height nonce hh fits b in
    let rest = plot-in_height x height (i + 1) nonces hh fits bounded in
    (λ (p, ps). (row.0 p, rest.0 ps), λ (v, vs). (row.1 v, rest.1 vs))

-- The plot over all nonces has one point for each nonce, each in a column of the image whose width is
-- computed in floats, and all lie in a row of the image exactly when every nonce is above the
-- remainder of 2^32 - 1 by the height. There is a nonce, `x` and the number of nonces are below 2^24,
-- and the height is from 1 to 2^32 - 1.
pub plot-in_image :
    (x height : ℕ) (nonces : List ℕ)
    → 0 < x
    → x < 2 ^ 24
    → 0 < length nonces
    → length nonces < 2 ^ 24
    → 0 < height
    → height ≤ max_uint32
    → All (λ v. v ≤ max_uint32) nonces
    → (length (plot x height 0 nonces) ≡ length nonces)
      × All (λ p. p.0 < ceil_div (length nonces) x) (plot x height 0 nonces)
      × (All (λ p. p.1 < height) (plot x height 0 nonces)
          ↔ All (λ v. max_uint32 % height < v) nonces)
plot-in_image x height nonces hx x_small hn n_small hh fits bounded =
    let (count, columns) = plot-in_width x height nonces hx x_small hn n_small in
    (count, columns, plot-in_height x height 0 nonces hh fits bounded)

-- The loop over nonces between `lowest` and `highest` divides by zero exactly when the range is
-- smaller than the height and some nonce lies in it.
pub plot_custom-crash :
    (x height lowest highest i : ℕ) (nonces : List ℕ)
    → (plot_custom x height lowest highest i nonces ≡ none) ↔ (
        ((highest + 2 ^ 32 - lowest) % 2 ^ 32 / height ≡ 0)
        × (any (λ v. leb lowest v && leb v highest) nonces ≡ true))
unfolding plot_custom
plot_custom-crash x height lowest highest i [] = grind arith
plot_custom-crash x height lowest highest i (nonce ∷ nonces) =
    let rest = plot_custom-crash x height lowest highest (i + 1) nonces in ground (arith, rest)
