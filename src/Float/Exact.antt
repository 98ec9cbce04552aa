-- ===== src/Float/Exact.antt =====
-- The float division of small numbers, as Heatmap.cpp rounds it up for the width of the image.
use xmrig_nonces_heatmap.Prelude.{
  ℕ, zero, suc, ◌+◌, ◌-◌, ◌*◌, ◌/◌, ◌^◌, ◌≤◌, ◌<◌, ◌≡◌, ap, ◌∙◌, arith, eq_nat, subst,
}
use native.Mathlib.Nat.{mul-le-mul_left, div-add-mod, div-le_of_le-mul, mul-le-mul_right, mul-pos}
use xmrig_nonces_heatmap.Float.{Float, round_div, scale_up, round, of_nat, div, ceil, ceil_div}

round_div-le : (a b c : ℕ) → 0 < b → a ≤ b * c → round_div a b ≤ c
unfolding round_div
round_div-le a b c h le =
    let below = div-le_of_le-mul b le in
    let split = div-add-mod a b in
    let full = (λ (g : c ≤ a / b). mul-le-mul_left b g) in ground (arith, below, split, full)

lt-round_div : (a b c : ℕ) → 0 < b → 2 * (b * c) + b < 2 * a → c < round_div a b
unfolding round_div
lt-round_div a b c h near =
    let split = div-add-mod a b in
    let full = (λ (g : a / b ≤ c). mul-le-mul_left b g) in
    let over = (λ (g : suc (a / b) ≤ c). mul-le-mul_left b g) in ground (arith, split, full, over)

round_div_one : (a : ℕ) → round_div a 1 ≡ a
unfolding round_div
round_div_one a = ground arith

scale_up_enough :
    (fuel a b scale : ℕ)
    → 2 ^ 23 * b ≤ a * (scale * 2 ^ fuel)
    → 2 ^ 23 * b ≤ a * scale_up fuel a b scale
unfolding scale_up
scale_up_enough zero a b scale h = ground arith
scale_up_enough (suc fuel) a b scale h =
    let doubled : scale * 2 ^ suc fuel ≡ 2 * scale * 2 ^ fuel = grind arith in
    let step = scale_up_enough fuel a b (2 * scale) (subst (λ e. 2 ^ 23 * b ≤ a * e) doubled h) in
    ground (arith, step)

ceil_between : (m u c : ℕ) → 0 < u → u * c < m → m ≤ u * suc c → (m + u - 1) / u ≡ suc c
ceil_between m u c h low high =
    let split = div-add-mod (m + u - 1) u in
    let below = (λ (g : (m + u - 1) / u ≤ c). mul-le-mul_left u g) in
    let over = (λ (g : suc (suc c) ≤ (m + u - 1) / u). mul-le-mul_left u g) in
    ground (arith, split, below, over)

module _ (n x p u c : ℕ) (hx : 0 < x) (hp : 0 < p) (high : n ≤ suc c * x) (low : c * x < n)
    (fine : x < 2 * u) where
  rounded-le : round_div (n * p * u) (x * p) ≤ u * suc c
  rounded-le =
      let scaled = mul-le-mul_right (p * u) high in
      round_div-le (n * p * u) (x * p) (u * suc c) (mul-pos hx hp) (omega (arith, scaled))

  lt-rounded : u * c < round_div (n * p * u) (x * p)
  lt-rounded =
      let scaled = mul-le-mul_right (p * u) low in
      let fine' = mul-le-mul_right p fine in
      lt-round_div (n * p * u) (x * p) (u * c) (mul-pos hx hp) (omega (arith, scaled, fine'))

scale_up_tight :
    (fuel a b scale : ℕ) → a * scale < 2 ^ 24 * b → a * scale_up fuel a b scale < 2 ^ 24 * b
unfolding scale_up
scale_up_tight zero a b scale small = ground arith
scale_up_tight (suc fuel) a b scale small =
    let step = scale_up_tight fuel a b (2 * scale) in ground (arith, step)

of_nat_exact :
    (n : ℕ)
    → 0 < n
    → n < 2 ^ 24
    → of_nat n ≡ record { num = n * scale_up 64 n 1 1; den = scale_up 64 n 1 1 }
unfolding of_nat round
of_nat_exact n h small = ground (arith, round_div_one (n * scale_up 64 n 1 1))

div_exact :
    (a b : Float) (m d : ℕ)
    → a.num * b.den ≡ m
    → a.den * b.num ≡ d
    → 0 < m
    → m < 2 ^ 24 * d
    → div a b ≡ record { num = round_div (m * scale_up 64 m d 1) d; den = scale_up 64 m d 1 }
unfolding div round
div_exact a b m d em ed h small = ground arith

scale_up-pos : (fuel a b scale : ℕ) → 0 < scale → 0 < scale_up fuel a b scale
unfolding scale_up
scale_up-pos zero a b scale h = h
scale_up-pos (suc fuel) a b scale h =
    let step = scale_up-pos fuel a b (2 * scale) in ground (arith, step)

-- the float quotient of n * p by x * p, rounded up
module _ (n x p : ℕ) (hn : 0 < n) (n_small : n < 2 ^ 24) (hx : 0 < x) (x_small : x < 2 ^ 24)
    (hp : 0 < p) where
  smaller : n * p < 2 ^ 24 * (x * p)
  smaller = omega (arith, mul-le-mul_right p n_small, mul-le-mul_right p hx)

  enough : 2 ^ 23 * (x * p) ≤ n * p * (1 * 2 ^ 64)
  enough = omega (arith, mul-le-mul_right p hn, mul-le-mul_right p x_small)

  ceil-div :
      ceil (record {
        num = round_div (n * p * scale_up 64 (n * p) (x * p) 1) (x * p);
        den = scale_up 64 (n * p) (x * p) 1;
      })
      ≡ suc ((n - 1) / x)
  unfolding ceil
  ceil-div =
      let u = scale_up 64 (n * p) (x * p) 1 in
      let positive : 0 < u = scale_up-pos 64 (n * p) (x * p) 1 (omega arith) in
      let above = scale_up_enough 64 (n * p) (x * p) 1 enough in
      let steps : (p * u) * suc n ≤ (p * u) * 2 ^ 24 = mul-le-mul_left (p * u) n_small in
      let some_steps = mul-pos hp positive in
      let fine : x < 2 * u =
        ground (arith, above, steps, some_steps, (λ (g : 2 * u ≤ x). mul-le-mul_left p g)) in
      let split = div-add-mod (n - 1) x in
      let high : n ≤ suc ((n - 1) / x) * x = ground (arith, split) in
      let low : (n - 1) / x * x < n = ground (arith, split) in
      ceil_between (round_div (n * p * u) (x * p)) u ((n - 1) / x) positive
        (lt-rounded n x p u ((n - 1) / x) hx hp high low fine)
        (rounded-le n x p u ((n - 1) / x) hx hp high low fine)

-- For n and x from 1 to below 2^24, the float quotient of n by x, rounded up, is the exact quotient
-- rounded up.
pub ceil_div_exact :
    (n x : ℕ) → 0 < n → n < 2 ^ 24 → 0 < x → x < 2 ^ 24 → ceil_div n x ≡ suc ((n - 1) / x)
unfolding ceil_div
ceil_div_exact n x hn n_small hx x_small =
    let s = scale_up 64 n 1 1 in
    let t = scale_up 64 x 1 1 in
    let p = s * t in
    let positive : 0 < s * t =
      mul-pos (scale_up-pos 64 n 1 1 (omega arith)) (scale_up-pos 64 x 1 1 (omega arith)) in
    ap (λ a. ceil (div a (of_nat x))) (of_nat_exact n hn n_small)
    ∙ ap (λ b. ceil (div (record { num = n * s; den = s }) b)) (of_nat_exact x hx x_small)
    ∙ ap ceil (
        div_exact (record { num = n * s; den = s }) (record { num = x * t; den = t }) (n * p)
          (x * p) (omega arith) (omega arith) (mul-pos hn positive)
          (smaller n x p hn n_small hx x_small positive))
    ∙ ceil-div n x p hn n_small hx x_small positive
