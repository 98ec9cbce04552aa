-- ===== src/Float.antt =====
-- The float arithmetic of Heatmap.cpp: IEEE 754 binary32 values that are not negative, as exact
-- fractions. A result is rounded to 24 significant bits, to nearest, ties to even. The exponents
-- met here (numbers below 2^64 and their quotients) lie far inside the format's range.
pub mod Exact
use xmrig_nonces_heatmap.Prelude.{
  ℕ, zero, suc, ◌+◌, ◌-◌, ◌*◌, ◌/◌, ◌%◌, ◌^◌, Bool, ◌&&◌, ◌||◌, ◌==◌, eq_nat, if◌then◌else◌, ltb,
  leb,
}

pub record Float : Type 0 where
  pub num : ℕ
  pub den : ℕ

-- a / b rounded to the nearest integer, ties to even
unfoldable pub round_div : ℕ → ℕ → ℕ
round_div a b =
    let q = a / b in
    let r = a % b in if ltb (2 * r) b || ((2 * r == b) && (q % 2 == 0)) then q else q + 1

-- 2^k for the least k, from `scale` = 1 on, at which a * 2^k has 24 bits before the point of /b
unfoldable pub scale_up : ℕ → ℕ → ℕ → ℕ → ℕ
scale_up zero a b scale = scale
scale_up (suc fuel) a b scale =
    let more = scale_up fuel a b (2 * scale) in if leb (2 ^ 23 * b) (a * scale) then scale else more

-- 2^e for the least e at which a / (b * 2^e) is below 2^24
unfoldable pub scale_down : ℕ → ℕ → ℕ → ℕ → ℕ
scale_down zero a b scale = scale
scale_down (suc fuel) a b scale =
    let more = scale_down fuel a b (2 * scale) in if ltb a (2 ^ 24 * b * scale) then scale else more

-- the float nearest to a / b; 64 doublings are enough for a and b below 2^40
unfoldable pub round : ℕ → ℕ → Float
round a b =
    if a == 0
    then record { num = 0; den = 1 }
    else if ltb a (2 ^ 24 * b)
    then record { num = round_div (a * scale_up 64 a b 1) b; den = scale_up 64 a b 1 }
    else record { num = round_div a (b * scale_down 64 a b 1) * scale_down 64 a b 1; den = 1 }

-- `static_cast<float>(n)`
unfoldable pub of_nat : ℕ → Float
of_nat n = round n 1

-- `a / b`, where `b` is not zero
unfoldable pub div : Float → Float → Float
div a b = round (a.num * b.den) (a.den * b.num)

-- `std::ceil`, converted to an integer
unfoldable pub ceil : Float → ℕ
ceil a = (a.num + a.den - 1) / a.den

-- `std::ceil(static_cast<float>(n) / x)`
unfoldable pub ceil_div : ℕ → ℕ → ℕ
ceil_div n x = ceil (div (of_nat n) (of_nat x))
