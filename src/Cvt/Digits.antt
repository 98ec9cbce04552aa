-- ===== src/Cvt/Digits.antt =====
-- The two hexadecimal digits of a byte, read back by the loop of `cvt_hex2bin` in base/tools/Cvt.cpp.
use Prim.Native.Nat.{bit_or}
use xmrig_nonces_heatmap.Prelude.{
  ℕ, zero, suc, ◌≡◌, refl, arith, ◌*◌, ◌/◌, ◌%◌, ◌<◌, Bool, true, false, ◌&&◌, not, ◌==◌, eq_nat,
  Bool-cases, nat_beq, nat_beq_iff, inl, inr, subst, sym,
}
use xmrig_nonces_heatmap.Cvt.{hex_pair, is_other, c_val}

abbrev first : ℕ → ℕ
first b = hex_pair b % 256

abbrev second : ℕ → ℕ
second b = hex_pair b / 256 % 256

abbrev is_read : ℕ → Bool
is_read b =
    not (is_other (first b))
    && (not (is_other (second b))
        && ((bit_or (c_val (first b) * 16 % 256) (c_val (second b)) == b)
            && (not (first b == 0) && not (second b == 0))))

abbrev all_below : ℕ → (ℕ → Bool) → Bool
all_below zero p = true
all_below (suc n) p = p n && all_below n p

all_read : all_below 256 is_read ≡ true
unfolding hex_pair is_other c_val
all_read = refl

below : (n : ℕ) (p : ℕ → Bool) (b : ℕ) → all_below n p ≡ true → b < n → p b ≡ true
below zero p b e h = elim h [ ]
below (suc n) p b e h = elim (Bool-cases (p n)) [
  | inl t ↦ elim (Bool-cases (nat_beq b n)) [
    | inl same ↦ subst (λ m. p m ≡ true) (sym ((nat_beq_iff b n).0 same)) t
    | inr other ↦ below n p b (ground arith) (ground arith)
  ]
  | inr f ↦ ground arith
]

-- the digits of a byte are digits and not NUL, and are read as that byte
pub record IsRead (b : ℕ) : Type 0 where
  pub first_digit : is_other (first b) ≡ false
  pub second_digit : is_other (second b) ≡ false
  pub value : bit_or (c_val (first b) * 16 % 256) (c_val (second b)) ≡ b
  pub first_text : (first b == 0) ≡ false
  pub second_text : (second b == 0) ≡ false

split_tests :
    (p q r s t : Bool)
    → (not p && (not q && (r && (not s && not t)))) ≡ true
    → (p ≡ false) × (q ≡ false) × (r ≡ true) × (s ≡ false) × (t ≡ false)
split_tests p q r s t e = ground arith

pub byte-IsRead : (b : ℕ) → b < 256 → IsRead b
byte-IsRead b h =
    let r = split_tests _ _ _ _ _ (below 256 is_read b all_read h) in
    record {
      first_digit = r.0;
      second_digit = r.1;
      value = (nat_beq_iff _ b).0 r.2;
      first_text = r.3;
      second_text = r.4;
    }
