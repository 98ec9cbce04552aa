-- ===== src/Cvt/Pairs.antt =====
-- `fromHex` after `toHex` in base/tools/Cvt.cpp.
use xmrig_nonces_heatmap.Prelude.{
  ℕ, zero, suc, ◌≡◌, refl, arith, ◌+◌, ◌*◌, ◌/◌, ◌%◌, ◌<◌, ◌≤◌, true, false, ◌==◌, eq_nat, Bytes,
  [], ◌∷◌, ◌++◌, length, All, append_assoc, append-nil, some, length-append, length-replicate,
  length-take, ◌-◌, drop, take, leb, replicate,
}
use xmrig_nonces_heatmap.Cvt.{
  hex_pair, c_val, bin2hex_loop, hex2bin_loop, from_hex, from_hex_array, to_hex, bin2hex,
  half_size_max, resize, write,
}
use xmrig_nonces_heatmap.Cvt.Digits.{byte-IsRead}
use xmrig_nonces_heatmap.String.{c_str, of_owned}

-- the loop reads the digits of one byte after the other, if there is room for the bytes
hex2bin-bin2hex :
    (bin_maxlen : ℕ) (bin out : Bytes) (c_acc : ℕ)
    → All (λ b. b < 256) bin
    → length out + length bin ≤ bin_maxlen
    → hex2bin_loop bin_maxlen (bin2hex_loop bin) out c_acc false
      ≡ record { bin = out ++ bin; rest = []; half = false; ok = true }
unfolding hex2bin_loop bin2hex_loop
hex2bin-bin2hex bin_maxlen [] out c_acc all room = rw (append-nil out)
hex2bin-bin2hex bin_maxlen (b ∷ bin) out c_acc (small, all) room =
    let r = byte-IsRead b small in
    let space : leb bin_maxlen (length out) ≡ false = ground arith in
    rw (
      r.first_digit,
      r.second_digit,
      space,
      r.value,
      hex2bin-bin2hex bin_maxlen bin (out ++ b ∷ []) (c_val (hex_pair b % 256) * 16 % 256) all
          (omega (arith, length-append out (b ∷ []))),
      append_assoc out (b ∷ []) bin,
    )

c_str-bin2hex :
    (bin : Bytes) → All (λ b. b < 256) bin → c_str (bin2hex_loop bin ++ 0 ∷ []) ≡ bin2hex_loop bin
unfolding c_str bin2hex_loop
c_str-bin2hex [] all = refl
c_str-bin2hex (b ∷ bin) (small, all) =
    let r = byte-IsRead b small in rw (r.first_text, r.second_text, c_str-bin2hex bin all)

length-bin2hex : (bin : Bytes) → length (bin2hex_loop bin) ≡ length bin * 2
unfolding bin2hex_loop
length-bin2hex [] = refl
length-bin2hex (b ∷ bin) = omega (arith, length-bin2hex bin)

drop_all : (n : ℕ) (xs : Bytes) → length xs ≤ n → drop n xs ≡ []
drop_all zero [] h = refl
drop_all zero (x ∷ xs) h = elim h [ ]
drop_all (suc n) [] h = refl
drop_all (suc n) (x ∷ xs) h = drop_all n xs (omega arith)

length-resize : (n : ℕ) (buf : Bytes) → length (resize n buf) ≡ n
length-resize n buf = omega (
  arith,
  length-append (take n buf) (replicate (n - length buf) 0),
  length-take n buf,
  length-replicate {A = ℕ} (n - length buf) 0,
)

write-resize : (bin buf : Bytes) → write bin (resize (length bin) buf) ≡ bin
write-resize bin buf = rw (
  drop_all (length bin) (resize (length bin) buf) (omega (arith, length-resize (length bin) buf)),
  append-nil bin,
)

-- the text of `toHex`
to_hex_lem :
    (bin : Bytes)
    → 1 ≤ length bin
    → length bin < half_size_max
    → All (λ b. b < 256) bin
    → (to_hex (some bin)).m_data ≡ some (bin2hex_loop bin)
unfolding to_hex bin2hex of_owned
to_hex_lem bin some_bytes room all =
    let a : (length bin == 0) ≡ false = ground arith in
    let b : leb half_size_max (length bin) ≡ false = ground arith in
    let c : leb (length bin * 2 + 1) (length bin * 2) ≡ false = ground arith in
    rw (a, b, c, c_str-bin2hex bin all)

from_hex_lem :
    (buf bin : Bytes)
    → 1 ≤ length bin
    → length bin < half_size_max
    → All (λ b. b < 256) bin
    → from_hex buf (to_hex (some bin)).m_data ≡ (true, bin)
unfolding from_hex
from_hex_lem buf bin some_bytes room all =
    let half : length (bin2hex_loop bin) / 2 ≡ length bin = omega (arith, length-bin2hex bin) in
    let long : (length (bin2hex_loop bin) == 0) ≡ false = ground (arith, length-bin2hex bin) in
    rw (
      to_hex_lem bin some_bytes room all,
      long,
      half,
      hex2bin-bin2hex (length bin) bin [] 0 all (omega arith),
      write-resize bin buf,
    )

from_hex_array_lem :
    (array bin : Bytes)
    → 1 ≤ length bin
    → length bin < half_size_max
    → All (λ b. b < 256) bin
    → length bin ≤ length array
    → from_hex_array array (to_hex (some bin)).m_data ≡ (true, bin ++ drop (length bin) array)
unfolding from_hex_array
from_hex_array_lem array bin some_bytes room all fits =
    let long : (length (bin2hex_loop bin) == 0) ≡ false = ground (arith, length-bin2hex bin) in
    rw (
      to_hex_lem bin some_bytes room all,
      long,
      hex2bin-bin2hex (length array) bin [] 0 all (omega arith),
    )

-- A buffer is read back from its hexadecimal text: for bytes, at least one and fewer than
-- `SIZE_MAX / 2`, `fromHex` succeeds on the text that `toHex` makes of them. It fills a buffer with
-- them, whatever that held before, and writes them to the beginning of an array that is large enough,
-- whose other bytes it leaves.
pub from_hex-to_hex :
    (buf array bin : Bytes)
    → 1 ≤ length bin
    → length bin < half_size_max
    → All (λ b. b < 256) bin
    → length bin ≤ length array
    → (from_hex buf (to_hex (some bin)).m_data ≡ (true, bin))
      × (from_hex_array array (to_hex (some bin)).m_data ≡ (true, bin ++ drop (length bin) array))
from_hex-to_hex buf array bin some_bytes room all fits = (
  from_hex_lem buf bin some_bytes room all,
  from_hex_array_lem array bin some_bytes room all fits,
)
