-- ===== src/Cvt.antt =====
-- base/tools/Cvt.cpp: hexadecimal text, as it is built without libsodium. The arithmetic is that of
-- `unsigned int`, 32 bits wide, and of `unsigned char`. Of `cvt_hex2bin` it is the function at its
-- calls in Cvt.cpp, where `ignore`, `bin_len` and `hex_end` are null.
pub mod Digits
pub mod Pairs
use Prim.Native.Nat.{bit_and, bit_or, bit_xor}
use xmrig_nonces_heatmap.Prelude.{
  ℕ, zero, suc, ◌+◌, ◌-◌, ◌*◌, ◌/◌, ◌%◌, ◌^◌, Bool, true, false, ◌&&◌, not, ◌==◌, eq_nat, leb,
  if◌then◌else◌, Bytes, List, [], ◌∷◌, ◌++◌, Option, none, some, length, take, drop, replicate,
}
use xmrig_nonces_heatmap.String.{String, null_string, of_owned}
use xmrig_nonces_heatmap.Json.{RapidJson}

-- `a - b` of `unsigned int`
abbrev sub32 : ℕ → ℕ → ℕ
sub32 a b = (a + (4294967296 - b)) % 4294967296

-- `(unsigned char) (87U + c + (((c - 10U) >> 8) & ~38U))`
unfoldable pub hex_digit : ℕ → ℕ
hex_digit c = ((87 + c + bit_and (sub32 c 10 / 256) 4294967257) % 4294967296) % 256

-- the two digits of a byte, in the two bytes of `x`
unfoldable pub hex_pair : ℕ → ℕ
unfolding hex_digit
hex_pair b = bit_or (hex_digit (bit_and b 15) * 256) (hex_digit (b / 16))

-- the loop of `cvt_bin2hex`
unfoldable pub bin2hex_loop : Bytes → Bytes
unfolding hex_pair
bin2hex_loop [] = []
bin2hex_loop (b ∷ bin) = (hex_pair b % 256) ∷ (hex_pair b / 256 % 256) ∷ bin2hex_loop bin

-- `SIZE_MAX / 2`
abbrev pub half_size_max : ℕ
half_size_max = 9223372036854775807

unfoldable pub bin2hex : ℕ → Bytes → Option Bytes
unfolding bin2hex_loop
bin2hex hex_maxlen bin =
    if leb half_size_max (length bin)
    then none
    else if leb hex_maxlen (length bin * 2)
    then none
    else some (bin2hex_loop bin ++ 0 ∷ [])

abbrev c_num : ℕ → ℕ
c_num c = bit_xor c 48

-- `(c_num - 10U) >> 8` as an `unsigned char`: 255 for a decimal digit, and 0 for any other
abbrev c_num0 : ℕ → ℕ
c_num0 c = sub32 (c_num c) 10 / 256 % 256

abbrev c_alpha : ℕ → ℕ
c_alpha c = sub32 (bit_and c 4294967263) 55 % 256

abbrev c_alpha0 : ℕ → ℕ
c_alpha0 c = bit_xor (sub32 (c_alpha c) 10) (sub32 (c_alpha c) 16) / 256 % 256

-- `(c_num0 | c_alpha0) == 0U`
unfoldable pub is_other : ℕ → Bool
is_other c = bit_or (c_num0 c) (c_alpha0 c) == 0

unfoldable pub c_val : ℕ → ℕ
c_val c = bit_or (bit_and (c_num0 c) (c_num c)) (bit_and (c_alpha0 c) (c_alpha c))

-- where the loop of `cvt_hex2bin` stops: what it wrote, the text from `hex_pos` on, `state`, and
-- whether `ret` is 0
pub record Stop : Type 0 where
  pub bin : Bytes
  pub rest : Bytes
  pub half : Bool
  pub ok : Bool

-- the loop of `cvt_hex2bin`; `bin_pos` is the length of `bin`
unfoldable pub hex2bin_loop : ℕ → Bytes → Bytes → ℕ → Bool → Stop
unfolding is_other c_val
hex2bin_loop bin_maxlen [] bin c_acc half = record { bin = bin; rest = []; half = half; ok = true }
hex2bin_loop bin_maxlen (c ∷ hex) bin c_acc half =
    let second = hex2bin_loop bin_maxlen hex (bin ++ bit_or c_acc (c_val c) ∷ []) c_acc false in
    let first = hex2bin_loop bin_maxlen hex bin (c_val c * 16 % 256) true in
    if is_other c
    then record { bin = bin; rest = c ∷ hex; half = half; ok = true }
    else if leb bin_maxlen (length bin)
    then record { bin = bin; rest = c ∷ hex; half = half; ok = false }
    else if half
    then second
    else first

-- whether `cvt_hex2bin` returns 0: with half a byte left `hex_pos` is set back, and it is not at the
-- end of the text
abbrev pub returns_0 : Stop → Bool
returns_0 s = s.ok && not s.half && (length s.rest == 0)

-- `buf.resize(n)`
abbrev pub resize : ℕ → Bytes → Bytes
resize n buf = take n buf ++ replicate (n - length buf) 0

abbrev pub write : Bytes → Bytes → Bytes
write bin buf = bin ++ drop (length bin) buf

-- `fromHexImpl`: whether it succeeds, and the buffer
unfoldable pub from_hex : Bytes → Option Bytes → Bool × Bytes
unfolding hex2bin_loop
from_hex buf none = (false, buf)
from_hex buf (some hex) =
    let stop = hex2bin_loop (length hex / 2) hex [] 0 false in
    if length hex == 0
    then (false, buf)
    else (returns_0 stop, write stop.bin (resize (length hex / 2) buf))

-- `fromHex(Buffer &buf, const rapidjson::Value &value)`
unfoldable pub from_hex_json : (rj : RapidJson) → Bytes → RapidJson.Value rj → Bool × Bytes
from_hex_json rj buf value =
    if not (rj.is_string value) then (false, buf) else from_hex buf (some (rj.get_string value))

-- `fromHex(uint8_t *bin, size_t bin_maxlen, const char *hex, size_t hex_len)`: whether it succeeds,
-- and the array of `bin_maxlen` bytes
unfoldable pub from_hex_array : (array : Bytes) → Option Bytes → Bool × Bytes
unfolding hex2bin_loop
from_hex_array array none = (false, array)
from_hex_array array (some hex) =
    let stop = hex2bin_loop (length array) hex [] 0 false in
    if length hex == 0 then (false, array) else (returns_0 stop, write stop.bin array)

-- `fromHex(uint8_t *bin, size_t max, const rapidjson::Value &value)`
unfoldable pub from_hex_array_json :
    (rj : RapidJson) → (array : Bytes) → RapidJson.Value rj → Bool × Bytes
unfolding from_hex_array
from_hex_array_json rj array value =
    if not (rj.is_string value)
    then (false, array)
    else from_hex_array array (some (rj.get_string value))

-- the loop of `randomBytes`, over the numbers that the distribution gives
unfoldable pub random_bytes : (dis : ℕ → ℕ) → (i size : ℕ) → Bytes
random_bytes dis i zero = []
random_bytes dis i (suc size) = dis i % 256 ∷ random_bytes dis (i + 1) size

-- `fromHex(const char *in, size_t size)`
unfoldable pub buffer_of_hex : Option Bytes → Bytes
buffer_of_hex hex = let r = from_hex [] hex in if r.0 then r.1 else []

-- `toHex(const uint8_t *in, size_t size)`
unfoldable pub to_hex : Option Bytes → String
unfolding bin2hex
to_hex none = null_string
to_hex (some bin) =
    if length bin == 0 then null_string else elim (bin2hex (length bin * 2 + 1) bin) [
      | none ↦ null_string
      | some hex ↦ of_owned (some hex)
    ]
