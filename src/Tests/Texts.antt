-- ===== src/Tests/Texts.antt =====
-- The expansion of file names, and the command line.
use xmrig_nonces_heatmap.Prelude.{◌≡◌, refl, arith, codes, [], ◌∷◌, some, eq_bytes, true, All, map}
use xmrig_nonces_heatmap.String
use xmrig_nonces_heatmap.String.{String}
use xmrig_nonces_heatmap.String.Split.{joined, without, IsPiece, text, split-IsPiece}
use xmrig_nonces_heatmap.Cvt.{
  from_hex, from_hex_array, to_hex, bin2hex, bin2hex_loop, hex_pair, hex_digit, buffer_of_hex,
  hex2bin_loop, is_other, c_val,
}
use xmrig_nonces_heatmap.Cvt.Pairs.{from_hex-to_hex}

split-IsPiece_example :
    (joined (String.split (text (codes ",a,,bc")) b',') ≡ without b',' (codes ",a,,bc"))
    × All (IsPiece b',') (String.split (text (codes ",a,,bc")) b',')
split-IsPiece_example = split-IsPiece (codes ",a,,bc") b','

split_test :
    map String.bytes (String.split (text (codes ",a,,bc")) b',') ≡ codes "a" ∷ codes "bc" ∷ []
unfolding String.split String.split_loop String.emplace String.of_buffer
split_test = refl

from_hex-to_hex_example :
    (from_hex (7 ∷ []) (to_hex (some (0 ∷ 171 ∷ 255 ∷ []))).m_data ≡ (true, 0 ∷ 171 ∷ 255 ∷ []))
    × (from_hex_array (1 ∷ 2 ∷ 3 ∷ 4 ∷ []) (to_hex (some (0 ∷ 171 ∷ 255 ∷ []))).m_data
        ≡ (true, 0 ∷ 171 ∷ 255 ∷ 4 ∷ []))
from_hex-to_hex_example =
    from_hex-to_hex (7 ∷ []) (1 ∷ 2 ∷ 3 ∷ 4 ∷ []) (0 ∷ 171 ∷ 255 ∷ []) (omega arith) (omega arith)
      (omega arith, (omega arith, (omega arith, tt))) (omega arith)

to_hex_test : (to_hex (some (0 ∷ 171 ∷ 255 ∷ []))).m_data ≡ some (codes "00abff")
unfolding to_hex bin2hex bin2hex_loop hex_pair hex_digit String.of_owned String.c_str
to_hex_test = refl

upper_case_test : buffer_of_hex (some (codes "0AfF")) ≡ 10 ∷ 255 ∷ []
unfolding buffer_of_hex from_hex hex2bin_loop is_other c_val
upper_case_test = refl

odd_text_test : buffer_of_hex (some (codes "0af")) ≡ []
unfolding buffer_of_hex from_hex hex2bin_loop is_other c_val
odd_text_test = refl

no_digit_test : buffer_of_hex (some (codes "0g")) ≡ []
unfolding buffer_of_hex from_hex hex2bin_loop is_other c_val
no_digit_test = refl
