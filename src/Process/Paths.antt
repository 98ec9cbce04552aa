-- ===== src/Process/Paths.antt =====
-- Where the files of the program lie.
use xmrig_nonces_heatmap.Prelude.{ℕ, ◌≡◌, true, false, Bytes, [], ◌∷◌, ◌++◌, eq_nat}
use xmrig_nonces_heatmap.String
use xmrig_nonces_heatmap.String.{String}
use xmrig_nonces_heatmap.Process.{Process, is_separator}

-- what may stand behind the name of a directory: nothing, or one separator
pub data IsEnd : Bytes → Bytes → Type 0 where
  bare : (t : Bytes) (c : ℕ) → is_separator c ≡ false → IsEnd (t ++ c ∷ []) []
  separated : (t : Bytes) (c : ℕ) → is_separator c ≡ true → IsEnd t (c ∷ [])
