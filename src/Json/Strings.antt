-- ===== src/Json/Strings.antt =====
-- `getString` of base/io/json/Json.cpp with a maximal size, as a `String`.
use xmrig_nonces_heatmap.Prelude.{ℕ, ◌||◌, Bytes, some, ◌==◌, eq_nat, leb, length, if◌then◌else◌}
use xmrig_nonces_heatmap.Json.{RapidJson, or_default, member}
use xmrig_nonces_heatmap.String
use xmrig_nonces_heatmap.String.{String}

module _ (rj : RapidJson) where
  -- `getString(obj, key, maxSize)`
  unfoldable pub get_short_string : RapidJson.Value rj → Bytes → (max_size : ℕ) → String
  unfolding String.of_c_string String.of_buffer
  get_short_string obj key max_size =
      or_default rj (member rj obj key rj.is_string)
        (λ v.
          let text = rj.get_string v in
          if (max_size == 0) || leb (length text) max_size
          then String.of_c_string (some text)
          else String.of_buffer (some text) max_size)
        String.null_string
