-- ===== src/ParseError.antt =====
-- base/io/json/Json.cpp, `convertOffset`, and base/kernel/config/ConfigFile.cpp, the report of
-- `read` on a file that is not JSON. A file that cannot be opened is `none`.
pub mod Lines
pub mod Places
use xmrig_nonces_heatmap.Prelude.{
  ℕ, zero, suc, ◌+◌, ◌-◌, Bool, true, false, Bytes, codes, List, [], ◌∷◌, ◌++◌, Option, none, some,
  ◌==◌, eq_nat, if◌then◌else◌, ltb, length, is_nil, replicate,
}
use xmrig_nonces_heatmap.Heatmap.{to_string}
use xmrig_nonces_heatmap.Log.{Level, err, emerg}
use xmrig_nonces_heatmap.String
use xmrig_nonces_heatmap.String.{String}

-- what `convertOffset` returns through its references
pub record Place : Type 0 where
  pub line : ℕ
  pub pos : ℕ
  pub s : List Bytes

abbrev pub longer : ℕ → List Bytes → List Bytes
longer b [] = (b ∷ []) ∷ []
longer b (t ∷ ts) = (b ∷ t) ∷ ts

-- what `getline` reads until it meets the end of the file, which it does behind the last newline
unfoldable pub get_lines : Bytes → List Bytes
get_lines [] = [] ∷ []
get_lines (b ∷ ifs) = if b == 10 then [] ∷ get_lines ifs else longer b (get_lines ifs)

-- the loop over the lines
unfoldable pub offset_loop : List Bytes → (offset : ℕ) → (t : Bytes) → (line k : ℕ) → Option Place
offset_loop [] offset prev_t line k = none
offset_loop (t ∷ ts) offset prev_t line k =
    if ltb offset (k + (length t + 1))
    then some (record {
      line = line + 1;
      pos = offset + length t + 1 - (k + (length t + 1)) + 1;
      s = if is_nil prev_t then t ∷ [] else prev_t ∷ t ∷ [];
    })
    else offset_loop ts offset t (line + 1) (k + (length t + 1))

unfoldable pub convert_offset : Bytes → ℕ → Option Place
unfolding get_lines offset_loop
convert_offset ifs offset = offset_loop (get_lines ifs) offset [] 0 0

-- the overload over a file's name
unfoldable pub convert_offset_of : Option Bytes → ℕ → Option Place
unfolding convert_offset
convert_offset_of none offset = none
convert_offset_of (some ifs) offset = convert_offset ifs offset

-- the lines that go to the log
abbrev pub log_all : List Bytes → List (Level × Bytes)
log_all [] = []
log_all (t ∷ s) = (err, t) ∷ log_all s

-- the line with the caret
abbrev pub caret : ℕ → Bytes
caret pos = (if ltb 0 pos then replicate (pos - 1) b' ' else []) ++ b'^' ∷ []

-- the report of a parse error: the level and the message of each call of the log
unfoldable pub report :
    (m_file_name : String) → (message : Bytes) → ℕ → Option Place → List (Level × Bytes)
report m_file_name message offset none =
    (
      emerg,
      String.bytes m_file_name
          ++ (codes "<offset:" ++ (to_string offset ++ (codes ">: \"" ++ (message ++ codes "\"")))),
    )
    ∷ []
report m_file_name message offset (some p) =
    log_all p.s
    ++ ((emerg, caret p.pos)
        ∷ (
          emerg,
          String.bytes m_file_name
              ++ (codes "<line:"
                  ++ (to_string p.line
                      ++ (codes ", position:"
                          ++ (to_string p.pos ++ (codes ">: \"" ++ (message ++ codes "\"")))))),
        )
        ∷ [])
