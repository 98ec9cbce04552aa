-- ===== src/Log.antt =====
-- base/io/log/Log.h, Log.cpp and backends/ConsoleLog.cpp on Linux: how a line of the log is put
-- together in the buffer `m_buf`, and who prints it. What `vsnprintf` makes of the format and its
-- arguments is given: `none` is its failure. A write outside of the buffer is `none`. The local time
-- comes from the system. The mutex is held through all of `print`.
pub mod Strip
pub mod Stamp
pub mod Writes
pub mod Compose
pub mod Lines
pub mod Printed
use xmrig_nonces_heatmap.Prelude.{
  ℕ, zero, suc, ◌+◌, ◌-◌, ◌%◌, ◌^◌, Bool, true, false, ◌&&◌, ◌||◌, not, Bytes, codes, List, [], ◌∷◌,
  ◌++◌, Option, none, some, ◌==◌, eq_nat, if◌then◌else◌, leb, ltb, length, take, drop, replicate,
  min, is_nil,
}
use xmrig_nonces_heatmap.String
use xmrig_nonces_heatmap.Arguments.{index_of}
use xmrig_nonces_heatmap.Heatmap.{to_string}

-- `Log::Level`, where `no_level` is NONE
pub data Level : Type 0 where
  no_level emerg alert crit err warning notice info debug : Level

-- `level == Log::NONE`
abbrev pub is_no_level : Level → Bool
is_no_level no_level = true
is_no_level _ = false

-- `Log::kMaxBufferSize`
abbrev pub max_buffer_size : ℕ
max_buffer_size = 16384

-- a colour: `CSI` and its code
abbrev pub style : Bytes → Bytes
style code = 27 ∷ 91 ∷ (code ++ b'm' ∷ [])

-- `CLEAR`
abbrev pub clear : Bytes
clear = style (codes "0")

-- `colors_map`, with no entry for NONE
abbrev pub colors_map : Level → Option Bytes
colors_map no_level = none
colors_map emerg = some (style (codes "1;31"))
colors_map alert = some (style (codes "1;31"))
colors_map crit = some (style (codes "1;31"))
colors_map err = some (style (codes "0;31"))
colors_map warning = some (style (codes "0;33"))
colors_map notice = some (style (codes "1;37"))
colors_map info = none
colors_map debug = some (style (codes "0;90"))

-- the fields of `tm` that are printed, and the milliseconds
pub record Time : Type 0 where
  pub year : ℕ
  pub month : ℕ
  pub day : ℕ
  pub hour : ℕ
  pub minute : ℕ
  pub second : ℕ
  pub ms : ℕ

-- `%0<width>d`
unfoldable pub padded : ℕ → ℕ → Bytes
padded width n = replicate (width - length (to_string n)) b'0' ++ to_string n

-- the date and the time up to the seconds
unfoldable pub date_text : Time → Bytes
unfolding padded
date_text t =
    b'['
    ∷ (to_string t.year
        ++ (b'-'
            ∷ (padded 2 t.month
                ++ (b'-'
                    ∷ (padded 2 t.day
                        ++ (b' '
                            ∷ (padded 2 t.hour
                                ++ (b':' ∷ (padded 2 t.minute ++ (b':' ∷ padded 2 t.second))))))))))

-- the text of `timestamp`
unfoldable pub stamp : Time → Bytes
stamp t = date_text t ++ (style (codes "1;30") ++ ((b'.' ∷ padded 3 t.ms) ++ (clear ++ codes "] ")))

-- the bytes of `m_buf` with `text` at `at`; there is no room behind its end
unfoldable pub store : ℕ → Bytes → Bytes → Option Bytes
store at text buf =
    if leb (at + length text) (length buf)
    then some (take at buf ++ (text ++ drop (at + length text) buf))
    else none

-- `snprintf` of `text` to `at`, in `room` bytes with the NUL
unfoldable pub print_at : ℕ → ℕ → Bytes → Bytes → Option Bytes
unfolding store
print_at at room text buf =
    if room == 0 then some buf else store at (take (room - 1) text ++ 0 ∷ []) buf

-- the part of `timestamp` that prints
unfoldable pub print_stamp : Time → Bytes → Option (ℕ × Bytes)
unfolding print_at stamp
print_stamp t buf = elim (print_at 0 (max_buffer_size - 1) (stamp t) buf) [
  | none ↦ none
  | some buf' ↦ some (length (stamp t), buf')
]

-- `timestamp`: `size`, which is also `offset`, and the buffer
unfoldable pub timestamp : Level → Time → Bytes → Option (ℕ × Bytes)
unfolding print_stamp
timestamp level t buf = if is_no_level level then some (0, buf) else print_stamp t buf

-- the part of `color` behind the look into `colors_map`
unfoldable pub put_color : Option Bytes → ℕ → Bytes → Option (ℕ × Bytes)
unfolding store
put_color none size buf = some (size, buf)
put_color (some code) size buf = elim (store size code buf) [
  | none ↦ none
  | some buf' ↦ some (size + length code, buf')
]

-- `color`: the new `size`, and the buffer
unfoldable pub color : Level → ℕ → Bytes → Option (ℕ × Bytes)
unfolding put_color
color level size buf = put_color (colors_map level) size buf

-- `endl`: the new `size`, and the buffer
unfoldable pub endl : ℕ → Bytes → Option (ℕ × Bytes)
unfolding store
endl size buf = elim (store size (clear ++ 10 ∷ 0 ∷ []) buf) [
  | none ↦ none
  | some buf' ↦ some (size + 5, buf')
]

-- `std::string::npos`
abbrev pub npos : ℕ
npos = 18446744073709551615

-- `txt.find(CSI)`
unfoldable pub find_csi : Bytes → Option ℕ
find_csi [] = none
find_csi (a ∷ []) = none
find_csi (a ∷ b ∷ s) =
    let later = find_csi (b ∷ s) in
    if (a == 27) && (b == 91) then some 0 else elim later [ none ↦ none | some i ↦ some (suc i) ]

-- `txt.find('m', i)`
unfoldable pub find_m : ℕ → Bytes → ℕ
unfolding index_of
find_m i s = elim (index_of b'm' (drop i s)) [ none ↦ npos | some k ↦ i + k ]

-- `txt.erase(i, count)`
unfoldable pub erase : ℕ → ℕ → Bytes → Bytes
erase i count s = take i s ++ drop (i + count) s

-- the loop that takes the colours out; `none` means that the fuel ran out
unfoldable pub strip : ℕ → Bytes → Option Bytes
unfolding find_csi find_m erase
strip zero txt = none
strip (suc fuel) txt = elim (find_csi txt) [
  | none ↦ some txt
  | some i ↦
      strip fuel
        (erase i ((find_m i txt + (18446744073709551616 - i) + 1) % 18446744073709551616) txt)
]

-- the loop over a line, every round of which takes a byte out at least
unfoldable pub strip_all : Bytes → Option Bytes
unfolding strip
strip_all txt = strip (suc (length txt)) txt

-- a call of a backend, or what goes to stdout without one
pub data Output : Type 0 where
  backend : Level → (line : Bytes) (offset size : ℕ) (colors : Bool) → Output
  stdout : Bytes → Output

-- the loop over the backends
unfoldable pub emit_all : ℕ → Level → Bytes → ℕ → ℕ → Bytes → List Output
unfolding String.c_str
emit_all zero level buf offset size txt = []
emit_all (suc backends) level buf offset size txt =
    backend level (String.c_str buf) offset size true
    ∷ backend level txt (if offset == 0 then 0 else offset - 11) (length txt) false
    ∷ emit_all backends level buf offset size txt

-- the last part of `print`: who gets the line
unfoldable pub emit : ℕ → Level → Bytes → ℕ → ℕ → Bytes → List Output
unfolding emit_all
emit zero level buf offset size txt = stdout txt ∷ []
emit (suc backends) level buf offset size txt = emit_all (suc backends) level buf offset size txt

-- what `print` has put into the buffer: where the text begins, where the line ends, and the bytes
pub record Composed : Type 0 where
  pub offset : ℕ
  pub size : ℕ
  pub m_buf : Bytes

-- the number of bytes that `vsnprintf` may write
abbrev pub room : ℕ → ℕ
room offset = max_buffer_size - offset - 32

-- the part of `print` behind `timestamp` and `color`
unfoldable pub append_text : ℕ → ℕ → Bytes → Bytes → Option Composed
unfolding print_at endl
append_text offset size text buf = elim (print_at size (room offset) text buf) [
  | none ↦ none
  | some buf' ↦ elim (endl (size + min (length text) (room offset)) buf') [
    | none ↦ none
    | some (size', buf'') ↦ some (record { offset = offset; size = size'; m_buf = buf'' })
  ]
]

-- the part of `print` up to `endl`, for a text that `vsnprintf` could make
unfoldable pub compose : Level → Time → Bytes → Bytes → Option Composed
unfolding timestamp color append_text
compose level t text buf = elim (timestamp level t buf) [
  | none ↦ none
  | some (offset, buf') ↦ elim (color level offset buf') [
    | none ↦ none
    | some (size, buf'') ↦ append_text offset size text buf''
  ]
]

-- `print`
unfoldable pub print : Bool → ℕ → Level → Time → Option Bytes → Bytes → Option (List Output)
unfolding compose emit String.c_str
print is_background backends level t none buf = some []
print is_background backends level t (some text) buf =
    if is_background && (backends == 0) then some [] else elim (compose level t text buf) [
      | none ↦ none
      | some line ↦ elim (strip_all (String.c_str line.m_buf)) [
        | none ↦ none
        | some plain ↦ some (emit backends level line.m_buf line.offset line.size plain)
      ]
    ]

-- `ConsoleLog::print`: what it writes to stdout, for a call of the backend
unfoldable pub console_print : (has_tty is_colors : Bool) → Output → Bytes
console_print has_tty is_colors (stdout line) = line
console_print has_tty is_colors (backend level line offset size colors) =
    if not has_tty || (is_colors && not colors) || (not is_colors && colors) then [] else line
