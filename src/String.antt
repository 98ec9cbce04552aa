-- ===== src/String.antt =====
-- base/tools/String.h and String.cpp: a C string that may be null, and keeps its size.
-- `m_data` holds the bytes of the buffer before its closing NUL. Memory is not modelled: a copy is
-- the same value, and what `delete []` frees is not seen again.
pub mod Copies
pub mod Split
use xmrig_nonces_heatmap.Prelude.{
  ℕ, ◌+◌, ◌-◌, Bool, true, false, ◌&&◌, ◌||◌, not, Bytes, List, [], ◌∷◌, ◌++◌, map, Option, none,
  some, ◌==◌, eq_nat, eq_bytes, if◌then◌else◌, leb, ltb, length, take,
}
use xmrig_nonces_heatmap.Json.{RapidJson}

pub record String : Type 0 where
  pub m_data : Option Bytes
  pub m_size : ℕ

-- the bytes that C's string functions see: up to the first NUL
unfoldable pub c_str : Bytes → Bytes
c_str [] = []
c_str (b ∷ s) = if b == 0 then [] else b ∷ c_str s

abbrev pub strlen : Bytes → ℕ
strlen s = length (c_str s)

abbrev pub null_string : String
null_string = record { m_data = none; m_size = 0 }

-- `String(const char *str, size_t size)`
unfoldable pub of_buffer : Option Bytes → ℕ → String
of_buffer none size = null_string
of_buffer (some str) size = record { m_data = some (take size str); m_size = size }

-- `String(char *str)`, which takes the buffer over
unfoldable pub of_owned : Option Bytes → String
of_owned none = null_string
of_owned (some str) = record { m_data = some (c_str str); m_size = strlen str }

-- `String(const char *str)`: the empty text becomes null
unfoldable pub of_c_string : Option Bytes → String
of_c_string none = null_string
of_c_string (some str) =
    if strlen str == 0
    then null_string
    else record { m_data = some (c_str str); m_size = strlen str }

-- `String(const rapidjson::Value &value)`
unfoldable pub of_json : (rj : RapidJson) → RapidJson.Value rj → String
of_json rj value =
    if not (rj.is_string value) || (length (rj.get_string value) == 0)
    then null_string
    else record { m_data = some (rj.get_string value); m_size = length (rj.get_string value) }

-- `String(const String &other)`
unfoldable pub of_string : String → String
of_string other = elim other.m_data [
  | none ↦ record { m_data = none; m_size = other.m_size }
  | some d ↦ record { m_data = some d; m_size = other.m_size }
]

abbrev pub is_null : String → Bool
is_null s = elim s.m_data [ none ↦ true | some d ↦ false ]

abbrev pub is_empty : String → Bool
is_empty s = s.m_size == 0

abbrev equal_c : Option Bytes → Option Bytes → Bool
equal_c none none = true
equal_c none (some t) = false
equal_c (some d) none = false
equal_c (some d) (some t) = c_str d == c_str t

-- `isEqual(const char *str)`, by strcmp
unfoldable pub is_equal_c : String → Option Bytes → Bool
is_equal_c s str = equal_c s.m_data str

abbrev equal_n : ℕ → Option Bytes → Option Bytes → Bool
equal_n n none none = true
equal_n n none (some t) = false
equal_n n (some d) none = false
equal_n n (some d) (some t) = take n d == take n t

-- `isEqual(const String &other)`, by memcmp
unfoldable pub is_equal : String → String → Bool
is_equal s other =
    if not (s.m_size == other.m_size) then false else equal_n s.m_size s.m_data other.m_data

-- `toJSON`: `StringRef` measures the text by strlen
unfoldable pub to_json : (rj : RapidJson) → String → RapidJson.Value rj
to_json rj s = elim s.m_data [ none ↦ rj.null | some d ↦ rj.of_string (c_str d) ]

-- `out.emplace_back(m_data + start, pos - start)` if the piece is not empty
unfoldable pub emplace : List String → Bytes → List String
unfolding of_buffer
emplace out [] = out
emplace out (b ∷ piece) = out ++ of_buffer (some (b ∷ piece)) (length (b ∷ piece)) ∷ []

-- the loop of `split`: `piece` holds the bytes from `start` to `pos`
unfoldable pub split_loop : ℕ → Bytes → Bytes → List String → List String
unfolding emplace
split_loop sep [] piece out = emplace out piece
split_loop sep (b ∷ rest) piece out =
    let cut = split_loop sep rest [] (emplace out piece) in
    let more = split_loop sep rest (piece ++ b ∷ []) out in if b == sep then cut else more

unfoldable pub split : String → ℕ → List String
unfolding split_loop
split s sep = elim s.m_data [
  | none ↦ []
  | some d ↦ if s.m_size == 0 then [] else split_loop sep d [] []
]

-- `tolower` and `toupper` of the "C" locale
abbrev pub tolower : ℕ → ℕ
tolower c = if leb b'A' c && leb c b'Z' then c + 32 else c

abbrev pub toupper : ℕ → ℕ
toupper c = if leb b'a' c && leb c b'z' then c - 32 else c

unfoldable pub to_lower : String → String
to_lower s = elim s.m_data [
  | none ↦ s
  | some d ↦
      if s.m_size == 0 then s else record { m_data = some (map tolower d); m_size = s.m_size }
]

unfoldable pub to_upper : String → String
to_upper s = elim s.m_data [
  | none ↦ s
  | some d ↦
      if s.m_size == 0 then s else record { m_data = some (map toupper d); m_size = s.m_size }
]

abbrev pub bytes : String → Bytes
bytes s = elim s.m_data [ none ↦ [] | some d ↦ d ]

-- the sum of the sizes, and one byte more for each text
unfoldable pub join_size : List String → ℕ
join_size [] = 0
join_size (s ∷ vec) = s.m_size + 1 + join_size vec

-- what the loop of `join` writes from `offset` on, up to the last byte of the buffer
unfoldable pub join_loop : ℕ → ℕ → ℕ → List String → Bytes
join_loop sep size offset [] = []
join_loop sep size offset (s ∷ vec) =
    bytes s
    ++ ((if ltb (offset + s.m_size + 1) size then sep ∷ [] else [])
        ++ join_loop sep size (offset + s.m_size + 1) vec)

unfoldable pub join : List String → ℕ → String
unfolding join_loop join_size of_owned
join [] sep = null_string
join (s ∷ vec) sep = of_owned (some (join_loop sep (join_size (s ∷ vec)) 0 (s ∷ vec) ++ 0 ∷ []))

-- `copy(const char *str)`, by which `operator=` assigns: the empty text stays a text
unfoldable pub copy_c : Option Bytes → String
copy_c none = null_string
copy_c (some str) = record { m_data = some (c_str str); m_size = strlen str }

-- `copy(const String &other)`, on the target `s`
unfoldable pub copy : String → String → String
copy s other =
    if ltb 0 s.m_size && (s.m_size == other.m_size)
    then record { m_data = other.m_data; m_size = s.m_size }
    else elim other.m_data [
      | none ↦ null_string
      | some d ↦ record { m_data = some d; m_size = other.m_size }
    ]

-- `move(char *str)`
unfoldable pub move_c : Option Bytes → String
move_c none = null_string
move_c (some str) = record { m_data = some (c_str str); m_size = strlen str }

-- `move(String &&other)`: the target, and what is left of `other`
unfoldable pub move : String → String × String
move other = (record { m_data = other.m_data; m_size = other.m_size }, null_string)
