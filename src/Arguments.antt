-- ===== src/Arguments.antt =====
-- base/tools/Arguments.h and Arguments.cpp: the command line. An argument is a C string, or null.
pub mod Values
use xmrig_nonces_heatmap.Prelude.{
  ℕ, zero, suc, ◌+◌, Bool, true, false, ◌&&◌, ◌||◌, Bytes, List, [], ◌∷◌, ◌++◌, Option, none, some,
  ◌==◌, eq_nat, if◌then◌else◌, ltb, length, drop, any,
}
use xmrig_nonces_heatmap.String
use xmrig_nonces_heatmap.String.{String}

pub record Arguments : Type 0 where
  pub m_argc : ℕ
  pub m_data : List String

-- `strchr`, as an index
unfoldable pub index_of : ℕ → Bytes → Option ℕ
index_of c [] = none
index_of c (b ∷ s) =
    let rest = index_of c s in
    if b == c then some 0 else elim rest [ none ↦ none | some i ↦ some (suc i) ]

-- `arg[0] == '-' && arg[1] == '-'`
abbrev pub has_dashes : Bytes → Bool
has_dashes [] = false
has_dashes (a ∷ []) = false
has_dashes (a ∷ b ∷ s) = (a == b'-') && (b == b'-')

-- `add`: what it puts behind `m_data`
unfoldable pub added : Bytes → List String
unfolding index_of String.of_buffer String.of_c_string String.c_str
added arg =
    let s = String.c_str arg in
    let whole = String.of_c_string (some s) ∷ [] in
    let parts : List String = elim (index_of (b'=') s) [
      | none ↦ whole
      | some i ↦ String.of_buffer (some s) i ∷ String.of_c_string (some (drop (suc i) s)) ∷ []
    ] in
    if ltb 4 (length s) && has_dashes s then parts else whole

unfoldable pub add : Option Bytes → Arguments → Arguments
unfolding added
add none a = a
add (some arg) a = record a { m_data = a.m_data ++ added arg }

-- the loop of the constructor
unfoldable pub add_all : List (Option Bytes) → Arguments → Arguments
unfolding add
add_all [] a = a
add_all (arg ∷ argv) a = add_all argv (add arg a)

-- the constructor
abbrev pub arguments : List (Option Bytes) → Arguments
arguments argv = add_all argv (record { m_argc = length argv; m_data = [] })

-- `hasArg`
unfoldable pub has_arg : Arguments → Bytes → Bool
unfolding String.is_equal_c
has_arg a name =
    if a.m_argc == 1 then false else any (λ s. String.is_equal_c s (some name)) (drop 1 a.m_data)

-- `m_data[i] == key1 || (key2 && m_data[i] == key2)`
unfoldable pub is_key : Bytes → Option Bytes → String → Bool
unfolding String.is_equal_c
is_key key1 none s = String.is_equal_c s (some key1)
is_key key1 (some key2) s = String.is_equal_c s (some key1) || String.is_equal_c s (some key2)

-- the loop of `value`, over what is left of `m_data`
unfoldable pub value_loop : Bytes → Option Bytes → List String → Option Bytes
unfolding is_key
value_loop key1 key2 [] = none
value_loop key1 key2 (s ∷ []) = none
value_loop key1 key2 (s ∷ t ∷ rest) =
    let later = value_loop key1 key2 (t ∷ rest) in if is_key key1 key2 s then t.m_data else later

-- `value`; the argument that it finds may be null itself
unfoldable pub value : Bytes → Option Bytes → Arguments → Option Bytes
unfolding value_loop
value key1 key2 a = if ltb (length a.m_data) 3 then none else value_loop key1 key2 (drop 1 a.m_data)
