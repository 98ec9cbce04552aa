-- ===== src/Env.antt =====
-- base/io/Env.cpp with XMRIG_FEATURE_ENV: the expansion of `${NAME}` in file names.
-- `builtin` are the variables that `createVariables` has made, which Env.Variables models, and
-- `getenv` is the environment of the system.
pub mod Plain
pub mod Variables
use xmrig_nonces_heatmap.Prelude.{
  ℕ, zero, suc, ◌+◌, ◌-◌, Bool, true, false, ◌&&◌, Bytes, List, [], ◌∷◌, ◌++◌, Option, none, some,
  ◌==◌, eq_nat, eq_bytes, if◌then◌else◌, ltb, length,
}
use xmrig_nonces_heatmap.Dict
use xmrig_nonces_heatmap.Dict.{Dict}
use xmrig_nonces_heatmap.String
use xmrig_nonces_heatmap.String.{String}

-- the bytes up to the first `}`, if there is one
unfoldable pub until_brace : Bytes → Option Bytes
until_brace [] = none
until_brace (b ∷ s) =
    if b == b'}'
    then some []
    else elim (until_brace s) [ none ↦ none | some name ↦ some (b ∷ name) ]

abbrev some_name : Option Bytes → Option Bytes
some_name none = none
some_name (some []) = none
some_name (some (b ∷ name)) = some (b ∷ name)

-- the group of a match of \$\{([^}]+)\} at the start of the text
unfoldable pub match_name : Bytes → Option Bytes
unfolding until_brace
match_name [] = none
match_name (a ∷ []) = none
match_name (a ∷ b ∷ s) = if (a == b'$') && (b == b'{') then some_name (until_brace s) else none

-- the names of all matches; `skip` counts the bytes left of the last match
unfoldable pub matches : ℕ → Bytes → List Bytes
unfolding match_name
matches skip [] = []
matches (suc skip) (b ∷ s) = matches skip s
matches zero (b ∷ s) =
    let next = matches 0 s in
    elim (match_name (b ∷ s)) [ none ↦ next | some name ↦ name ∷ matches (length name + 2) s ]

-- `m.str()`
abbrev pub quoted : Bytes → Bytes
quoted name = b'$' ∷ b'{' ∷ (name ++ b'}' ∷ [])

-- `<` of std::string
unfoldable pub bytes_lt : Bytes → Bytes → Bool
bytes_lt [] [] = false
bytes_lt [] (b ∷ t) = true
bytes_lt (a ∷ s) [] = false
bytes_lt (a ∷ s) (b ∷ t) = if a == b then bytes_lt s t else ltb a b

-- insertion into the ordered map `vars`, which keeps a present entry
unfoldable pub insert_var {ℓ} : {V : Type ℓ} → Bytes → V → Dict Bytes V → Dict Bytes V
unfolding bytes_lt
insert_var k v [] = (k, v) ∷ []
insert_var k v ((j, w) ∷ m) =
    if j == k
    then (j, w) ∷ m
    else if bytes_lt k j
    then (k, v) ∷ (j, w) ∷ m
    else (j, w) ∷ insert_var k v m

unfoldable pub starts_with : Bytes → Bytes → Bool
starts_with [] s = true
starts_with (a ∷ key) [] = false
starts_with (a ∷ key) (b ∷ s) = (a == b) && starts_with key s

-- the loop of `find` and `replace` from left to right, where what was put in is not searched again
unfoldable pub replace_all : Bytes → Bytes → ℕ → Bytes → Bytes
unfolding starts_with
replace_all key value skip [] = []
replace_all key value (suc skip) (b ∷ s) = replace_all key value skip s
replace_all key value zero (b ∷ s) =
    let found = value ++ replace_all key value (length key - 1) s in
    let missed = b ∷ replace_all key value 0 s in if starts_with key (b ∷ s) then found else missed

module _ (builtin : Dict Bytes String) (getenv : Bytes → Option Bytes) where
  -- `get`
  unfoldable pub get : Bytes → Dict Bytes String → String
  unfolding String.of_c_string
  get name extra = elim (Dict.find name builtin) [
    | some value ↦ value
    | none ↦ elim (Dict.find name extra) [
      | some value ↦ value
      | none ↦ String.of_c_string (getenv name)
    ]
  ]

  -- the first loop of `expand`
  unfoldable pub collect_vars :
      Dict Bytes String → List Bytes → Dict Bytes String → Dict Bytes String
  unfolding get insert_var
  collect_vars extra [] vars = vars
  collect_vars extra (name ∷ names) vars =
      collect_vars extra names (insert_var (quoted name) (get name extra) vars)

-- the second loop of `expand`
unfoldable pub replace_vars : Dict Bytes String → Bytes → Bytes
unfolding replace_all String.c_str
replace_vars [] text = text
replace_vars ((key, value) ∷ vars) text =
    replace_vars vars
      (elim value.m_data [ none ↦ text | some bytes ↦ replace_all key (String.c_str bytes) 0 text ])

-- `expand`
unfoldable pub expand :
    Dict Bytes String → (Bytes → Option Bytes) → Option Bytes → Dict Bytes String → String
unfolding collect_vars matches replace_vars String.of_c_string
expand builtin getenv none extra = String.null_string
expand builtin getenv (some raw) extra =
    let text = String.c_str raw in
    if ltb (length text) 4
    then String.of_c_string (some text)
    else String.of_c_string
        (some (replace_vars (collect_vars builtin getenv extra (matches 0 text) []) text))
