-- ===== src/Env/Plain.antt =====
-- The expansion of texts without variables, and of one variable between texts without any.
use xmrig_nonces_heatmap.Prelude.{
  ℕ, ◌+◌, ◌-◌, ◌<◌, ◌≡◌, ◌≢◌, refl, sym, ap, ◌∙◌, arith, true, false, Bytes, List, [], ◌∷◌, ◌++◌,
  Option, none, some, eq_nat, eq_bytes, ltb, length, is_nil, All, append-nil, append_assoc,
  length-append, Bool-cases, inl, inr,
}
use xmrig_nonces_heatmap.Dict.{Dict}
use xmrig_nonces_heatmap.String
use xmrig_nonces_heatmap.String.{String}
use xmrig_nonces_heatmap.Env.{
  until_brace, match_name, matches, quoted, starts_with, replace_all, get, collect_vars,
  replace_vars, expand, some_name,
}

-- no byte is the given one
abbrev pub Lacks : ℕ → Bytes → Type 0
Lacks c s = All (λ b. b ≢ c) s

match_name-Lacks : (b : ℕ) (s : Bytes) → b ≢ b'$' → match_name (b ∷ s) ≡ none
unfolding match_name
match_name-Lacks b [] h = refl
match_name-Lacks b (c ∷ s) h = ground (arith, h)

matches-Lacks : (pre s : Bytes) → Lacks (b'$') pre → matches 0 (pre ++ s) ≡ matches 0 s
unfolding matches
matches-Lacks [] s h = refl
matches-Lacks (b ∷ pre) s (h, hs) =
    rw (matches, match_name-Lacks b (pre ++ s) h) (matches-Lacks pre s hs)

matches_skip : (done s : Bytes) → matches (length done) (done ++ s) ≡ matches 0 s
unfolding matches
matches_skip [] s = refl
matches_skip (b ∷ done) s = matches_skip done s

until_brace-Lacks :
    (name post : Bytes) → Lacks (b'}') name → until_brace (name ++ b'}' ∷ post) ≡ some name
unfolding until_brace
until_brace-Lacks [] post h = refl
until_brace-Lacks (b ∷ name) post (h, hs) = ground (arith, until_brace-Lacks name post hs)

starts_with-append : (key s : Bytes) → starts_with key (key ++ s) ≡ true
unfolding starts_with
starts_with-append [] s = refl
starts_with-append (a ∷ key) s = ground (arith, starts_with-append key s)

starts_with-Lacks :
    (key : Bytes) (b : ℕ) (s : Bytes) → b ≢ b'$' → starts_with (b'$' ∷ key) (b ∷ s) ≡ false
unfolding starts_with
starts_with-Lacks key b s h = ground (arith, h)

replace_all-Lacks :
    (key value pre s : Bytes)
    → Lacks (b'$') pre
    → replace_all (b'$' ∷ key) value 0 (pre ++ s) ≡ pre ++ replace_all (b'$' ∷ key) value 0 s
unfolding replace_all
replace_all-Lacks key value [] s h = refl
replace_all-Lacks key value (b ∷ pre) s (h, hs) =
    rw (starts_with-Lacks key b (pre ++ s) h) (ap (◌∷◌ b) (replace_all-Lacks key value pre s hs))

replace_all_skip :
    (key value done s : Bytes)
    → replace_all key value (length done) (done ++ s) ≡ replace_all key value 0 s
unfolding replace_all
replace_all_skip key value [] s = refl
replace_all_skip key value (b ∷ done) s = replace_all_skip key value done s

replace_all_found :
    (a : ℕ) (key value post : Bytes)
    → replace_all (a ∷ key) value 0 ((a ∷ key) ++ post)
      ≡ value ++ replace_all (a ∷ key) value 0 post
unfolding replace_all
replace_all_found a key value post =
    let behind : length (a ∷ key) - 1 ≡ length key = omega arith in
    rw (starts_with-append (a ∷ key) post) (
      ap (λ n. value ++ replace_all (a ∷ key) value n (key ++ post)) behind
      ∙ ap (λ t. value ++ t) (replace_all_skip (a ∷ key) value key post))

-- the bytes of `${name}` behind the dollar
abbrev rest : Bytes → Bytes
rest name = b'{' ∷ (name ++ b'}' ∷ [])

match_name-quoted :
    (name post : Bytes)
    → is_nil name ≡ false
    → Lacks (b'}') name
    → match_name (quoted name ++ post) ≡ some name
unfolding match_name
match_name-quoted [] post h lacks = ground (arith, h)
match_name-quoted (b ∷ name) post h lacks =
    ap (λ t. some_name (until_brace t)) (append_assoc (b ∷ name) (b'}' ∷ []) post)
    ∙ ap some_name (until_brace-Lacks (b ∷ name) post lacks)

matches_found :
    (b : ℕ) (s name : Bytes)
    → match_name (b ∷ s) ≡ some name
    → matches 0 (b ∷ s) ≡ name ∷ matches (length name + 2) s
unfolding matches
matches_found b s name e = rw (matches, e)

matches-quoted :
    (name post : Bytes)
    → is_nil name ≡ false
    → Lacks (b'}') name
    → matches 0 (quoted name ++ post) ≡ name ∷ matches 0 post
matches-quoted name post h lacks =
    let behind : length name + 2 ≡ length (rest name) =
      omega (arith, length-append name (b'}' ∷ [])) in
    matches_found (b'$') (rest name ++ post) name (match_name-quoted name post h lacks)
    ∙ ap (λ n. name ∷ matches n (rest name ++ post)) behind
    ∙ ap (◌∷◌ name) (matches_skip (rest name) post)

matches_none : (s : Bytes) → Lacks (b'$') s → matches 0 s ≡ []
unfolding matches
matches_none s lacks = ap (matches 0) (sym (append-nil s)) ∙ matches-Lacks s [] lacks

length_pos : (s : Bytes) → is_nil s ≡ false → 0 < length s
length_pos [] h = ground (arith, h)
length_pos (b ∷ s) h = omega arith

replace_all_none : (key value s : Bytes) → Lacks (b'$') s → replace_all (b'$' ∷ key) value 0 s ≡ s
unfolding replace_all
replace_all_none key value s lacks =
    ap (replace_all (b'$' ∷ key) value 0) (sym (append-nil s))
    ∙ replace_all-Lacks key value s [] lacks
    ∙ append-nil s

-- one variable with a value
replace_one :
    (key : Bytes) (v : String) (value text : Bytes)
    → v.m_data ≡ some value
    → replace_vars ((key, v) ∷ []) text ≡ replace_all key (String.c_str value) 0 text
unfolding replace_vars
replace_one key v value text e = ground (arith, e)

expand_lem :
    (builtin : Dict Bytes String) (getenv : Bytes → Option Bytes) (extra : Dict Bytes String)
    (raw text : Bytes) (names : List Bytes)
    → String.c_str raw ≡ text
    → ltb (length text) 4 ≡ false
    → matches 0 text ≡ names
    → expand builtin getenv (some raw) extra
      ≡ String.of_c_string (some (replace_vars (collect_vars builtin getenv extra names []) text))
unfolding expand String.of_c_string
expand_lem builtin getenv extra raw text names e long m = rw (expand, e, long, m)

-- A file name without a dollar expands to itself, as a C string.
expand-plain :
    (builtin : Dict Bytes String) (getenv : Bytes → Option Bytes) (raw : Bytes)
    (extra : Dict Bytes String)
    → Lacks (b'$') (String.c_str raw)
    → expand builtin getenv (some raw) extra ≡ String.of_c_string (some (String.c_str raw))
unfolding expand collect_vars replace_vars
expand-plain builtin getenv raw extra lacks =
    elim (Bool-cases (ltb (length (String.c_str raw)) 4)) [
      | inl short ↦ rw (expand, short)
      | inr long ↦ rw (expand, long, matches_none (String.c_str raw) lacks)
    ]

-- A file name with one `${name}`, and no dollar before or behind it, expands to itself with the
-- variable's value in its place, as C strings, if the variable has a value. The name is not empty and
-- has no closing brace.
pub expand-variable :
    (builtin : Dict Bytes String) (getenv : Bytes → Option Bytes) (extra : Dict Bytes String)
    (raw pre name post value : Bytes)
    → String.c_str raw ≡ pre ++ (quoted name ++ post)
    → Lacks (b'$') pre
    → Lacks (b'$') post
    → is_nil name ≡ false
    → Lacks (b'}') name
    → (get builtin getenv name extra).m_data ≡ some value
    → expand builtin getenv (some raw) extra
      ≡ String.of_c_string (some (pre ++ (String.c_str value ++ post)))
unfolding collect_vars
expand-variable builtin getenv extra raw pre name post value e before after named closed found =
    let text = pre ++ (quoted name ++ post) in
    let long : ltb (length text) 4 ≡ false = ground (
      arith,
      length-append pre (quoted name ++ post),
      length-append (quoted name) post,
      length-append name (b'}' ∷ []),
      length_pos name named,
    ) in
    let names : matches 0 text ≡ name ∷ [] =
      matches-Lacks pre (quoted name ++ post) before
      ∙ matches-quoted name post named closed
      ∙ ap (◌∷◌ name) (matches_none post after) in
    expand_lem builtin getenv extra raw text (name ∷ []) e long names
    ∙ ap (λ t. String.of_c_string (some t))
        (replace_one (quoted name) (get builtin getenv name extra) value text found
          ∙ replace_all-Lacks (rest name) (String.c_str value) pre (quoted name ++ post) before
          ∙ ap (λ t. pre ++ t)
              (replace_all_found (b'$') (rest name) (String.c_str value) post
                ∙ ap (λ t. String.c_str value ++ t)
                    (replace_all_none (rest name) (String.c_str value) post after)))
