-- ===== src/Arguments/Values.antt =====
-- An option that is given as `--key=value`.
use xmrig_nonces_heatmap.Prelude.{
  ℕ, suc, ◌≤◌, ◌<◌, ◌≡◌, refl, ap, ◌∙◌, arith, true, false, Bytes, List, [], ◌∷◌, ◌++◌, Option,
  none, some, eq_nat, eq_bytes, ltb, lt→ltb, length, length-append, drop, take, All, bytes_beq_iff,
}
use xmrig_nonces_heatmap.String
use xmrig_nonces_heatmap.String.{String}
use xmrig_nonces_heatmap.Env.Plain.{Lacks}
use xmrig_nonces_heatmap.Arguments.{
  Arguments, index_of, has_dashes, added, add, is_key, value_loop, value,
}

index_of-Lacks : (c : ℕ) (s t : Bytes) → Lacks c s → index_of c (s ++ c ∷ t) ≡ some (length s)
unfolding index_of
index_of-Lacks c [] t h = ground arith
index_of-Lacks c (b ∷ s) t (h, hs) = ground (arith, index_of-Lacks c s t hs)

take-length : (s t : Bytes) → take (length s) (s ++ t) ≡ s
take-length [] t = refl
take-length (b ∷ s) t = ap (◌∷◌ b) (take-length s t)

drop-length : (s t : Bytes) (c : ℕ) → drop (suc (length s)) (s ++ c ∷ t) ≡ t
drop-length [] t c = refl
drop-length (b ∷ s) t c = drop-length s t c

has_dashes-append : (s t : Bytes) → has_dashes s ≡ true → has_dashes (s ++ t) ≡ true
has_dashes-append [] t h = ground (arith, h)
has_dashes-append (a ∷ []) t h = ground (arith, h)
has_dashes-append (a ∷ b ∷ s) t h = h

added_lem :
    (arg s : Bytes) (i : ℕ)
    → String.c_str arg ≡ s
    → ltb 4 (length s) ≡ true
    → has_dashes s ≡ true
    → index_of (b'=') s ≡ some i
    → added arg ≡ String.of_buffer (some s) i ∷ String.of_c_string (some (drop (suc i) s)) ∷ []
unfolding added
added_lem arg s i e long dashes found = rw (added, e, long, dashes, found, e)

added-equals :
    (key val : Bytes)
    → Lacks (b'=') key
    → String.c_str (key ++ b'=' ∷ val) ≡ key ++ b'=' ∷ val
    → has_dashes key ≡ true
    → 4 < length (key ++ b'=' ∷ val)
    → added (key ++ b'=' ∷ val)
      ≡ record { m_data = some key; m_size = length key } ∷ String.of_c_string (some val) ∷ []
unfolding String.of_buffer
added-equals key val lacks whole dashes long =
    let s = key ++ b'=' ∷ val in
    added_lem s s (length key) whole (lt→ltb 4 (length s) long)
      (has_dashes-append key (b'=' ∷ val) dashes) (index_of-Lacks (b'=') key val lacks)
    ∙ ap
        (λ t.
          record { m_data = some t; m_size = length key }
          ∷ String.of_c_string (some (drop (suc (length key)) s))
          ∷ [])
        (take-length key (b'=' ∷ val))
    ∙ ap (λ t. record { m_data = some key; m_size = length key } ∷ String.of_c_string (some t) ∷ [])
        (drop-length key val (b'='))

-- the loop passes over what is no key
value_loop-append :
    (key1 : Bytes) (key2 : Option Bytes) (before : List String) (s t : String)
    → All (λ x. is_key key1 key2 x ≡ false) before
    → is_key key1 key2 s ≡ true
    → value_loop key1 key2 (before ++ s ∷ t ∷ []) ≡ t.m_data
unfolding value_loop
value_loop-append key1 key2 [] s t none_before found = rw found
value_loop-append key1 key2 (x ∷ []) s t (h, hs) found = rw (h, found)
value_loop-append key1 key2 (x ∷ y ∷ before) s t (h, hs) found =
    rw h (value_loop-append key1 key2 (y ∷ before) s t hs found)

is_key_self :
    (key : Bytes) (key2 : Option Bytes) (n : ℕ)
    → is_key key key2 (record { m_data = some key; m_size = n }) ≡ true
unfolding is_key String.is_equal_c
is_key_self key none n = (bytes_beq_iff (String.c_str key) (String.c_str key)).1 refl
is_key_self key (some k) n =
    ground (arith, (bytes_beq_iff (String.c_str key) (String.c_str key)).1 refl)

value_lem :
    (key : Bytes) (key2 : Option Bytes) (a : Arguments) (program : String) (rest : List String)
    → a.m_data ≡ program ∷ rest
    → 2 ≤ length rest
    → value key key2 a ≡ value_loop key key2 rest
unfolding value
value_lem key key2 a program rest e enough = ground (arith, e)

-- When `--key=value` is the last argument behind the program's name, and no earlier one is the key,
-- then `value` gives the text behind the equals sign, null where it is empty. The key has no equals
-- sign and no NUL, and the whole argument has no NUL and more than 4 bytes.
value-add :
    (a : Arguments) (program : String) (before : List String) (key val : Bytes)
    (key2 : Option Bytes)
    → a.m_data ≡ program ∷ before
    → All (λ x. is_key key key2 x ≡ false) before
    → Lacks (b'=') key
    → String.c_str (key ++ b'=' ∷ val) ≡ key ++ b'=' ∷ val
    → has_dashes key ≡ true
    → 4 < length (key ++ b'=' ∷ val)
    → value key key2 (add (some (key ++ b'=' ∷ val)) a) ≡ (String.of_c_string (some val)).m_data
unfolding add
value-add a program before key val key2 e none_before lacks whole dashes long =
    let k : String = record { m_data = some key; m_size = length key } in
    let v = String.of_c_string (some val) in
    let all : (add (some (key ++ b'=' ∷ val)) a).m_data ≡ program ∷ (before ++ k ∷ v ∷ []) =
      ap (λ m. m ++ added (key ++ b'=' ∷ val)) e
      ∙ ap (λ t. (program ∷ before) ++ t) (added-equals key val lacks whole dashes long) in
    value_lem key key2 (add (some (key ++ b'=' ∷ val)) a) program (before ++ k ∷ v ∷ []) all
      (omega (arith, length-append before (k ∷ v ∷ [])))
    ∙ value_loop-append key key2 before k v none_before (is_key_self key key2 (length key))
