-- ===== src/Env/Variables.antt =====
-- `createVariables` and `hostname` of base/io/Env.cpp: the variables that the program itself gives.
use xmrig_nonces_heatmap.Prelude.{
  ℕ, any, Bool-cases, inl, inr, ◌≡◌, refl, ap, ◌∙◌, false, Bytes, codes, [], ◌∷◌, ◌++◌, Option,
  none, some, eq_bytes, is_nil, length, ◌==◌, eq_nat, arith,
}
use xmrig_nonces_heatmap.Dict.{Dict, find, insert}
use xmrig_nonces_heatmap.String
use xmrig_nonces_heatmap.String.{String}
use xmrig_nonces_heatmap.Env.{get, expand, quoted}
use xmrig_nonces_heatmap.Env.Plain.{Lacks, expand-variable}
use xmrig_nonces_heatmap.Process
use xmrig_nonces_heatmap.Process.{
  Process, Os, location, get_path, exe_location, cwd_location, home_location, temp_location,
  data_location,
}

-- `APP_VERSION` and `APP_KIND`
pub record Build : Type 0 where
  pub app_version : Bytes
  pub app_kind : Bytes

-- `hostname`; `none` is a failure of `uv_os_gethostname`
unfoldable pub hostname : Option Bytes → String
unfolding String.of_c_string
hostname name = elim name [ none ↦ String.null_string | some buf ↦ String.of_c_string (some buf) ]

-- `createVariables`, for an empty `variables`
unfoldable pub create_variables : Build → Option Bytes → Os → Process → Dict Bytes String
unfolding hostname insert
create_variables build host os p =
    let m = insert (codes "XMRIG_VERSION") (String.of_c_string (some build.app_version)) [] in
    let m = insert (codes "XMRIG_KIND") (String.of_c_string (some build.app_kind)) m in
    let m = insert (codes "XMRIG_HOSTNAME") (hostname host) m in
    let m = insert (codes "XMRIG_EXE") (Process.exepath os) m in
    let m = insert (codes "XMRIG_EXE_DIR") (location os p exe_location none) m in
    let m = insert (codes "XMRIG_CWD") (location os p cwd_location none) m in
    let m = insert (codes "XMRIG_HOME_DIR") (location os p home_location none) m in
    let m = insert (codes "XMRIG_TEMP_DIR") (location os p temp_location none) m in
    insert (codes "XMRIG_DATA_DIR") (location os p data_location none) m

data_dir_found :
    (build : Build) (host : Option Bytes) (os : Os) (p : Process) (getenv : Bytes → Option Bytes)
    (extra : Dict Bytes String)
    → get (create_variables build host os p) getenv (codes "XMRIG_DATA_DIR") extra
      ≡ location os p data_location none
unfolding get create_variables find insert
data_dir_found build host os p getenv extra = refl

Lacks-any : (c : ℕ) (s : Bytes) → any (λ b. b == c) s ≡ false → Lacks c s
Lacks-any c [] h = tt
Lacks-any c (b ∷ s) h = elim (Bool-cases (b == c)) [
  | inl same ↦ absurd (ground (arith, same, h))
  | inr other ↦ (λ e. ground (arith, other, e), Lacks-any c s (ground (arith, other, h)))
]

name_Lacks : Lacks (b'}') (codes "XMRIG_DATA_DIR")
name_Lacks = Lacks-any b'}' (codes "XMRIG_DATA_DIR") refl

is_nil-length : (s : Bytes) → is_nil s ≡ false → (length s == 0) ≡ false
is_nil-length [] h = absurd (cc)
is_nil-length (b ∷ s) h = ground arith

data_dir_text :
    (os : Os) (p : Process)
    → is_nil p.data_dir ≡ false
    → String.c_str p.data_dir ≡ p.data_dir
    → (location os p data_location none).m_data ≡ some p.data_dir
unfolding location get_path String.of_c_string
data_dir_text os p known whole = rw (known, whole, is_nil-length p.data_dir known) refl

-- With a data directory, a file name that is `${XMRIG_DATA_DIR}` and a rest without a dollar expands
-- to the directory and that rest, whatever the environment and the other variables are. The directory
-- has no NUL.
pub expand-data_dir :
    (build : Build) (host : Option Bytes) (os : Os) (p : Process) (getenv : Bytes → Option Bytes)
    (extra : Dict Bytes String) (raw post : Bytes)
    → is_nil p.data_dir ≡ false
    → String.c_str p.data_dir ≡ p.data_dir
    → String.c_str raw ≡ quoted (codes "XMRIG_DATA_DIR") ++ post
    → Lacks (b'$') post
    → expand (create_variables build host os p) getenv (some raw) extra
      ≡ String.of_c_string (some (p.data_dir ++ post))
expand-data_dir build host os p getenv extra raw post known whole e plain =
    expand-variable (create_variables build host os p) getenv extra raw [] (codes "XMRIG_DATA_DIR")
      post p.data_dir e tt plain refl name_Lacks
      (ap (λ (s : String). s.m_data) (data_dir_found build host os p getenv extra)
        ∙ data_dir_text os p known whole)
    ∙ ap (λ d. String.of_c_string (some (d ++ post))) whole
