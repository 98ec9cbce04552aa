-- ===== src/Process.antt =====
-- base/kernel/Process.cpp, Entry.cpp and main.cpp on Unix: the paths of
-- the program and what the command line asks for. Built without libsodium and without a shared data
-- directory. What libuv says of the paths is a parameter, where `none` is a failure.
pub mod Paths
use xmrig_nonces_heatmap.Prelude.{
  ℕ, zero, suc, ◌+◌, Bool, true, false, ◌&&◌, ◌||◌, not, Bytes, codes, List, [], ◌∷◌, ◌++◌, Option,
  none, some, ◌==◌, eq_nat, if◌then◌else◌, is_nil, take, length,
}
use xmrig_nonces_heatmap.String
use xmrig_nonces_heatmap.String.{String}
use xmrig_nonces_heatmap.Arguments.{Arguments, arguments, has_arg, value}

-- `Process::Location`
pub data Location : Type 0 where
  exe_location cwd_location data_location home_location temp_location : Location

-- what libuv gives; `chdir` says whether the directory is now another one
pub record Os : Type 0 where
  pub exepath : Option Bytes
  pub homedir : Option Bytes
  pub tmpdir : Option Bytes
  pub cwd : Option Bytes
  pub chdir : Bytes → Bool

-- `m_arguments`, and the static `dataDir`
pub record Process : Type 0 where
  pub m_arguments : Arguments
  pub data_dir : Bytes

-- `path.rfind(c)`
unfoldable pub rfind : ℕ → Bytes → Option ℕ
rfind c [] = none
rfind c (b ∷ path) = elim (rfind c path) [
  | some i ↦ some (suc i)
  | none ↦ if b == c then some 0 else none
]

abbrev pub or_empty : Option Bytes → Bytes
or_empty none = []
or_empty (some path) = path

-- the directory of the program, or the path without a separator
unfoldable pub exe_dir : Option Bytes → Bytes
unfolding rfind
exe_dir none = []
exe_dir (some path) = elim (rfind b'/' path) [ none ↦ path | some pos ↦ take pos path ]

-- `getPath`
unfoldable pub get_path : Os → Bytes → Location → Bytes
unfolding exe_dir
get_path os data_dir exe_location = exe_dir os.exepath
get_path os data_dir cwd_location = or_empty os.cwd
get_path os data_dir data_location = if is_nil data_dir then exe_dir os.exepath else data_dir
get_path os data_dir home_location = or_empty os.homedir
get_path os data_dir temp_location = or_empty os.tmpdir

abbrev pub is_separator : ℕ → Bool
is_separator b = (b == b'/') || (b == 92)

-- `dir`, without the separator that may be its last byte
unfoldable pub pop_separator : Bytes → Bytes
pop_separator [] = []
pop_separator (b ∷ []) = if is_separator b then [] else b ∷ []
pop_separator (b ∷ c ∷ dir) = b ∷ pop_separator (c ∷ dir)

-- `setDataDir`: the new `dataDir`
unfoldable pub set_data_dir : Os → Option Bytes → Bytes → Bytes
unfolding pop_separator String.c_str
set_data_dir os none data_dir = data_dir
set_data_dir os (some path) data_dir =
    let dir = pop_separator (String.c_str path) in
    if not (is_nil dir) && os.chdir dir then dir else data_dir

-- the constructor; the seed of `rand` is not modelled
unfoldable pub process : Os → List (Option Bytes) → Process
unfolding set_data_dir value
process os argv =
    let args = arguments argv in
    record {
      m_arguments = args;
      data_dir = set_data_dir os (value (codes "--data-dir") (some (codes "-d")) args) [];
    }

-- `exepath`
unfoldable pub exepath : Os → String
unfolding String.of_c_string String.of_buffer
exepath os = elim os.exepath [
  | none ↦ String.of_c_string (some [])
  | some path ↦ String.of_buffer (some path) (length path)
]

-- `location`
unfoldable pub location : Os → Process → Location → Option Bytes → String
unfolding get_path String.of_c_string String.c_str
location os p l file_name =
    let path = get_path os p.data_dir l in
    elim file_name [
      | none ↦ String.of_c_string (some path)
      | some file ↦
          if is_nil path
          then String.of_c_string (some path)
          else String.of_c_string (some (path ++ (b'/' ∷ String.c_str file)))
    ]

-- `Entry::Id`
pub data EntryId : Type 0 where
  default usage version gen_key : EntryId

-- `Entry::get`
unfoldable pub get : Process → EntryId
unfolding has_arg
get p =
    let args = p.m_arguments in
    if has_arg args (codes "-h") || has_arg args (codes "--help")
    then usage
    else if has_arg args (codes "-V") || has_arg args (codes "--version")
    then version
    else if has_arg args (codes "--gen-key")
    then gen_key
    else default

-- `Entry::exec`: the exit code, and what is printed
unfoldable pub exec : EntryId → ℕ × List EntryId
exec usage = (0, usage ∷ [])
exec version = (0, version ∷ [])
exec gen_key = (1, [])
exec default = (1, [])

-- what `main` does: it ends with an exit code after printing, or runs an `App`
pub data Run : Type 0 where
  ends : ℕ × List EntryId → Run
  runs : Process → Run

unfoldable pub main : Os → List (Option Bytes) → Run
unfolding process get exec
main os argv =
    let p = process os argv in
    elim (get p) [
      | default ↦ runs p
      | usage ↦ ends (exec usage)
      | version ↦ ends (exec version)
      | gen_key ↦ ends (exec gen_key)
    ]
