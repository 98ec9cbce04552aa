-- ===== src/Tests/Paths.antt =====
-- The command line, the data directory, and a file that is no JSON.
use xmrig_nonces_heatmap.Prelude.{
  ◌≡◌, ◌⊎◌, ◌≤◌, ◌<◌, refl, arith, true, Bytes, codes, List, [], ◌∷◌, ◌++◌, Option, none, some,
  length, eq_bytes, eq_nat,
}
use xmrig_nonces_heatmap.String
use xmrig_nonces_heatmap.Arguments.{arguments, add_all, has_arg}
use xmrig_nonces_heatmap.Process.{Os, Process, main, ends}
use xmrig_nonces_heatmap.Env.{expand, quoted}
use xmrig_nonces_heatmap.Env.Variables.{Build, create_variables, expand-data_dir}
use xmrig_nonces_heatmap.Log.{err, emerg}
use xmrig_nonces_heatmap.ParseError.{Place, convert_offset, report}
use xmrig_nonces_heatmap.ParseError.Places.{IsPlace, convert_offset-place}
use xmrig_nonces_heatmap.Heatmap.{digits}

abbrev os : Os
os = record {
  exepath = some (codes "/opt/heatmap");
  homedir = none;
  tmpdir = none;
  cwd = some (codes "/");
  chdir = λ path. true;
}

abbrev argv : List (Option Bytes)
argv = some (codes "heatmap") ∷ some (codes "-d") ∷ some (codes "/var/") ∷ []

abbrev build : Build
build = record { app_version = codes "1.0.0"; app_kind = codes "heatmap" }

abbrev in_var : Process
in_var = record { m_arguments = arguments argv; data_dir = codes "/var" }

abbrev no_environment : Bytes → Option Bytes
no_environment name = none

image_text :
    String.c_str (codes "${XMRIG_DATA_DIR}/a.png")
    ≡ quoted (codes "XMRIG_DATA_DIR") ++ codes "/a.png"
unfolding String.c_str
image_text = refl

expand-data_dir_example :
    expand
      (create_variables build none os in_var)
      no_environment
      (some (codes "${XMRIG_DATA_DIR}/a.png"))
      []
    ≡ String.of_c_string (some (codes "/var" ++ codes "/a.png"))
unfolding String.c_str
expand-data_dir_example =
    expand-data_dir build none os in_var no_environment [] (codes "${XMRIG_DATA_DIR}/a.png")
      (codes "/a.png") refl refl image_text
      (
        ground arith,
        (ground arith, (ground arith, (ground arith, (ground arith, (ground arith, tt))))),
      )

-- the key is not made without libsodium
gen_key_test : main os (some (codes "heatmap") ∷ some (codes "--gen-key") ∷ []) ≡ ends (1, [])
unfolding main add_all has_arg String.is_equal_c String.c_str String.of_c_string
gen_key_test = refl

abbrev broken : Bytes
broken = codes "{" ++ (10 ∷ codes "  x}")

convert_offset-place_example :
    ((p : Place) × (convert_offset broken 4 ≡ some p) × (4 ≤ length broken) × IsPlace broken 4 0 p)
    ⊎ ((convert_offset broken 4 ≡ none) × (length broken < 4))
convert_offset-place_example = convert_offset-place broken 4

report_test :
    report
      (record { m_data = some (codes "a"); m_size = 1 })
      (codes "bad")
      4
      (convert_offset broken 4)
    ≡ (err, codes "{")
      ∷ (err, codes "  x}")
      ∷ (emerg, codes "  ^")
      ∷ (emerg, codes "a<line:2, position:3>: \"bad\"")
      ∷ []
unfolding report convert_offset digits
report_test = refl
