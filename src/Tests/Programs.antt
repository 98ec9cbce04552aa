-- ===== src/Tests/Programs.antt =====
-- App and Nonces at small inputs.
use xmrig_nonces_heatmap.Prelude.{
  ◌≡◌, refl, Bool, true, false, Bytes, codes, List, [], ◌∷◌, none, some, arith, eq_bytes,
}
use xmrig_nonces_heatmap.Dict
use xmrig_nonces_heatmap.Dict.{Dict}
use xmrig_nonces_heatmap.String
use xmrig_nonces_heatmap.String.{String}
use xmrig_nonces_heatmap.Config.{Config, default_config}
use xmrig_nonces_heatmap.Nonces
use xmrig_nonces_heatmap.Nonces.{Nonces}
use xmrig_nonces_heatmap.Nonces.Saved.{ArrayLaws, load-save}
use xmrig_nonces_heatmap.Network.{sync}
use xmrig_nonces_heatmap.Heatmap
use xmrig_nonces_heatmap.Heatmap.{Heatmap}
use xmrig_nonces_heatmap.App.{App, System, save_nonces}
use xmrig_nonces_heatmap.App.Outcomes.{array}
use xmrig_nonces_heatmap.Tests.Sample.{
  Value, sample_laws, array as sample_array, is_array, elements,
}
use xmrig_nonces_heatmap.Tests.Downloads.{rj, start}

array_array : (vs : List Value) → is_array (sample_array vs) ≡ true
array_array [] = refl
array_array (v ∷ vs) = array_array vs

array_elements : (vs : List Value) → elements (sample_array vs) ≡ vs
array_elements [] = refl
array_elements (v ∷ vs) = rw (array_elements vs)

array_laws : ArrayLaws rj
array_laws = record { array_array = array_array; array_elements = array_elements }

abbrev nonces : Nonces
nonces = record { m_data = 5 ∷ 7 ∷ []; m_file = record { m_data = some (codes "n"); m_size = 1 } }

abbrev always : Bytes → Bool
always name = true

load-save_example :
    Nonces.load_file rj (Nonces.save rj always nonces []).1 (record nonces { m_data = [] })
    ≡ some nonces
load-save_example =
    load-save rj (sample_laws _) array_laws always nonces (record nonces { m_data = [] }) [] refl
      (omega arith, (omega arith, tt)) refl

abbrev pub sys : System
sys = record {
  feature_tls = true;
  writable = always;
  has_parse_error = λ name. false;
  nonces_location = String.null_string;
  builtin = [];
  getenv = λ name. none;
  encode = λ d. 0;
}

-- a job without a height, which is refused
abbrev config : Config
config = record default_config { m_job = record default_config.m_job { m_height = 0 } }

abbrev app : App rj
app = record {
  m_config = some config;
  m_rc = 0;
  m_nonces = nonces;
  m_network = some (sync rj 5 start);
  m_console = true;
  m_signals = true;
  config_file = codes "c";
  log = record { m_colors = true; m_verbose = 0 };
  files = [];
}

-- the program after the rendering was refused
abbrev stopped : App rj → App rj
stopped a = record a { m_rc = 1; m_network = none; m_signals = false; m_console = false }

abbrev after : App rj
after = stopped (save_nonces rj sys app)
