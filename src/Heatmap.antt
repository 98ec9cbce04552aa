-- ===== src/Heatmap.antt =====
-- Heatmap.h and Heatmap.cpp, without XMRIG_LIBPNG: the checks before an image is drawn, its size,
-- the points, and the information that is saved. The vendored heatmap library and the PNG encoder
-- are seen through the calls that are made of them: a `Drawing` holds the arguments.
pub mod Points
pub mod Prepare
pub mod Render
pub mod Errors
use xmrig_nonces_heatmap.Prelude.{
  ℕ, zero, suc, ◌+◌, ◌-◌, ◌*◌, ◌/◌, ◌%◌, ◌^◌, max, ℤ, pos, negsuc, Bool, true, false, ◌&&◌, ◌||◌,
  Bytes, codes, List, [], ◌∷◌, ◌++◌, Option, none, some, ◌==◌, eq_nat, if◌then◌else◌, ltb, leb,
  length, is_nil, take, drop,
}
use xmrig_nonces_heatmap.Dict
use xmrig_nonces_heatmap.Dict.{Dict}
use xmrig_nonces_heatmap.Json
use xmrig_nonces_heatmap.Json.{RapidJson}
use xmrig_nonces_heatmap.String
use xmrig_nonces_heatmap.String.{String}
use xmrig_nonces_heatmap.Env
use xmrig_nonces_heatmap.Float
use xmrig_nonces_heatmap.Job.{Job}

-- the exceptions that `render` throws
pub data Error : Type 0 where
  nonces_empty no_height invalid_start invalid_end too_big : Error
  encoder : ℕ → Error

-- `crash` is undefined behaviour: a division by zero, or a null file name
pub data Outcome {ℓ} (A : Type ℓ) : Type ℓ where
  ok : A → Outcome A
  throw : Error → Outcome A
  crash : Outcome A

infixl 5 ◌>>=◌ ◌>>◌
abbrev pub ◌>>=◌ {ℓ κ} : {A : Type ℓ} {B : Type κ} → Outcome A → (A → Outcome B) → Outcome B
ok a >>= f = f a
throw e >>= f = throw e
crash >>= f = crash

abbrev pub ◌>>◌ {ℓ} : {B : Type ℓ} → Outcome (Unit {0}) → Outcome B → Outcome B
m >> k = m >>= λ _. k

abbrev pub reject : Bool → Error → Outcome (Unit {0})
reject true e = throw e
reject false e = ok tt

-- `std::numeric_limits<uint32_t>::max()`
abbrev pub max_uint32 : ℕ
max_uint32 = 4294967295

-- what is drawn: the call of `heatmap_new`, of `heatmap_stamp_gen`, those of
-- `heatmap_add_point_with_stamp` in order, the size of the image vector, and the file
pub record Drawing : Type 0 where
  pub file_name : Bytes
  pub width : ℕ
  pub height : ℕ
  pub radius : ℕ
  pub points : List (ℕ × ℕ)
  pub image_size : ℕ

pub record Heatmap : Type 0 where
  pub m_job : Job
  pub m_nonces : List ℕ
  pub m_name : String
  pub m_count : ℕ
  pub m_end : ℕ
  pub m_start : ℕ
  pub m_width : ℕ
  pub m_x : ℕ

-- the constructor
abbrev pub heatmap : Job → List ℕ → Heatmap
heatmap job nonces = record {
  m_job = job;
  m_nonces = nonces;
  m_name = String.null_string;
  m_count = 0;
  m_end = 0;
  m_start = 0;
  m_width = 0;
  m_x = job.m_x;
}

-- `get_iterator<START>(nonces, pos)` for `size` nonces, as an index. `std::abs` of the least int32_t,
-- which is undefined, is taken to be 2^31.
unfoldable pub get_iterator : Bool → ℕ → ℤ → ℕ
get_iterator start size (pos zero) = if start then 0 else size
get_iterator start size (pos (suc n)) = if ltb (suc n) size then suc n else size
get_iterator start size (negsuc n) = if ltb (n + 1) size then size - (n + 1) else 0

-- the loop of `nonces_heatmap<false>`, from index `i` on
unfoldable pub plot : ℕ → ℕ → ℕ → List ℕ → List (ℕ × ℕ)
plot x height i [] = []
plot x height i (nonce ∷ nonces) =
    (i / x, (max_uint32 - nonce) / (max_uint32 / height)) ∷ plot x height (i + 1) nonces

-- the loop of `nonces_heatmap<true>`; `none` is a division by zero
unfoldable pub plot_custom : ℕ → ℕ → ℕ → ℕ → ℕ → List ℕ → Option (List (ℕ × ℕ))
plot_custom x height lowest highest i [] = some []
plot_custom x height lowest highest i (nonce ∷ nonces) =
    let range = (highest + 2 ^ 32 - lowest) % 2 ^ 32 in
    let rest = plot_custom x height lowest highest (i + 1) nonces in
    let drawn = if range / height == 0 then none else elim rest [
      | none ↦ none
      | some points ↦ some ((i / x, (highest - nonce) / (range / height)) ∷ points)
    ] in
    if leb lowest nonce && leb nonce highest then drawn else rest

-- `nonces_heatmap`, around its loop
abbrev pub drawing : Bytes → ℕ → ℕ → ℕ → List (ℕ × ℕ) → Drawing
drawing file_name width height radius points = record {
  file_name = file_name;
  width = width;
  height = height;
  radius = radius;
  points = points;
  image_size = width * height * 4 % 2 ^ 32;
}

unfoldable pub nonces_heatmap : List ℕ → String → ℕ → ℕ → ℕ → ℕ → ℕ → Outcome Drawing
unfolding plot plot_custom String.c_str
nonces_heatmap nonces file_name x height radius lowest highest =
    let width = Float.ceil_div (length nonces) x in
    elim file_name.m_data [
      | none ↦ crash
      | some name ↦
          if (lowest == 0) && (highest == 0)
          then ok (drawing (String.c_str name) width height radius (plot x height 0 nonces))
          else elim (plot_custom x height lowest highest 0 nonces) [
            | none ↦ crash
            | some points ↦ ok (drawing (String.c_str name) width height radius points)
          ]
    ]

-- the digits of a number, by std::to_string
unfoldable pub digits : ℕ → ℕ → Bytes → Bytes
digits zero n out = out
digits (suc fuel) n out =
    let rest = digits fuel (n / 10) ((b'0' + n % 10) ∷ out) in
    if ltb n 10 then (b'0' + n) ∷ out else rest

-- twenty rounds are enough below 2^64
abbrev pub to_string : ℕ → Bytes
to_string n = digits 20 n []

-- a variable with a number for its value
abbrev variable : Bytes → ℕ → Bytes × String
variable name n = (name, String.of_c_string (some (to_string n)))

-- the variables of `genName`
unfoldable pub variables : Heatmap → Dict Bytes String
unfolding digits String.of_c_string
variables h =
    variable (codes "WIDTH") h.m_width
    ∷ variable (codes "HEIGHT") h.m_job.m_height
    ∷ variable (codes "COUNT") h.m_count
    ∷ variable (codes "START") h.m_start
    ∷ variable (codes "END") h.m_end
    ∷ variable (codes "MIN_NONCE") h.m_job.m_min_nonce
    ∷ variable (codes "MAX_NONCE") h.m_job.m_max_nonce
    ∷ variable (codes "RADIUS") h.m_job.m_radius
    ∷ variable (codes "X") h.m_x
    ∷ []

-- `m_x`, for `count` blocks
unfoldable pub choose_x : ℕ → Job → Outcome ℕ
choose_x count job =
    let double = job.m_height * 2 % 2 ^ 32 in
    if job.m_x == 0
    then if double == 0 then crash else ok (max (Float.ceil_div count double) 1)
    else ok job.m_x

-- `render` behind its checks, for the blocks from `begin` to `end`: `nonces_heatmap` and the
-- encoder, whose error code is `encode`
unfoldable pub draw : (Drawing → ℕ) → Heatmap → List ℕ → Outcome (Heatmap × Drawing)
draw encode h nonces = do
  d ←
      nonces_heatmap nonces h.m_name h.m_x h.m_job.m_height h.m_job.m_radius h.m_job.m_min_nonce
        h.m_job.m_max_nonce
  reject (ltb 0 (encode d)) (encoder (encode d))
  ok (h, d)

module _ (builtin : Dict Bytes String) (getenv : Bytes → Option Bytes) where
  -- `genName`, for the blocks from index `begin` to before `last`
  unfoldable pub gen_name : ℕ → ℕ → Heatmap → Heatmap
  gen_name begin last h0 =
      let h = record h0 { m_start = begin % 2 ^ 32; m_end = (last - 1) % 2 ^ 32 } in
      record h { m_name = Env.expand builtin getenv h.m_job.m_name.m_data (variables h) }

  -- the checks of `render`, and the fields that they set; with the blocks from `begin` to `end`
  unfoldable pub prepare : Heatmap → Outcome (Heatmap × List ℕ)
  prepare h = do
    reject (is_nil h.m_nonces) nonces_empty
    reject (h.m_job.m_height == 0) no_height
    let begin = get_iterator true (length h.m_nonces) h.m_job.m_start
    reject (begin == length h.m_nonces) invalid_start
    let last = get_iterator false (length h.m_nonces) h.m_job.m_end
    reject (leb last begin) invalid_end
    let count = (last - begin) % 2 ^ 32
    x ← choose_x count h.m_job
    let width = Float.ceil_div (last - begin) x
    reject (ltb max_uint32 (width * h.m_job.m_height * 4 % 2 ^ 64)) too_big
    ok (
      gen_name begin last (record h { m_count = count; m_x = x; m_width = width }),
      take (last - begin) (drop begin h.m_nonces),
    )

  -- `render` up to the end of `nonces_heatmap`
  unfoldable pub render : (Drawing → ℕ) → Heatmap → Outcome (Heatmap × Drawing)
  render encode h = do p ← prepare h; draw encode p.0 p.1

module _ (rj : RapidJson) where
  -- `saveInfo`: the file and the document that are handed to `Json::save`
  unfoldable pub info : Heatmap → Bytes × RapidJson.Value rj
  unfolding String.c_str
  info h = (
    if String.is_empty h.m_job.m_info_file
        then String.c_str (String.bytes h.m_name) ++ codes ".json"
        else String.c_str (String.bytes h.m_job.m_info_file),
    Json.add_members rj rj.object (
        (codes "name", String.to_json rj h.m_name)
        ∷ (codes "width", rj.of_uint h.m_width)
        ∷ (codes "height", rj.of_uint h.m_job.m_height)
        ∷ (codes "count", rj.of_uint h.m_count)
        ∷ (codes "start", rj.of_uint h.m_start)
        ∷ (codes "end", rj.of_uint h.m_end)
        ∷ (codes "min_nonce", rj.of_uint h.m_job.m_min_nonce)
        ∷ (codes "max_nonce", rj.of_uint h.m_job.m_max_nonce)
        ∷ (codes "radius", rj.of_uint h.m_job.m_radius)
        ∷ (codes "x", rj.of_uint h.m_x)
        ∷ []),
  )
