-- ===== src/Json.antt =====
-- base/io/json/Json.cpp: reading members of a JSON object with a default for each type.
-- rapidjson is a vendored library: its values and the calls that the program makes of it are the
-- parameter `RapidJson`.
pub mod Objects
pub mod Strings
use xmrig_nonces_heatmap.Prelude.{
  ℕ, Bool, true, Bytes, List, [], ◌∷◌, Option, none, some, ℤ, ◌||◌, not, if◌then◌else◌,
}

pub record RapidJson : Type 1 where
  pub Value : Type 0
  pub is_object : Value → Bool
  pub is_array : Value → Bool
  pub is_bool : Value → Bool
  pub is_string : Value → Bool
  pub is_int : Value → Bool
  pub is_uint : Value → Bool
  pub is_int64 : Value → Bool
  pub is_uint64 : Value → Bool
  pub object_empty : Value → Bool
  pub get_bool : Value → Bool
  pub get_string : Value → Bytes
  pub get_int : Value → ℤ
  pub get_uint : Value → ℕ
  pub get_int64 : Value → ℤ
  pub get_uint64 : Value → ℕ
  -- `GetArray`
  pub elements : Value → List Value
  -- `FindMember`, `none` for `MemberEnd`
  pub find_member : Value → Bytes → Option Value
  -- the values that the program builds
  pub null : Value
  pub object : Value
  pub array : List Value → Value
  pub of_bool : Bool → Value
  pub of_uint : ℕ → Value
  pub of_uint64 : ℕ → Value
  pub of_int : ℤ → Value
  pub of_string : Bytes → Value
  pub add_member : Value → Bytes → Value → Value
  -- `Document::Parse`, `none` for `HasParseError`
  pub parse : Bytes → Option Value
  -- `Accept` with a `Writer`
  pub write : Value → Bytes

-- an object value with these members added, in order
unfoldable pub add_members :
    (rj : RapidJson) → RapidJson.Value rj → List (Bytes × RapidJson.Value rj) → RapidJson.Value rj
add_members rj out [] = out
add_members rj out ((key, value) ∷ members) = add_members rj (rj.add_member out key value) members

module _ (rj : RapidJson) where
  open rj use {
    Value, is_object, is_array, is_bool, is_string, is_int, is_uint, is_int64, is_uint64,
    object_empty, find_member,
  }

  abbrev pub is_empty : Value → Bool
  is_empty obj = not (is_object obj) || object_empty obj

  -- `FindMember(key)`, kept if it passes the type test
  abbrev pub typed : Option Value → (Value → Bool) → Option Value
  typed none test = none
  typed (some v) test = if test v then some v else none

  -- the member that a getter reads, or `none` where the getter gives its default
  unfoldable pub member : Value → Bytes → (Value → Bool) → Option Value
  member obj key test = if is_empty obj then none else typed (find_member obj key) test

  abbrev pub or_default {ℓ} : {A : Type ℓ} → Option Value → (Value → A) → A → A
  or_default none get default = default
  or_default (some v) get default = get v

  unfoldable pub get_bool : Value → Bytes → Bool → Bool
  get_bool obj key default = or_default (member obj key is_bool) rj.get_bool default

  -- `const char *`, null by default
  unfoldable pub get_string : Value → Bytes → Option Bytes
  get_string obj key = or_default (member obj key is_string) (λ v. some (rj.get_string v)) none

  unfoldable pub get_array : Value → Bytes → Value
  get_array obj key = or_default (member obj key is_array) (λ v. v) rj.null

  unfoldable pub get_object : Value → Bytes → Value
  get_object obj key = or_default (member obj key is_object) (λ v. v) rj.null

  unfoldable pub get_value : Value → Bytes → Value
  get_value obj key = or_default (member obj key (λ _. true)) (λ v. v) rj.null

  unfoldable pub get_int : Value → Bytes → ℤ → ℤ
  get_int obj key default = or_default (member obj key is_int) rj.get_int default

  unfoldable pub get_int64 : Value → Bytes → ℤ → ℤ
  get_int64 obj key default = or_default (member obj key is_int64) rj.get_int64 default

  unfoldable pub get_uint : Value → Bytes → ℕ → ℕ
  get_uint obj key default = or_default (member obj key is_uint) rj.get_uint default

  unfoldable pub get_uint64 : Value → Bytes → ℕ → ℕ
  get_uint64 obj key default = or_default (member obj key is_uint64) rj.get_uint64 default
