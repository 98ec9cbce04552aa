-- ===== src/Json/Objects.antt =====
-- What the program relies on of rapidjson where it reads back what it wrote, and the members of an
-- object that it built.
use xmrig_nonces_heatmap.Prelude.{
  ℕ, ◌^◌, ◌<◌, ℤ, pos, negsuc, ◌≡◌, refl, Bool, true, false, Bytes, List, [], ◌∷◌, Option, none,
  some, arith, ◌==◌, eq_bytes, if◌then◌else◌,
}
use xmrig_nonces_heatmap.Dict
use xmrig_nonces_heatmap.Json.{RapidJson, add_members, member, typed}

-- the values of int32_t
abbrev pub IsInt32 : ℤ → Type 0
IsInt32 (pos n) = n < 2 ^ 31
IsInt32 (negsuc n) = n < 2 ^ 31

pub record Laws (rj : RapidJson) : Type 0 where
  pub null_object : rj.is_object rj.null ≡ false
  pub null_string : rj.is_string rj.null ≡ false
  pub object_object : rj.is_object rj.object ≡ true
  pub object_member : (key : Bytes) → rj.find_member rj.object key ≡ none
  pub add_object :
      (o v : RapidJson.Value rj) (key : Bytes)
      → rj.is_object o ≡ true
      → rj.is_object (rj.add_member o key v) ≡ true
  pub add_filled :
      (o v : RapidJson.Value rj) (key : Bytes)
      → rj.is_object o ≡ true
      → rj.object_empty (rj.add_member o key v) ≡ false
  -- `FindMember` finds the first member of that name
  pub add_find :
      (o v : RapidJson.Value rj) (key k : Bytes)
      → rj.is_object o ≡ true
      → rj.find_member (rj.add_member o key v) k
        ≡ Dict.kept (rj.find_member o k) (if key == k then some v else none)
  pub bool_bool : (b : Bool) → rj.is_bool (rj.of_bool b) ≡ true
  pub bool_value : (b : Bool) → rj.get_bool (rj.of_bool b) ≡ b
  pub bool_uint : (b : Bool) → rj.is_uint (rj.of_bool b) ≡ false
  pub uint_uint : (n : ℕ) → n < 2 ^ 32 → rj.is_uint (rj.of_uint n) ≡ true
  pub uint_value : (n : ℕ) → n < 2 ^ 32 → rj.get_uint (rj.of_uint n) ≡ n
  pub uint_bool : (n : ℕ) → rj.is_bool (rj.of_uint n) ≡ false
  pub int_int : (z : ℤ) → IsInt32 z → rj.is_int (rj.of_int z) ≡ true
  pub int_value : (z : ℤ) → IsInt32 z → rj.get_int (rj.of_int z) ≡ z
  pub string_string : (s : Bytes) → rj.is_string (rj.of_string s) ≡ true
  pub string_value : (s : Bytes) → rj.get_string (rj.of_string s) ≡ s

module _ (rj : RapidJson) (laws : Laws rj) where
  open rj use {Value}

  add_members_object :
      (o : Value) (members : List (Bytes × Value))
      → rj.is_object o ≡ true
      → rj.is_object (add_members rj o members) ≡ true
  unfolding add_members
  add_members_object o [] e = e
  add_members_object o ((k, v) ∷ members) e =
      add_members_object (rj.add_member o k v) members (laws.add_object o v k e)

  add_members_filled :
      (o : Value) (members : List (Bytes × Value))
      → rj.is_object o ≡ true
      → rj.object_empty o ≡ false
      → rj.object_empty (add_members rj o members) ≡ false
  unfolding add_members
  add_members_filled o [] e f = f
  add_members_filled o ((k, v) ∷ members) e f =
      add_members_filled (rj.add_member o k v) members (laws.add_object o v k e)
        (laws.add_filled o v k e)

  add_members-find :
      (o : Value) (members : List (Bytes × Value)) (key : Bytes)
      → rj.is_object o ≡ true
      → rj.find_member (add_members rj o members) key
        ≡ Dict.kept (rj.find_member o key) (Dict.find key members)
  unfolding add_members Dict.find
  add_members-find o [] key e = elim_kept (rj.find_member o key)
    where
      elim_kept : (w : Option Value) → w ≡ Dict.kept w none
      elim_kept none = refl
      elim_kept (some x) = refl
  add_members-find o ((k, v) ∷ members) key e = ground (
    arith,
    add_members-find (rj.add_member o k v) members key (laws.add_object o v k e),
    laws.add_find o v k key e,
  )

  -- a getter finds in a built object what was added first under the key
  pub member-add_members :
      (k : Bytes) (v : Value) (members : List (Bytes × Value)) (key : Bytes) (test : Value → Bool)
      → member rj (add_members rj rj.object ((k, v) ∷ members)) key test
        ≡ typed rj (Dict.find key ((k, v) ∷ members)) test
  unfolding member add_members Dict.find
  member-add_members k v members key test =
      let o = laws.object_object in
      simp (
        add_members_object rj.object ((k, v) ∷ members) o,
        add_members_filled (rj.add_member rj.object k v) members (laws.add_object _ v k o)
            (laws.add_filled _ v k o),
        add_members-find rj.object ((k, v) ∷ members) key o,
        laws.object_member key,
      )

  pub is_object-add_members :
      (members : List (Bytes × Value)) → rj.is_object (add_members rj rj.object members) ≡ true
  is_object-add_members members = add_members_object rj.object members laws.object_object

  pub object_empty-add_members :
      (k : Bytes) (v : Value) (members : List (Bytes × Value))
      → rj.object_empty (add_members rj rj.object ((k, v) ∷ members)) ≡ false
  unfolding add_members
  object_empty-add_members k v members =
      add_members_filled (rj.add_member rj.object k v) members
        (laws.add_object _ v k laws.object_object) (laws.add_filled _ v k laws.object_object)
