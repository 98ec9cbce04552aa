-- ===== src/Tests/Sample.antt =====
-- A small JSON library for the examples, with a table of texts for its parser, and the laws of
-- Json.Objects for it. `item` and `member` hold the rest of an array and of an object.
use xmrig_nonces_heatmap.Prelude.{
  ℕ, ◌^◌, ℤ, pos, negsuc, ◌≡◌, refl, Bool, true, false, Bytes, codes, List, [], ◌∷◌, Option, none,
  some, arith, ◌==◌, eq_bytes, if◌then◌else◌, ltb, lt→ltb,
}
use xmrig_nonces_heatmap.Dict
use xmrig_nonces_heatmap.Json.{RapidJson}
use xmrig_nonces_heatmap.Json.Objects.{Laws, IsInt32}

pub data Value : Type 0 where
  null no_items no_members : Value
  boolean : Bool → Value
  unsigned : ℕ → Value
  negative : ℕ → Value
  text : Bytes → Value
  item : Value → Value → Value
  member : Bytes → Value → Value → Value

abbrev pub is_object : Value → Bool
is_object no_members = true
is_object (member k v rest) = is_object rest
is_object _ = false

abbrev pub is_array : Value → Bool
is_array no_items = true
is_array (item v rest) = is_array rest
is_array _ = false

abbrev pub elements : Value → List Value
elements (item v rest) = v ∷ elements rest
elements _ = []

abbrev pub array : List Value → Value
array [] = no_items
array (v ∷ vs) = item v (array vs)

abbrev pub find_member : Value → Bytes → Option Value
find_member (member k v rest) key = if k == key then some v else find_member rest key
find_member _ key = none

abbrev pub add_member : Value → Bytes → Value → Value
add_member no_members key v = member key v no_members
add_member (member k w rest) key v = member k w (add_member rest key v)
add_member o key v = o

abbrev pub sample : (Bytes → Option Value) → RapidJson
sample parse = record {
  Value = Value;
  is_object = is_object;
  is_array = is_array;
  is_bool = λ v. elim v [ boolean b ↦ true | _ ↦ false ];
  is_string = λ v. elim v [ text s ↦ true | _ ↦ false ];
  is_int = λ v. elim v [ unsigned n ↦ ltb n (2 ^ 31) | negative n ↦ ltb n (2 ^ 31) | _ ↦ false ];
  is_uint = λ v. elim v [ unsigned n ↦ ltb n (2 ^ 32) | _ ↦ false ];
  is_int64 = λ v. elim v [ unsigned n ↦ ltb n (2 ^ 63) | negative n ↦ ltb n (2 ^ 63) | _ ↦ false ];
  is_uint64 = λ v. elim v [ unsigned n ↦ ltb n (2 ^ 64) | _ ↦ false ];
  object_empty = λ v. elim v [ no_members ↦ true | _ ↦ false ];
  get_bool = λ v. elim v [ boolean b ↦ b | _ ↦ false ];
  get_string = λ v. elim v [ text s ↦ s | _ ↦ [] ];
  get_int = λ v. elim v [ unsigned n ↦ pos n | negative n ↦ negsuc n | _ ↦ pos 0 ];
  get_uint = λ v. elim v [ unsigned n ↦ n | _ ↦ 0 ];
  get_int64 = λ v. elim v [ unsigned n ↦ pos n | negative n ↦ negsuc n | _ ↦ pos 0 ];
  get_uint64 = λ v. elim v [ unsigned n ↦ n | _ ↦ 0 ];
  elements = elements;
  find_member = find_member;
  null = null;
  object = no_members;
  array = array;
  of_bool = boolean;
  of_uint = unsigned;
  of_uint64 = unsigned;
  of_int = λ z. elim z [ pos n ↦ unsigned n | negsuc n ↦ negative n ];
  of_string = text;
  add_member = add_member;
  parse = parse;
  write = λ v. codes "json";
}

add_object :
    (o v : Value) (key : Bytes) → is_object o ≡ true → is_object (add_member o key v) ≡ true
add_object no_members v key e = refl
add_object (member k w rest) v key e = add_object rest v key e
add_object null v key e = e
add_object no_items v key e = e
add_object (boolean b) v key e = e
add_object (unsigned n) v key e = e
add_object (negative n) v key e = e
add_object (text s) v key e = e
add_object (item w rest) v key e = e

add_filled :
    (parse : Bytes → Option Value) (o v : Value) (key : Bytes)
    → is_object o ≡ true
    → RapidJson.object_empty (sample parse) (add_member o key v) ≡ false
add_filled parse no_members v key e = refl
add_filled parse (member k w rest) v key e = refl
add_filled parse null v key e = refl
add_filled parse no_items v key e = refl
add_filled parse (boolean b) v key e = refl
add_filled parse (unsigned n) v key e = refl
add_filled parse (negative n) v key e = refl
add_filled parse (text s) v key e = refl
add_filled parse (item w rest) v key e = refl

add_find :
    (o v : Value) (key k : Bytes)
    → is_object o ≡ true
    → find_member (add_member o key v) k
      ≡ Dict.kept (find_member o k) (if key == k then some v else none)
add_find no_members v key k e = refl
add_find (member j w rest) v key k e = ground (arith, add_find rest v key k e)
add_find null v key k e = ground arith
add_find no_items v key k e = ground arith
add_find (boolean b) v key k e = ground arith
add_find (unsigned n) v key k e = ground arith
add_find (negative n) v key k e = ground arith
add_find (text s) v key k e = ground arith
add_find (item w rest) v key k e = ground arith

pub sample_laws : (parse : Bytes → Option Value) → Laws (sample parse)
sample_laws parse = record {
  null_object = refl;
  null_string = refl;
  object_object = refl;
  object_member = λ key. refl;
  add_object = add_object;
  add_filled = add_filled parse;
  add_find = add_find;
  bool_bool = λ b. refl;
  bool_value = λ b. refl;
  bool_uint = λ b. refl;
  uint_uint = λ n h. lt→ltb n (2 ^ 32) h;
  uint_value = λ n h. refl;
  uint_bool = λ n. refl;
  int_int = int_int parse;
  int_value = int_value parse;
  string_string = λ s. refl;
  string_value = λ s. refl;
}
  where
    int_int :
        (parse : Bytes → Option Value) (z : ℤ)
        → IsInt32 z
        → RapidJson.is_int (sample parse) (RapidJson.of_int (sample parse) z) ≡ true
    int_int parse (pos n) h = lt→ltb n (2 ^ 31) h
    int_int parse (negsuc n) h = lt→ltb n (2 ^ 31) h

    int_value :
        (parse : Bytes → Option Value) (z : ℤ)
        → IsInt32 z
        → RapidJson.get_int (sample parse) (RapidJson.of_int (sample parse) z) ≡ z
    int_value parse (pos n) h = refl
    int_value parse (negsuc n) h = refl
