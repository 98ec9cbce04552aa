-- ===== src/String/Copies.antt =====
-- Assigning a C string, and a text's way through JSON and back.
use xmrig_nonces_heatmap.Prelude.{◌≡◌, refl, Bytes, [], ◌∷◌, Option, none, some, arith, eq_nat}
use xmrig_nonces_heatmap.Json.{RapidJson, or_default, typed}
use xmrig_nonces_heatmap.Json.Objects.{Laws}
use xmrig_nonces_heatmap.String.{String, c_str, copy_c, to_json}

-- the part of a text that C's functions see has no NUL left to cut at
pub c_str_idem : (s : Bytes) → c_str (c_str s) ≡ c_str s
unfolding c_str
c_str_idem [] = refl
c_str_idem (b ∷ s) = ground (arith, c_str_idem s)

-- a string that was assigned from a C string
pub record IsAssigned (s : String) : Type 0 where
  pub source : Option Bytes
  pub assigned : s ≡ copy_c source

-- what is read back of the JSON value of an assigned string is that string
pub copy_c-to_json :
    (rj : RapidJson) (laws : Laws rj) (s : String)
    → IsAssigned s
    → copy_c (
        or_default rj
          (typed rj (some (to_json rj s)) rj.is_string)
          (λ v. some (rj.get_string v))
          none)
      ≡ s
copy_c-to_json rj laws s a = rw a.assigned (go a.source)
  where
    go :
        (o : Option Bytes)
        → copy_c (
            or_default rj
              (typed rj (some (to_json rj (copy_c o))) rj.is_string)
              (λ v. some (rj.get_string v))
              none)
          ≡ copy_c o
    go none = unfold to_json copy_c in simp (laws.null_string)
    go (some t) = unfold to_json copy_c in simp (laws.string_string, laws.string_value, c_str_idem)
