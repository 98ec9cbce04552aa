-- ===== src/Job/Saved.antt =====
-- Job.toJSON and the constructor from JSON, one after the other.
use xmrig_nonces_heatmap.Prelude.{◌^◌, ◌<◌, ◌≡◌, true}
use xmrig_nonces_heatmap.Dict
use xmrig_nonces_heatmap.Json
use xmrig_nonces_heatmap.Json.{RapidJson}
use xmrig_nonces_heatmap.Json.Objects.{
  Laws, IsInt32, member-add_members, is_object-add_members, object_empty-add_members,
}
use xmrig_nonces_heatmap.String.Copies.{IsAssigned, copy_c-to_json}
use xmrig_nonces_heatmap.Job.{Job, of_json, to_json}

-- the fields are in the ranges of their types, and the strings were assigned
pub record IsProper (j : Job) : Type 0 where
  pub name : IsAssigned j.m_name
  pub info_file : IsAssigned j.m_info_file
  pub start : IsInt32 j.m_start
  pub end : IsInt32 j.m_end
  pub height : j.m_height < 2 ^ 32
  pub max_nonce : j.m_max_nonce < 2 ^ 32
  pub min_nonce : j.m_min_nonce < 2 ^ 32
  pub radius : j.m_radius < 2 ^ 32
  pub x : j.m_x < 2 ^ 32

pub is_object-to_json :
    (rj : RapidJson) (laws : Laws rj) (j : Job) → rj.is_object (to_json rj j) ≡ true
unfolding to_json
is_object-to_json rj laws j = is_object-add_members rj laws _

-- A job that `toJSON` writes is read back as it was, if its strings were assigned from C strings
-- and its numbers are in the ranges of their types.
pub of_json-to_json :
    (rj : RapidJson) (laws : Laws rj) (j : Job) → IsProper j → of_json rj (to_json rj j) ≡ j
unfolding of_json to_json Json.get_uint Json.get_int Json.get_string Dict.find
of_json-to_json rj laws j p = simp (
  is_object-add_members rj laws,
  object_empty-add_members rj laws,
  member-add_members rj laws,
  laws.uint_uint,
  laws.uint_value,
  laws.int_int,
  laws.int_value,
  p.height,
  p.max_nonce,
  p.min_nonce,
  p.radius,
  p.x,
  p.start,
  p.end,
  copy_c-to_json rj laws j.m_name p.name,
  copy_c-to_json rj laws j.m_info_file p.info_file,
)
