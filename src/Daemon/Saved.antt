-- ===== src/Daemon/Saved.antt =====
-- Daemon.toJSON and the constructor from JSON, one after the other. `toJSON` writes `tls` as a
-- Boolean, and the constructor reads a number.
use xmrig_nonces_heatmap.Prelude.{
  ◌^◌, ◌<◌, ◌≤◌, ◌≡◌, Bool, true, false, refl, ap, if◌then◌else◌, arith, ◌%◌, max,
}
use xmrig_nonces_heatmap.Dict
use xmrig_nonces_heatmap.Json
use xmrig_nonces_heatmap.Json.{RapidJson}
use xmrig_nonces_heatmap.Json.Objects.{
  Laws, member-add_members, is_object-add_members, object_empty-add_members,
}
use xmrig_nonces_heatmap.String.Copies.{IsAssigned, copy_c-to_json}
use xmrig_nonces_heatmap.Daemon.{Daemon, of_json, to_json}

-- the fields are in the ranges that the constructor gives them
pub record IsProper (d : Daemon) : Type 0 where
  pub host : IsAssigned d.m_host
  pub port : d.m_port < 2 ^ 16
  pub concurrency : d.m_concurrency < 2 ^ 32
  pub max_range : d.m_max_range < 2 ^ 32
  pub print_time : d.m_print_time < 2 ^ 32
  pub timeout : d.m_timeout < 2 ^ 32
  pub some_concurrency : 1 ≤ d.m_concurrency
  pub some_range : 1 ≤ d.m_max_range
  pub some_timeout : 1 ≤ d.m_timeout

pub is_object-to_json :
    (rj : RapidJson) (laws : Laws rj) (d : Daemon) → rj.is_object (to_json rj d) ≡ true
unfolding to_json
is_object-to_json rj laws d = is_object-add_members rj laws _

if_same : (b : Bool) → (if b then false else false) ≡ false
if_same true = refl
if_same false = refl

-- With TLS built in or not, every field comes back, and TLS is off.
pub of_json-to_json :
    (rj : RapidJson) (laws : Laws rj) (feature_tls : Bool) (d : Daemon)
    → IsProper d
    → of_json rj feature_tls (to_json rj d) ≡ record d { m_tls = false }
unfolding of_json to_json Json.get_uint Json.get_string Dict.find
of_json-to_json rj laws feature_tls d p =
    let port : d.m_port < 2 ^ 32 = omega (arith, p.port) in
    let port_fits : d.m_port % 2 ^ 16 ≡ d.m_port = omega (arith, p.port) in
    let concurrency : max d.m_concurrency 1 ≡ d.m_concurrency = omega (arith, p.some_concurrency) in
    let max_range : max d.m_max_range 1 ≡ d.m_max_range = omega (arith, p.some_range) in
    let timeout : max d.m_timeout 1 ≡ d.m_timeout = omega (arith, p.some_timeout) in
    simp
      (
        is_object-add_members rj laws,
        object_empty-add_members rj laws,
        member-add_members rj laws,
        laws.bool_uint,
        laws.uint_uint,
        laws.uint_value,
        port,
        p.concurrency,
        p.max_range,
        p.print_time,
        p.timeout,
        port_fits,
        concurrency,
        max_range,
        timeout,
        copy_c-to_json rj laws d.m_host p.host,
      )
      (ap (λ b. record d { m_tls = b }) (if_same feature_tls))
