-- ===== src/Tests/Names.antt =====
-- Keys of objects, and answers of the resolver.
use xmrig_nonces_heatmap.Prelude.{
  eq_nat, ℕ, true, ◌≡◌, refl, arith, pos, negsuc, Bytes, codes, List, [], ◌∷◌, Option, none, some,
}
use xmrig_nonces_heatmap.Dict
use xmrig_nonces_heatmap.String
use xmrig_nonces_heatmap.Storage
use xmrig_nonces_heatmap.Storage.{Storage, storage}
use xmrig_nonces_heatmap.Storage.Keys.{added, released, calls, get-add-calls}
use xmrig_nonces_heatmap.Dns.{
  Uv, Dns, AddrInfo, inet, inet6, type_aaaa, get, on_resolved, World, world, create, destroy,
  on_resolved_callback,
}
use xmrig_nonces_heatmap.Dns.Runs.{Reach, started, created, after, callback_outcome}

-- another object is added and released while the first one lives
get-add-calls_example :
    let later = calls {A = ℕ} (added 8 ∷ released 1 ∷ []) (Storage.add 7 storage).1 in
    (Storage.may_get 0 later ≡ true) × (Storage.get 0 later ≡ some 7)
unfolding Storage.add
get-add-calls_example = get-add-calls 7 (added 8 ∷ released 1 ∷ []) storage (omega arith)

-- a socket address is its text
abbrev uv : Uv
uv = record {
  Sockaddr = Bytes;
  ip4_name = λ addr. addr;
  ip6_name = λ addr. addr;
  ip4_addr = λ name port. name;
  ip6_addr = λ name port. name;
  eai_noname = negsuc 3007;
}

abbrev both : List (AddrInfo uv)
both =
    record { ai_family = inet; ai_addr = codes "10.0.0.1" }
    ∷ record { ai_family = inet6; ai_addr = codes "::1" }
    ∷ []

abbrev new_dns : Dns
new_dns = record {
  m_listener = 5;
  m_status = pos 0;
  m_ipv4 = [];
  m_ipv6 = [];
  m_host = String.null_string;
  m_key = 0;
  m_resolver = 2;
}

-- the record of the preferred family
preferred :
    get type_aaaa 9 (on_resolved uv (pos 0) both new_dns)
    ≡ some
        (record { m_type = type_aaaa; m_ip = record { m_data = some (codes "::1"); m_size = 3 } })
unfolding get on_resolved String.of_owned String.c_str
preferred = refl

abbrev one_object : World uv
one_object = create uv 5 1 2 (world uv)

one_object-Reach : Reach uv one_object
unfolding world create Dict.find
one_object-Reach = created started 5 1 2 refl refl (omega arith)

one_object_found : Dict.find 1 one_object.objects ≡ some new_dns
unfolding create Dict.find Dict.assign world
one_object_found = refl

callback_outcome_example :
    (on_resolved_callback uv 2 (pos 0) both one_object
      ≡ some (after uv 1 (on_resolved uv (pos 0) both new_dns) one_object))
    × ((on_resolved uv (pos 0) both new_dns).m_listener ≡ 5)
    × (on_resolved_callback uv 2 (pos 0) both (destroy uv 1 new_dns one_object) ≡ none)
callback_outcome_example =
    callback_outcome uv one_object 1 new_dns (pos 0) both one_object-Reach one_object_found

-- A request that is made where a destroyed one stood gets the answer of that one: the second
-- object is told of it.
abbrev second_object : World uv
second_object = create uv 6 3 2 (destroy uv 1 new_dns one_object)

abbrev first_listener : Option (World uv) → Option ℕ
first_listener none = none
first_listener (some w) = elim w.told [ [] ↦ none | t ∷ ts ↦ some t.listener ]

stale_answer : first_listener (on_resolved_callback uv 2 (pos 0) both second_object) ≡ some 6
unfolding create destroy on_resolved_callback on_resolved Dict.assign world
stale_answer = refl
