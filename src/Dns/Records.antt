-- ===== src/Dns/Records.antt =====
-- The records that an answer leaves in a `Dns`, and the one that `get` takes.
use xmrig_nonces_heatmap.Prelude.{
  ◌≡◌, refl, ◌∙◌, inl, inr, ℤ, is_negative, Bool, false, ◌&&◌, ◌||◌, not, List, [], ◌∷◌, ◌++◌,
  eq_nat, if◌then◌else◌, is_nil, Bool-cases, append-nil, append_assoc,
}
use xmrig_nonces_heatmap.Dns.{
  RecordType, is_aaaa, DnsRecord, Family, is_inet, is_inet6, Uv, Dns, clear, AddrInfo, of_addrinfo,
  emplace, emplace_all, on_resolved,
}

-- the list from which `get` takes a record
chosen : RecordType → List DnsRecord → List DnsRecord → List DnsRecord
chosen prefered v4 v6 = if not (is_nil v6) && (is_aaaa prefered || is_nil v4) then v6 else v4

module _ (uv : Uv) where
  -- the records of the addresses of a family
  pub records_of : (Family → Bool) → List (AddrInfo uv) → List DnsRecord
  records_of is_family [] = []
  records_of is_family (ptr ∷ res) =
      let rest = records_of is_family res in
      if is_family ptr.ai_family then of_addrinfo uv ptr ∷ rest else rest

  emplace-records :
      (ptr : AddrInfo uv) (res : List (AddrInfo uv)) (dns : Dns)
      → record (emplace uv ptr dns) {
        m_ipv4 = (emplace uv ptr dns).m_ipv4 ++ records_of is_inet res;
        m_ipv6 = (emplace uv ptr dns).m_ipv6 ++ records_of is_inet6 res;
      }
        ≡ record dns {
          m_ipv4 = dns.m_ipv4 ++ records_of is_inet (ptr ∷ res);
          m_ipv6 = dns.m_ipv6 ++ records_of is_inet6 (ptr ∷ res);
        }
  unfolding emplace records_of
  emplace-records ptr res dns = elim (Bool-cases (is_inet ptr.ai_family)) [
    | inl e ↦ elim (Bool-cases (is_inet6 ptr.ai_family)) [
      | inl e6 ↦ rw (e, e6, emplace, append_assoc, append_assoc) refl
      | inr e6 ↦ rw (e, e6, emplace, append_assoc) refl
    ]
    | inr e ↦ elim (Bool-cases (is_inet6 ptr.ai_family)) [
      | inl e6 ↦ rw (e, e6, emplace, append_assoc) refl
      | inr e6 ↦ rw (e, e6, emplace) refl
    ]
  ]

  emplace_all-records :
      (res : List (AddrInfo uv)) (dns : Dns)
      → emplace_all uv res dns ≡ record dns {
        m_ipv4 = dns.m_ipv4 ++ records_of is_inet res;
        m_ipv6 = dns.m_ipv6 ++ records_of is_inet6 res;
      }
  unfolding emplace_all emplace records_of
  emplace_all-records [] dns = rw (append-nil dns.m_ipv4, append-nil dns.m_ipv6) refl
  emplace_all-records (ptr ∷ res) dns =
      emplace_all-records res (emplace uv ptr dns) ∙ emplace-records ptr res dns

  pub on_resolved-records :
      (status : ℤ) (res : List (AddrInfo uv)) (dns : Dns)
      → is_negative status ≡ false
      → on_resolved uv status res dns ≡ record dns {
        m_ipv4 = records_of is_inet res;
        m_ipv6 = records_of is_inet6 res;
        m_status =
            if is_nil (records_of is_inet res) && is_nil (records_of is_inet6 res)
            then uv.eai_noname
            else status;
      }
  unfolding on_resolved clear
  on_resolved-records status res dns h =
      rw (h, emplace_all-records res (clear (record dns { m_status = status })))
        (elim (Bool-cases (is_nil (records_of is_inet res) && is_nil (records_of is_inet6 res))) [
          | inl e ↦ rw e refl
          | inr e ↦ rw e refl
        ])

  -- the records from which one is taken
  pub wanted : RecordType → List (AddrInfo uv) → List DnsRecord
  wanted prefered res = chosen prefered (records_of is_inet res) (records_of is_inet6 res)
