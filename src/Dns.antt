-- ===== src/Dns.antt =====
-- base/net/dns/DnsRecord.cpp and Dns.cpp with the storage of Dns.h: the resolution of a host name. A
-- socket address and its text are libuv's: `Uv` has the calls that are made. An address in the heap
-- is a number; `world` has what stands there. The error code that `uv_getaddrinfo` returns and the
-- result of `rand` are arguments. `error` only names a status.
pub mod Records
pub mod Runs
use xmrig_nonces_heatmap.Prelude.{
  ℕ, ◌+◌, ◌%◌, ℤ, pos, is_negative, int_beq, Bool, true, false, ◌&&◌, ◌||◌, not, Bytes, List, [],
  ◌∷◌, ◌++◌, Option, none, some, eq_nat, ◌==◌, if◌then◌else◌, is_nil, length, get_elem?,
}
use xmrig_nonces_heatmap.Dict
use xmrig_nonces_heatmap.Dict.{Dict}
use xmrig_nonces_heatmap.Storage
use xmrig_nonces_heatmap.Storage.{Storage, storage}
use xmrig_nonces_heatmap.String
use xmrig_nonces_heatmap.String.{String}

-- `DnsRecord::Type`
pub data RecordType : Type 0 where
  unknown type_a type_aaaa : RecordType

abbrev pub is_aaaa : RecordType → Bool
is_aaaa type_aaaa = true
is_aaaa _ = false

pub record DnsRecord : Type 0 where
  pub m_type : RecordType
  pub m_ip : String

-- `defaultRecord`
unfoldable pub default_record : DnsRecord
default_record = record { m_type = unknown; m_ip = String.null_string }

-- `ai_family`
pub data Family : Type 0 where
  inet inet6 other : Family

abbrev pub is_inet : Family → Bool
is_inet inet = true
is_inet _ = false

abbrev pub is_inet6 : Family → Bool
is_inet6 inet6 = true
is_inet6 _ = false

-- what is called of libuv
pub record Uv : Type 1 where
  pub Sockaddr : Type 0
  pub ip4_name : Sockaddr → Bytes
  pub ip6_name : Sockaddr → Bytes
  pub ip4_addr : Bytes → ℕ → Sockaddr
  pub ip6_addr : Bytes → ℕ → Sockaddr
  pub eai_noname : ℤ

-- the members of `Dns` but the constant `m_hints`; `m_key` and `m_resolver` do not change
pub record Dns : Type 0 where
  pub m_listener : ℕ
  pub m_status : ℤ
  pub m_ipv4 : List DnsRecord
  pub m_ipv6 : List DnsRecord
  pub m_host : String
  pub m_key : ℕ
  pub m_resolver : ℕ

unfoldable pub clear : Dns → Dns
clear dns = record dns { m_ipv4 = []; m_ipv6 = [] }

abbrev pub is_empty : Dns → Bool
is_empty dns = is_nil dns.m_ipv4 && is_nil dns.m_ipv6

-- `count` of a type
unfoldable pub count : RecordType → Dns → ℕ
count type_a dns = length dns.m_ipv4
count type_aaaa dns = length dns.m_ipv6
count unknown dns = length dns.m_ipv4 + length dns.m_ipv6

-- a random record of a list; `none` is a read out of range
unfoldable pub pick : ℕ → List DnsRecord → Option DnsRecord
pick rand records = get_elem? records (if length records == 1 then 0 else rand % length records)

-- `get`, with what `rand` returns
unfoldable pub get : RecordType → ℕ → Dns → Option DnsRecord
unfolding count pick
get prefered rand dns =
    if count unknown dns == 0
    then some default_record
    else if not (is_nil dns.m_ipv6) && (is_aaaa prefered || is_nil dns.m_ipv4)
    then pick rand dns.m_ipv6
    else if not (is_nil dns.m_ipv4)
    then pick rand dns.m_ipv4
    else some default_record

-- `resolve`, where `rc` is what `uv_getaddrinfo` returns
unfoldable pub resolve : String → ℤ → Dns → Bool × Dns
unfolding clear
resolve host rc dns =
    let dns' =
      if not (String.is_equal dns.m_host host) then clear (record dns { m_host = host }) else dns in
    (int_beq rc (pos 0), record dns' { m_status = rc })

module _ (uv : Uv) where
  open uv use {Sockaddr}

  pub record AddrInfo : Type 0 where
    pub ai_family : Family
    pub ai_addr : Sockaddr

  -- the constructor of a record
  unfoldable pub of_addrinfo : AddrInfo → DnsRecord
  of_addrinfo addr =
      if is_inet6 addr.ai_family
      then record { m_type = type_aaaa; m_ip = String.of_owned (some (uv.ip6_name addr.ai_addr)) }
      else record { m_type = type_a; m_ip = String.of_owned (some (uv.ip4_name addr.ai_addr)) }

  -- `addr`, where a record without an address gives a null pointer
  unfoldable pub addr : ℕ → DnsRecord → Option Sockaddr
  unfolding String.c_str
  addr port record' = elim record'.m_type [
    | unknown ↦ none
    | type_a ↦ some (uv.ip4_addr (String.c_str (String.bytes record'.m_ip)) port)
    | type_aaaa ↦ some (uv.ip6_addr (String.c_str (String.bytes record'.m_ip)) port)
  ]

  -- a round of the loop of `onResolved`
  unfoldable pub emplace : AddrInfo → Dns → Dns
  unfolding of_addrinfo
  emplace ptr dns =
      let dns' =
        if is_inet ptr.ai_family
        then record dns { m_ipv4 = dns.m_ipv4 ++ of_addrinfo ptr ∷ [] }
        else dns in
      if is_inet6 ptr.ai_family
      then record dns' { m_ipv6 = dns'.m_ipv6 ++ of_addrinfo ptr ∷ [] }
      else dns'

  unfoldable pub emplace_all : List AddrInfo → Dns → Dns
  unfolding emplace
  emplace_all [] dns = dns
  emplace_all (ptr ∷ res) dns = emplace_all res (emplace ptr dns)

  -- `onResolved`, up to the call of the listener, which gets `m_status`
  unfoldable pub on_resolved : ℤ → List AddrInfo → Dns → Dns
  unfolding emplace_all clear
  on_resolved status res dns =
      if is_negative status
      then record dns { m_status = status }
      else let dns' = emplace_all res (clear (record dns { m_status = status })) in
        if is_empty dns' then record dns' { m_status = uv.eai_noname } else dns'

  -- a call of `IDnsListener::onResolved`
  pub record Told : Type 0 where
    pub listener : ℕ
    pub dns : Dns
    pub status : ℤ

  -- the storage, the objects and the requests by their addresses, and the calls of the listeners
  pub record World : Type 0 where
    pub m_storage : Storage ℕ
    pub objects : Dict ℕ Dns
    pub resolvers : Dict ℕ ℕ
    pub told : List Told

  unfoldable pub world : World
  world = record { m_storage = storage; objects = []; resolvers = []; told = [] }

  -- the constructor: an object at `at`, with its request at `req`
  unfoldable pub create : (listener at req : ℕ) → World → World
  unfolding Storage.add
  create listener at req w =
      let (key, m_storage) = Storage.add at w.m_storage in
      record w {
        m_storage = m_storage;
        objects =
            Dict.assign at
              (record {
                m_listener = listener;
                m_status = pos 0;
                m_ipv4 = [];
                m_ipv6 = [];
                m_host = String.null_string;
                m_key = key;
                m_resolver = req;
              })
              w.objects;
        resolvers = Dict.assign req key w.resolvers;
      }

  -- the destructor of `dns`, which stands at `at`
  unfoldable pub destroy : (at : ℕ) → Dns → World → World
  unfolding Storage.release
  destroy at dns w = record w {
    m_storage = (Storage.release dns.m_key w.m_storage).1;
    objects = Dict.erase at w.objects;
    resolvers = Dict.erase dns.m_resolver w.resolvers;
  }

  -- `dns->onResolved(status, res)` for the object at `at`; `none` is a call on freed memory
  unfoldable pub resolved_at : (at : ℕ) → ℤ → List AddrInfo → World → Option World
  unfolding on_resolved
  resolved_at at status res w = elim (Dict.find at w.objects) [
    | none ↦ none
    | some dns ↦
        let dns' = on_resolved status res dns in
        some (record w {
          objects = Dict.assign at dns' w.objects;
          told =
              w.told
              ++ record { listener = dns'.m_listener; dns = dns'; status = dns'.m_status } ∷ [];
        })
  ]

  -- the callback, whose `req` is the address of a request; `none` is a read of freed memory
  unfoldable pub on_resolved_callback : (req : ℕ) → ℤ → List AddrInfo → World → Option World
  unfolding Storage.get resolved_at
  on_resolved_callback req status res w = elim (Dict.find req w.resolvers) [
    | none ↦ none
    | some data' ↦ elim (Storage.get data' w.m_storage) [
      | none ↦ some w
      | some at ↦ resolved_at at status res w
    ]
  ]
