-- ===== src/Network.antt =====
-- Network.h and Network.cpp: the download of the nonces that are missing, by up to `concurrency`
-- block header ranges at a time. Each handler is a function of the state; `none` is the
-- `std::out_of_range` that `m_data.at` throws. The state also holds what the handlers act on
-- outside the object: the static request counter, the requests handed to `fetch`, the calls of
-- the listener, and App's vector of nonces. Log lines are left out.
pub mod Coverage
pub mod Ranges
pub mod Asks
pub mod Start
pub mod Steps
pub mod Retry
pub mod Reply
pub mod Runs
pub mod Header
pub mod Sync
pub mod Failures
use xmrig_nonces_heatmap.Prelude.{
  ℕ, zero, suc, ◌+◌, ◌-◌, ◌%◌, ◌^◌, min, is_negative, Bool, true, false, ◌&&◌, ◌||◌, not, codes,
  List, [], ◌∷◌, ◌++◌, Option, none, some, ◌==◌, eq_nat, if◌then◌else◌, ltb, length, is_nil,
}
use xmrig_nonces_heatmap.Dict
use xmrig_nonces_heatmap.Dict.{Dict}
use xmrig_nonces_heatmap.Json
use xmrig_nonces_heatmap.Json.{RapidJson}
use xmrig_nonces_heatmap.JsonRequest
use xmrig_nonces_heatmap.String
use xmrig_nonces_heatmap.Daemon
use xmrig_nonces_heatmap.Daemon.{Daemon}
use xmrig_nonces_heatmap.Fetch
use xmrig_nonces_heatmap.Fetch.{FetchRequest}
use xmrig_nonces_heatmap.HttpData
use xmrig_nonces_heatmap.HttpData.{HttpData}

pub record Range : Type 0 where
  pub start : ℕ
  pub end : ℕ

-- `Range(start, count, max)`, in uint32_t
unfoldable pub new_range : ℕ → ℕ → ℕ → Range
new_range start count max = record { start = start; end = min ((start + count) % 2 ^ 32) max }

-- `RequestType`
abbrev pub last_block_header : ℕ
last_block_header = 1

abbrev pub block_headers_range : ℕ
block_headers_range = 2

-- calls of INetworkListener
pub data Notice : Type 0 where
  fatal_error : Notice
  sync_done : Bool → Notice

-- an argument list of `fetch`
pub record Sent : Type 0 where
  pub request : FetchRequest
  pub user_type : ℕ
  pub rpc_id : ℕ

pub record Network : Type 0 where
  pub m_daemon : Daemon
  pub m_data : Dict ℕ ℕ
  pub m_req : Dict ℕ Range
  pub m_nonces : List ℕ
  pub m_timer : Option (ℕ × ℕ)
  pub m_height : ℕ
  pub m_pos : ℕ
  pub m_timestamp : ℕ
  pub next_id : ℕ
  pub sent : List Sent
  pub notices : List Notice

-- the constructor
abbrev pub network : Daemon → List ℕ → ℕ → Network
network daemon nonces next_id = record {
  m_daemon = daemon;
  m_data = [];
  m_req = [];
  m_nonces = nonces;
  m_timer = none;
  m_height = 0;
  m_pos = 0;
  m_timestamp = 0;
  next_id = next_id;
  sent = [];
  notices = [];
}

-- `m_listener->onFatalError()` and `m_listener->onSyncDone(modified)`
abbrev pub notify : Network → Notice → Network
notify n notice = record n { notices = n.notices ++ notice ∷ [] }

-- the loop of `save`: `count` rounds from index `i`
unfoldable pub collect : Dict ℕ ℕ → ℕ → ℕ → Option (List ℕ)
collect m_data zero i = some []
collect m_data (suc count) i =
    let rest = collect m_data count (i + 1) in
    elim (Dict.find i m_data) [
      | none ↦ none
      | some nonce ↦ elim rest [ none ↦ none | some nonces ↦ some (nonce ∷ nonces) ]
    ]

-- `save` behind its loop
abbrev pub saved : Network → List ℕ → Network
saved n nonces =
    notify (record n { m_timer = none; m_nonces = n.m_nonces ++ nonces; m_data = [] })
      (sync_done true)

-- `save`: the loop runs for `i` from the number of nonces up to `m_height`
unfoldable pub save : Network → Option Network
unfolding collect
save n =
    let i = length n.m_nonces in
    elim (collect n.m_data (n.m_height + 1 - i) i) [
      | none ↦ none
      | some nonces ↦ some (saved n nonces)
    ]

-- `sync` before its loop
unfoldable pub prepare : ℕ → Network → Network
prepare now n =
    let interval = Daemon.print_time n.m_daemon in
    record n {
      m_timer = if interval == 0 then n.m_timer else some (interval, interval);
      m_timestamp = now;
      m_pos = length n.m_nonces % 2 ^ 32;
    }

module _ (rj : RapidJson) where
  open rj use {Value}

  -- `rpcSend`; `fetch` is called once
  unfoldable pub rpc_send : Value → ℕ → ℕ → Network → Network
  unfolding Fetch.request String.of_c_string
  rpc_send value type id n = record n {
    sent =
        n.sent
        ++ record {
          request =
              record (Fetch.request rj Fetch.http_post n.m_daemon.m_host n.m_daemon.m_port
                (String.of_c_string (some (codes "/json_rpc"))) value n.m_daemon.m_tls false) {
                  timeout = Daemon.timeout n.m_daemon;
                };
          user_type = type;
          rpc_id = id;
        }
          ∷ [];
  }

  -- `getBlockHeadersRange(const Range &range)`: the id, and the state
  unfoldable pub get_range : Range → Network → ℕ × Network
  unfolding rpc_send JsonRequest.create_params
  get_range range n =
      let params = rj.add_member rj.object (codes "start_height") (rj.of_uint range.start) in
      let params = rj.add_member params (codes "end_height") (rj.of_uint range.end) in
      let (doc, id) =
        JsonRequest.create_params rj rj.object (codes "getblockheadersrange") params n.next_id in
      let n' = record n { m_pos = (range.end + 1) % 2 ^ 32; next_id = id } in
      let n'' = rpc_send doc block_headers_range id n' in
      (id, record n'' { m_req = Dict.insert id range n''.m_req })

  -- `getBlockHeadersRange()`
  unfoldable pub get_next_range : Network → ℕ × Network
  unfolding get_range new_range
  get_next_range n =
      if ltb n.m_height n.m_pos
      then (0, n)
      else get_range (new_range n.m_pos n.m_daemon.m_max_range n.m_height) n

  -- `getLastBlockHeader`
  unfoldable pub get_last_block_header : Network → ℕ × Network
  unfolding rpc_send JsonRequest.create_params
  get_last_block_header n =
      let (doc, id) =
        JsonRequest.create_params rj rj.object (codes "getlastblockheader") rj.null n.next_id in
      (id, rpc_send doc last_block_header id (record n { next_id = id }))

  -- `connect`
  unfoldable pub connect : Network → Network
  unfolding get_last_block_header
  connect n = (get_last_block_header n).1

  -- the loop of `sync`
  unfoldable pub start_ranges : ℕ → Network → Network
  unfolding get_next_range
  start_ranges zero n = n
  start_ranges (suc i) n = start_ranges i (get_next_range n).1

  -- `sync`, at the time `now`
  unfoldable pub sync : ℕ → Network → Network
  unfolding start_ranges prepare
  sync now n = start_ranges n.m_daemon.m_concurrency (prepare now n)

  -- `setLastBlockHeader`; the reader's object is `header`
  unfoldable pub set_last_block_header : ℕ → Value → Network → Bool × Network
  unfolding sync
  set_last_block_header now header n0 =
      let n = record n0 { m_height = Json.get_uint rj header (codes "height") 0 } in
      let top = (n.m_height + 1) % 2 ^ 32 in
      if (n.m_height == 0) || ltb top (length n.m_nonces)
      then (false, n)
      else if ltb (length n.m_nonces) top
      then (true, sync now n)
      else (true, notify n (sync_done false))

  -- the loop that inserts `height` and `nonce` of each header
  unfoldable pub insert_headers : List Value → Dict ℕ ℕ → Dict ℕ ℕ
  insert_headers [] m = m
  insert_headers (header ∷ headers) m = insert_headers headers (
      Dict.insert (Json.get_uint rj header (codes "height") 0)
        (Json.get_uint rj header (codes "nonce") 0) m)

  -- `setBlockHeadersRange` from the test of `m_req.empty()` on
  unfoldable pub advance : Network → Option (Bool × Network)
  unfolding save get_next_range
  advance n =
      if Dict.empty n.m_req && ltb n.m_height n.m_pos
      then elim (save n) [ none ↦ none | some n' ↦ some (true, n') ]
      else if ltb (Dict.size n.m_req) n.m_daemon.m_concurrency
      then some (true, (get_next_range n).1)
      else some (true, n)

  -- `setBlockHeadersRange` behind its two guards
  unfoldable pub take_headers : ℕ → List Value → Network → Option (Bool × Network)
  unfolding insert_headers advance
  take_headers id headers n =
      advance (record n { m_data = insert_headers headers n.m_data; m_req = Dict.erase id n.m_req })

  -- `setBlockHeadersRange`
  unfoldable pub set_block_headers_range : ℕ → Value → Network → Option (Bool × Network)
  unfolding take_headers
  set_block_headers_range id headers n =
      if not (rj.is_array headers) || is_nil (rj.elements headers)
      then some (false, n)
      else elim (Dict.find id n.m_req) [
        | none ↦ some (false, n)
        | some range ↦ take_headers id (rj.elements headers) n
      ]

  -- the tail of `onRpcResponse`: a handler that returns false is a fatal error
  abbrev pub or_fatal : Option (Bool × Network) → Option Network
  or_fatal none = none
  or_fatal (some (true, n)) = some n
  or_fatal (some (false, n)) = some (notify n fatal_error)

  -- `onRpcResponse`
  unfoldable pub on_rpc_response : ℕ → ℕ → Value → Value → ℕ → Network → Option Network
  unfolding set_last_block_header set_block_headers_range
  on_rpc_response now id result error type n =
      if rj.is_object error || not (rj.is_object result)
      then some (notify n fatal_error)
      else if type == last_block_header
      then or_fatal
          (some (set_last_block_header now (Json.get_object rj result (codes "block_header")) n))
      else if type == block_headers_range
      then or_fatal (set_block_headers_range id (Json.get_array rj result (codes "headers")) n)
      else some n

  -- `onHttpData` from the test of `isJSON` on
  unfoldable pub read_response : ℕ → HttpData → Network → Option Network
  unfolding on_rpc_response HttpData.is_json String.c_str
  read_response now response n =
      if not (HttpData.is_json response)
      then some (notify n fatal_error)
      else elim (rj.parse (String.c_str response.body)) [
        | none ↦ some (notify n fatal_error)
        | some doc ↦
            on_rpc_response now (Json.get_uint64 rj doc (codes "id") 0)
              (Json.get_object rj doc (codes "result")) (Json.get_object rj doc (codes "error"))
              response.user_type n
      ]

  -- `onHttpData`: a range whose connection failed is asked for again, under a new id
  unfoldable pub on_http_data : ℕ → HttpData → Network → Option Network
  unfolding read_response get_range
  on_http_data now response n =
      if (response.user_type == block_headers_range) && is_negative response.status
      then elim (Dict.find response.rpc_id n.m_req) [
        | none ↦ read_response now response n
        | some range ↦
            let (_, n') = get_range range n in
            some (record n' { m_req = Dict.erase response.rpc_id n'.m_req })
      ]
      else read_response now response n

-- the numbers that `printSync` logs, in uint32_t: synced, total and remaining
unfoldable pub print_sync : Network → ℕ × ℕ × ℕ
print_sync n =
    let synced = (length n.m_nonces + Dict.size n.m_data) % 2 ^ 32 in
    let total = (n.m_height + 1) % 2 ^ 32 in (synced, total, (total + 2 ^ 32 - synced) % 2 ^ 32)
