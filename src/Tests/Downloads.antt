-- ===== src/Tests/Downloads.antt =====
-- Network at a chain of ten blocks, two of which are known.
use xmrig_nonces_heatmap.Prelude.{
  ℕ, ◌+◌, ◌*◌, ◌^◌, ◌≤◌, ◌<◌, ◌≡◌, ◌⊎◌, inl, inr, refl, ℤ, pos, negsuc, Bytes, codes, [], ◌∷◌, ◌++◌,
  Option, none, some, arith, ◌==◌, ◌↔◌, eq_nat, eq_bytes, if◌then◌else◌,
}
use xmrig_nonces_heatmap.Dict
use xmrig_nonces_heatmap.Json
use xmrig_nonces_heatmap.Json.{RapidJson}
use xmrig_nonces_heatmap.String
use xmrig_nonces_heatmap.Daemon.{default_daemon}
use xmrig_nonces_heatmap.HttpData
use xmrig_nonces_heatmap.HttpData.{HttpData}
use xmrig_nonces_heatmap.Network.{
  Network, Range, network, sync, on_http_data, notify, save, fatal_error,
}
use xmrig_nonces_heatmap.Network.Start.{IsSyncing, sync-IsSyncing, work}
use xmrig_nonces_heatmap.Network.Sync.{all_asked, sync-sent}
use xmrig_nonces_heatmap.Network.Steps.{IsDone}
use xmrig_nonces_heatmap.Network.Retry.{Fails, IsAskedAgain, fail-IsSyncing}
use xmrig_nonces_heatmap.Network.Reply.{Answers, Carries}
use xmrig_nonces_heatmap.Network.Header.{IsReady, Heads, Outcome, header_outcome}
use xmrig_nonces_heatmap.Network.Runs.{
  Run, Answered, answer-IsSyncing, event_outcome, run_outcome, replies_bound, here, next, none_yet,
  one_more, failed,
}
use xmrig_nonces_heatmap.Network.Failures.{save-throws, Misses, on_http_data-Unusable}
use xmrig_nonces_heatmap.Tests.Sample.{Value, no_members, unsigned, member, sample, array}

-- the nonce of each block
abbrev pub chain : ℕ → ℕ
chain h = h * 7

abbrev header : ℕ → Value
header h =
    member (codes "height") (unsigned h) (member (codes "nonce") (unsigned (chain h)) no_members)

-- the daemon's replies: the last header, and the blocks 2 to 4
abbrev last_reply : Value
last_reply =
    member (codes "id") (unsigned 1)
      (member (codes "result") (member (codes "block_header") (header 9) no_members) no_members)

abbrev range_reply : Value
range_reply = member (codes "id") (unsigned 1) (
    member (codes "result")
      (member (codes "headers") (array (header 2 ∷ header 3 ∷ header 4 ∷ [])) no_members)
      no_members)

abbrev replies : Bytes → Option Value
replies s =
    if s == codes "last"
    then some last_reply
    else if s == codes "range"
    then some range_reply
    else none

abbrev pub rj : RapidJson
rj = sample replies

abbrev response : ℕ → ℤ → ℕ → Bytes → HttpData
response type status id body = record {
  method = 0;
  status = status;
  user_type = type;
  headers = (HttpData.content_type_l, HttpData.application_json) ∷ [];
  body = body;
  url = codes "/json_rpc";
  rpc_id = id;
  m_id = 0;
}

abbrev pub start : Network
start =
    record (network (record default_daemon { m_concurrency = 2; m_max_range = 2 }) (0 ∷ 7 ∷ []) 0) {
      m_height = 9;
    }

pub start-IsSyncing : IsSyncing chain 2 (sync rj 5 start)
start-IsSyncing =
    sync-IsSyncing rj chain 2 5 start refl refl refl refl (omega arith) (omega arith) (omega arith)
      (omega arith) (omega arith)

-- the first two ranges that are asked for
abbrev first_range : Range
first_range = record { start = 2; end = 4 }

abbrev pub second_range : Range
second_range = record { start = 5; end = 7 }

first_found : Dict.find 1 (sync rj 5 start).m_req ≡ some first_range
unfolding Dict.find sync Dict.insert
first_found = refl

pub second_found : Dict.find 2 (sync rj 5 start).m_req ≡ some second_range
unfolding Dict.find sync Dict.insert
second_found = refl

quiet : (sync rj 5 start).notices ≡ []
unfolding sync
quiet = refl

pub room : (sync rj 5 start).next_id + 1 < 2 ^ 64
unfolding sync
room = omega arith

first_answer : Answers rj chain 1 first_range range_reply
unfolding Json.get_uint64 Json.get_object Json.get_array Json.get_uint Json.member
first_answer = record {
  names_id = refl;
  no_error = refl;
  result = refl;
  array = refl;
  filled = refl;
  honest = (refl, (refl, (refl, tt)));
  complete = λ h lo hi. ground arith;
}

abbrev answer_response : HttpData
answer_response = response 2 (pos 200) 1 (codes "range")

first_carried : Carries rj range_reply answer_response
unfolding HttpData.is_json Dict.find String.c_str
first_carried = record { type = refl; status = refl; json = refl; parsed = refl }

abbrev pub failure_response : HttpData
failure_response = response 2 (negsuc 3) 2 []

pub second_fails : Fails failure_response
second_fails = record { type = refl; status = refl }

-- the connection of the second range fails, and is asked for again
after_failure :
    Run rj chain
      (sync rj 5 start)
      (event_outcome rj chain start-IsSyncing room 6 failure_response
        (failed second_range second_found second_fails)).0
after_failure =
    let event = failed second_range second_found second_fails in
    next 6 failure_response here quiet room event
      (event_outcome rj chain start-IsSyncing room 6 failure_response event).1

-- the answer to the first range comes in
after_reply :
    Answered rj chain
      (sync rj 5 start)
      1
      (answer-IsSyncing rj chain start-IsSyncing room 6 1 answer_response range_reply first_range
        first_found first_answer first_carried).0
after_reply =
    one_more 6 1 answer_response range_reply first_range none_yet quiet room first_found
      first_answer first_carried
      (answer-IsSyncing rj chain start-IsSyncing room 6 1 answer_response range_reply first_range
        first_found first_answer first_carried).1

run_outcome_example :
    IsSyncing chain 2
      (event_outcome rj chain start-IsSyncing room 6 failure_response
        (failed second_range second_found second_fails)).0
    ⊎ IsDone chain
        (event_outcome rj chain start-IsSyncing room 6 failure_response
          (failed second_range second_found second_fails)).0
run_outcome_example = run_outcome rj chain start-IsSyncing after_failure

abbrev after_answer : Network
after_answer =
    (answer-IsSyncing rj chain start-IsSyncing room 6 1 answer_response range_reply first_range
      first_found first_answer first_carried).0

replies_bound_example :
    (IsSyncing chain 2 after_answer × (1 + work rj after_answer ≤ work rj (sync rj 5 start)))
    ⊎ (IsDone chain after_answer × (1 ≤ work rj (sync rj 5 start)))
replies_bound_example = replies_bound rj chain start-IsSyncing after_reply

fail-IsSyncing_example :
    (n' : Network) × (on_http_data rj 6 failure_response (sync rj 5 start) ≡ some n')
    × IsSyncing chain 2 n'
    × IsAskedAgain rj 2 second_range (sync rj 5 start) n'
fail-IsSyncing_example =
    fail-IsSyncing rj 6 failure_response second_range start-IsSyncing second_fails second_found room

ready : IsReady chain 2 start
ready = record {
  nonces = refl;
  small = omega arith;
  no_data = refl;
  no_req = refl;
  quiet = refl;
  parallel = omega arith;
  ranged = omega arith;
  room = omega arith;
}

sync-sent_example :
    IsSyncing chain 2 (sync rj 5 start)
    × ((sync rj 5 start).sent ≡ [] ++ all_asked rj (sync rj 5 start))
sync-sent_example = sync-sent rj chain 2 5 start ready (omega arith) (omega arith)

abbrev head_response : HttpData
head_response = response 1 (pos 200) 1 (codes "last")

heads : Heads rj last_reply head_response
unfolding HttpData.is_json Dict.find String.c_str Json.get_object Json.member
heads = record { type = refl; json = refl; parsed = refl; no_error = refl; result = refl }

header_outcome_example :
    (n' : Network) × (on_http_data rj 5 head_response start ≡ some n') × Outcome rj chain 2 9 n'
unfolding Json.get_object Json.member Json.get_uint
header_outcome_example =
    header_outcome rj chain 2 5 head_response last_reply start ready heads (omega arith)

empty_parse : rj.parse (String.c_str []) ≡ none
unfolding String.c_str
empty_parse = refl

on_http_data-Unusable_example :
    on_http_data rj 6 (response 2 (pos 500) 7 []) start ≡ some (notify start fatal_error)
on_http_data-Unusable_example =
    on_http_data-Unusable rj 6 (response 2 (pos 500) 7 []) start (inr (inl empty_parse))
      (inr (inl refl))

save-throws_example : (save start ≡ none) ↔ Misses [] 2 8
save-throws_example = save-throws start
