-- ===== src/Tests/Node.antt =====
-- The theorems on the node's answers and on the block feed, at a node of Tests/Libraries.antt.
use decent_ethereum.Base.{
  done, ℕ, zero, suc, ◌+◌, ◌≤◌, ◌<◌, ◌≡◌, ◌≢◌, ◌↔◌, refl, Bool, true, [], ◌∷◌, ◌++◌, some, Bytes,
  ok, err, and_then, invalid_geth_response, already_started, thrown, after, arith,
}
use mathlib.Core.List.{flatten}
use decent_ethereum.Geth.Text.{codes}
use decent_ethereum.Geth.Decoding.{
  lacks_prefix, decode_hex_str, decode_all, proc_resp_single_bytes, proc_resp_int, result_of,
  proc_resp_object,
}
use decent_ethereum.Geth.Requests.{
  post_request, receive, content_callback, build_request_body, build_request_dict, get_block_number,
  get_header_rlp_by_num, get_header_rlp_by_param, convert_blk_num_to_hex,
  wait_and_get_transaction_receipt, get_transaction_receipt,
}
use decent_ethereum.Geth.Answers.{
  decode_hex_str-ok, decode_hex_str-encode, Decodes, decode_all-Decodes,
}
use decent_ethereum.Geth.Exchange.{post_request-flatten, wait_and_get-mined}
use decent_ethereum.BlockFeed.Service.{HostBlockService, create, Round, try_push_new_block}
use decent_ethereum.BlockFeed.Tasks.{
  Updator, updator_tick, StatusLog, Host, start_sending_blocks, status_log, block_updator,
}
use decent_ethereum.BlockFeed.Pushing.{Tried, try_push_new_block-Tried}
use decent_ethereum.BlockFeed.Chain.{
  segment, IsHonest, Fed, Serves, run_tries, run_tries-Fed, run_tries-Serves,
}
use decent_ethereum.BlockFeed.Range.{push_range, push_range-done}
use decent_ethereum.BlockFeed.Ticks.{Ticked, updator_tick-Ticked}
use decent_ethereum.BlockFeed.Status.{total, run_status, final, total-run_status, start_twice}
use decent_ethereum.Tests.Libraries.{one, test_json, pair_hex, node, mining, bool_task}

decode_hex_str-ok_example : (decode_hex_str pair_hex (codes "0x" ++ 5 ∷ 0 ∷ []) ≡ ok (5 ∷ [])) ↔ (
    (c : ℕ) × (t : Bytes) × (codes "0x" ++ 5 ∷ 0 ∷ [] ≡ b'0' ∷ b'x' ∷ c ∷ t)
    × (pair_hex.decode (c ∷ t) ≡ ok (5 ∷ [])))
decode_hex_str-ok_example = decode_hex_str-ok pair_hex (codes "0x" ++ 5 ∷ 0 ∷ []) (5 ∷ [])

decode_hex_str-encode_example :
    (decode_hex_str pair_hex (codes "0x" ++ pair_hex.encode (5 ∷ 6 ∷ [])) ≡ ok (5 ∷ 6 ∷ []))
    × (decode_hex_str pair_hex (codes "0x" ++ pair_hex.encode []) ≡ err invalid_geth_response)
decode_hex_str-encode_example = decode_hex_str-encode pair_hex 5 (6 ∷ [])

-- An answer of one byte.
abbrev body : Bytes
body = codes "0x" ++ 5 ∷ 0 ∷ []

decode_all-Decodes_example :
    (decode_all test_json pair_hex (one body ∷ one body ∷ []) ≡ ok ((5 ∷ []) ∷ (5 ∷ []) ∷ []))
    ↔ Decodes test_json pair_hex (one body ∷ one body ∷ []) ((5 ∷ []) ∷ (5 ∷ []) ∷ [])
decode_all-Decodes_example =
    decode_all-Decodes test_json pair_hex (one body ∷ one body ∷ []) ((5 ∷ []) ∷ (5 ∷ []) ∷ [])

post_request-flatten_example :
    post_request (mining 0) [] ≡ and_then (mining 0 []) (λ ps. ok (flatten ps))
post_request-flatten_example = post_request-flatten (mining 0) []

wait_and_get-mined_example :
    wait_and_get_transaction_receipt test_json pair_hex mining (3 ∷ []) 5 0
    ≡ some (ok (codes "mined"))
unfolding get_transaction_receipt post_request receive build_request_body proc_resp_object result_of
    content_callback build_request_dict
wait_and_get-mined_example =
    wait_and_get-mined test_json pair_hex mining (3 ∷ []) 1 5 0 (codes "mined") (omega arith)
      null_first refl (λ e. cc e)
  where
    null_first :
        (i : ℕ)
        → i < 1
        → get_transaction_receipt test_json pair_hex (mining (0 + i)) (3 ∷ []) ≡ ok (codes "null")
    null_first zero h = refl
    null_first (suc i) h = absurd (omega arith)

-- The feed at block 4, with a receiver, and a round against the node at block 6.
abbrev feed : HostBlockService
feed = record { curr_block_num = 4; has_receiver = true; received = [] }

abbrev round : Round
round = record { net = node 6; recv_block = λ header. ok tt }

abbrev chain : ℕ → Bytes
chain num = num ∷ []

try_push_new_block-Tried_example :
    Tried test_json pair_hex round feed (try_push_new_block test_json pair_hex round feed)
try_push_new_block-Tried_example = try_push_new_block-Tried test_json pair_hex round feed

node_block : (num : ℕ) → get_header_rlp_by_num test_json pair_hex (node 6) num ≡ ok (chain num)
unfolding get_header_rlp_by_num get_header_rlp_by_param convert_blk_num_to_hex post_request receive
    content_callback build_request_body build_request_dict proc_resp_single_bytes result_of
    decode_hex_str lacks_prefix
node_block num = refl

node_number : get_block_number test_json pair_hex (node 6) ≡ ok 6
unfolding get_block_number post_request receive content_callback build_request_body
    build_request_dict proc_resp_int result_of decode_hex_str lacks_prefix
node_number = refl

honest : IsHonest test_json pair_hex chain round
honest num header h = cc (h, node_block num)

run_tries-Fed_example :
    (n : ℕ) × (n ≤ 2)
    × Fed test_json pair_hex chain feed (run_tries test_json pair_hex (round ∷ round ∷ []) feed) n
run_tries-Fed_example =
    run_tries-Fed test_json pair_hex chain (round ∷ round ∷ []) feed (honest, (honest, tt))
      (omega arith)

serves : Serves test_json pair_hex chain 6 round
serves = record {
  latest = 6;
  reported = node_number;
  reached = omega arith;
  has_header = λ num le. node_block num;
  accepts = λ header. refl;
}

run_tries-Serves_example :
    Fed test_json pair_hex chain feed (run_tries test_json pair_hex (round ∷ round ∷ []) feed) 2
run_tries-Serves_example =
    run_tries-Serves test_json pair_hex chain 6 (round ∷ round ∷ []) feed (serves, (serves, tt))
      refl (omega arith) (omega arith)

abbrev updator : Updator Bool
updator = record {
  ticking = true;
  has_service = true;
  retry_interval_mil_sec = 1000;
  service = feed;
}

updator_tick-Ticked_example :
    Ticked bool_task test_json pair_hex round updator
      (updator_tick bool_task test_json pair_hex round updator)
updator_tick-Ticked_example = updator_tick-Ticked bool_task test_json pair_hex round updator

abbrev log_task : StatusLog
log_task = record { has_service = true; last_block_num = 2; report = [] }

total-run_status_example :
    2 + total (run_status (feed ∷ feed ∷ []) log_task).report
    ≡ final 2 (feed ∷ feed ∷ []) + total []
total-run_status_example =
    total-run_status (feed ∷ feed ∷ []) log_task refl
      (omega arith, omega arith, (omega arith, omega arith, tt))

abbrev idle : Host
idle = record { service = create; tasks = [] }

abbrev start_block : ℕ
start_block = 4

start_twice_example :
    let first = after (start_sending_blocks start_block idle) in
    (start_block ≢ 0 → start_sending_blocks 9 first ≡ thrown already_started first)
    × (start_block ≡ 0
        → (after (start_sending_blocks 9 first)).tasks
          ≡ first.tasks ++ status_log 10000 ∷ block_updator 1000 ∷ [])
unfolding create
start_twice_example = start_twice start_block 9 idle refl

push_range-done_example :
    push_range test_json pair_hex round 4 2 feed
    ≡ done tt (record feed { received = [] ++ segment chain 4 2 })
push_range-done_example =
    push_range-done test_json pair_hex chain round 4 2 feed refl (λ i lt. node_block i)
      (λ header. refl)
