-- ===== src/Tests/Edge.antt =====
-- The theorems on the monitor's callbacks, the enclave's edge, the host's start and the measuring
-- enclave.
use decent_ethereum.Base.{
  ◌↔◌, ℕ, ◌+◌, ◌%◌, ◌^◌, ◌≡◌, refl, List, [], ◌∷◌, Bytes, ok, and_then, done, length, replicate,
  arith,
}
use decent_ethereum.External.{HeaderMgr}
use decent_ethereum.Geth.Text.{codes}
use decent_ethereum.BlockFeed.Service.{send_raw_transaction}
use decent_ethereum.Monitor.Callbacks.{
  BlockchainMgr, on_header_validated, on_header_confirmed, MonitorCall, validated, confirmed,
  append_block, run_check_events, refresh, refresh_in_phase,
}
use decent_ethereum.Monitor.Laws.{Validated, on_header_validated-Validated}
use decent_ethereum.Monitor.Runs.{last_number}
use decent_ethereum.Monitor.Confirmed.{Confirmed, on_header_confirmed-Confirmed}
use decent_ethereum.Boundary.Ocalls.{across, get_receipts_rlp_by_num, send_raw, send_raw-across}
use decent_ethereum.Boundary.Receipts.{Answers, get_receipts-Answers}
use decent_ethereum.Boundary.Ecalls.{
  ecall, recv_block, ecall_recv_block, enclave_recv_block, enclave_recv_block-ok,
}
use decent_ethereum.HostMain.{
  Config, EnclaveArgs, addr_size, addr_bytes, read_config, read_config-ok,
}
use decent_ethereum.ThroughputEval.{
  EvalState, EvalHeader, EvalLib, recv_blocks, selected_count, recv_blocks-selected_count,
}
use decent_ethereum.Tests.Libraries.{counter, calls, pair_hex, pairs, test_json, node, framed}

-- A manager that has validated no block, at iteration 3 of the checkpoint.
abbrev mgr : BlockchainMgr ℕ
mgr = record { monitor = 3; last_chkpt_iter = 0; last_validated_blk_num = []; status_log = [] }

abbrev hdr : HeaderMgr
hdr = record { number = 5; raw_number = 5 ∷ [] }

on_header_validated-Validated_example :
    Validated counter calls hdr mgr (on_header_validated counter calls hdr mgr)
on_header_validated-Validated_example = on_header_validated-Validated counter calls hdr mgr

on_header_confirmed-Confirmed_example :
    let t = on_header_confirmed counter pairs hdr mgr in
    Confirmed counter pairs mgr t × (on_header_confirmed counter pairs hdr t ≡ t)
on_header_confirmed-Confirmed_example = on_header_confirmed-Confirmed counter pairs hdr hdr mgr

-- A block that validates its own header and confirms an earlier one.
abbrev block_calls : List (MonitorCall counter)
block_calls = validated hdr ∷ confirmed hdr ∷ []

enclave_recv_block-ok_example :
    let t = (enclave_recv_block counter (λ h m. block_calls) calls pairs [] mgr).1 in
    (append_block counter calls pairs block_calls mgr ≡ done tt t)
    × (t.last_validated_blk_num ≡ last_number counter calls pairs [] block_calls)
unfolding enclave_recv_block ecall_recv_block recv_block append_block on_header_validated ecall
    run_check_events refresh_in_phase refresh
enclave_recv_block-ok_example =
    enclave_recv_block-ok counter (λ h m. block_calls) calls pairs [] mgr refl

send_raw-across_example :
    send_raw test_json pair_hex (node 6) (4 ∷ [])
    ≡ and_then
        (across (send_raw_transaction test_json pair_hex (node 6) (4 ∷ [])))
        (λ hash. ok (pair_hex.encode hash))
send_raw-across_example = send_raw-across test_json pair_hex (node 6) (4 ∷ [])

get_receipts-Answers_example :
    (get_receipts_rlp_by_num test_json pair_hex framed (node 6) 4 ≡ ok ((4 ∷ []) ∷ []))
    ↔ Answers test_json pair_hex framed (node 6) 4 ((4 ∷ []) ∷ [])
get_receipts-Answers_example =
    get_receipts-Answers test_json pair_hex framed (node 6) 4 ((4 ∷ []) ∷ [])

-- Twenty bytes in hex.
abbrev addr_hex : Bytes
addr_hex = pairs (replicate 20 9)

abbrev config : Config
config = record {
  protocol = codes "http";
  host = codes "localhost";
  port = codes "8545";
  sync_addr_hex = addr_hex;
  pubsub_addr_hex = addr_hex;
  start_block = 8;
}

abbrev args : EnclaveArgs
args = record {
  geth_url = codes "http://localhost:8545";
  sync_addr = replicate 20 0;
  pubsub_addr = replicate 20 9;
  start_block = 8;
}

read_config-ok_example :
    (sync_addr_bytes : Bytes) × (pair_hex.decode addr_hex ≡ ok sync_addr_bytes)
    × (length sync_addr_bytes ≡ addr_size)
    × (args.sync_addr ≡ replicate 20 0)
    × (pair_hex.decode addr_hex ≡ ok args.pubsub_addr)
    × (length args.pubsub_addr ≡ addr_size)
    × (args.start_block ≡ 8)
unfolding read_config addr_bytes
read_config-ok_example = read_config-ok pair_hex (replicate 20 0) config args refl

abbrev eval_header : EvalHeader
eval_header = record { number = 1; last_hash_byte = 10; receipts_root = 3 ∷ [] }

abbrev eval_lib : EvalLib
eval_lib = record { header_of = λ b. ok eval_header; receipts_root_of = λ n. ok (3 ∷ []) }

abbrev eval_state : EvalState
eval_state = record { receipt_limit = 25; verified_receipts = 0 }

recv_blocks-selected_count_example :
    recv_blocks eval_lib ([] ∷ [] ∷ []) eval_state
    ≡ done tt (record eval_state {
      verified_receipts =
          (0 + selected_count eval_lib 25 (eval_header ∷ eval_header ∷ [])) % 2 ^ 64;
    })
recv_blocks-selected_count_example =
    recv_blocks-selected_count eval_lib ([] ∷ [] ∷ []) (eval_header ∷ eval_header ∷ []) eval_state
      ((refl, refl), ((refl, refl), tt)) (omega arith)
