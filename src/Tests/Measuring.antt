-- ===== src/Tests/Measuring.antt =====
-- The measuring host and its enclave at a concrete node.
use decent_ethereum.Base.{
  List, length, ℕ, zero, suc, ◌-◌, ◌<◌, ◌≡◌, refl, true, false, [], ◌∷◌, ◌++◌, map, Bytes, ok, done,
  after, replicate, length-replicate, arith, ◌^◌,
}
use decent_ethereum.Geth.Requests.{
  get_header_rlp_by_num, get_header_rlp_by_param, convert_blk_num_to_hex, post_request, receive,
  content_callback, build_request_body, build_request_dict,
}
use decent_ethereum.Geth.Decoding.{proc_resp_single_bytes, result_of, decode_hex_str, lacks_prefix}
use decent_ethereum.BlockFeed.Chain.{segment}
use decent_ethereum.Boundary.Ecalls.{ecall}
use decent_ethereum.HostMain.Process.{MainLib, zero_code, image_config, text_of}
use decent_ethereum.ThroughputEval.{EvalHeader, EvalLib, AllSound}
use decent_ethereum.ThroughputEval.Rates.{count_below, partial_rates}
use decent_ethereum.ThroughputEval.Loop.{start_block_num, end_block_num}
use decent_ethereum.ThroughputEval.Startup.{
  EvalProcess, eval_config_path, eval_start, eval_main, eval_main-measured, eval_load,
  eval_geth_url, create_eval_enclave, new_eval_enclave, ecall_eval_init, eval_init, eval_prepare,
}
use decent_ethereum.Tests.Libraries.{TestJson, test_json, pair_hex, node}
use decent_ethereum.Tests.Startup.{credentials}

abbrev eval_header : EvalHeader
eval_header = record { number = 1; last_hash_byte = 10; receipts_root = 3 ∷ [] }

abbrev eval_lib : EvalLib
eval_lib = record { header_of = λ b. ok eval_header; receipts_root_of = λ n. ok (3 ∷ []) }

abbrev chain : ℕ → Bytes
chain n = n ∷ []

-- Every block has the same header, and its receipts have the root in it.
all_sound : (num n : ℕ) → AllSound eval_lib (segment chain num n) (replicate n eval_header)
all_sound num zero = tt
all_sound num (suc n) = ((refl, refl), all_sound (suc num) n)

abbrev idle : EvalProcess ℕ
idle = record {
  globals = record { credentials = 0; has_host = false };
  geth_url = [];
  is_bound = false;
  measured = record { enclave = record { receipt_limit = 0; verified_receipts = 0 }; logged = [] };
}

-- Every text of the configuration is all of it, and the port is 8.
abbrev eval_main_lib : MainLib TestJson
eval_main_lib = record {
  mbed_tls_init = ok tt;
  read_file = λ path. ok path;
  auth_list = λ j. ok [];
  as_cpp_uint32 = λ j. ok 8;
  as_cpp_uint64 = λ j. ok 8;
  to_string = λ n. n ∷ [];
  endpoints = λ j. ok tt;
  sgx = λ list img token. ok tt;
  lambda_server = ok tt;
}

abbrev started : EvalProcess ℕ
started = after (
    eval_start test_json pair_hex eval_main_lib credentials eval_lib (λ img token. ok tt)
      (λ url. node 6) (7 ∷ []) idle)

abbrev headers : List EvalHeader
headers = replicate (end_block_num - start_block_num) eval_header

eval_main-measured_example :
    (started.globals.has_host ≡ true)
    × (started.is_bound ≡ true)
    × (eval_main test_json pair_hex eval_main_lib credentials eval_lib
          (λ img token. ok tt)
          (λ url. node 6)
          ((1 ∷ []) ∷ (7 ∷ []) ∷ [])
          idle
        ≡ done zero_code (record started {
          measured = record {
            enclave = record { receipt_limit = 0; verified_receipts = 0 };
            logged =
                started.measured.logged
                ++ started.measured.enclave.verified_receipts
                  ∷ (map (count_below headers) partial_rates ++ length headers ∷ []);
          };
        }))
unfolding eval_config_path get_header_rlp_by_num get_header_rlp_by_param convert_blk_num_to_hex
    post_request receive content_callback build_request_body build_request_dict
    proc_resp_single_bytes result_of decode_hex_str lacks_prefix eval_start eval_load eval_geth_url
    create_eval_enclave new_eval_enclave ecall_eval_init eval_init eval_prepare ecall image_config
    text_of
eval_main-measured_example =
    eval_main-measured test_json pair_hex eval_main_lib credentials eval_lib (λ img token. ok tt)
      (λ url. node 6) ((1 ∷ []) ∷ (7 ∷ []) ∷ []) (7 ∷ []) idle started chain
      (replicate (end_block_num - start_block_num) eval_header) refl refl (λ i le lt. refl)
      (all_sound start_block_num (end_block_num - start_block_num))
      (small (length-replicate (end_block_num - start_block_num) eval_header))
  where
    small : {n : ℕ} → n ≡ end_block_num - start_block_num → n < 2 ^ 64
    small e = omega arith
