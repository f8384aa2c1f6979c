-- ===== src/Geth/Requests.antt =====
-- The requests, each with the method name and the parameters that it sends.
use decent_ethereum.Base.{
  ℕ, zero, suc, String, List, [], ◌∷◌, ◌++◌, Option, none, some, Bytes, Result, ok, err, and_then,
  length, bytes_eq, true, false,
}
use decent_ethereum.Geth.Libraries.{JsonLib, HexLib, JsonDict, text, texts, number, Network}
use decent_ethereum.Geth.Decoding.{
  proc_resp_single_bytes, proc_resp_single_bytes_array, proc_resp_list_of_bytes, proc_resp_object,
  proc_resp_int,
}
use decent_ethereum.Geth.Text.{codes}

unfoldable pub build_request_dict : Bytes → List Bytes → JsonDict
build_request_dict method params =
    ("method", text method)
    ∷ ("params", texts params)
    ∷ ("id", number 1)
    ∷ ("jsonrpc", text (codes "2.0"))
    ∷ []

-- The content callback: the body so far, with a piece appended, and the number of bytes taken.
unfoldable pub content_callback : Bytes → Bytes → Bytes × ℕ
content_callback body piece = (body ++ piece, length piece)

-- The client hands the pieces over in order.
unfoldable pub receive : Bytes → List Bytes → Bytes
unfolding content_callback
receive body [] = body
receive body (piece ∷ pieces) = receive (content_callback body piece).0 pieces

unfoldable pub post_request : Network → Bytes → Result Bytes
unfolding receive
post_request net req_body = and_then (net req_body) λ pieces. ok (receive [] pieces)

module _ (json : JsonLib) (hex : HexLib) (net : Network) where
  unfoldable pub build_request_body : Bytes → List Bytes → Bytes
  unfolding build_request_dict
  build_request_body method params = json.dump_request (build_request_dict method params)

  -- The common part of every request.
  abbrev pub ask : String → List Bytes → Result Bytes
  ask method params = post_request net (build_request_body (codes method) params)

  unfoldable pub get_header_rlp_by_param : Bytes → Result Bytes
  unfolding build_request_body post_request
  get_header_rlp_by_param param =
      and_then (ask "debug_getRawHeader" (param ∷ [])) (proc_resp_single_bytes json hex)

  unfoldable pub get_body_rlp_by_param : Bytes → Result Bytes
  unfolding build_request_body post_request
  get_body_rlp_by_param param =
      and_then (ask "debug_getRawBlock" (param ∷ [])) (proc_resp_single_bytes json hex)

  unfoldable pub get_receipts_rlp_by_param : Bytes → Result (List Bytes)
  unfolding build_request_body post_request
  get_receipts_rlp_by_param param =
      and_then (ask "debug_getRawReceipts" (param ∷ [])) (proc_resp_list_of_bytes json hex)

  unfoldable pub send_raw_transaction_by_param : Bytes → Result Bytes
  unfolding build_request_body post_request
  send_raw_transaction_by_param param =
      and_then (ask "eth_sendRawTransaction" (param ∷ []))
        (proc_resp_single_bytes_array json hex 32)

  unfoldable pub send_raw_transaction_by_bytes : Bytes → Result Bytes
  unfolding send_raw_transaction_by_param
  send_raw_transaction_by_bytes bytes =
      send_raw_transaction_by_param (codes "0x" ++ hex.encode bytes)

  unfoldable pub convert_blk_num_to_hex : ℕ → Bytes
  convert_blk_num_to_hex num = hex.encode_num num

  unfoldable pub get_header_rlp_by_num : ℕ → Result Bytes
  unfolding convert_blk_num_to_hex get_header_rlp_by_param
  get_header_rlp_by_num num = get_header_rlp_by_param (convert_blk_num_to_hex num)

  unfoldable pub get_body_rlp_by_num : ℕ → Result Bytes
  unfolding convert_blk_num_to_hex get_body_rlp_by_param
  get_body_rlp_by_num num = get_body_rlp_by_param (convert_blk_num_to_hex num)

  unfoldable pub get_receipts_rlp_by_num : ℕ → Result (List Bytes)
  unfolding convert_blk_num_to_hex get_receipts_rlp_by_param
  get_receipts_rlp_by_num num = get_receipts_rlp_by_param (convert_blk_num_to_hex num)

  unfoldable pub get_transaction_receipt : Bytes → Result Bytes
  unfolding build_request_body post_request
  get_transaction_receipt txn_hash =
      and_then (ask "eth_getTransactionReceipt" ((codes "0x" ++ hex.encode txn_hash) ∷ []))
        (proc_resp_object json hex)

  unfoldable pub get_block_number : Result ℕ
  unfolding build_request_body post_request
  get_block_number = and_then (ask "eth_blockNumber" []) (proc_resp_int json hex)

-- The loop of `WaitAndGetTransactionReceipt`: it asks once a second, and `net` is the network at
-- each round. `none`: the fuel, the number of rounds allowed, ran out.
unfoldable pub wait_and_get_transaction_receipt :
    JsonLib → HexLib → (ℕ → Network) → Bytes → ℕ → ℕ → Option (Result Bytes)
unfolding get_transaction_receipt
wait_and_get_transaction_receipt json hex net txn_hash zero round = none
wait_and_get_transaction_receipt json hex net txn_hash (suc fuel) round =
    elim (get_transaction_receipt json hex (net round) txn_hash) [
      | err e ↦ some (err e)
      | ok obj ↦ elim (bytes_eq obj (codes "null")) [
        | true ↦ wait_and_get_transaction_receipt json hex net txn_hash fuel (suc round)
        | false ↦ some (ok obj)
      ]
    ]
