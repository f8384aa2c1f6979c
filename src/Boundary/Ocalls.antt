-- ===== src/Boundary/Ocalls.antt =====
-- What the enclave asks of the host: src/Untrusted/Main.cpp on the host's side,
-- include/DecentEthereum/Trusted/HostBlockService.hpp and Transaction.hpp on the enclave's.
use decent_ethereum.Base.{
  ℕ, ◌≡◌, refl, sym, ap, ◌∙◌, List, [], ◌++◌, append-nil, Bytes, Result, ok, err, Result-cases, inl,
  inr, and_then, and_then-eq-ok, sgx_error, length, drop, replicate,
}
use decent_ethereum.Geth.Requests.{
  post_request, send_raw_transaction_by_bytes, send_raw_transaction_by_param,
}
use decent_ethereum.Geth.Libraries.{JsonLib, HexLib, Network}
use decent_ethereum.Geth.Answers.{proc_resp_single_bytes_array-ok}
use decent_ethereum.BlockFeed.Service.{
  get_latest_block_num, receipts_rlp_by_num, send_raw_transaction,
}

pub data SgxStatus : Type 0 where
  sgx_success sgx_error_unexpected : SgxStatus

-- `DECENTENCLAVE_SGX_OCALL_CHECK_ERROR_E_R` and `..._ECALL_CHECK_ERROR_E_R`.
abbrev pub check_error : SgxStatus → Result (Unit {0})
check_error sgx_success = ok tt
check_error sgx_error_unexpected = err sgx_error

-- A host's result as the enclave sees it: which exception it was is lost.
abbrev pub across {ℓ} : {A : Type ℓ} → Result A → Result A
across (ok a) = ok a
across (err e) = err sgx_error

-- `SimpleRlp`: what `WriteRlp` makes of a list of byte strings, `GeneralParser` reads back.
pub record RlpCodec : Type 0 where
  pub write_rlp : List Bytes → Bytes
  pub parse : Bytes → Result (List Bytes)
  pub parse-write_rlp : (l : List Bytes) → parse (write_rlp l) ≡ ok l

-- Each ocall gives its status and what its output parameter then holds. `out` is the parameter's
-- value before.
unfoldable pub ocall_get_receipts :
    (List Bytes → Bytes) → Result (List Bytes) → Bytes → SgxStatus × Bytes
ocall_get_receipts write_rlp (ok receipts) out = (sgx_success, write_rlp receipts)
ocall_get_receipts write_rlp (err e) out = (sgx_error_unexpected, out)

unfoldable pub ocall_get_latest_blknum : Result ℕ → ℕ → SgxStatus × ℕ
ocall_get_latest_blknum (ok num) out = (sgx_success, num)
ocall_get_latest_blknum (err e) out = (sgx_error_unexpected, out)

-- `std::copy` writes over the start of the buffer.
unfoldable pub ocall_send_raw_transaction : Result Bytes → Bytes → SgxStatus × Bytes
ocall_send_raw_transaction (ok hash) out = (sgx_success, hash ++ drop (length hash) out)
ocall_send_raw_transaction (err e) out = (sgx_error_unexpected, out)

-- A checked ocall: the output where the status is a success.
abbrev pub checked {ℓ} : {A : Type ℓ} → SgxStatus × A → Result A
checked (sgx_success, out) = ok out
checked (sgx_error_unexpected, out) = err sgx_error

module _ (json : JsonLib) (hex : HexLib) where
  -- `Trusted::HostBlockService`, on the host that `net` answers.
  unfoldable pub get_receipts_rlp_by_num : RlpCodec → Network → ℕ → Result (List Bytes)
  get_receipts_rlp_by_num rlp net num =
      and_then
        (checked (ocall_get_receipts rlp.write_rlp (receipts_rlp_by_num json hex net num) []))
        rlp.parse

  -- `junk` is the uninitialised `ret`.
  unfoldable pub trusted_latest_block_num : (Bytes → Result Bytes) → Network → ℕ → Result ℕ
  trusted_latest_block_num parse_number net junk =
      checked (ocall_get_latest_blknum (get_latest_block_num json hex parse_number net) junk)

  unfoldable pub trusted_send_raw_transaction : Network → Bytes → Result Bytes
  trusted_send_raw_transaction net bytes =
      checked
        (ocall_send_raw_transaction (send_raw_transaction json hex net bytes) (replicate 32 0))

  -- `Transaction::SendRaw`: the hash that it logs, in hex.
  unfoldable pub send_raw : Network → Bytes → Result Bytes
  send_raw net msg_content =
      and_then (trusted_send_raw_transaction net msg_content) λ txn_hash. ok (hex.encode txn_hash)

  -- The enclave gets the very list of receipts that the host read from the node, through the
  -- written and parsed RLP, or an SGX error where the host had an exception, if the parser reads
  -- back what the writer writes.
  pub get_receipts-across :
      (rlp : RlpCodec) (net : Network) (num : ℕ)
      → get_receipts_rlp_by_num rlp net num ≡ across (receipts_rlp_by_num json hex net num)
  unfolding get_receipts_rlp_by_num ocall_get_receipts
  get_receipts-across rlp net num = go (receipts_rlp_by_num json hex net num)
    where
      go :
          (r : Result (List Bytes))
          → and_then (checked (ocall_get_receipts rlp.write_rlp r [])) rlp.parse ≡ across r
      go (ok l) = rlp.parse-write_rlp l
      go (err e) = refl

  -- The enclave gets the latest block number of the host, or an SGX error where the host had an
  -- exception; what the uninitialised result variable held never reaches the caller.
  pub latest_block_num-across :
      (parse_number : Bytes → Result Bytes) (net : Network) (junk : ℕ)
      → trusted_latest_block_num parse_number net junk
        ≡ across (get_latest_block_num json hex parse_number net)
  unfolding trusted_latest_block_num ocall_get_latest_blknum
  latest_block_num-across parse_number net junk =
      go (get_latest_block_num json hex parse_number net)
    where
      go : (r : Result ℕ) → checked (ocall_get_latest_blknum r junk) ≡ across r
      go (ok n) = refl
      go (err e) = refl

  hash_length :
      (net : Network) (bytes hash : Bytes)
      → send_raw_transaction json hex net bytes ≡ ok hash
      → length hash ≡ 32
  unfolding send_raw_transaction send_raw_transaction_by_bytes send_raw_transaction_by_param
  hash_length net bytes hash h =
      let (body, e, f) = and_then-eq-ok (post_request net _) _ h in
      ((proc_resp_single_bytes_array-ok json hex 32 body hash).0 f).1

  -- The hash fills the enclave's buffer of 32 bytes exactly: none of its zeros is left.
  pub send_raw_transaction-across :
      (net : Network) (bytes : Bytes)
      → trusted_send_raw_transaction net bytes ≡ across (send_raw_transaction json hex net bytes)
  unfolding trusted_send_raw_transaction ocall_send_raw_transaction
  send_raw_transaction-across net bytes =
      elim (Result-cases (send_raw_transaction json hex net bytes)) [
        | inl (e, h) ↦ ap seen h ∙ ap across (sym h)
        | inr (hash, h) ↦
            ap seen h ∙ (ap ok (filled hash (hash_length net bytes hash h)) ∙ ap across (sym h))
      ]
    where
      seen : Result Bytes → Result Bytes
      seen r = checked (ocall_send_raw_transaction r (replicate 32 0))

      filled :
          (hash : Bytes) → length hash ≡ 32 → hash ++ drop (length hash) (replicate 32 0) ≡ hash
      filled hash l = rw l (append-nil hash)

  -- Handling a raw transaction in the enclave has the result of the host's `SendRawTransaction` on
  -- the same bytes: the hash, in hex, or an SGX error for whichever exception; the hash fills the
  -- enclave's buffer of 32 zeros exactly.
  pub send_raw-across :
      (net : Network) (msg : Bytes)
      → send_raw net msg
        ≡ and_then (across (send_raw_transaction json hex net msg)) (λ hash. ok (hex.encode hash))
  unfolding send_raw
  send_raw-across net msg =
      ap (λ r. and_then r (λ hash. ok (hex.encode hash))) (send_raw_transaction-across net msg)
