-- ===== src/Boundary/Receipts.antt =====
-- The receipts of a block, from the node's answer over the host to the enclave.
use decent_ethereum.Base.{
  ℕ, ◌↔◌, ◌≡◌, sym, ap, ◌∙◌, List, [], ◌∷◌, Bytes, Result, ok, err, and_then, and_then-eq-ok,
}
use decent_ethereum.Geth.Text.{codes}
use decent_ethereum.Geth.Libraries.{JsonLib, HexLib, Network, text, texts, number}
use decent_ethereum.Geth.Decoding.{result_of, decode_all, proc_resp_list_of_bytes}
use decent_ethereum.Geth.Requests.{
  post_request, build_request_body, build_request_dict, get_receipts_rlp_by_param,
  convert_blk_num_to_hex,
}
use decent_ethereum.Geth.Answers.{Decodes, decode_all-Decodes}
use decent_ethereum.BlockFeed.Service.{receipts_rlp_by_num}
use decent_ethereum.Boundary.Ocalls.{RlpCodec, across, get_receipts_rlp_by_num, get_receipts-across}

across-ok : {A : Type 0} (r : Result A) (a : A) → across r ≡ ok a → r ≡ ok a
across-ok (ok b) a h = h
across-ok (err e) a h = cc

module _ (json : JsonLib) (hex : HexLib) (rlp : RlpCodec) (net : Network) (num : ℕ) where
  open json use {Json, load_str, dict_get, as_list, dump_request}

  -- The node's answer to the request for the block's receipts: its result is a list whose elements
  -- are the receipts in hex.
  abbrev pub Answers : List Bytes → Type 0
  Answers receipts =
      (body : Bytes) × (answer result : Json) × (js : List Json) × (post_request net (
          dump_request (
            ("method", text (codes "debug_getRawReceipts"))
            ∷ ("params", texts (hex.encode_num num ∷ []))
            ∷ ("id", number 1)
            ∷ ("jsonrpc", text (codes "2.0"))
            ∷ []))
        ≡ ok body)
      × (load_str body ≡ ok answer)
      × (dict_get answer "result" ≡ ok result)
      × (as_list result ≡ ok js)
      × Decodes json hex js receipts

  -- The enclave gets a list of receipts of a block exactly if the host's request for that block's
  -- raw receipts by its number has an answer of the node that is read, whose result is a list, and
  -- the receipts are the decodings of that list's elements, each at its place and no others: what
  -- the host decodes comes through the ocall as it is, if the RLP parser reads back what the writer
  -- writes.
  pub get_receipts-Answers :
      (receipts : List Bytes)
      → (get_receipts_rlp_by_num json hex rlp net num ≡ ok receipts) ↔ Answers receipts
  unfolding receipts_rlp_by_num decent_ethereum.Geth.Requests.get_receipts_rlp_by_num
      get_receipts_rlp_by_param convert_blk_num_to_hex build_request_body build_request_dict
      proc_resp_list_of_bytes result_of
  get_receipts-Answers receipts = (
    λ h.
        let r =
          across-ok (receipts_rlp_by_num json hex net num) receipts
            (sym (get_receipts-across json hex rlp net num) ∙ h) in
        let (body, e, f) = and_then-eq-ok (post_request net _) _ r in
        let (js, g, k) =
          and_then-eq-ok (and_then (and_then (load_str body) λ j. dict_get j "result") as_list) _
            f in
        let (result, l, m) =
          and_then-eq-ok (and_then (load_str body) λ j. dict_get j "result") _ g in
        let (answer, n, p) = and_then-eq-ok (load_str body) _ l in
        (body, answer, result, js, e, n, p, m, (decode_all-Decodes json hex js receipts).0 k),
    λ (body, answer, result, js, e, n, p, m, d).
        get_receipts-across json hex rlp net num
        ∙ ap across (
            ap (λ b. and_then b decoded) e
            ∙ (ap (λ j. and_then (and_then (and_then j λ j. dict_get j "result") as_list) all) n
                ∙ (ap (λ j. and_then (and_then j as_list) all) p
                    ∙ (ap (λ js. and_then js all) m
                        ∙ (decode_all-Decodes json hex js receipts).1 d)))),
  )
    where
      all : List Json → Result (List Bytes)
      all js = decode_all json hex js

      decoded : Bytes → Result (List Bytes)
      decoded body =
          and_then (and_then (and_then (load_str body) λ j. dict_get j "result") as_list) all
