-- ===== src/Receipts/Validation.antt =====
-- How `ReceiptSubReq` ends, and what an accepted request leaves.
use decent_ethereum.Base.{
  ℕ, ◌≡◌, refl, sym, ap, subst, inl, inr, ◌⊎◌, List, [], ◌∷◌, ◌++◌, some, Bytes, Error, Result, ok,
  Result-cases, Outcome, done, thrown, after, alloc, lift, ◌>>=◌, ==_refl, if_true,
}
use decent_ethereum.External.{receipt, EventManager, RlpParser}
use decent_ethereum.World.{World, receipts}
use decent_ethereum.Receipts.{
  Request, bad_address, bad_topic, valid, request_of, build_subscribed_event_descr,
  subscribe_receipts, serve_request, receipt_sub_req,
}
use decent_ethereum.Receipts.Requests.{Asks, RightSizes, request_of-valid, request_of-right}
use decent_ethereum.Receipts.Refusals.{
  WrongAddress, WrongTopic, request_of-bad_address, request_of-bad_topic,
}

module _ (em : EventManager) (rlp : RlpParser) (socket : ℕ) (content : Bytes)
    (w : World em.State) where
  open em use {State, listen, find, find-listen_new}

  abbrev request : Outcome (World State) (Unit {0})
  request = receipt_sub_req em rlp socket content w

  -- A message that cannot be read is an exception, a wrong size only the end of the handler; neither
  -- changes anything. An accepted request leaves a listener for its contract and topics, which
  -- fills a new, empty queue, and an emitter for that queue.
  pub data Handled (o : Outcome (World State) (Unit {0})) : Type 0 where
    malformed :
        (e : Error)
        → ((addr : Bytes) (topics : List Bytes)
            → Asks rlp content addr topics
            → ¬ RightSizes rlp addr topics)
        → o ≡ thrown e w
        → Handled o
    refused : WrongAddress rlp content ⊎ WrongTopic rlp content → o ≡ done tt w → Handled o
    subscribed :
        (addr : Bytes) (topics : List Bytes) (id : ℕ)
        → Asks rlp content addr topics
        → RightSizes rlp addr topics
        → find id (after o).event_mgr
          ≡ some (record {
            contract_addr = addr;
            topics = topics;
            callback = receipt w.receipt_queues.next;
          })
        → (after o).receipt_queues.cell w.receipt_queues.next ≡ []
        → (after o).emitters
          ≡ w.emitters
            ++ record {
              kind = receipts;
              socket = socket;
              queue = w.receipt_queues.next;
              listen_id = id;
            }
              ∷ []
        → Handled o

  served :
      (r : Request)
      → request_of rlp content ≡ ok r
      → Handled (done tt (serve_request em socket r w))
  unfolding serve_request subscribe_receipts alloc build_subscribed_event_descr
  served bad_address h = refused (inl (request_of-bad_address rlp content h)) refl
  served bad_topic h = refused (inr (request_of-bad_topic rlp content h)) refl
  served (valid addr topics) h =
      let (asked, sizes) = request_of-valid rlp content addr topics h in
      subscribed addr topics
        (listen (build_subscribed_event_descr addr topics w.receipt_queues.next) w.event_mgr).1
        asked sizes (find-listen_new _ w.event_mgr) (if_true _ _ (==_refl w.receipt_queues.next))
        refl

  -- A receipt request ends in one of three ways. It is an exception and changes nothing; then no
  -- address of 20 bytes and topics of 32 can be read from the message. Or the handler ends and
  -- changes nothing; then an address that does not have 20 bytes was read, or, behind an address of
  -- 20 and topics of 32 bytes, a topic that does not have 32. Or the message names an address of 20
  -- bytes and topics of 32 each, and the request leaves a listener for exactly that contract and
  -- those topics, in order, a new and empty queue that the listener fills, and an emitter at the
  -- end of the list that holds both.
  pub receipt_sub_req-Handled : Handled request
  unfolding receipt_sub_req
  receipt_sub_req-Handled = elim (Result-cases (request_of rlp content)) [
    | inl (e, h) ↦
        malformed e (λ a ts asked sizes. cc (request_of-right rlp content a ts asked sizes, h))
          (ap run h)
    | inr (r, h) ↦ subst Handled (sym (ap run h)) (served r h)
  ]
    where
      run : Result Request → Outcome (World State) (Unit {0})
      run r = (lift r >>= λ r. λ w. done tt (serve_request em socket r w)) w
