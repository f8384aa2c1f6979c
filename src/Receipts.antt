-- ===== src/Receipts.antt =====
-- include/DecentEthereum/Trusted/ReceiptSubscriber.hpp: subscriptions to the receipts of one
-- contract. Arguments that stand for other components are those of Pubsub/Handler.antt.
pub mod Requests
pub mod Refusals
pub mod Validation
use mathlib.Core.Option
use decent_ethereum.Base.{
  Option, none, some, ℕ, ◌+◌, ◌≡◌, Bool, List, [], ◌∷◌, ◌++◌, Bytes, Exec, Result, ok, err, lift,
  modify, get, pure, throw, try_catch, and_then, ◌>>=◌, ◌>>◌, Heap, alloc, push_back, clear, length,
  ◌==◌, if◌then◌else◌, Error, bad_length,
}
use decent_ethereum.External.{
  HeaderMgr, ReceiptLogEntry, EventDescription, receipt, EventManager, RlpParser,
}
use decent_ethereum.World.{ReceiptItem, World, receipts, add_emitter}
use decent_ethereum.Pubsub.Service.{cancel_in}
use decent_ethereum.Pubsub.Handler.{Dict, bytes, receipt_list, MonitorView, sized_send_bytes}

-- The copy of a log that is queued: the block number, the topics and the data.
unfoldable pub receipt_item : HeaderMgr → ReceiptLogEntry → ReceiptItem
receipt_item hdr log = record {
  block_number = hdr.raw_number;
  topics = log.topics;
  log_data = log.log_data;
}

unfoldable pub subscribed_receipt_handler :
    {M : Type 0} → ℕ → HeaderMgr → ReceiptLogEntry → Exec (World M) (Unit {0})
subscribed_receipt_handler queue hdr log =
    modify
      λ w. record w { receipt_queues = push_back queue (receipt_item hdr log) w.receipt_queues }

unfoldable pub build_subscribed_event_descr : Bytes → List Bytes → ℕ → EventDescription
build_subscribed_event_descr cont_addr notify_ev_topics queue = record {
  contract_addr = cont_addr;
  topics = notify_ev_topics;
  callback = receipt queue;
}

unfoldable pub build_receipts_dict : MonitorView → List ReceiptItem → Dict
build_receipts_dict view queue =
    ("SecState", bytes view.sec_state)
    ∷ ("LatestBlkNum", bytes view.latest_blk_num)
    ∷ ("Receipts", receipt_list queue)
    ∷ []

unfoldable pub take_receipts : {M : Type 0} → ℕ → Exec (World M) (List ReceiptItem)
take_receipts queue = do
  out ← get (λ w. w.receipt_queues.cell queue)
  modify (λ w. record w { receipt_queues = clear queue w.receipt_queues })
  pure out

-- The size of a contract address and of an event topic, in bytes.
abbrev pub addr_size : ℕ
addr_size = 20

abbrev pub topic_size : ℕ
topic_size = 32

-- What a request is found to be: `bad_address` and `bad_topic` are only logged, and the handler
-- returns.
pub data Request : Type 0 where
  bad_address bad_topic : Request
  valid : Bytes → List Bytes → Request

module _ (rlp : RlpParser) where
  open rlp use {Obj, as_bytes, as_list, parse, dict_get}

  -- The loop over the topics; `none` is the early return at a topic of a wrong length.
  unfoldable pub topics_of : List Obj → Result (Option (List Bytes))
  topics_of [] = ok (some [])
  topics_of (o ∷ os) =
      let rest = topics_of os in
      and_then (as_bytes o) λ t.
        if length t == topic_size
        then and_then rest (λ r. ok (Option.map (λ ts. t ∷ ts) r))
        else ok none

  -- Part 2 of `ReceiptSubReq`.
  unfoldable pub topics_request : Bytes → Obj → Result Request
  unfolding topics_of
  topics_request addr obj =
      and_then (and_then (dict_get obj "topics") as_list) λ os.
        and_then (topics_of os) λ r. ok (elim r [ none ↦ bad_topic | some ts ↦ valid addr ts ])

  -- Parts 1 and 2.
  unfoldable pub request_of : Bytes → Result Request
  unfolding topics_request
  request_of content = and_then (parse content) λ obj.
      and_then (and_then (dict_get obj "contract") as_bytes)
        λ addr. if length addr == addr_size then topics_request addr obj else ok bad_address

module _ (em : EventManager) (write : Dict → Bytes) where
  open em use {State}

  unfoldable pub subscribed_receipt_emitter :
      Result (Unit {0}) → MonitorView → ℕ → ℕ → ℕ → Exec (World State) (Unit {0})
  unfolding cancel_in take_receipts sized_send_bytes
  subscribed_receipt_emitter accepted view socket queue listen_id =
      try_catch
        (do
          out ← take_receipts queue
          sized_send_bytes accepted socket (write (build_receipts_dict view out)))
        (λ e. modify (cancel_in em listen_id) >> throw e)

module _ (em : EventManager) where
  open em use {State, listen}

  -- Parts 3 and 4 of `ReceiptSubReq`.
  unfoldable pub subscribe_receipts : ℕ → Bytes → List Bytes → World State → World State
  subscribe_receipts socket addr topics w =
      let queue = w.receipt_queues.next in
      let added = listen (build_subscribed_event_descr addr topics queue) w.event_mgr in
      add_emitter (record { kind = receipts; socket = socket; queue = queue; listen_id = added.1 })
        (record w { receipt_queues = alloc w.receipt_queues; event_mgr = added.0 })

  unfoldable pub serve_request : ℕ → Request → World State → World State
  unfolding subscribe_receipts
  serve_request socket bad_address w = w
  serve_request socket bad_topic w = w
  serve_request socket (valid addr topics) w = subscribe_receipts socket addr topics w

  unfoldable pub receipt_sub_req : RlpParser → ℕ → Bytes → Exec (World State) (Unit {0})
  unfolding request_of serve_request
  receipt_sub_req rlp socket content = do
    r ← lift (request_of rlp content)
    modify (serve_request socket r)
