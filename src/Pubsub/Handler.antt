-- ===== src/Pubsub/Handler.antt =====
-- include/DecentEthereum/Trusted/Pubsub/SubscriberHandler.hpp: a subscriber's live queue, the
-- heartbeat emitter that drains it, and the subscribe request. What `GetMonitorSecState()` (written
-- as RLP) and `GetLastValidatedBlkNum()` return is an argument, `MonitorView`; whether the socket
-- accepts a message is an argument too. Log output is left out.
use decent_ethereum.Base.{
  ℕ, String, List, [], ◌∷◌, Bytes, Exec, Result, lift, modify, get, pure, throw, try_catch,
  and_then, ◌>>=◌, ◌>>◌, alloc, push_back, clear, bytes_eq, if◌then◌else◌,
}
use decent_ethereum.External.{
  HeaderMgr, ReceiptLogEntry, EventDescription, notify, EventManager, AbiParser, RlpParser,
}
use decent_ethereum.World.{EventDataQueue, ReceiptItem, World, events, add_emitter}
use decent_ethereum.Pubsub.Service.{
  event_data, get_event_mgr_addr, get_notify_event_topic, get_past_events, zero_addr, cancel_in,
}

-- A value of a response dictionary.
pub data Field : Type 0 where
  bytes : Bytes → Field
  event_list : EventDataQueue → Field
  receipt_list : List ReceiptItem → Field

abbrev pub Dict : Type 0
Dict = List (String × Field)

pub record MonitorView : Type 0 where
  pub sec_state : Bytes
  pub latest_blk_num : Bytes

unfoldable pub build_emitted_dict : MonitorView → EventDataQueue → Dict
build_emitted_dict view queue =
    ("SecState", bytes view.sec_state)
    ∷ ("LatestBlkNum", bytes view.latest_blk_num)
    ∷ ("Events", event_list queue)
    ∷ []

-- `write` is `AdvancedRlp::GenericWriter::Write`.
unfoldable pub build_emitted_msg : (Dict → Bytes) → MonitorView → EventDataQueue → Bytes
unfolding build_emitted_dict
build_emitted_msg write view queue = write (build_emitted_dict view queue)

-- `SizedSendBytes`: the socket takes the message, or the call throws.
unfoldable pub sized_send_bytes :
    {M : Type 0} → Result (Unit {0}) → ℕ → Bytes → Exec (World M) (Unit {0})
sized_send_bytes accepted socket msg = do
  lift accepted
  modify (λ w. record w { sockets = push_back socket msg w.sockets })

unfoldable pub notify_event_handler :
    {M : Type 0} → AbiParser → ℕ → HeaderMgr → ReceiptLogEntry → Exec (World M) (Unit {0})
notify_event_handler abi queue hdr log = do
  (msg, _) ← lift (abi.to_bytes log.log_data)
  modify (λ w. record w { event_queues = push_back queue (event_data hdr msg) w.event_queues })

unfoldable pub build_notify_event_descr : Bytes → Bytes → ℕ → EventDescription
build_notify_event_descr ev_mgr_addr notify_topic queue = record {
  contract_addr = ev_mgr_addr;
  topics = notify_topic ∷ [];
  callback = notify queue;
}

-- The queue's content, and the queue emptied.
unfoldable pub take_events : {M : Type 0} → ℕ → Exec (World M) EventDataQueue
take_events queue = do
  out ← get (λ w. w.event_queues.cell queue)
  modify (λ w. record w { event_queues = clear queue w.event_queues })
  pure out

unfoldable pub publisher_of : (rlp : RlpParser) → Bytes → Result Bytes
publisher_of rlp content =
    and_then (rlp.parse content) λ obj. and_then (rlp.dict_get obj "publisher") rlp.as_bytes

module _ (em : EventManager) where
  open em use {State, listen}

  -- Part 2 of `SubReq`: a fresh queue, and a listener that fills it. The result names both.
  unfoldable pub subscribe_events : Bytes → Exec (World State) (ℕ × ℕ)
  subscribe_events ev_mgr_addr w =
      let queue = w.event_queues.next in
      let topic = get_notify_event_topic w.store in
      let added = listen (build_notify_event_descr ev_mgr_addr topic queue) w.event_mgr in
      pure (queue, added.1) (record w { event_queues = alloc w.event_queues; event_mgr = added.0 })

module _ (em : EventManager) (write : Dict → Bytes) where
  open em use {State}

  unfoldable pub emitter_handler :
      Result (Unit {0}) → MonitorView → ℕ → ℕ → ℕ → Exec (World State) (Unit {0})
  unfolding cancel_in take_events sized_send_bytes
  emitter_handler accepted view socket queue listen_id =
      try_catch
        (do
          out ← take_events queue
          sized_send_bytes accepted socket (build_emitted_msg write view out))
        (λ e. modify (cancel_in em listen_id) >> throw e)

  -- Parts 3 and 4: the past events are sent, and the emitter takes over.
  unfoldable pub respond_events :
      Result (Unit {0}) → MonitorView → ℕ → Bytes → ℕ × ℕ → Exec (World State) (Unit {0})
  unfolding sized_send_bytes
  respond_events accepted view socket ev_mgr_addr (queue, listen_id) = do
    past ← get (λ w. get_past_events w.store ev_mgr_addr)
    sized_send_bytes accepted socket (build_emitted_msg write view past)
    modify (
        add_emitter
          (record { kind = events; socket = socket; queue = queue; listen_id = listen_id }))

  unfoldable pub sub_req :
      RlpParser → Result (Unit {0}) → MonitorView → ℕ → Bytes → Exec (World State) (Unit {0})
  unfolding subscribe_events respond_events publisher_of
  sub_req rlp accepted view socket content = do
    pub_addr ← lift (publisher_of rlp content)
    ev_mgr_addr ← get (λ w. get_event_mgr_addr w.store pub_addr)
    if bytes_eq ev_mgr_addr zero_addr
        then pure tt
        else (subscribe_events em ev_mgr_addr >>= respond_events accepted view socket ev_mgr_addr)
