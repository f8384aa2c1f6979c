-- ===== src/Pubsub/Behaviour.antt =====
-- What each handler of Pubsub/Service.antt and Pubsub/Handler.antt does, on every branch.
use decent_ethereum.Base.{
  ℕ, ◌≡◌, refl, true, false, Bytes, Error, ok, err, done, thrown, push_back, clear,
}
use decent_ethereum.External.{HeaderMgr, ReceiptLogEntry, EventManager, AbiParser}
use decent_ethereum.World.{World, events, add_emitter}
use decent_ethereum.Pubsub.Service.{
  event_data, get_past_events, abi_address_to_address, build_reg_event_descr,
  build_notify_past_event_descr, save_past_event, save_registration, notify_past_event_handler,
  reg_event_handler, deploy_event_handler,
}
use decent_ethereum.Pubsub.Handler.{
  Dict, MonitorView, build_emitted_msg, notify_event_handler, emitter_handler, respond_events,
}

module _ (em : EventManager) where
  open em use {State, listen, cancel}

  pub deploy_alive :
      (hdr : HeaderMgr) (id : ℕ) (w : World State)
      → w.mgr_alive ≡ true
      → let t = record w.store { is_deployed = true } in
        deploy_event_handler em hdr id w
        ≡ done tt (record w {
          store = t;
          event_mgr = (listen (build_reg_event_descr t) (cancel id w.event_mgr)).0;
        })
  unfolding deploy_event_handler
  deploy_alive hdr id w h = simp h

  -- With the event manager gone, only the mark is made.
  pub deploy_dead :
      (hdr : HeaderMgr) (id : ℕ) (w : World State)
      → w.mgr_alive ≡ false
      → deploy_event_handler em hdr id w
        ≡ done tt (record w { store = record w.store { is_deployed = true } })
  unfolding deploy_event_handler
  deploy_dead hdr id w h = simp h

  module _ (abi : AbiParser) (hdr : HeaderMgr) (log : ReceiptLogEntry) (w : World State) where
    pub notify_past_parsed :
        (msg rest : Bytes)
        → abi.to_bytes log.log_data ≡ ok (msg, rest)
        → notify_past_event_handler em abi hdr log w
          ≡ done tt
              (record w { store = save_past_event log.contract_addr (event_data hdr msg) w.store })
    unfolding notify_past_event_handler
    notify_past_parsed msg rest h = rw (h, notify_past_event_handler)

    pub notify_past_malformed :
        (e : Error)
        → abi.to_bytes log.log_data ≡ err e
        → notify_past_event_handler em abi hdr log w ≡ thrown e w
    unfolding notify_past_event_handler
    notify_past_malformed e h = rw (h, notify_past_event_handler)

    pub reg_malformed_publisher :
        (e : Error)
        → abi.to_bytes32 log.log_data ≡ err e
        → reg_event_handler em abi hdr log w ≡ thrown e w
    unfolding reg_event_handler
    reg_malformed_publisher e h = rw (h, reg_event_handler)

    pub reg_malformed_event_mgr :
        (word rest : Bytes) (e : Error)
        → abi.to_bytes32 log.log_data ≡ ok (word, rest)
        → abi.to_bytes32 rest ≡ err e
        → reg_event_handler em abi hdr log w ≡ thrown e w
    unfolding reg_event_handler
    reg_malformed_event_mgr word rest e h k = simp (h, k)

    pub reg_alive :
        (p rest a rest' : Bytes)
        → w.mgr_alive ≡ true
        → abi.to_bytes32 log.log_data ≡ ok (p, rest)
        → abi.to_bytes32 rest ≡ ok (a, rest')
        → let addr = abi_address_to_address a in
          let t = save_registration (abi_address_to_address p) addr w.store in
          reg_event_handler em abi hdr log w
          ≡ done tt (record w {
            store = t;
            event_mgr = (listen (build_notify_past_event_descr addr t) w.event_mgr).0;
          })
    unfolding reg_event_handler
    reg_alive p rest a rest' alive h k = simp (h, k, alive)

    pub notify_parsed :
        (queue : ℕ) (msg rest : Bytes)
        → abi.to_bytes log.log_data ≡ ok (msg, rest)
        → notify_event_handler abi queue hdr log w
          ≡ done tt
              (record w { event_queues = push_back queue (event_data hdr msg) w.event_queues })
    unfolding notify_event_handler
    notify_parsed queue msg rest h = rw (h, notify_event_handler)

    pub notify_malformed :
        (queue : ℕ) (e : Error)
        → abi.to_bytes log.log_data ≡ err e
        → notify_event_handler abi queue hdr log w ≡ thrown e w
    unfolding notify_event_handler
    notify_malformed queue e h = rw (h, notify_event_handler)

  module _ (write : Dict → Bytes) (view : MonitorView) (socket : ℕ) (w : World State) where
    -- The socket takes the message: the queue's content is sent, and the queue is empty.
    pub emitter_sent :
        (queue id : ℕ)
        → emitter_handler em write (ok tt) view socket queue id w
          ≡ done tt (record w {
            event_queues = clear queue w.event_queues;
            sockets =
                push_back socket
                  (build_emitted_msg write view (w.event_queues.cell queue))
                  w.sockets;
          })
    unfolding emitter_handler
    emitter_sent queue id = refl

    -- It does not: the exception goes on, the queue is empty all the same, and the listener is
    -- cancelled.
    pub emitter_failed :
        (e : Error) (queue id : ℕ)
        → emitter_handler em write (err e) view socket queue id w
          ≡ thrown e (record w {
            event_queues = clear queue w.event_queues;
            event_mgr = cancel id w.event_mgr;
          })
    unfolding emitter_handler
    emitter_failed e queue id = refl

    pub respond_sent :
        (addr : Bytes) (queue id : ℕ)
        → respond_events em write (ok tt) view socket addr (queue, id) w
          ≡ done tt (
              add_emitter
                (record { kind = events; socket = socket; queue = queue; listen_id = id })
                (record w {
                  sockets =
                      push_back socket
                        (build_emitted_msg write view (get_past_events w.store addr))
                        w.sockets;
                }))
    unfolding respond_events
    respond_sent addr queue id = refl

    pub respond_failed :
        (e : Error) (addr : Bytes) (queue id : ℕ)
        → respond_events em write (err e) view socket addr (queue, id) w ≡ thrown e w
    unfolding respond_events
    respond_failed e addr queue id = refl
