-- ===== src/History/Queues.antt =====
-- A subscriber's live queue: every event that arrives is taken once, in the order of arrival.
use decent_ethereum.Base.{
  ℕ, ◌<◌, ◌≡◌, sym, ap, ◌∙◌, true, inl, inr, [], ◌++◌, Bytes, Result, ok, err, Result-cases, after,
  ◌==◌, if_same, append-nil, append_assoc,
}
use decent_ethereum.External.{
  Callback, deploy, reg, notify_past, notify, receipt, EventManager, AbiParser, HeaderMgr,
  ReceiptLogEntry,
}
use decent_ethereum.World.{EventDataQueue, World, Emitter, EmitterKind, events, receipts}
use decent_ethereum.Pubsub.Handler.{
  Dict, MonitorView, emitter_handler, respond_events, subscribe_events,
}
use decent_ethereum.Pubsub.Behaviour.{
  deploy_alive, reg_malformed_publisher, reg_malformed_event_mgr, reg_alive, notify_past_malformed,
  notify_past_parsed, notify_malformed, notify_parsed,
}
use decent_ethereum.Receipts.{
  Request, bad_address, bad_topic, valid, serve_request, subscribed_receipt_emitter,
  subscribed_receipt_handler,
}
use decent_ethereum.Dispatch.{
  System, Step, Reach, deliver, beat, begin, answer, serve, here, next, begin_request, run_callback,
  run_emitter,
}
use decent_ethereum.History.Moves.{Moves, Moves-same, Moves-alloc, Moves-push_back, Moves-clear}
use decent_ethereum.History.{
  event_of_parsed, event_of_malformed, pushed, step_arrived, step_taken, taken_by, arrived, taken,
}

module _ (em : EventManager) (abi : AbiParser) (hdr : HeaderMgr) (log : ReceiptLogEntry) where
  open em use {State}

  reg-Moves :
      (id p : ℕ) (w : World State)
      → w.mgr_alive ≡ true
      → p < w.event_queues.next
      → Moves p w.event_queues (after (run_callback em abi reg id hdr log w)).event_queues [] []
  unfolding run_callback
  reg-Moves id p w alive h = elim (Result-cases (abi.to_bytes32 log.log_data)) [
    | inl (e, f) ↦ rw (reg_malformed_publisher em abi hdr log w e f) (Moves-same p _ h)
    | inr ((a, rest), f) ↦ elim (Result-cases (abi.to_bytes32 rest)) [
      | inl (e, g) ↦ rw (reg_malformed_event_mgr em abi hdr log w a rest e f g) (Moves-same p _ h)
      | inr ((b, rest'), g) ↦
          rw (reg_alive em abi hdr log w a rest b rest' alive f g) (Moves-same p _ h)
    ]
  ]

  notify_past-Moves :
      (id p : ℕ) (w : World State)
      → p < w.event_queues.next
      → Moves p w.event_queues
          (after (run_callback em abi notify_past id hdr log w)).event_queues
          []
          []
  unfolding run_callback
  notify_past-Moves id p w h = elim (Result-cases (abi.to_bytes log.log_data)) [
    | inl (e, f) ↦ rw (notify_past_malformed em abi hdr log w e f) (Moves-same p _ h)
    | inr ((msg, rest), f) ↦ rw (notify_past_parsed em abi hdr log w msg rest f) (Moves-same p _ h)
  ]

  -- Of all handlers only a subscriber's own pushes to its queue.
  notify-Moves :
      (id q p : ℕ) (w : World State)
      → p < w.event_queues.next
      → Moves p w.event_queues
          (after (run_callback em abi (notify q) id hdr log w)).event_queues
          []
          (pushed abi hdr log (notify q) p)
  unfolding run_callback
  notify-Moves id q p w h = elim (Result-cases (abi.to_bytes log.log_data)) [
    | inl (e, f) ↦
        rw (notify_malformed em abi hdr log w q e f, event_of_malformed abi hdr log e f)
          (rw (if_same {A = EventDataQueue} (q == p) []) (Moves-same p _ h))
    | inr ((msg, rest), f) ↦
        rw (notify_parsed em abi hdr log w q msg rest f, event_of_parsed abi hdr log msg rest f)
          (Moves-push_back p q w.event_queues _ h)
  ]

  delivered-Moves :
      (c : Callback) (id p : ℕ) (w : World State)
      → w.mgr_alive ≡ true
      → p < w.event_queues.next
      → Moves p w.event_queues
          (after (run_callback em abi c id hdr log w)).event_queues
          []
          (pushed abi hdr log c p)
  unfolding run_callback subscribed_receipt_handler
  delivered-Moves deploy id p w alive h = rw (deploy_alive em hdr id w alive) (Moves-same p _ h)
  delivered-Moves reg id p w alive h = reg-Moves id p w alive h
  delivered-Moves notify_past id p w alive h = notify_past-Moves id p w h
  delivered-Moves (notify q) id p w alive h = notify-Moves id q p w h
  delivered-Moves (receipt q) id p w alive h = Moves-same p _ h

module _ (em : EventManager) (write : Dict → Bytes) where
  open em use {State}

  beat-Moves :
      (accepted : Result (Unit {0})) (view : MonitorView) (k : EmitterKind) (socket q id p : ℕ)
      (w : World State)
      → p < w.event_queues.next
      → let e : Emitter = record { kind = k; socket = socket; queue = q; listen_id = id } in
        Moves p w.event_queues
          (after (run_emitter em write accepted view e w)).event_queues
          (taken_by k q p w)
          []
  unfolding run_emitter emitter_handler subscribed_receipt_emitter
  beat-Moves (ok u) view events socket q id p w h = Moves-clear p q w.event_queues h
  beat-Moves (ok u) view receipts socket q id p w h = Moves-same p _ h
  beat-Moves (err e) view events socket q id p w h = Moves-clear p q w.event_queues h
  beat-Moves (err e) view receipts socket q id p w h = Moves-same p _ h

  answer-Moves :
      (accepted : Result (Unit {0})) (view : MonitorView) (socket : ℕ) (addr : Bytes) (q id p : ℕ)
      (w : World State)
      → p < w.event_queues.next
      → Moves p w.event_queues
          (after (respond_events em write accepted view socket addr (q, id) w)).event_queues
          []
          []
  unfolding respond_events
  answer-Moves (ok u) view socket addr q id p w h = Moves-same p _ h
  answer-Moves (err e) view socket addr q id p w h = Moves-same p _ h

  begin-Moves :
      (addr : Bytes) (p : ℕ) (y : System State)
      → p < y.world.event_queues.next
      → Moves p y.world.event_queues (begin_request em addr y).world.event_queues [] []
  unfolding begin_request subscribe_events
  begin-Moves addr p y h = Moves-alloc p y.world.event_queues h

  serve-Moves :
      (socket : ℕ) (r : Request) (p : ℕ) (w : World State)
      → p < w.event_queues.next
      → Moves p w.event_queues (serve_request em socket r w).event_queues [] []
  unfolding serve_request
  serve-Moves socket bad_address p w h = Moves-same p _ h
  serve-Moves socket bad_topic p w h = Moves-same p _ h
  serve-Moves socket (valid addr topics) p w h = Moves-same p _ h

module _ (em : EventManager) (abi : AbiParser) (write : Dict → Bytes) where
  open em use {State}

  step-Moves :
      (y z : System State) (st : Step em abi write y z) (p : ℕ)
      → p < y.world.event_queues.next
      → Moves p y.world.event_queues z.world.event_queues
          (step_taken em abi write st p)
          (step_arrived em abi write st p)
  unfolding step_taken step_arrived
  step-Moves y z (deliver id d hdr log alive x m e) p h =
      rw e (delivered-Moves em abi hdr log d.callback id p y.world alive h)
  step-Moves y z (beat accepted view f m e) p h =
      rw e (beat-Moves em write accepted view f.kind f.socket f.queue f.listen_id p y.world h)
  step-Moves y z (begin a e) p h = rw e (begin-Moves em write a p y h)
  step-Moves y z (answer accepted view socket r before rest q e) p h =
      rw e
        (answer-Moves em write accepted view socket r.ev_mgr_addr r.queue r.listen_id p y.world h)
  step-Moves y z (serve socket r e) p h = rw e (serve-Moves em write socket r p y.world h)

  -- In any run, and for any live event queue that exists at its start, what heartbeats took out of
  -- the queue, followed by what the queue holds at the end, is what it held at the start, followed
  -- by the events that arrived in it: no event is lost in the queue, none is taken twice, and the
  -- order is kept. The queue still exists at the end.
  pub taken-arrived :
      (y z : System State) (r : Reach em abi write y z) (p : ℕ)
      → p < y.world.event_queues.next
      → (taken em abi write r p ++ z.world.event_queues.cell p
          ≡ y.world.event_queues.cell p ++ arrived em abi write r p)
        × (p < z.world.event_queues.next)
  unfolding taken arrived
  taken-arrived y z here p h = (sym (append-nil (y.world.event_queues.cell p)), h)
  taken-arrived y z (next {z = u} r st) p h =
      let (e, made) = taken-arrived y u r p h in
      let m = step-Moves u z st p made in
      (
        append_assoc (taken em abi write r p) _ _
            ∙ (ap (λ q. taken em abi write r p ++ q) m.balance
                ∙ (sym (append_assoc (taken em abi write r p) _ _)
                    ∙ (ap (λ q. q ++ step_arrived em abi write st p) e
                        ∙ append_assoc (y.world.event_queues.cell p) _ _))),
        m.made,
      )
