-- ===== src/History/ReceiptQueues.antt =====
-- The queue of a receipt subscription: every receipt that arrives is taken once, in the order of
-- arrival.
use decent_ethereum.Base.{
  ℕ, ◌<◌, ◌≡◌, sym, ap, ◌∙◌, true, inl, inr, List, [], ◌∷◌, ◌++◌, Bytes, Result, ok, err,
  Result-cases, after, ◌==◌, if◌then◌else◌, append-nil, append_assoc,
}
use decent_ethereum.External.{
  Callback, deploy, reg, notify_past, notify, receipt, EventManager, AbiParser, HeaderMgr,
  ReceiptLogEntry,
}
use decent_ethereum.World.{ReceiptItem, World, Emitter, EmitterKind, events, receipts}
use decent_ethereum.Pubsub.Handler.{
  Dict, MonitorView, emitter_handler, respond_events, subscribe_events,
}
use decent_ethereum.Pubsub.Behaviour.{
  deploy_alive, reg_malformed_publisher, reg_malformed_event_mgr, reg_alive, notify_past_malformed,
  notify_past_parsed, notify_malformed, notify_parsed,
}
use decent_ethereum.Receipts.{
  Request, bad_address, bad_topic, valid, receipt_item, serve_request, subscribe_receipts,
  subscribed_receipt_emitter, subscribed_receipt_handler,
}
use decent_ethereum.Dispatch.{
  System, Step, Reach, deliver, beat, begin, answer, serve, here, next, begin_request, run_callback,
  run_emitter,
}
use decent_ethereum.History.Moves.{Moves, Moves-same, Moves-alloc, Moves-push_back, Moves-clear}

-- What a listener pushes to the receipt queue number `p`.
abbrev pub receipt_pushed : HeaderMgr → ReceiptLogEntry → Callback → ℕ → List ReceiptItem
receipt_pushed hdr log (receipt q) p = if q == p then receipt_item hdr log ∷ [] else []
receipt_pushed hdr log deploy p = []
receipt_pushed hdr log reg p = []
receipt_pushed hdr log notify_past p = []
receipt_pushed hdr log (notify q) p = []

abbrev pub receipts_taken_by : {M : Type 0} → EmitterKind → ℕ → ℕ → World M → List ReceiptItem
receipts_taken_by receipts q p w = if q == p then w.receipt_queues.cell p else []
receipts_taken_by events q p w = []

module _ (em : EventManager) (abi : AbiParser) (write : Dict → Bytes) where
  open em use {State}

  pub step_receipts_arrived : {y z : System State} → Step em abi write y z → ℕ → List ReceiptItem
  step_receipts_arrived (deliver id d hdr log alive h m e) p = receipt_pushed hdr log d.callback p
  step_receipts_arrived (beat accepted view f m e) p = []
  step_receipts_arrived (begin a e) p = []
  step_receipts_arrived (answer accepted view socket pending before rest q e) p = []
  step_receipts_arrived (serve socket r e) p = []

  pub step_receipts_taken : {y z : System State} → Step em abi write y z → ℕ → List ReceiptItem
  step_receipts_taken {y} (beat accepted view f m e) p = receipts_taken_by f.kind f.queue p y.world
  step_receipts_taken (deliver id d hdr log alive h m e) p = []
  step_receipts_taken (begin a e) p = []
  step_receipts_taken (answer accepted view socket pending before rest q e) p = []
  step_receipts_taken (serve socket r e) p = []

  -- The receipts that listeners pushed to a queue in the course of a run, and those that heartbeats
  -- took out of it, oldest first.
  pub receipts_arrived : {y z : System State} → Reach em abi write y z → ℕ → List ReceiptItem
  unfolding step_receipts_arrived
  receipts_arrived here p = []
  receipts_arrived (next r st) p = receipts_arrived r p ++ step_receipts_arrived st p

  pub receipts_taken : {y z : System State} → Reach em abi write y z → ℕ → List ReceiptItem
  unfolding step_receipts_taken
  receipts_taken here p = []
  receipts_taken (next r st) p = receipts_taken r p ++ step_receipts_taken st p

module _ (em : EventManager) (abi : AbiParser) (hdr : HeaderMgr) (log : ReceiptLogEntry) where
  open em use {State}

  -- The handlers of the publish-subscribe service leave the receipt queues alone.
  receipt_queues-reg :
      (id : ℕ) (w : World State)
      → w.mgr_alive ≡ true
      → (after (run_callback em abi reg id hdr log w)).receipt_queues ≡ w.receipt_queues
  unfolding run_callback
  receipt_queues-reg id w alive = elim (Result-cases (abi.to_bytes32 log.log_data)) [
    | inl (e, f) ↦ rw (reg_malformed_publisher em abi hdr log w e f)
    | inr ((a, rest), f) ↦ elim (Result-cases (abi.to_bytes32 rest)) [
      | inl (e, g) ↦ rw (reg_malformed_event_mgr em abi hdr log w a rest e f g)
      | inr ((b, rest'), g) ↦ rw (reg_alive em abi hdr log w a rest b rest' alive f g)
    ]
  ]

  receipt_queues-notify_past :
      (id : ℕ) (w : World State)
      → (after (run_callback em abi notify_past id hdr log w)).receipt_queues ≡ w.receipt_queues
  unfolding run_callback
  receipt_queues-notify_past id w = elim (Result-cases (abi.to_bytes log.log_data)) [
    | inl (e, f) ↦ rw (notify_past_malformed em abi hdr log w e f)
    | inr ((msg, rest), f) ↦ rw (notify_past_parsed em abi hdr log w msg rest f)
  ]

  receipt_queues-notify :
      (id q : ℕ) (w : World State)
      → (after (run_callback em abi (notify q) id hdr log w)).receipt_queues ≡ w.receipt_queues
  unfolding run_callback
  receipt_queues-notify id q w = elim (Result-cases (abi.to_bytes log.log_data)) [
    | inl (e, f) ↦ rw (notify_malformed em abi hdr log w q e f)
    | inr ((msg, rest), f) ↦ rw (notify_parsed em abi hdr log w q msg rest f)
  ]

  delivered-Moves :
      (c : Callback) (id p : ℕ) (w : World State)
      → w.mgr_alive ≡ true
      → p < w.receipt_queues.next
      → Moves p w.receipt_queues
          (after (run_callback em abi c id hdr log w)).receipt_queues
          []
          (receipt_pushed hdr log c p)
  unfolding run_callback subscribed_receipt_handler
  delivered-Moves deploy id p w alive h = rw (deploy_alive em hdr id w alive) (Moves-same p _ h)
  delivered-Moves reg id p w alive h = rw (receipt_queues-reg id w alive) (Moves-same p _ h)
  delivered-Moves notify_past id p w alive h =
      rw (receipt_queues-notify_past id w) (Moves-same p _ h)
  delivered-Moves (notify q) id p w alive h = rw (receipt_queues-notify id q w) (Moves-same p _ h)
  delivered-Moves (receipt q) id p w alive h = Moves-push_back p q w.receipt_queues _ h

module _ (em : EventManager) (write : Dict → Bytes) where
  open em use {State}

  beat-Moves :
      (accepted : Result (Unit {0})) (view : MonitorView) (k : EmitterKind) (socket q id p : ℕ)
      (w : World State)
      → p < w.receipt_queues.next
      → let e : Emitter = record { kind = k; socket = socket; queue = q; listen_id = id } in
        Moves p w.receipt_queues
          (after (run_emitter em write accepted view e w)).receipt_queues
          (receipts_taken_by k q p w)
          []
  unfolding run_emitter emitter_handler subscribed_receipt_emitter
  beat-Moves (ok u) view receipts socket q id p w h = Moves-clear p q w.receipt_queues h
  beat-Moves (ok u) view events socket q id p w h = Moves-same p _ h
  beat-Moves (err e) view receipts socket q id p w h = Moves-clear p q w.receipt_queues h
  beat-Moves (err e) view events socket q id p w h = Moves-same p _ h

  answer-Moves :
      (accepted : Result (Unit {0})) (view : MonitorView) (socket : ℕ) (addr : Bytes) (q id p : ℕ)
      (w : World State)
      → p < w.receipt_queues.next
      → Moves p w.receipt_queues
          (after (respond_events em write accepted view socket addr (q, id) w)).receipt_queues
          []
          []
  unfolding respond_events
  answer-Moves (ok u) view socket addr q id p w h = Moves-same p _ h
  answer-Moves (err e) view socket addr q id p w h = Moves-same p _ h

  begin-Moves :
      (addr : Bytes) (p : ℕ) (y : System State)
      → p < y.world.receipt_queues.next
      → Moves p y.world.receipt_queues (begin_request em addr y).world.receipt_queues [] []
  unfolding begin_request subscribe_events
  begin-Moves addr p y h = Moves-same p _ h

  serve-Moves :
      (socket : ℕ) (r : Request) (p : ℕ) (w : World State)
      → p < w.receipt_queues.next
      → Moves p w.receipt_queues (serve_request em socket r w).receipt_queues [] []
  unfolding serve_request subscribe_receipts
  serve-Moves socket bad_address p w h = Moves-same p _ h
  serve-Moves socket bad_topic p w h = Moves-same p _ h
  serve-Moves socket (valid addr topics) p w h = Moves-alloc p w.receipt_queues h

module _ (em : EventManager) (abi : AbiParser) (write : Dict → Bytes) where
  open em use {State}

  step-Moves :
      (y z : System State) (st : Step em abi write y z) (p : ℕ)
      → p < y.world.receipt_queues.next
      → Moves p y.world.receipt_queues z.world.receipt_queues
          (step_receipts_taken em abi write st p)
          (step_receipts_arrived em abi write st p)
  unfolding step_receipts_taken step_receipts_arrived
  step-Moves y z (deliver id d hdr log alive x m e) p h =
      rw e (delivered-Moves em abi hdr log d.callback id p y.world alive h)
  step-Moves y z (beat accepted view f m e) p h =
      rw e (beat-Moves em write accepted view f.kind f.socket f.queue f.listen_id p y.world h)
  step-Moves y z (begin a e) p h = rw e (begin-Moves em write a p y h)
  step-Moves y z (answer accepted view socket r before rest q e) p h =
      rw e
        (answer-Moves em write accepted view socket r.ev_mgr_addr r.queue r.listen_id p y.world h)
  step-Moves y z (serve socket r e) p h = rw e (serve-Moves em write socket r p y.world h)

  -- In any run, and for any receipt queue that exists at its start, what heartbeats took out of the
  -- queue, followed by what the queue holds at the end, is what it held at the start, followed by
  -- the receipts that arrived in it, in order. The queue still exists at the end.
  pub receipts_taken-receipts_arrived :
      (y z : System State) (r : Reach em abi write y z) (p : ℕ)
      → p < y.world.receipt_queues.next
      → (receipts_taken em abi write r p ++ z.world.receipt_queues.cell p
          ≡ y.world.receipt_queues.cell p ++ receipts_arrived em abi write r p)
        × (p < z.world.receipt_queues.next)
  unfolding receipts_taken receipts_arrived
  receipts_taken-receipts_arrived y z here p h =
      (sym (append-nil (y.world.receipt_queues.cell p)), h)
  receipts_taken-receipts_arrived y z (next {z = u} r st) p h =
      let (e, made) = receipts_taken-receipts_arrived y u r p h in
      let m = step-Moves u z st p made in
      (
        append_assoc (receipts_taken em abi write r p) _ _
            ∙ (ap (λ q. receipts_taken em abi write r p ++ q) m.balance
                ∙ (sym (append_assoc (receipts_taken em abi write r p) _ _)
                    ∙ (ap (λ q. q ++ step_receipts_arrived em abi write st p) e
                        ∙ append_assoc (y.world.receipt_queues.cell p) _ _))),
        m.made,
      )
