-- ===== src/Lifecycle/SizedRuns.antt =====
-- In every reachable state the arrays have their sizes.
use decent_ethereum.Base.{
  ℕ, ◌≡◌, refl, true, false, inl, inr, none, some, Bytes, Result, ok, err, Result-cases, after,
}
use decent_ethereum.External.{
  Callback, deploy, reg, notify_past, notify, receipt, EventDescription, EventManager, AbiParser,
  HeaderMgr, ReceiptLogEntry,
}
use decent_ethereum.World.{PubsubServiceStore, Emitter, EmitterKind, events, receipts, World}
use decent_ethereum.Pubsub.Service.{new_store, get_event_mgr_addr}
use decent_ethereum.Pubsub.Handler.{
  Dict, MonitorView, subscribe_events, emitter_handler, respond_events,
}
use decent_ethereum.Pubsub.Behaviour.{
  deploy_alive, reg_malformed_publisher, reg_malformed_event_mgr, reg_alive, notify_past_malformed,
  notify_past_parsed, notify_malformed, notify_parsed,
}
use decent_ethereum.Receipts.{
  Request, bad_address, bad_topic, valid, serve_request, subscribed_receipt_emitter,
  subscribed_receipt_handler,
}
use decent_ethereum.Dispatch.{
  System, Step, Reach, boot, deliver, beat, begin, answer, serve, here, next, begin_request,
  run_callback, run_emitter,
}
use decent_ethereum.Lifecycle.{is_subscriber}
use decent_ethereum.Lifecycle.Boot.{new_store-IsNew, boot-Reach-SystemInv}
use decent_ethereum.Lifecycle.Sizes.{
  IsAddr, IsTopic, StoreSized, DescrSized, abi_address_to_address-IsAddr,
  save_past_event-StoreSized, save_registration-StoreSized, get_event_mgr_addr-IsAddr,
  Wired-DescrSized,
}

-- The mark of the deployment.
deployed-StoreSized :
    (s : PubsubServiceStore) → StoreSized s → StoreSized (record s { is_deployed = true })
deployed-StoreSized s v = record {
  pubsub = v.pubsub;
  deploy_topic = v.deploy_topic;
  reg_topic = v.reg_topic;
  notify_topic = v.notify_topic;
  publishers = v.publishers;
  queues = v.queues;
}

module _ (em : EventManager) (abi : AbiParser) (hdr : HeaderMgr) (log : ReceiptLogEntry) where
  open em use {State}

  reg-StoreSized :
      (id : ℕ) (w : World State)
      → w.mgr_alive ≡ true
      → StoreSized w.store
      → StoreSized (after (run_callback em abi reg id hdr log w)).store
  unfolding run_callback
  reg-StoreSized id w alive v = elim (Result-cases (abi.to_bytes32 log.log_data)) [
    | inl (e, f) ↦ rw (reg_malformed_publisher em abi hdr log w e f) v
    | inr ((a, rest), f) ↦ elim (Result-cases (abi.to_bytes32 rest)) [
      | inl (e, g) ↦ rw (reg_malformed_event_mgr em abi hdr log w a rest e f g) v
      | inr ((b, rest'), g) ↦ rw (reg_alive em abi hdr log w a rest b rest' alive f g) (
          save_registration-StoreSized _ _ w.store
            (abi_address_to_address-IsAddr a (abi.length-to_bytes32 log.log_data a rest f))
            (abi_address_to_address-IsAddr b (abi.length-to_bytes32 rest b rest' g)) v)
    ]
  ]

  delivered-StoreSized :
      (c : Callback) (id : ℕ) (w : World State)
      → w.mgr_alive ≡ true
      → StoreSized w.store
      → StoreSized (after (run_callback em abi c id hdr log w)).store
  unfolding run_callback subscribed_receipt_handler
  delivered-StoreSized deploy id w alive v =
      rw (deploy_alive em hdr id w alive) (deployed-StoreSized w.store v)
  delivered-StoreSized reg id w alive v = reg-StoreSized id w alive v
  delivered-StoreSized notify_past id w alive v = elim (Result-cases (abi.to_bytes log.log_data)) [
    | inl (e, f) ↦ rw (notify_past_malformed em abi hdr log w e f) v
    | inr ((msg, rest), f) ↦
        rw (notify_past_parsed em abi hdr log w msg rest f)
          (save_past_event-StoreSized log.contract_addr _ w.store v)
  ]
  delivered-StoreSized (notify q) id w alive v = elim (Result-cases (abi.to_bytes log.log_data)) [
    | inl (e, f) ↦ rw (notify_malformed em abi hdr log w q e f) v
    | inr ((msg, rest), f) ↦ rw (notify_parsed em abi hdr log w q msg rest f) v
  ]
  delivered-StoreSized (receipt q) id w alive v = v

module _ (em : EventManager) (write : Dict → Bytes) where
  open em use {State}

  -- Heartbeats and requests leave the store alone.
  beat-store :
      (accepted : Result (Unit {0})) (view : MonitorView) (k : EmitterKind) (socket q id : ℕ)
      (w : World State)
      → let e : Emitter = record { kind = k; socket = socket; queue = q; listen_id = id } in
        (after (run_emitter em write accepted view e w)).store ≡ w.store
  unfolding run_emitter emitter_handler subscribed_receipt_emitter
  beat-store (ok u) view events socket q id w = refl
  beat-store (ok u) view receipts socket q id w = refl
  beat-store (err e) view events socket q id w = refl
  beat-store (err e) view receipts socket q id w = refl

  answer-store :
      (accepted : Result (Unit {0})) (view : MonitorView) (socket : ℕ) (addr : Bytes) (r : ℕ × ℕ)
      (w : World State)
      → (after (respond_events em write accepted view socket addr r w)).store ≡ w.store
  unfolding respond_events
  answer-store (ok u) view socket addr r w = refl
  answer-store (err e) view socket addr r w = refl

  begin-store :
      (addr : Bytes) (y : System State) → (begin_request em addr y).world.store ≡ y.world.store
  unfolding begin_request subscribe_events
  begin-store addr y = refl

  serve-store :
      (socket : ℕ) (r : Request) (w : World State) → (serve_request em socket r w).store ≡ w.store
  unfolding serve_request
  serve-store socket bad_address w = refl
  serve-store socket bad_topic w = refl
  serve-store socket (valid addr topics) w = refl

module _ (em : EventManager) (abi : AbiParser) (write : Dict → Bytes) where
  open em use {State, find}

  step-StoreSized :
      (y z : System State)
      → Step em abi write y z
      → StoreSized y.world.store
      → StoreSized z.world.store
  step-StoreSized y z (deliver id d hdr log alive h m e) v =
      rw e (delivered-StoreSized em abi hdr log d.callback id y.world alive v)
  step-StoreSized y z (beat accepted view f m e) v =
      rw (e, beat-store em write accepted view f.kind f.socket f.queue f.listen_id y.world) v
  step-StoreSized y z (begin a e) v = rw (e, begin-store em write a y) v
  step-StoreSized y z (answer accepted view socket r before rest q e) v =
      rw
        (e, answer-store em write accepted view socket r.ev_mgr_addr (r.queue, r.listen_id) y.world)
        v
  step-StoreSized y z (serve socket r e) v = rw (e, serve-store em write socket r y.world) v

  run-StoreSized :
      (y z : System State)
      → Reach em abi write y z
      → StoreSized y.world.store
      → StoreSized z.world.store
  run-StoreSized y z here v = v
  run-StoreSized y z (next {z = u} r st) v = step-StoreSized u z st (run-StoreSized y u r v)

  module _ (m : State) (no_listener : (i : ℕ) → find i m ≡ none) where
    -- Let the publish-subscribe contract's address have 20 bytes and every hash 32. Then in every
    -- state that the threads reach from the start on, the arrays of the store have the sizes of
    -- their C++ types (addresses 20 bytes, topics 32, as keys and as values of both maps), the
    -- address found for any publisher, known or not, has 20 bytes, and each listener of the service
    -- asks for a contract of 20 bytes and topics of 32.
    pub boot-Reach-Sized :
        (keccak256 : Bytes → Bytes) (addr deploy_sign reg_sign notify_sign : Bytes)
        (z : System State)
        → IsAddr addr
        → ((b : Bytes) → IsTopic (keccak256 b))
        → Reach em abi write
            (boot em m (new_store keccak256 addr deploy_sign reg_sign notify_sign))
            z
        → StoreSized z.world.store
          × ((p : Bytes) → IsAddr (get_event_mgr_addr z.world.store p))
          × ((id : ℕ) (d : EventDescription)
              → find id z.world.event_mgr ≡ some d
              → is_subscriber d.callback ≡ false
              → DescrSized d)
    unfolding boot new_store
    boot-Reach-Sized keccak256 addr deploy_sign reg_sign notify_sign z h t r =
        let v = run-StoreSized _ z r (record {
          pubsub = h;
          deploy_topic = t deploy_sign;
          reg_topic = t reg_sign;
          notify_topic = t notify_sign;
          publishers = tt;
          queues = tt;
        }) in
        let i =
          boot-Reach-SystemInv em m no_listener abi write _ z
            (new_store-IsNew keccak256 addr deploy_sign reg_sign notify_sign) r in
        (
          v,
          (λ p. get_event_mgr_addr-IsAddr z.world.store p v),
          (λ id d f g. Wired-DescrSized z.world.store d d.callback (i.service.wired id d f) g v),
        )
