-- ===== src/History/PastEvents.antt =====
-- The store of past events is the history of the notifications.
use decent_ethereum.Lifecycle.Boot.{IsNew, boot-SystemInv}
use decent_ethereum.Base.{
  ℕ, ◌≡◌, refl, ap, ◌∙◌, true, inl, inr, [], ◌++◌, some, none, Bytes, arith, Result, ok, err,
  Result-cases, after, append-nil, append_assoc, lookup,
}
use decent_ethereum.External.{
  Callback, deploy, reg, notify_past, notify, receipt, EventDescription, EventManager, AbiParser,
  HeaderMgr, ReceiptLogEntry,
}
use decent_ethereum.World.{
  EventDataQueue, World, PubsubServiceStore, Emitter, EmitterKind, events, receipts,
}
use decent_ethereum.Pubsub.Service.{get_past_events}
use decent_ethereum.Pubsub.Handler.{
  Dict, MonitorView, emitter_handler, respond_events, subscribe_events,
}
use decent_ethereum.Pubsub.Behaviour.{
  deploy_alive, reg_malformed_publisher, reg_malformed_event_mgr, reg_alive, notify_past_malformed,
  notify_past_parsed, notify_malformed, notify_parsed,
}
use decent_ethereum.Pubsub.PastEvents.{
  get_past_events-save_past_event, get_past_events-save_registration,
}
use decent_ethereum.Receipts.{
  Request, bad_address, bad_topic, valid, serve_request, subscribed_receipt_emitter,
  subscribed_receipt_handler,
}
use decent_ethereum.Dispatch.{
  System, Step, Reach, boot, deliver, beat, begin, answer, serve, here, next, begin_request,
  run_callback, run_emitter,
}
use decent_ethereum.Lifecycle.{HasQueue, Wired}
use decent_ethereum.Lifecycle.Delivery.{SystemInv}
use decent_ethereum.Lifecycle.Reachable.{Reach-SystemInv}
use decent_ethereum.History.{event_of_parsed, event_of_malformed, told, step_notified, notified}

-- Only the handlers of the service write the store.
module _ (em : EventManager) (write : Dict → Bytes) where
  open em use {State}

  pub store-run_emitter :
      (accepted : Result (Unit {0})) (view : MonitorView) (k : EmitterKind) (socket queue id : ℕ)
      (w : World State)
      → let e : Emitter = record { kind = k; socket = socket; queue = queue; listen_id = id } in
        (after (run_emitter em write accepted view e w)).store ≡ w.store
  unfolding run_emitter emitter_handler subscribed_receipt_emitter
  store-run_emitter (ok u) view events socket queue id w = refl
  store-run_emitter (ok u) view receipts socket queue id w = refl
  store-run_emitter (err e) view events socket queue id w = refl
  store-run_emitter (err e) view receipts socket queue id w = refl

  pub store-respond_events :
      (accepted : Result (Unit {0})) (view : MonitorView) (socket : ℕ) (addr : Bytes) (queue id : ℕ)
      (w : World State)
      → (after (respond_events em write accepted view socket addr (queue, id) w)).store ≡ w.store
  unfolding respond_events
  store-respond_events (ok u) view socket addr queue id w = refl
  store-respond_events (err e) view socket addr queue id w = refl

  pub store-begin_request :
      (addr : Bytes) (y : System State) → (begin_request em addr y).world.store ≡ y.world.store
  unfolding begin_request subscribe_events
  store-begin_request addr y = refl

  pub store-serve_request :
      (socket : ℕ) (r : Request) (w : World State) → (serve_request em socket r w).store ≡ w.store
  unfolding serve_request
  store-serve_request socket bad_address w = refl
  store-serve_request socket bad_topic w = refl
  store-serve_request socket (valid addr topics) w = refl

module _ (em : EventManager) (abi : AbiParser) (hdr : HeaderMgr) (log : ReceiptLogEntry) where
  open em use {State, find}

  -- A notification that reaches the store is kept, and no other handler drops one.
  notify_past-notified :
      (id : ℕ) (w : World State) (q : EventDataQueue) (addr : Bytes)
      → lookup log.contract_addr w.store.past_event_store ≡ some q
      → get_past_events (after (run_callback em abi notify_past id hdr log w)).store addr
        ≡ get_past_events w.store addr ++ told abi hdr log notify_past addr
  unfolding run_callback
  notify_past-notified id w q addr h = elim (Result-cases (abi.to_bytes log.log_data)) [
    | inl (e, f) ↦
        rw (notify_past_malformed em abi hdr log w e f, event_of_malformed abi hdr log e f)
          (ground (arith, append-nil (get_past_events w.store addr)))
    | inr ((msg, rest), f) ↦
        rw (notify_past_parsed em abi hdr log w msg rest f, event_of_parsed abi hdr log msg rest f)
          (get_past_events-save_past_event log.contract_addr addr _ w.store q h)
  ]

  reg-notified :
      (id : ℕ) (w : World State) (addr : Bytes)
      → w.mgr_alive ≡ true
      → get_past_events (after (run_callback em abi reg id hdr log w)).store addr
        ≡ get_past_events w.store addr
  unfolding run_callback
  reg-notified id w addr alive = elim (Result-cases (abi.to_bytes32 log.log_data)) [
    | inl (e, f) ↦ rw (reg_malformed_publisher em abi hdr log w e f)
    | inr ((p, rest), f) ↦ elim (Result-cases (abi.to_bytes32 rest)) [
      | inl (e, g) ↦ rw (reg_malformed_event_mgr em abi hdr log w p rest e f g)
      | inr ((a, rest'), g) ↦
          rw (reg_alive em abi hdr log w p rest a rest' alive f g)
            (get_past_events-save_registration _ _ addr w.store)
    ]
  ]

  pub notify-notified :
      (id queue : ℕ) (w : World State)
      → (after (run_callback em abi (notify queue) id hdr log w)).store ≡ w.store
  unfolding run_callback
  notify-notified id queue w = elim (Result-cases (abi.to_bytes log.log_data)) [
    | inl (e, f) ↦ rw (notify_malformed em abi hdr log w queue e f)
    | inr ((msg, rest), f) ↦ rw (notify_parsed em abi hdr log w queue msg rest f)
  ]

  delivered-notified :
      (c : Callback) (id : ℕ) (w : World State) (addr : Bytes)
      → w.mgr_alive ≡ true
      → (c ≡ notify_past → HasQueue w.store log.contract_addr)
      → get_past_events (after (run_callback em abi c id hdr log w)).store addr
        ≡ get_past_events w.store addr ++ told abi hdr log c addr
  unfolding run_callback subscribed_receipt_handler get_past_events
  delivered-notified deploy id w addr alive q = rw append-nil (rw (deploy_alive em hdr id w alive))
  delivered-notified reg id w addr alive q = rw append-nil (reg-notified id w addr alive)
  delivered-notified notify_past id w addr alive q =
      notify_past-notified id w (q refl).0 addr (q refl).1
  delivered-notified (notify n) id w addr alive q =
      rw append-nil (ap (λ s. get_past_events s addr) (notify-notified id n w))
  delivered-notified (receipt n) id w addr alive q = rw append-nil

module _ (em : EventManager) (abi : AbiParser) (write : Dict → Bytes) where
  open em use {State, Matches, matches_addr}

  told-HasQueue :
      (y : System State) (d : EventDescription) (log : ReceiptLogEntry)
      → Matches d log
      → Wired y.world.store d d.callback
      → d.callback ≡ notify_past
      → HasQueue y.world.store log.contract_addr
  told-HasQueue y d log m w e = rw (matches_addr d log m) (rw e at w).0

  pub past_events-step :
      (y z : System State) (st : Step em abi write y z) (addr : Bytes)
      → SystemInv em y
      → get_past_events z.world.store addr
        ≡ get_past_events y.world.store addr ++ step_notified em abi write st addr
  unfolding step_notified
  past_events-step y z (deliver id d hdr log alive h m e) addr v = rw e (
      delivered-notified em abi hdr log d.callback id y.world addr alive
        (told-HasQueue y d log m (v.service.wired id d h)))
  past_events-step y z (beat accepted view f m e) addr v =
      rw (append-nil, e)
        (ap (λ s. get_past_events s addr)
          (store-run_emitter em write accepted view f.kind f.socket f.queue f.listen_id y.world))
  past_events-step y z (begin a e) addr v =
      rw (append-nil, e) (ap (λ s. get_past_events s addr) (store-begin_request em write a y))
  past_events-step y z (answer accepted view socket p before rest q e) addr v =
      rw (append-nil, e)
        (ap (λ s. get_past_events s addr)
          (store-respond_events em write accepted view socket p.ev_mgr_addr p.queue p.listen_id
            y.world))
  past_events-step y z (serve socket r e) addr v =
      rw (append-nil, e)
        (ap (λ s. get_past_events s addr) (store-serve_request em write socket r y.world))

  -- In a run from a state that keeps the service's invariant, the past events of an event manager
  -- grow by exactly its well-formed notifications that were delivered to the store, in order.
  pub past_events-notified :
      (y z : System State) (r : Reach em abi write y z) (addr : Bytes)
      → SystemInv em y
      → get_past_events z.world.store addr
        ≡ get_past_events y.world.store addr ++ notified em abi write r addr
  unfolding notified
  past_events-notified y z here addr v = rw append-nil
  past_events-notified y z (next {z = u} r st) addr v =
      past_events-step u z st addr (Reach-SystemInv em abi write y u r v)
      ∙ (ap (λ q. q ++ step_notified em abi write st addr) (past_events-notified y u r addr v)
          ∙ append_assoc (get_past_events y.world.store addr) _ _)

pub none_stored : (s : PubsubServiceStore) (addr : Bytes) → IsNew s → get_past_events s addr ≡ []
unfolding get_past_events lookup
none_stored s addr n = rw n.no_events

module _ (em : EventManager) (abi : AbiParser) (write : Dict → Bytes) (m : em.State)
    (no_listener : (i : ℕ) → em.find i m ≡ none) where
  -- From an event manager without listeners and a new store on, in every reachable state and for
  -- every address, `GetPastEvents` returns exactly the well-formed notifications from that address
  -- that listeners of the store were shown in the run, each as often as it was shown, in order.
  pub boot-past_events-notified :
      (s : PubsubServiceStore) (z : System em.State) (r : Reach em abi write (boot em m s) z)
      (addr : Bytes)
      → IsNew s
      → get_past_events z.world.store addr ≡ notified em abi write r addr
  unfolding boot
  boot-past_events-notified s z r addr n =
      past_events-notified em abi write (boot em m s) z r addr (boot-SystemInv em m no_listener s n)
      ∙ ap (λ q. q ++ notified em abi write r addr) (none_stored s addr n)
