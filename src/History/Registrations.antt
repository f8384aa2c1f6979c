-- ===== src/History/Registrations.antt =====
-- The event manager of a publisher is the one of its last registration.
use decent_ethereum.Base.{
  ℕ, ◌≡◌, refl, sym, ap, ◌∙◌, true, inl, inr, List, [], ◌∷◌, ◌++◌, if◌then◌else◌, append_assoc,
  Bytes, Error, ok, err, Result-cases, after, bytes_eq, lookup,
}
use decent_ethereum.External.{
  Callback, deploy, reg, notify_past, notify, receipt, EventManager, AbiParser, HeaderMgr,
  ReceiptLogEntry,
}
use decent_ethereum.World.{World, PubsubServiceStore}
use decent_ethereum.Pubsub.Service.{get_event_mgr_addr, abi_address_to_address, zero_addr}
use decent_ethereum.Pubsub.Handler.{Dict}
use decent_ethereum.Pubsub.Behaviour.{
  deploy_alive, reg_malformed_publisher, reg_malformed_event_mgr, reg_alive, notify_past_malformed,
  notify_past_parsed,
}
use decent_ethereum.Pubsub.Registration.{get_event_mgr_addr-save_registration}
use decent_ethereum.Pubsub.Stored.{get_event_mgr_addr-save_past_event}
use decent_ethereum.Receipts.{subscribed_receipt_handler}
use decent_ethereum.Dispatch.{
  System, Step, Reach, boot, deliver, beat, begin, answer, serve, here, next, run_callback,
}
use decent_ethereum.Lifecycle.Boot.{IsNew}
use decent_ethereum.History.PastEvents.{
  store-run_emitter, store-respond_events, store-begin_request, store-serve_request,
  notify-notified,
}

-- A publisher, and the event manager that it is registered with.
abbrev pub Registered : Type 0
Registered = Bytes × Bytes

module _ (abi : AbiParser) where
  -- The registration that a log carries: none, if it lacks one of its two words.
  unfoldable pub registration_of : ReceiptLogEntry → List Registered
  registration_of log = elim (abi.to_bytes32 log.log_data) [
    | err e ↦ []
    | ok p ↦ elim (abi.to_bytes32 p.1) [
      | err e ↦ []
      | ok a ↦ (abi_address_to_address p.0, abi_address_to_address a.0) ∷ []
    ]
  ]

  registration_of-no_publisher :
      (log : ReceiptLogEntry) (e : Error)
      → abi.to_bytes32 log.log_data ≡ err e
      → registration_of log ≡ []
  unfolding registration_of
  registration_of-no_publisher log e h = rw (h, registration_of)

  registration_of-no_addr :
      (log : ReceiptLogEntry) (q rest : Bytes) (e : Error)
      → abi.to_bytes32 log.log_data ≡ ok (q, rest)
      → abi.to_bytes32 rest ≡ err e
      → registration_of log ≡ []
  unfolding registration_of
  registration_of-no_addr log q rest e h k = rw (h, k, registration_of)

  registration_of-words :
      (log : ReceiptLogEntry) (q rest a rest' : Bytes)
      → abi.to_bytes32 log.log_data ≡ ok (q, rest)
      → abi.to_bytes32 rest ≡ ok (a, rest')
      → registration_of log ≡ (abi_address_to_address q, abi_address_to_address a) ∷ []
  unfolding registration_of
  registration_of-words log q rest a rest' h k = rw (h, k, registration_of)

  abbrev carried : Callback → ReceiptLogEntry → List Registered
  carried reg log = registration_of log
  carried deploy log = []
  carried notify_past log = []
  carried (notify q) log = []
  carried (receipt q) log = []

-- The event manager in the first registration of a publisher in a list, or the zero address.
unfoldable pub addr_among : Bytes → List Registered → Bytes
addr_among p [] = zero_addr
addr_among p ((q, addr) ∷ rs) = if bytes_eq q p then addr else addr_among p rs

pub none_registered :
    (s : PubsubServiceStore) (p : Bytes) → IsNew s → get_event_mgr_addr s p ≡ addr_among p []
unfolding addr_among get_event_mgr_addr lookup
none_registered s p n = rw n.unmapped refl

module _ (em : EventManager) (abi : AbiParser) (write : Dict → Bytes) where
  open em use {State}

  unfoldable pub step_registered : {y z : System State} → Step em abi write y z → List Registered
  step_registered (deliver id d hdr log alive h m e) = carried abi d.callback log
  step_registered (beat accepted view f m e) = []
  step_registered (begin a e) = []
  step_registered (answer accepted view socket p before rest q e) = []
  step_registered (serve socket r e) = []

  -- The registrations that listeners of the store were shown in the course of a run, newest first.
  unfoldable pub registrations : {y z : System State} → Reach em abi write y z → List Registered
  unfolding step_registered
  registrations here = []
  registrations (next r st) = step_registered st ++ registrations r

  -- The lookup with new registrations in front of what it was.
  abbrev behind : Bytes → List Registered → Bytes → Bytes
  behind p [] addr = addr
  behind p ((q, a) ∷ rs) addr = if bytes_eq q p then a else behind p rs addr

  addr_among-append :
      (p : Bytes) (rs ss : List Registered)
      → addr_among p (rs ++ ss) ≡ behind p rs (addr_among p ss)
  unfolding addr_among
  addr_among-append p [] ss = refl
  addr_among-append p ((q, a) ∷ rs) ss =
      ap (λ addr. if bytes_eq q p then a else addr) (addr_among-append p rs ss)

  module _ (hdr : HeaderMgr) (log : ReceiptLogEntry) (p : Bytes) where
    reg-behind :
        (w : World State)
        → w.mgr_alive ≡ true
        → get_event_mgr_addr (after (run_callback em abi reg 0 hdr log w)).store p
          ≡ behind p (registration_of abi log) (get_event_mgr_addr w.store p)
    unfolding run_callback
    reg-behind w alive = elim (Result-cases (abi.to_bytes32 log.log_data)) [
      | inl (e, f) ↦
          rw
            (reg_malformed_publisher em abi hdr log w e f, registration_of-no_publisher abi log e f)
            refl
      | inr ((q, rest), f) ↦ elim (Result-cases (abi.to_bytes32 rest)) [
        | inl (e, g) ↦
            rw
              (
                reg_malformed_event_mgr em abi hdr log w q rest e f g,
                registration_of-no_addr abi log q rest e f g,
              )
              refl
        | inr ((a, rest'), g) ↦
            rw
              (
                reg_alive em abi hdr log w q rest a rest' alive f g,
                registration_of-words abi log q rest a rest' f g,
              )
              (get_event_mgr_addr-save_registration _ _ p w.store)
      ]
    ]

    notify_past-same :
        (w : World State)
        → get_event_mgr_addr (after (run_callback em abi notify_past 0 hdr log w)).store p
          ≡ get_event_mgr_addr w.store p
    unfolding run_callback
    notify_past-same w = elim (Result-cases (abi.to_bytes log.log_data)) [
      | inl (e, f) ↦ rw (notify_past_malformed em abi hdr log w e f) refl
      | inr ((msg, rest), f) ↦
          rw (notify_past_parsed em abi hdr log w msg rest f)
            (get_event_mgr_addr-save_past_event log.contract_addr p _ w.store)
    ]

    delivered-behind :
        (c : Callback) (id : ℕ) (w : World State)
        → w.mgr_alive ≡ true
        → get_event_mgr_addr (after (run_callback em abi c id hdr log w)).store p
          ≡ behind p (carried abi c log) (get_event_mgr_addr w.store p)
    unfolding run_callback subscribed_receipt_handler get_event_mgr_addr
    delivered-behind deploy id w alive = rw (deploy_alive em hdr id w alive) refl
    delivered-behind reg id w alive = reg-behind w alive
    delivered-behind notify_past id w alive = notify_past-same w
    delivered-behind (notify n) id w alive =
        ap (λ s. get_event_mgr_addr s p) (notify-notified em abi hdr log id n w)
    delivered-behind (receipt n) id w alive = refl

  registered-step :
      (y z : System State) (st : Step em abi write y z) (p : Bytes)
      → get_event_mgr_addr z.world.store p
        ≡ behind p (step_registered st) (get_event_mgr_addr y.world.store p)
  unfolding step_registered
  registered-step y z (deliver id d hdr log alive h m e) p =
      rw e (delivered-behind hdr log p d.callback id y.world alive)
  registered-step y z (beat accepted view f m e) p = rw e (
      ap (λ s. get_event_mgr_addr s p)
        (store-run_emitter em write accepted view f.kind f.socket f.queue f.listen_id y.world))
  registered-step y z (begin a e) p =
      rw e (ap (λ s. get_event_mgr_addr s p) (store-begin_request em write a y))
  registered-step y z (answer accepted view socket q before rest h e) p = rw e (
      ap (λ s. get_event_mgr_addr s p)
        (store-respond_events em write accepted view socket q.ev_mgr_addr q.queue q.listen_id
          y.world))
  registered-step y z (serve socket r e) p =
      rw e (ap (λ s. get_event_mgr_addr s p) (store-serve_request em write socket r y.world))

  -- A step adds its registrations in front.
  pub registered-next :
      (y z : System State) (st : Step em abi write y z) (p : Bytes) (rs : List Registered)
      → get_event_mgr_addr y.world.store p ≡ addr_among p rs
      → get_event_mgr_addr z.world.store p ≡ addr_among p (step_registered st ++ rs)
  registered-next y z st p rs h =
      registered-step y z st p
      ∙ (ap (behind p (step_registered st)) h ∙ sym (addr_among-append p (step_registered st) rs))

  -- So does a run.
  pub registered-run :
      (y z : System State) (r : Reach em abi write y z) (p : Bytes) (rs : List Registered)
      → get_event_mgr_addr y.world.store p ≡ addr_among p rs
      → get_event_mgr_addr z.world.store p ≡ addr_among p (registrations r ++ rs)
  unfolding registrations
  registered-run y z here p rs h = h
  registered-run y z (next {z = u} r st) p rs h =
      registered-next u z st p (registrations r ++ rs) (registered-run y u r p rs h)
      ∙ ap (addr_among p) (sym (append_assoc (step_registered st) (registrations r) rs))

  -- From a new store on, in every reachable state and for every publisher, the event manager that
  -- the service finds is the one of the newest registration of that publisher that a listener was
  -- shown in the run, and the zero address if there was none: logs that lack a word, and all else
  -- that threads do, change no event manager's address.
  pub boot-registrations :
      (m : State) (s : PubsubServiceStore) (z : System State)
      (r : Reach em abi write (boot em m s) z) (p : Bytes)
      → IsNew s
      → get_event_mgr_addr z.world.store p ≡ addr_among p (registrations r)
  unfolding registrations boot
  boot-registrations m s _ here p n = none_registered s p n
  boot-registrations m s z (next {z = u} r st) p n =
      registered-next u z st p (registrations r) (boot-registrations m s u r p n)
