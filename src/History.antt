-- ===== src/History.antt =====
-- Histories: what a run of the enclave's threads (Dispatch.antt) delivered, against what the store
-- of past events and the subscribers' queues hold.
pub mod PastEvents
pub mod Registrations
pub mod Moves
pub mod Queues
pub mod Subscriber
pub mod ReceiptQueues
use decent_ethereum.Base.{
  ℕ, ◌≡◌, Error, Bool, List, [], ◌∷◌, ◌++◌, Bytes, Result, ok, err, bytes_eq, ◌==◌, if◌then◌else◌,
}
use decent_ethereum.External.{
  Callback, deploy, reg, notify_past, notify, receipt, EventManager, AbiParser, HeaderMgr,
  ReceiptLogEntry,
}
use decent_ethereum.World.{EventDataQueue, World, EmitterKind, events, receipts}
use decent_ethereum.Pubsub.Service.{event_data}
use decent_ethereum.Pubsub.Handler.{Dict}
use decent_ethereum.Dispatch.{System, Step, Reach, deliver, beat, begin, answer, serve, here, next}

module _ (abi : AbiParser) (hdr : HeaderMgr) (log : ReceiptLogEntry) where
  -- The event that a log carries: none, if its data is malformed.
  pub event_of : EventDataQueue
  event_of = elim (abi.to_bytes log.log_data) [ err e ↦ [] | ok r ↦ event_data hdr r.0 ∷ [] ]

  pub event_of_parsed :
      (msg rest : Bytes)
      → abi.to_bytes log.log_data ≡ ok (msg, rest)
      → event_of ≡ event_data hdr msg ∷ []
  unfolding event_of
  event_of_parsed msg rest h = rw (h, event_of)

  pub event_of_malformed : (e : Error) → abi.to_bytes log.log_data ≡ err e → event_of ≡ []
  unfolding event_of
  event_of_malformed e h = rw (h, event_of)

  -- What a listener of the store is told about the event manager at `addr`.
  abbrev pub told : Callback → Bytes → EventDataQueue
  told notify_past addr = if bytes_eq log.contract_addr addr then event_of else []
  told deploy addr = []
  told reg addr = []
  told (notify q) addr = []
  told (receipt q) addr = []

  -- What a listener pushes to the event queue number `p`.
  abbrev pub pushed : Callback → ℕ → EventDataQueue
  pushed (notify q) p = if q == p then event_of else []
  pushed deploy p = []
  pushed reg p = []
  pushed notify_past p = []
  pushed (receipt q) p = []

abbrev pub taken_by : {M : Type 0} → EmitterKind → ℕ → ℕ → World M → EventDataQueue
taken_by events q p w = if q == p then w.event_queues.cell p else []
taken_by receipts q p w = []

module _ (em : EventManager) (abi : AbiParser) (write : Dict → Bytes) where
  open em use {State}

  pub step_notified : {y z : System State} → Step em abi write y z → Bytes → EventDataQueue
  step_notified (deliver id d hdr log alive h m e) addr = told abi hdr log d.callback addr
  step_notified (beat accepted view f m e) addr = []
  step_notified (begin a e) addr = []
  step_notified (answer accepted view socket p before rest q e) addr = []
  step_notified (serve socket r e) addr = []

  -- The notifications of one event manager in the course of a run, oldest first.
  pub notified : {y z : System State} → Reach em abi write y z → Bytes → EventDataQueue
  unfolding step_notified
  notified here addr = []
  notified (next r st) addr = notified r addr ++ step_notified st addr

  pub step_arrived : {y z : System State} → Step em abi write y z → ℕ → EventDataQueue
  step_arrived (deliver id d hdr log alive h m e) p = pushed abi hdr log d.callback p
  step_arrived (beat accepted view f m e) p = []
  step_arrived (begin a e) p = []
  step_arrived (answer accepted view socket pending before rest q e) p = []
  step_arrived (serve socket r e) p = []

  -- What a heartbeat takes out of the event queue number `p`, to send it.
  pub step_taken : {y z : System State} → Step em abi write y z → ℕ → EventDataQueue
  step_taken {y} (beat accepted view f m e) p = taken_by f.kind f.queue p y.world
  step_taken (deliver id d hdr log alive h m e) p = []
  step_taken (begin a e) p = []
  step_taken (answer accepted view socket pending before rest q e) p = []
  step_taken (serve socket r e) p = []

  pub arrived : {y z : System State} → Reach em abi write y z → ℕ → EventDataQueue
  unfolding step_arrived
  arrived here p = []
  arrived (next r st) p = arrived r p ++ step_arrived st p

  pub taken : {y z : System State} → Reach em abi write y z → ℕ → EventDataQueue
  unfolding step_taken
  taken here p = []
  taken (next r st) p = taken r p ++ step_taken st p
