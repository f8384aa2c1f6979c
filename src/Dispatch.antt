-- ===== src/Dispatch.antt =====
-- The event manager's side of the enclave: which handler a listener's closure runs, and the steps
-- that the shared state can take: a log shown to a listener, a heartbeat, a subscription. Steps of
-- different threads interleave in any order; each is atomic, as the locks make it.
pub mod Requests
pub mod TwoListeners
use decent_ethereum.Base.{
  ℕ, ◌≡◌, true, List, [], new_heap, ◌∷◌, ◌++◌, some, Bytes, Exec, Result, after, done, thrown,
}
use decent_ethereum.External.{
  HeaderMgr, ReceiptLogEntry, Callback, deploy, reg, notify_past, notify, receipt, EventDescription,
  EventManager, AbiParser,
}
use mathlib.Core.List.{Memᴰ}
use decent_ethereum.World.{World, PubsubServiceStore, Emitter, events, receipts}
use decent_ethereum.Pubsub.Service.{
  start, deploy_event_handler, reg_event_handler, notify_past_event_handler,
}
use decent_ethereum.Pubsub.Handler.{
  Dict, MonitorView, notify_event_handler, emitter_handler, subscribe_events, respond_events,
}
use decent_ethereum.Receipts.{
  Request, subscribed_receipt_handler, subscribed_receipt_emitter, serve_request,
}

module _ (em : EventManager) (abi : AbiParser) where
  open em use {State}

  -- The body of the closure that each `Build...Descr` function makes.
  unfoldable pub run_callback :
      Callback → ℕ → HeaderMgr → ReceiptLogEntry → Exec (World State) (Unit {0})
  run_callback deploy id hdr log = deploy_event_handler em hdr id
  run_callback reg id hdr log = reg_event_handler em abi hdr log
  run_callback notify_past id hdr log = notify_past_event_handler em abi hdr log
  run_callback (notify queue) id hdr log = notify_event_handler abi queue hdr log
  run_callback (receipt queue) id hdr log = subscribed_receipt_handler queue hdr log

-- A subscribe request between its parts 2 and 3: the event manager asked for, the queue and the id.
pub record Pending : Type 0 where
  pub ev_mgr_addr : Bytes
  pub queue : ℕ
  pub listen_id : ℕ

-- The shared state, and the requests that are under way.
pub record System (M : Type 0) : Type 0 where
  pub world : World M
  pub pending : List Pending

module _ (em : EventManager) where
  open em use {State}

  -- The enclave after `BlockchainMgr`'s constructor: nothing is subscribed, and `Start` was called
  -- on the monitor's event manager, `m`.
  unfoldable pub boot : State → PubsubServiceStore → System State
  unfolding start
  boot m store = record {
    world = start em (record {
      event_mgr = m;
      mgr_alive = true;
      store = store;
      event_queues = new_heap;
      receipt_queues = new_heap;
      sockets = new_heap;
      emitters = [];
    });
    pending = [];
  }

  -- The request is under way once its listener is registered.
  unfoldable pub begin_request : Bytes → System State → System State
  begin_request addr y = elim (subscribe_events em addr y.world) [
    | done (queue, id) w ↦ record {
      world = w;
      pending = record { ev_mgr_addr = addr; queue = queue; listen_id = id } ∷ y.pending;
    }
    | thrown e w ↦ record y { world = w }
  ]

module _ (em : EventManager) (write : Dict → Bytes) where
  open em use {State}

  -- The heartbeat of one emitter.
  unfoldable pub run_emitter :
      Result (Unit {0}) → MonitorView → Emitter → Exec (World State) (Unit {0})
  run_emitter accepted view e = elim e.kind [
    | events ↦ emitter_handler em write accepted view e.socket e.queue e.listen_id
    | receipts ↦ subscribed_receipt_emitter em write accepted view e.socket e.queue e.listen_id
  ]

module _ (em : EventManager) (abi : AbiParser) (write : Dict → Bytes) where
  open em use {State, find, Matches}

  -- One step of some thread, from `y` to `z`. A listener that is called is registered, and asked
  -- for the log; a heartbeat is that of an emitter that was added.
  pub data Step (y z : System State) : Type 0 where
    deliver :
        (id : ℕ) (d : EventDescription) (hdr : HeaderMgr) (log : ReceiptLogEntry)
        → y.world.mgr_alive ≡ true
        → find id y.world.event_mgr ≡ some d
        → Matches d log
        → z ≡ record y { world = after (run_callback em abi d.callback id hdr log y.world) }
        → Step y z
    beat :
        (accepted : Result (Unit {0})) (view : MonitorView) (e : Emitter)
        → Memᴰ e y.world.emitters
        → z ≡ record y { world = after (run_emitter em write accepted view e y.world) }
        → Step y z
    begin : (addr : Bytes) → z ≡ begin_request em addr y → Step y z
    answer :
        (accepted : Result (Unit {0})) (view : MonitorView) (socket : ℕ) (p : Pending)
        (before rest : List Pending)
        → y.pending ≡ before ++ p ∷ rest
        → z ≡ record {
          world = after (
              respond_events em write accepted view socket p.ev_mgr_addr
                (p.queue, p.listen_id)
                y.world);
          pending = before ++ rest;
        }
        → Step y z
    serve :
        (socket : ℕ) (r : Request)
        → z ≡ record y { world = serve_request em socket r y.world }
        → Step y z

  pub data Reach (y : System State) : System State → Type 0 where
    here : Reach y y
    next : {z u : System State} → Reach y z → Step z u → Reach y u
