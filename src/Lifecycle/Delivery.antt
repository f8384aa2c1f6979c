-- ===== src/Lifecycle/Delivery.antt =====
-- A log shown to a listener keeps the invariant, whichever handler it reaches.
use decent_ethereum.Base.{ℕ, ◌≡◌, true, inl, inr, List, some, Result-cases, after, All, All-mono}
use decent_ethereum.External.{
  Callback, deploy, reg, notify_past, notify, receipt, EventDescription, EventManager, AbiParser,
  HeaderMgr, ReceiptLogEntry,
}
use decent_ethereum.World.{Emitter}
use decent_ethereum.Pubsub.Behaviour.{
  deploy_alive, reg_malformed_publisher, reg_malformed_event_mgr, reg_alive, notify_past_malformed,
  notify_past_parsed, notify_malformed, notify_parsed,
}
use decent_ethereum.Receipts.{subscribed_receipt_handler}
use decent_ethereum.Dispatch.{System, Pending, run_callback}
use decent_ethereum.Lifecycle.{Inv, IsOutside}
use decent_ethereum.Lifecycle.Listeners.{IsOutside-listen, IsOutside-cancel}
use decent_ethereum.Lifecycle.Service.{save_past_event-Inv, registration-Inv}
use decent_ethereum.Lifecycle.Deployment.{deploy-Inv}

module _ (em : EventManager) where
  open em use {State, listen, cancel, find}

  -- The ids that requests and emitters hold belong to subscribers.
  pub record Holds (m : State) (es : List Emitter) (ps : List Pending) : Type 0 where
    pub emitters : All (λ e. IsOutside em m e.listen_id) es
    pub requests : All (λ p. IsOutside em m p.listen_id) ps

  pub record SystemInv (y : System State) : Type 0 where
    pub alive : y.world.mgr_alive ≡ true
    pub service : Inv em y.world.event_mgr y.world.store
    pub held : Holds y.world.event_mgr y.world.emitters y.pending

  pub Holds-listen :
      (d : EventDescription) (m : State) (es : List Emitter) (ps : List Pending)
      → Holds m es ps
      → Holds (listen d m).0 es ps
  Holds-listen d m es ps h = record {
    emitters = All-mono es (λ e. IsOutside-listen em d m e.listen_id) h.emitters;
    requests = All-mono ps (λ p. IsOutside-listen em d m p.listen_id) h.requests;
  }

  pub Holds-cancel :
      (m : State) (es : List Emitter) (ps : List Pending) (i : ℕ)
      → Holds m es ps
      → Holds (cancel i m) es ps
  Holds-cancel m es ps i h = record {
    emitters = All-mono es (λ e. IsOutside-cancel em m e.listen_id i) h.emitters;
    requests = All-mono ps (λ p. IsOutside-cancel em m p.listen_id i) h.requests;
  }

  module _ (abi : AbiParser) (hdr : HeaderMgr) (log : ReceiptLogEntry) where
    abbrev pub delivered : Callback → ℕ → System State → System State
    delivered c id y = record y { world = after (run_callback em abi c id hdr log y.world) }

    deploy-SystemInv :
        (y : System State) (id : ℕ) (d : EventDescription)
        → find id y.world.event_mgr ≡ some d
        → d.callback ≡ deploy
        → SystemInv y
        → SystemInv (delivered deploy id y)
    unfolding run_callback
    deploy-SystemInv y id d h c v = rw (deploy_alive em hdr id y.world v.alive) (record {
      alive = v.alive;
      service = deploy-Inv em y.world.event_mgr y.world.store id d h c v.service;
      held = Holds-listen _ _ _ _ (Holds-cancel _ _ _ id v.held);
    })

    reg-SystemInv :
        (y : System State) (id : ℕ)
        → y.world.store.is_deployed ≡ true
        → SystemInv y
        → SystemInv (delivered reg id y)
    unfolding run_callback
    reg-SystemInv y id up v = elim (Result-cases (abi.to_bytes32 log.log_data)) [
      | inl (e, f) ↦ rw (reg_malformed_publisher em abi hdr log y.world e f) v
      | inr ((p, rest), f) ↦ elim (Result-cases (abi.to_bytes32 rest)) [
        | inl (e, g) ↦ rw (reg_malformed_event_mgr em abi hdr log y.world p rest e f g) v
        | inr ((a, rest'), g) ↦
            rw (reg_alive em abi hdr log y.world p rest a rest' v.alive f g) (record {
              alive = v.alive;
              service = registration-Inv em _ _ _ _ up v.service;
              held = Holds-listen _ _ _ _ v.held;
            })
      ]
    ]

    notify_past-SystemInv :
        (y : System State) (id : ℕ) → SystemInv y → SystemInv (delivered notify_past id y)
    unfolding run_callback
    notify_past-SystemInv y id v = elim (Result-cases (abi.to_bytes log.log_data)) [
      | inl (e, f) ↦ rw (notify_past_malformed em abi hdr log y.world e f) v
      | inr ((msg, rest), f) ↦ rw (notify_past_parsed em abi hdr log y.world msg rest f) (record {
        alive = v.alive;
        service = save_past_event-Inv em _ _ _ _ v.service;
        held = v.held;
      })
    ]

    notify-SystemInv :
        (y : System State) (id queue : ℕ) → SystemInv y → SystemInv (delivered (notify queue) id y)
    unfolding run_callback
    notify-SystemInv y id queue v = elim (Result-cases (abi.to_bytes log.log_data)) [
      | inl (e, f) ↦ rw (notify_malformed em abi hdr log y.world queue e f) v
      | inr ((msg, rest), f) ↦
          rw (notify_parsed em abi hdr log y.world queue msg rest f)
            (record { alive = v.alive; service = v.service; held = v.held })
    ]

    receipt-SystemInv :
        (y : System State) (id queue : ℕ) → SystemInv y → SystemInv (delivered (receipt queue) id y)
    unfolding run_callback subscribed_receipt_handler
    receipt-SystemInv y id queue v = record { alive = v.alive; service = v.service; held = v.held }

    pub deliver-SystemInv :
        (y : System State) (id : ℕ) (d : EventDescription) (c : Callback)
        → find id y.world.event_mgr ≡ some d
        → d.callback ≡ c
        → SystemInv y
        → SystemInv (delivered c id y)
    deliver-SystemInv y id d deploy h e v = deploy-SystemInv y id d h e v
    deliver-SystemInv y id d reg h e v = reg-SystemInv y id (rw e at (v.service.wired id d h)).0 v
    deliver-SystemInv y id d notify_past h e v = notify_past-SystemInv y id v
    deliver-SystemInv y id d (notify q) h e v = notify-SystemInv y id q v
    deliver-SystemInv y id d (receipt q) h e v = receipt-SystemInv y id q v
