-- ===== src/Enclave/Ready.antt =====
-- The enclave as a state machine: its ecalls, the messages that reach a handler, and the steps of
-- its threads, in any order.
use decent_ethereum.Base.{
  ℕ, and_then-eq-ok, ◌≡◌, refl, sym, ap, ◌∙◌, subst, List, [], Option, none, some, Bytes, Result,
  ok, err, Outcome, after,
}
use decent_ethereum.Dispatch.{System, Step, Reach, boot}
use decent_ethereum.Lifecycle.Boot.{boot-SystemInv, new_store-IsNew}
use decent_ethereum.Lifecycle.Delivery.{SystemInv}
use decent_ethereum.Monitor.{HostCalls}
use decent_ethereum.Monitor.Callbacks.{BlockchainMgr, new_mgr, MonitorCall}
use decent_ethereum.Boundary.Ocalls.{SgxStatus}
use decent_ethereum.External.{AbiParser}
use decent_ethereum.Enclave.{Handler, Credentials, HandlerMgr, Chain}
use decent_ethereum.Enclave.Init.{InitArgs, ManagerState, service_store, make_manager, EnclaveState}
use decent_ethereum.Enclave.Initialised.{Initialised, unprepared, unserved, initialised}
use decent_ethereum.Enclave.Calls.{Codecs, InitBuffers, Message, ecall_init, ecall_block, handle}

module _ (cr : Credentials) (hm : HandlerMgr) (ch : Chain) (co : Codecs) (abi : AbiParser) where
  abbrev State : Type 0
  State = EnclaveState cr hm ch

  -- One call from `y` to `z`. While a block is processed, the event manager shows the logs of its
  -- headers to the listeners, and other threads take steps between: the run that ends at `system`.
  pub data Called (y z : State) : Type 0 where
    init_call :
        (calls : HostCalls) (b : InitBuffers) → z ≡ (ecall_init cr hm ch calls b y).1 → Called y z
    block :
        (update : Bytes → ch.monitor.State → List (MonitorCall ch.monitor)) (calls : HostCalls)
        (hex : Bytes → Bytes) (hdr_rlp : Bytes) (status : SgxStatus) (u : State)
        (n : ManagerState ch) (system : System ch.events.State)
        → ecall_block cr hm ch update calls hex hdr_rlp y ≡ some (status, u)
        → u.mgr ≡ some n
        → Reach ch.events abi co.write n.system system
        → z ≡ record u { mgr = some (record n { system = system }) }
        → Called y z
    message :
        (name : Bytes) (h : Handler) (msg : Message) (o : Outcome State (Unit {0}))
        → hm.find name y.handlers ≡ some h
        → handle cr hm ch co h msg y ≡ some o
        → z ≡ after o
        → Called y z
    thread :
        (m : ManagerState ch) (system : System ch.events.State)
        → y.mgr ≡ some m
        → Step ch.events abi co.write m.system system
        → z ≡ record y { mgr = some (record m { system = system }) }
        → Called y z

  pub data Calls (y : State) : State → Type 0 where
    start : Calls y y
    call : {z u : State} → Calls y z → Called z u → Calls y u

  -- A registered handler finds a manager, and the manager's system has its invariant.
  pub record Ready (y : State) : Type 0 where
    pub served :
        (name : Bytes) (h : Handler)
        → hm.find name y.handlers ≡ some h
        → (m : ManagerState ch) × (y.mgr ≡ some m)
    pub sound : (m : ManagerState ch) → y.mgr ≡ some m → SystemInv ch.events m.system

  -- An enclave that nothing has entered: no handler is registered, and there is no manager.
  pub record IsFresh (y : State) : Type 0 where
    pub no_handler : (name : Bytes) → hm.find name y.handlers ≡ none
    pub no_mgr : y.mgr ≡ none

  -- A new manager has the system of the constructor, and no listener but that of `Start`.
  pub make_manager-boot :
      (calls : HostCalls) (args : InitArgs ch.Conf) (m : ManagerState ch)
      → make_manager ch calls args ≡ ok m
      → (m.system
          ≡ boot ch.events
              (ch.event_mgr m.blocks.monitor)
              (service_store ch args.pubsub_contract_addr))
        × ((i : ℕ) → ch.events.find i (ch.event_mgr m.blocks.monitor) ≡ none)
  unfolding make_manager new_mgr
  make_manager-boot calls args m h =
      let (mon, e, f) = and_then-eq-ok (ch.make _ _ _) _ h in
      let (blocks, g, k) = and_then-eq-ok (new_mgr ch.monitor calls args.start_blk_num mon) _ f in
      let (latest, p) = planned mon blocks g in
      subst
        (λ (n : ManagerState ch).
          (n.system
            ≡ boot ch.events (ch.event_mgr n.blocks.monitor)
                (service_store ch args.pubsub_contract_addr))
          × ((i : ℕ) → ch.events.find i (ch.event_mgr n.blocks.monitor) ≡ none))
        (ap (made m) k)
        (
          refl,
          λ i.
              ap (ch.events.find i) (ap ch.event_mgr p ∙ ch.event_mgr-refresh latest _ mon)
              ∙ ch.find-make _ _ _ mon i e,
        )
    where
      made : ManagerState ch → Result (ManagerState ch) → ManagerState ch
      made m (ok n) = n
      made m (err e) = m

      planned :
          (mon : ch.monitor.State) (blocks : BlockchainMgr ch.monitor.State)
          → new_mgr ch.monitor calls args.start_blk_num mon ≡ ok blocks
          → (latest : ℕ) × (blocks.monitor
              ≡ ch.monitor.refresh_bootstrap_plan latest (some args.start_blk_num) mon)
      planned mon blocks g = go calls.get_latest_block_num g
        where
          go :
              (r : Result ℕ)
              → (elim r [
                | err e ↦ err e
                | ok latest ↦ ok (record {
                  monitor = ch.monitor.refresh_bootstrap_plan latest (some args.start_blk_num) mon;
                  last_chkpt_iter = 0;
                  last_validated_blk_num = [];
                  status_log = [];
                })
              ])
                ≡ ok blocks
              → (latest : ℕ) × (blocks.monitor
                  ≡ ch.monitor.refresh_bootstrap_plan latest (some args.start_blk_num) mon)
          go (err e) h = cc
          go (ok latest) h = (latest, cc)

  pub make_manager-SystemInv :
      (calls : HostCalls) (args : InitArgs ch.Conf) (m : ManagerState ch)
      → make_manager ch calls args ≡ ok m
      → SystemInv ch.events m.system
  make_manager-SystemInv calls args m h =
      let (e, no_listener) = make_manager-boot calls args m h in
      subst (SystemInv ch.events) (sym e) (
        boot-SystemInv ch.events (ch.event_mgr m.blocks.monitor) no_listener _
          (new_store-IsNew ch.keccak256 args.pubsub_contract_addr _ _ _))

  -- A state whose manager is new.
  managed :
      (calls : HostCalls) (args : InitArgs ch.Conf) (m : ManagerState ch) (z : State)
      → make_manager ch calls args ≡ ok m
      → z.mgr ≡ some m
      → Ready z
  managed calls args m z h e = record {
    served = λ name g f. (m, e);
    sound = λ n f.
        subst (λ (n : ManagerState ch). SystemInv ch.events n.system) (ap (given m) (sym e ∙ f))
          (make_manager-SystemInv calls args m h);
  }
    where
      given : ManagerState ch → Option (ManagerState ch) → ManagerState ch
      given m none = m
      given m (some n) = n

  pub init-Ready :
      (calls : HostCalls) (args : InitArgs ch.Conf) (y : State) (o : Outcome State (Unit {0}))
      → Initialised cr hm ch calls args y o
      → Ready y
      → Ready (after o)
  init-Ready calls args y _ (unprepared e t h k) v = record {
    served = λ name g f. let (m, p) = v.served name g (ap (hm.find name) (sym k) ∙ f) in (m, h ∙ p);
    sound = λ m p. v.sound m (sym h ∙ p);
  }
  init-Ready calls args y _ (unserved e t m h k) v = managed calls args m t h k
  init-Ready calls args y _ (initialised t m h k l) v = managed calls args m t h k
