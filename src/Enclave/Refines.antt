-- ===== src/Enclave/Refines.antt =====
-- An enclave that has been started runs the threads' steps of Dispatch.antt, from the state that
-- `Init` leaves.
use decent_ethereum.Base.{◌≡◌, sym, ap, ◌∙◌, some, [], ◌++◌, Bytes, ok}
use decent_ethereum.Pubsub.Service.{get_past_events, get_event_mgr_addr}
use decent_ethereum.Dispatch.{System, Reach, here, boot}
use decent_ethereum.Lifecycle.Boot.{new_store-IsNew}
use decent_ethereum.Monitor.{HostCalls}
use decent_ethereum.External.{AbiParser}
use decent_ethereum.History.{notified}
use decent_ethereum.History.PastEvents.{past_events-notified, none_stored}
use decent_ethereum.History.Registrations.{addr_among, none_registered}
use decent_ethereum.Enclave.{Credentials, HandlerMgr, Chain}
use decent_ethereum.Enclave.Init.{InitArgs, ManagerState, EnclaveState, make_manager}
use decent_ethereum.Enclave.Calls.{Codecs}
use decent_ethereum.Enclave.Ready.{Calls, make_manager-boot, make_manager-SystemInv}
use decent_ethereum.Enclave.Serving.{AllServing, calls_notified, calls_registered, calls_registered}
use decent_ethereum.Enclave.Runs.{Calls-Ran}

module _ (cr : Credentials) (hm : HandlerMgr) (ch : Chain) (co : Codecs) (abi : AbiParser) where
  abbrev State : Type 0
  State = EnclaveState cr hm ch

  abbrev Threads : Type 0
  Threads = System ch.events.State

  -- Start from an enclave whose blockchain manager is the one that `Init` makes, with any
  -- configuration and any answers of the host. After any calls but a further initialisation, in any
  -- order (blocks, with any steps that the threads take while one is processed, such as its logs
  -- shown to the listeners; messages to registered handlers; further steps of the threads; and
  -- whether they fail or not), there is a manager, and its publish-subscribe system is where a run
  -- of the threads' steps leads from the one that `Init` made; the run tells the store of the same
  -- notifications as the calls do; for every address `GetPastEvents` returns exactly the
  -- notifications from it that the calls told the store of, in order; and for every publisher the
  -- event manager that the service finds is the one of its newest registration that the calls
  -- showed to a listener, or the zero address if there is none. The messages themselves change
  -- neither.
  pub calls-Reach :
      (calls : HostCalls) (args : InitArgs ch.Conf) (m : ManagerState ch) (y z : State)
      (c : Calls cr hm ch co abi y z)
      → make_manager ch calls args ≡ ok m
      → y.mgr ≡ some m
      → AllServing cr hm ch co abi c
      → (n : ManagerState ch) × (z.mgr ≡ some n)
        × (r : Reach ch.events abi co.write m.system n.system) × ((addr : Bytes)
            → (notified ch.events abi co.write r addr ≡ calls_notified cr hm ch co abi c addr)
              × (get_past_events n.system.world.store addr ≡ calls_notified cr hm ch co abi c addr))
        × ((p : Bytes)
            → get_event_mgr_addr n.system.world.store p
              ≡ addr_among p (calls_registered cr hm ch co abi c))
  unfolding boot
  calls-Reach calls args m y z c made set s =
      let v = make_manager-SystemInv cr hm ch co abi calls args m made in
      let (n, e, r, past, known) =
        Calls-Ran cr hm ch co abi m.system v y z c s (m, set, here, empty, unknown) in
      (
        n,
        e,
        r,
        λ addr.
            let all : get_past_events n.system.world.store addr
                ≡ notified ch.events abi co.write r addr =
              past_events-notified ch.events abi co.write m.system n.system r addr v
              ∙ ap (λ q. q ++ notified ch.events abi co.write r addr) (empty addr) in
            (sym all ∙ past addr, past addr),
        known,
      )
    where
      empty : (addr : Bytes) → get_past_events m.system.world.store addr ≡ []
      empty addr =
          ap (λ (x : Threads). get_past_events x.world.store addr)
            (make_manager-boot cr hm ch co abi calls args m made).0
          ∙ none_stored _ addr (new_store-IsNew ch.keccak256 args.pubsub_contract_addr _ _ _)

      unknown : (p : Bytes) → get_event_mgr_addr m.system.world.store p ≡ addr_among p []
      unknown p =
          ap (λ (x : Threads). get_event_mgr_addr x.world.store p)
            (make_manager-boot cr hm ch co abi calls args m made).0
          ∙ none_registered _ p (new_store-IsNew ch.keccak256 args.pubsub_contract_addr _ _ _)
