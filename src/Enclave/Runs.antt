-- ===== src/Enclave/Runs.antt =====
-- The calls of an enclave that serves, as runs of the threads' steps of Dispatch.antt.
use mathlib.Core.Option
use decent_ethereum.Base.{
  ◌≡◌, refl, sym, ap, ◌∙◌, subst, List, Option, none, some, [], ◌++◌, append-nil, Bytes, Outcome,
  after, Exec,
}
use decent_ethereum.World.{EventDataQueue}
use decent_ethereum.Pubsub.Service.{get_past_events, get_event_mgr_addr}
use decent_ethereum.Dispatch.{System, Reach, next}
use decent_ethereum.Lifecycle.Delivery.{SystemInv}
use decent_ethereum.Lifecycle.Reachable.{Reach-SystemInv}
use decent_ethereum.Monitor.{HostCalls}
use decent_ethereum.Monitor.Callbacks.{MonitorCall}
use decent_ethereum.Boundary.Ocalls.{SgxStatus}
use decent_ethereum.Boundary.Ecalls.{ecall, ecall-ends_as, recv_block}
use decent_ethereum.External.{AbiParser}
use decent_ethereum.History.{step_notified, notified}
use decent_ethereum.History.PastEvents.{past_events-step, past_events-notified}
use decent_ethereum.History.Registrations.{
  Registered, addr_among, registered-next, registered-run, registrations,
}
use decent_ethereum.History.Subscriber.{follow}
use decent_ethereum.Enclave.{Credentials, HandlerMgr, Chain}
use decent_ethereum.Enclave.Init.{ManagerState, EnclaveState}
use decent_ethereum.Enclave.Calls.{Codecs, run_handler, ecall_block, handle, deref, on_blocks}
use decent_ethereum.Enclave.Ready.{Called, init_call, block, message, thread, Calls, start, call}
use decent_ethereum.Enclave.Parts.{on_blocks-system, deref-some}
use decent_ethereum.Enclave.Stores.{Quiet, unmoved, run_handler-Quiet}
use decent_ethereum.Enclave.Serving.{
  IsServing, AllServing, call_notified, calls_notified, call_registered, calls_registered,
  call_registered, calls_registered,
}

module _ (cr : Credentials) (hm : HandlerMgr) (ch : Chain) (co : Codecs) (abi : AbiParser) where
  abbrev State : Type 0
  State = EnclaveState cr hm ch

  abbrev Threads : Type 0
  Threads = System ch.events.State

  -- The threads went from `x` to where `z`'s manager is: its past events are `heard`, and its
  -- publishers are those of `rs`.
  abbrev pub Ran : Threads → State → (Bytes → EventDataQueue) → List Registered → Type 0
  Ran x z heard rs =
      (n : ManagerState ch) × (z.mgr ≡ some n)
      × Reach ch.events abi co.write x n.system
      × ((addr : Bytes) → get_past_events n.system.world.store addr ≡ heard addr)
      × ((p : Bytes) → get_event_mgr_addr n.system.world.store p ≡ addr_among p rs)

  deref-Ran :
      (f : Exec (ManagerState ch) (Unit {0})) (x : Threads) (y : State)
      (o : Outcome State (Unit {0})) (heard : Bytes → EventDataQueue) (rs : List Registered)
      → ((m : ManagerState ch) → Quiet ch co abi m.system (after (f m)).system)
      → deref f y ≡ some o
      → Ran x y heard rs
      → Ran x (after o) heard rs
  deref-Ran f x y o heard rs q h (n, e, r, past, known) =
      let (m, e', k, l) = deref-some f y o h in
      let p : m ≡ n = cc in
      let (s, t) = q n in
      (
        after (f n),
        k ∙ ap (λ m. some (after (f m))) p,
        follow ch.events abi co.write r s,
        λ addr. ap (λ s. get_past_events s addr) t ∙ past addr,
        λ p. ap (λ s. get_event_mgr_addr s p) t ∙ known p,
      )

  unheard :
      (x : Threads) (y : State) (heard : Bytes → EventDataQueue) (rs : List Registered)
      → Ran x y heard rs
      → Ran x y (λ addr. heard addr ++ []) rs
  unheard x y heard rs (n, e, r, past, known) =
      (n, e, r, λ addr. past addr ∙ sym (append-nil _), known)

  ecall_block-Ran :
      (update : Bytes → ch.monitor.State → List (MonitorCall ch.monitor)) (calls : HostCalls)
      (hex : Bytes → Bytes) (hdr_rlp : Bytes) (status : SgxStatus) (x : Threads) (y z : State)
      (heard : Bytes → EventDataQueue) (rs : List Registered)
      → ecall_block cr hm ch update calls hex hdr_rlp y ≡ some (status, z)
      → Ran x y heard rs
      → Ran x z heard rs
  unfolding ecall_block
  ecall_block-Ran update calls hex hdr_rlp status x y z heard rs h v = go (deref run y) refl h
    where
      run : Exec (ManagerState ch) (Unit {0})
      run = on_blocks (recv_block ch.monitor update calls hex hdr_rlp)

      left : Option (SgxStatus × State) → State
      left none = z
      left (some r) = r.1

      go :
          (p : Option (Outcome State (Unit {0})))
          → deref run y ≡ p
          → Option.map ecall p ≡ some (status, z)
          → Ran x z heard rs
      go none e h = cc
      go (some o) e h =
          subst (λ (z : State). Ran x z heard rs) (sym ((ecall-ends_as o).1) ∙ ap left h)
            (deref-Ran run x y o heard rs
              (λ m. unmoved ch co abi (
                on_blocks-system ch.monitor.State (recv_block ch.monitor update calls hex hdr_rlp)
                  m))
              e v)

  module _ (x : Threads) (v : SystemInv ch.events x) where
    -- A run of the threads from where the manager is.
    extended :
        (u : State) (n : ManagerState ch) (system : Threads) (heard : Bytes → EventDataQueue)
        (rs : List Registered)
        → Ran x u heard rs
        → u.mgr ≡ some n
        → (r : Reach ch.events abi co.write n.system system)
        → Ran x
            (record u { mgr = some (record n { system = system }) })
            (λ addr. heard addr ++ notified ch.events abi co.write r addr)
            (registrations ch.events abi co.write r ++ rs)
    extended u n system heard rs (m, e, q, past, known) f r =
        let p : m ≡ n = cc in
        let q' = subst (λ (m : ManagerState ch). Reach ch.events abi co.write x m.system) p q in
        (
          record n { system = system },
          refl,
          follow ch.events abi co.write q' r,
          λ addr.
              past_events-notified ch.events abi co.write n.system system r addr
                (Reach-SystemInv ch.events abi co.write x n.system q' v)
              ∙ ap (λ q. q ++ notified ch.events abi co.write r addr)
                  (ap (λ (m : ManagerState ch). get_past_events m.system.world.store addr) (sym p)
                    ∙ past addr),
          λ a. registered-run ch.events abi co.write n.system system r a rs (
              ap (λ (m : ManagerState ch). get_event_mgr_addr m.system.world.store a) (sym p)
              ∙ known a),
        )

    Called-Ran :
        (y z : State) (c : Called cr hm ch co abi y z) (heard : Bytes → EventDataQueue)
        (rs : List Registered)
        → IsServing cr hm ch co abi c
        → Ran x y heard rs
        → Ran x z
            (λ addr. heard addr ++ call_notified cr hm ch co abi c addr)
            (call_registered cr hm ch co abi c ++ rs)
    unfolding handle call_notified call_registered
    Called-Ran y z (init_call calls b e) heard rs s r = absurd s
    Called-Ran y z (block update calls hex hdr_rlp status u n system e f r g) heard rs s w =
        subst
          (λ (z : State).
            Ran x z (λ addr. heard addr ++ notified ch.events abi co.write r addr)
              (registrations ch.events abi co.write r ++ rs))
          (sym g)
          (extended u n system heard rs
            (ecall_block-Ran update calls hex hdr_rlp status x y u heard rs e w) f r)
    Called-Ran y z (message name h msg o f g e) heard rs s r =
        subst (λ (z : State). Ran x z (λ addr. heard addr ++ []) rs) (sym e)
          (deref-Ran (run_handler ch co h msg) x y o (λ addr. heard addr ++ []) rs
            (run_handler-Quiet ch co abi h msg) g (unheard x y heard rs r))
    Called-Ran y z (thread m system e st f) heard rs s (n, e', r, past, known) =
        let p : n ≡ m = cc in
        let r' = subst (λ (m : ManagerState ch). Reach ch.events abi co.write x m.system) p r in
        (
          record m { system = system },
          ap (λ (z : State). z.mgr) f,
          next r' st,
          λ addr.
              past_events-step ch.events abi co.write m.system system st addr
                (Reach-SystemInv ch.events abi co.write x m.system r' v)
              ∙ ap (λ q. q ++ step_notified ch.events abi co.write st addr)
                  (ap (λ (m : ManagerState ch). get_past_events m.system.world.store addr) (sym p)
                    ∙ past addr),
          λ a. registered-next ch.events abi co.write m.system system st a rs (
              ap (λ (m : ManagerState ch). get_event_mgr_addr m.system.world.store a) (sym p)
              ∙ known a),
        )

    pub Calls-Ran :
        (y z : State) (c : Calls cr hm ch co abi y z)
        → AllServing cr hm ch co abi c
        → Ran x y (λ addr. []) []
        → Ran x z (calls_notified cr hm ch co abi c) (calls_registered cr hm ch co abi c)
    unfolding calls_notified calls_registered
    Calls-Ran y z start s r = r
    Calls-Ran y z (call {z = u} c d) s r =
        Called-Ran u z d (calls_notified cr hm ch co abi c) (calls_registered cr hm ch co abi c) s.1
          (Calls-Ran y u c s.0 r)
