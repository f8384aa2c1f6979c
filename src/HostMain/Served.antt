-- ===== src/HostMain/Served.antt =====
-- From the configuration to the enclave that serves it, and to the end of `main`.
use mathlib.Core.Option
use decent_ethereum.Base.{
  ℕ, ◌<◌, ◌≡◌, ◌≢◌, refl, ap, ◌∙◌, subst, List, Option, none, some, Bytes, ok, Outcome, done,
  thrown, after, length, Error, arith,
}
use decent_ethereum.Geth.Libraries.{JsonLib, HexLib}
use decent_ethereum.Receipts.{addr_size}
use decent_ethereum.Monitor.{HostCalls}
use decent_ethereum.Enclave.{Credentials, HandlerMgr, Chain}
use decent_ethereum.Enclave.Init.{InitArgs, ManagerState, make_manager, EnclaveState, init}
use decent_ethereum.Enclave.Initialised.{
  HasHandlers, Initialised, unprepared, unserved, initialised, init-Initialised,
}
use decent_ethereum.HostMain.{config_path, run_until_signal, run_until_signal-iterate, iterate}
use decent_ethereum.HostMain.Process.{
  MainLib, ProcessState, start_up, main, minus_one, zero_code, ExitCode,
}
use decent_ethereum.HostMain.Started.{Started, start_up-Started, given_args}

module _ (cr : Credentials) (hm : HandlerMgr) (ch : Chain) where
  -- An `Init` that returns.
  init-done :
      (calls : HostCalls) (args : InitArgs ch.Conf) (s t : EnclaveState cr hm ch)
      → init cr hm ch calls args s ≡ done tt t
      → (m : ManagerState ch) × (make_manager ch calls args ≡ ok m)
        × (t.mgr ≡ some m)
        × HasHandlers hm t.handlers
  init-done calls args s t h = go _ (init-Initialised cr hm ch calls args s) h
    where
      go :
          (o : Outcome (EnclaveState cr hm ch) (Unit {0}))
          → Initialised cr hm ch calls args s o
          → o ≡ done tt t
          → (m : ManagerState ch) × (make_manager ch calls args ≡ ok m)
            × (t.mgr ≡ some m)
            × HasHandlers hm t.handlers
      go _ (unprepared e u a b) h = cc
      go _ (unserved e u m a b) h = cc
      go _ (initialised u m a b c) h =
          subst
            (λ (t : EnclaveState cr hm ch).
              (m : ManagerState ch) × (make_manager ch calls args ≡ ok m)
              × (t.mgr ≡ some m)
              × HasHandlers hm t.handlers)
            (ap after h) (m, a, b, c)

module _ (json : JsonLib) (hex : HexLib) (lib : MainLib json.Json) (cr : Credentials)
    (hm : HandlerMgr) (ch : Chain) where
  abbrev State : Type 0
  State = ProcessState json hex lib cr hm ch

  module _ (update terminate : State → State) (sig : ℕ → ℕ) (fuel : ℕ) (stack : Bytes)
      (conf : ch.Conf) (calls : HostCalls) (argv : List Bytes) where
    abbrev pub run : State → Option (Outcome State ExitCode)
    run = main json hex lib cr hm ch update terminate sig fuel stack conf calls argv

    -- The ends of `main`.
    pub data Ended (n : ℕ) (p : State) : Type 0 where
      misused : config_path argv ≡ none → run p ≡ some (done minus_one p) → Ended n p
      failed :
          (path : Bytes) (e : Error) (q : State)
          → config_path argv ≡ some path
          → start_up json hex lib cr hm ch stack conf calls path p ≡ thrown e q
          → run p ≡ some (thrown e q)
          → Ended n p
      finished :
          (path : Bytes) (q : State) (m : ManagerState ch)
          (started : Started json hex lib cr hm ch stack conf calls path p q)
          → config_path argv ≡ some path
          → make_manager ch calls (
              given_args json hex lib cr hm ch stack conf started.pubsub_addr
                started.pubsub.start_block)
            ≡ ok m
          → q.enclave.mgr ≡ some m
          → HasHandlers hm q.enclave.handlers
          → run p ≡ some (done zero_code (terminate (iterate update n q)))
          → Ended n p

    -- `main` ends, with any fuel above the number of the loop's runs before the first signal, in
    -- one of three ways: with -1 for a wrong number of arguments, and nothing done; with the
    -- exception of a failed start; or with 0, after a start that succeeded and exactly those runs.
    -- In the last case the configuration was read, the enclave's `Init` returned with the
    -- configured publish-subscribe address and start block, its manager is the one made of them and
    -- its three handlers are registered, the feed is at the start block with the enclave bound to
    -- it, the thread pool got its four tasks, and the API server its function. The memory read for
    -- the synchronisation address has 20 bytes.
    pub main-Ended :
        (n : ℕ) (p : State)
        → length stack ≡ addr_size
        → n < fuel
        → ((i : ℕ) → i < n → sig i ≡ 0)
        → sig n ≢ 0
        → Ended n p
    unfolding main
    main-Ended n p h enough quiet seen = go (config_path argv) refl
      where
        after_start : (path : Bytes) → Outcome State (Unit {0}) → Option (Outcome State ExitCode)
        after_start path o = elim o [
          | thrown e q ↦ some (thrown e q)
          | done u q ↦
              Option.map (λ r. done zero_code (terminate r)) (run_until_signal update sig fuel 0 q)
        ]

        opened : Option Bytes → Option (Outcome State ExitCode)
        opened o = elim o [
          | none ↦ some (done minus_one p)
          | some path ↦ after_start path (start_up json hex lib cr hm ch stack conf calls path p)
        ]

        started :
            (path : Bytes) (o : Outcome State (Unit {0}))
            → config_path argv ≡ some path
            → start_up json hex lib cr hm ch stack conf calls path p ≡ o
            → Ended n p
        started path (thrown e q) f g = failed path e q f g (ap opened f ∙ ap (after_start path) g)
        started path (done u q) f g =
            let st = start_up-Started json hex lib cr hm ch stack conf calls path p q h g in
            let (m, a, b, c) = init-done cr hm ch calls _ p.enclave q.enclave st.initialised in
            finished path q m st f a b c (
              ap opened f
              ∙ (ap (after_start path) g
                  ∙ ap (Option.map (λ r. done zero_code (terminate r))) (
                      run_until_signal-iterate update sig fuel n 0 q enough
                        (λ i l. subst (λ k. sig k ≡ 0) (omega arith) (quiet i l))
                        (subst (λ k. sig k ≢ 0) (omega arith) seen))))

        go : (o : Option Bytes) → config_path argv ≡ o → Ended n p
        go none f = misused f (ap opened f)
        go (some path) f =
            started path (start_up json hex lib cr hm ch stack conf calls path p) f refl
