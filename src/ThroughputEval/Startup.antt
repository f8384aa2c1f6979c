-- ===== src/ThroughputEval/Startup.antt =====
-- The start of the measurement, tests/geth-decent-throughput-eval: `Init` of Trusted/Enclave.cpp
-- with its ecall, the constructor of Untrusted/DecentEthereumEnclave.hpp, and `main` of
-- Untrusted/Main.cpp around the loop.
use decent_ethereum.Base.{
  ℕ, ◌-◌, ◌^◌, ◌<◌, ◌≤◌, arith, ◌≡◌, refl, sym, ap, ◌∙◌, Bool, true, List, [], ◌∷◌, ◌++◌, map,
  Option, none, some, Bytes, Result, ok, err, Exec, Outcome, done, thrown, after, lift, modify,
  pure, and_then, ◌>>=◌, ◌>>◌, bind-done, bind-eq-done, bind_lift-eq-done, length,
}
use decent_ethereum.Geth.Text.{codes}
use decent_ethereum.Geth.Libraries.{JsonLib, HexLib, Network}
use decent_ethereum.Geth.Requests.{get_header_rlp_by_num}
use decent_ethereum.Boundary.Ocalls.{SgxStatus, check_error}
use decent_ethereum.Boundary.Ecalls.{ecall}
use decent_ethereum.BlockFeed.Chain.{segment}
use decent_ethereum.Enclave.{Credentials}
use decent_ethereum.HostMain.Process.{
  MainLib, text_of, image_config, ExitCode, minus_one, zero_code,
}
use decent_ethereum.ThroughputEval.{EvalHeader, EvalLib, AllSound}
use decent_ethereum.ThroughputEval.Rates.{count_below, partial_rates, receipt_rates-below}
use decent_ethereum.ThroughputEval.Loop.{
  Measured, receipt_rates, start_block_num, end_block_num, main_loop, measure-logged,
}

-- The enclave's globals besides the counters: `has_host` tells whether `g_hostBlkSvc` is set.
pub record EvalGlobals (C : Type 0) : Type 0 where
  pub credentials : C
  pub has_host : Bool

-- `is_bound`: the enclave is the receiver of the host block service.
pub record EvalProcess (C : Type 0) : Type 0 where
  pub globals : EvalGlobals C
  pub geth_url : Bytes
  pub is_bound : Bool
  pub measured : Measured

-- `argc` and `argv[1]`.
unfoldable pub eval_config_path : List Bytes → Option Bytes
eval_config_path (self ∷ []) =
    some (codes "../../../tests/geth-decent-throughput-eval/components_config.json")
eval_config_path (self ∷ path ∷ []) = some path
eval_config_path _ = none

module _ (cr : Credentials) where
  -- `GlobalInitialization` and `PrintMyInfo`.
  unfoldable pub eval_prepare : Exec cr.State (Unit {0})
  eval_prepare = do cr.mbed_tls_init; id ← cr.platform_id_hex; self_hash ← cr.self_hash_hex; pure tt

  unfoldable pub eval_init : Exec (EvalGlobals cr.State) (Unit {0})
  eval_init s = elim (eval_prepare s.credentials) [
    | done u c ↦ done u (record { credentials = c; has_host = true })
    | thrown e c ↦ thrown e (record s { credentials = c })
  ]

  unfoldable pub ecall_eval_init : EvalGlobals cr.State → SgxStatus × EvalGlobals cr.State
  ecall_eval_init s = ecall (eval_init s)

  -- The constructor of the host's enclave; `base` is that of the SGX enclave.
  unfoldable pub new_eval_enclave : Result (Unit {0}) → Exec (EvalGlobals cr.State) (Unit {0})
  new_eval_enclave (err e) s = thrown e s
  new_eval_enclave (ok u) s = let (status, t) = ecall_eval_init s in lift (check_error status) t

  -- A constructor that returns has set the host.
  new_eval_enclave-done :
      (base : Result (Unit {0})) (s t : EvalGlobals cr.State)
      → new_eval_enclave base s ≡ done tt t
      → t.has_host ≡ true
  unfolding new_eval_enclave ecall_eval_init eval_init ecall
  new_eval_enclave-done (err e) s t h = cc
  new_eval_enclave-done (ok u) s t h = go (eval_prepare s.credentials) h
    where
      placed : Outcome cr.State (Unit {0}) → Outcome (EvalGlobals cr.State) (Unit {0})
      placed o = elim o [
        | done u c ↦ done u (record { credentials = c; has_host = true })
        | thrown e c ↦ thrown e (record s { credentials = c })
      ]

      go :
          (o : Outcome cr.State (Unit {0}))
          → (let (status, t) = ecall (placed o) in lift {A = Unit {0}} (check_error status) t)
            ≡ done tt t
          → t.has_host ≡ true
      go (done u c) k =
          sym (ap (λ (o : Outcome (EvalGlobals cr.State) (Unit {0})). (after o).has_host) k)
      go (thrown e c) k = cc

-- `sgx` is the SGX enclave's constructor, on the image's path and the token's, and `net` the node
-- at a URL.
module _ (json : JsonLib) (hex : HexLib) (lib : MainLib json.Json) (cr : Credentials)
    (eval_lib : EvalLib) (sgx : Bytes → Bytes → Result (Unit {0})) (net : Bytes → Network) where
  abbrev State : Type 0
  State = EvalProcess cr.State

  unfoldable pub eval_load : Bytes → Result json.Json
  eval_load path =
      and_then lib.mbed_tls_init λ _. and_then (lib.read_file path) λ text. json.load_str text

  unfoldable pub eval_geth_url : json.Json → Result Bytes
  eval_geth_url config = and_then (json.dict_get config "Geth") λ section.
      and_then (text_of json lib section "Protocol") λ protocol.
        and_then (text_of json lib section "Host") λ host.
          and_then (and_then (json.dict_get section "Port") lib.as_cpp_uint32)
            λ port. ok (protocol ++ codes "://" ++ host ++ codes ":" ++ lib.to_string port)

  abbrev placed_globals :
      State → Outcome (EvalGlobals cr.State) (Unit {0}) → Outcome State (Unit {0})
  placed_globals p (done u g) = done u (record p { globals = g })
  placed_globals p (thrown e g) = thrown e (record p { globals = g })

  unfoldable pub create_eval_enclave : Bytes → Bytes → Exec State (Unit {0})
  create_eval_enclave img_path token_path p =
      placed_globals p (new_eval_enclave cr (sgx img_path token_path) p.globals)

  -- Up to the loop.
  unfoldable pub eval_start : Bytes → Exec State (Unit {0})
  eval_start path = do
    config ← lift (eval_load path)
    geth_url ← lift (eval_geth_url config)
    modify (λ p. record p { geth_url = geth_url })
    (img_path, token_path) ← lift (image_config json lib config)
    create_eval_enclave img_path token_path
    modify (λ p. record p { is_bound = true })

  abbrev placed_measured : State → Outcome Measured (Unit {0}) → Outcome State ExitCode
  placed_measured p (done u m) = done zero_code (record p { measured = m })
  placed_measured p (thrown e m) = thrown e (record p { measured = m })

  -- The loop, and `return 0`.
  unfoldable pub run_loop : Exec State ExitCode
  run_loop p = placed_measured p (main_loop json hex eval_lib (net p.geth_url) p.measured)

  unfoldable pub eval_main : List Bytes → Exec State ExitCode
  eval_main argv p = elim (eval_config_path argv) [
    | none ↦ done minus_one p
    | some path ↦ (eval_start path >> run_loop) p
  ]

  create_eval_enclave-done :
      (img token : Bytes) (p q : State)
      → create_eval_enclave img token p ≡ done tt q
      → q.globals.has_host ≡ true
  unfolding create_eval_enclave
  create_eval_enclave-done img token p q h =
      go (new_eval_enclave cr (sgx img token) p.globals) refl h
    where
      go :
          (o : Outcome (EvalGlobals cr.State) (Unit {0}))
          → new_eval_enclave cr (sgx img token) p.globals ≡ o
          → placed_globals p o ≡ done tt q
          → q.globals.has_host ≡ true
      go (done u g) e k =
          sym (ap (λ (o : Outcome State (Unit {0})). (after o).globals.has_host) k)
          ∙ new_eval_enclave-done cr (sgx img token) p.globals g e
      go (thrown x g) e k = cc

  -- A start that returns: the host is set in the enclave, and the enclave is bound.
  eval_start-done :
      (path : Bytes) (p q : State)
      → eval_start path p ≡ done tt q
      → (q.globals.has_host ≡ true) × (q.is_bound ≡ true)
  unfolding eval_start
  eval_start-done path p q h =
      let (config, _, f1) = bind_lift-eq-done (eval_load path) _ h in
      let (url, _, f2) = bind_lift-eq-done (eval_geth_url config) _ f1 in
      let ((img, token), _, f3) = bind_lift-eq-done (image_config json lib config) _ f2 in
      let (_, t, e, f4) = bind-eq-done (create_eval_enclave img token) _ f3 in
      let g = ap (λ (o : Outcome State (Unit {0})). after o) (sym f4) in
      (
        ap (λ (r : State). r.globals.has_host) g ∙ create_eval_enclave-done img token _ t e,
        ap (λ (r : State). r.is_bound) g,
      )

  -- Where the measuring host's start returns, the node gives the headers of a chain for the blocks
  -- from 8875000 up to 8880000, the last one excluded, each header is read, and the host's receipts
  -- have the root that the header names: the enclave has its host service set before the first
  -- block is pushed and is bound as the receiver; `main` ends with 0; the numbers that the enclave
  -- logs are the count of before, then for each of the ten rates below one, in tenths, the number
  -- of headers of the range whose last hash byte is below a tenth of 255 times the rate, rounded
  -- down, and for the rate of one the number of all headers; and at the end the limit and the count
  -- are 0. There are fewer than 2^64 headers.
  pub eval_main-measured :
      (argv : List Bytes) (path : Bytes) (p q : State) (chain : ℕ → Bytes) (hdrs : List EvalHeader)
      → eval_config_path argv ≡ some path
      → eval_start path p ≡ done tt q
      → ((i : ℕ)
          → start_block_num ≤ i
          → i < end_block_num
          → get_header_rlp_by_num json hex (net q.geth_url) i ≡ ok (chain i))
      → AllSound eval_lib (segment chain start_block_num (end_block_num - start_block_num)) hdrs
      → length hdrs < 2 ^ 64
      → (q.globals.has_host ≡ true)
        × (q.is_bound ≡ true)
        × (eval_main argv p
            ≡ done zero_code (record q {
              measured = record {
                enclave = record { receipt_limit = 0; verified_receipts = 0 };
                logged =
                    q.measured.logged
                    ++ q.measured.enclave.verified_receipts
                      ∷ (map (count_below hdrs) partial_rates ++ length hdrs ∷ []);
              };
            }))
  unfolding eval_main run_loop main_loop
  eval_main-measured argv path p q chain hdrs h e has sound small =
      let (a, b) = eval_start-done path p q e in
      (
        a,
        b,
        ap opened h
            ∙ (bind-done (eval_start path) (λ _. run_loop) e
                ∙ ap (placed_measured q) (
                    measure-logged json hex eval_lib (net q.geth_url) chain start_block_num
                      (end_block_num - start_block_num) receipt_rates hdrs q.measured
                      (λ i a l. has i a (omega arith)) sound small
                    ∙ ap (λ counts. done tt (counted counts)) (receipt_rates-below eval_lib hdrs))),
      )
    where
      opened : Option Bytes → Outcome State ExitCode
      opened o = elim o [ none ↦ done minus_one p | some path ↦ (eval_start path >> run_loop) p ]

      counted : List ℕ → Measured
      counted counts = record {
        enclave = record { receipt_limit = 0; verified_receipts = 0 };
        logged = q.measured.logged ++ q.measured.enclave.verified_receipts ∷ counts;
      }
