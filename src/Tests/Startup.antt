-- ===== src/Tests/Startup.antt =====
-- The theorems on the start of the enclave and of the host at concrete inputs.
use decent_ethereum.Base.{
  ℕ, zero, suc, ◌<◌, ◌≡◌, ◌≢◌, refl, sym, ap, ◌∙◌, inl, inr, if_true, if_false, none, some, [], ◌∷◌,
  Bytes, bytes_eq, bytes_eq_refl, Bytes-cases, Map, lookup, insert, lookup-insert, Result, ok, err,
  Outcome, done, after, replicate, external_error, arith,
}
use decent_ethereum.Geth.Text.{codes}
use decent_ethereum.Geth.Libraries.{JsonLib}
use decent_ethereum.Boundary.Ecalls.{ecall, ends_as}
use decent_ethereum.Enclave.{Handler, Credentials, HandlerMgr, Chain, handle_send_raw}
use decent_ethereum.Enclave.Init.{
  InitArgs, ManagerState, EnclaveState, init, transaction_send_raw, prepare, global_initialization,
  print_my_info, request_app_cert, set_manager, make_manager, serve, register_handlers,
}
use decent_ethereum.Monitor.Callbacks.{new_mgr}
use decent_ethereum.Enclave.Initialised.{Initialised, init-Initialised}
use decent_ethereum.Enclave.Calls.{Codecs, Message, run_handler, handle, ecall_init, init_args}
use decent_ethereum.Enclave.Ready.{start, call, init_call}
use decent_ethereum.Enclave.Safety.{message-handled}
use decent_ethereum.Enclave.Host.{All-all_nonzero, new_enclave, init_buffers, new_enclave-init}
use decent_ethereum.Lifecycle.Delivery.{SystemInv}
use decent_ethereum.HostMain.Process.{MainLib, Process}
use decent_ethereum.HostMain.Served.{Ended, main-Ended}
use decent_ethereum.BlockFeed.Service.{create}
use decent_ethereum.Tests.Instances.{slots, words}
use decent_ethereum.Tests.Libraries.{counter, calls, pair_hex, pairs, test_json, test_rlp, node}
use decent_ethereum.Tests.Enclave.{write}

-- Every call counts up, and a certificate is the text it is read from.
abbrev pub credentials : Credentials
credentials = record {
  State = ℕ;
  Cert = Bytes;
  mbed_tls_init = λ s. done tt (suc s);
  register_key = λ name s. done tt (suc s);
  register_cert = λ name s. done tt (suc s);
  platform_id_hex = λ s. done [] (suc s);
  self_hash_hex = λ s. done [] (suc s);
  key_sha256_hex = λ name s. done [] (suc s);
  keyring_hash_hex = λ s. done [] (suc s);
  request_cert = λ component name s. done [] (suc s);
  from_pem = λ pem. ok pem;
  update_cert = λ name cert s. suc s;
  set_lambda_config = λ cert key s. done tt (suc s);
}

pub inserted :
    (name : Bytes) (h : Handler) (s : Map Handler) → lookup name (insert name h s) ≡ some h
inserted name h s = lookup-insert name name h s ∙ if_true _ _ (bytes_eq_refl name)

pub kept :
    (name other : Bytes) (h : Handler) (s : Map Handler)
    → other ≢ name
    → lookup other (insert name h s) ≡ lookup other s
kept name other h s n = elim (Bytes-cases name other) [
  | inl e ↦ absurd (n (sym e))
  | inr (_, e) ↦ lookup-insert name other h s ∙ if_false _ _ e
]

abbrev pub handler_map : HandlerMgr
handler_map = record {
  State = Map Handler;
  register = λ name h s. done tt (insert name h s);
  find = lookup;
  find-register_new = λ name h s t e.
      ap (λ (o : Outcome (Map Handler) (Unit {0})). lookup name (after o)) (sym e)
      ∙ inserted name h s;
  find-register_old = λ name other h s n. kept name other h s n;
}

abbrev pub one_number : Bytes → Result ℕ
one_number [] = err external_error
one_number (b ∷ bs) = ok b

abbrev pub chain : Chain
chain = record {
  monitor = counter;
  events = slots;
  Conf = ℕ;
  parse_conf = one_number;
  write_conf = λ c. c ∷ [];
  make = λ c addr topic. ok c;
  event_mgr = λ m. [];
  keccak256 = λ b. replicate 32 7;
  parse-write_conf = λ c. refl;
  find-make = λ c addr topic m i e. refl;
  event_mgr-refresh = λ latest start m. refl;
}

abbrev pub codecs : Codecs
codecs = record {
  rlp = test_rlp;
  json = test_json;
  hex = pair_hex;
  write = write;
  write_sec_state = λ s. [];
}

abbrev pub State : Type 0
State = EnclaveState credentials handler_map chain

abbrev fresh : State
fresh = record { credentials = 0; handlers = []; mgr = none }

abbrev pub args : InitArgs ℕ
args = record {
  conf = 4;
  start_blk_num = 8;
  sync_contract_addr = replicate 20 1;
  sync_event_sign = codes "SyncMsg(bytes16,bytes32)";
  pubsub_contract_addr = replicate 20 2;
}

init-Initialised_example :
    Initialised credentials handler_map chain calls args fresh
      (init credentials handler_map chain calls args fresh)
init-Initialised_example = init-Initialised credentials handler_map chain calls args fresh

new_enclave-init_example :
    let o = init credentials handler_map chain calls args fresh in
    new_enclave credentials handler_map chain (ok tt) calls args fresh ≡ (ends_as o, after o)
new_enclave-init_example =
    new_enclave-init credentials handler_map chain calls args fresh refl refl
      (All-all_nonzero args.sync_event_sign refl)

-- The enclave that the host has started.
abbrev pub running : State
running =
    (ecall_init credentials handler_map chain calls
      (init_buffers credentials handler_map chain args) fresh).1

abbrev pub raw_transaction : Message
raw_transaction = record { socket = 3; content = 5 ∷ []; accepted = ok tt; net = node 6 }

message-handled_example :
    (m : ManagerState chain) × (o : Outcome State (Unit {0})) × (running.mgr ≡ some m)
    × (handle credentials handler_map chain codecs handle_send_raw raw_transaction running ≡ some o)
    × ((after o).mgr ≡ some (after (run_handler chain codecs handle_send_raw raw_transaction m)))
    × ((after o).handlers ≡ running.handlers)
    × SystemInv slots m.system
    × SystemInv slots (after (run_handler chain codecs handle_send_raw raw_transaction m)).system
unfolding lookup ecall_init ecall init_args init_buffers init prepare global_initialization
    print_my_info request_app_cert set_manager make_manager new_mgr serve register_handlers insert
    bytes_eq
message-handled_example =
    message-handled credentials handler_map chain codecs words fresh running transaction_send_raw
      handle_send_raw raw_transaction (record { no_handler = λ name. refl; no_mgr = refl })
      (call start (init_call calls (init_buffers credentials handler_map chain args) refl)) refl

-- Every text of the configuration is the address in hex, and every number is 8.
abbrev config_json : JsonLib
config_json = record {
  Json = Bytes;
  load_str = λ text. ok text;
  dict_get = λ j label. ok j;
  as_string = λ j. ok (pairs (replicate 20 9));
  as_list = λ j. err external_error;
  dump_str = λ j. j;
  dump_request = λ d. [];
}

abbrev main_lib : MainLib Bytes
main_lib = record {
  mbed_tls_init = ok tt;
  read_file = λ path. ok path;
  auth_list = λ j. ok [];
  as_cpp_uint32 = λ j. ok 8;
  as_cpp_uint64 = λ j. ok 8;
  to_string = λ n. n ∷ [];
  endpoints = λ j. ok tt;
  sgx = λ list img token. ok tt;
  lambda_server = ok tt;
}

abbrev process : Process State
process = record {
  enclave = fresh;
  host = record { service = create; tasks = [] };
  geth_url = [];
  functions = [];
}

abbrev second_is_signal : ℕ → ℕ
second_is_signal zero = 0
second_is_signal (suc n) = 2

main-Ended_example :
    Ended config_json pair_hex main_lib credentials handler_map chain
      (λ p. p)
      (λ p. p)
      second_is_signal
      5
      (replicate 20 0)
      4
      calls
      ((7 ∷ []) ∷ [])
      1
      process
main-Ended_example =
    main-Ended config_json pair_hex main_lib credentials handler_map chain (λ p. p) (λ p. p)
      second_is_signal 5 (replicate 20 0) 4 calls ((7 ∷ []) ∷ []) 1 process refl (omega arith) quiet
      (λ e. cc e)
  where
    quiet : (i : ℕ) → i < 1 → second_is_signal i ≡ 0
    quiet zero h = refl
    quiet (suc i) h = absurd (omega arith)
