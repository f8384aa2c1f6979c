-- ===== src/Enclave.antt =====
-- The global state of src/Trusted/Enclave.cpp: the blockchain manager, the registered handlers, and
-- the libraries' keys and certificates, with the interfaces of the libraries that `Init` calls.
pub mod Init
pub mod Initialised
pub mod Calls
pub mod Parts
pub mod Ready
pub mod Safety
pub mod Stores
pub mod Serving
pub mod Runs
pub mod Refines
pub mod Subscribed
pub mod Host
use decent_ethereum.Base.{
  String, ℕ, ◌≡◌, ◌≢◌, ap, Option, none, some, Bytes, Result, ok, Exec, Outcome, done, thrown,
  after,
}
use decent_ethereum.External.{EventManager}
use decent_ethereum.Monitor.{EclipseMonitor}
use decent_ethereum.Monitor.Callbacks.{BlockchainMgr}
use decent_ethereum.Dispatch.{System}

-- The functions that `Init` hands to `RegisterHandler`.
pub data Handler : Type 0 where
  handle_pubsub_sub_req handle_receipt_sub_req handle_send_raw : Handler

-- What `Init` asks of mbedTLS, the keyring, the certificate store and the lambda server.
pub record Credentials : Type 1 where
  pub State : Type 0
  pub Cert : Type 0
  pub mbed_tls_init : Exec State (Unit {0})
  pub register_key : String → Exec State (Unit {0})
  pub register_cert : String → Exec State (Unit {0})
  pub platform_id_hex : Exec State Bytes
  pub self_hash_hex : Exec State Bytes
  pub key_sha256_hex : String → Exec State Bytes
  pub keyring_hash_hex : Exec State Bytes
  -- `AppCertRequester(component, key).Request()`, and `X509Cert::FromPEM`.
  pub request_cert : String → String → Exec State Bytes
  pub from_pem : Bytes → Result Cert
  pub update_cert : String → Cert → State → State
  pub set_lambda_config : String → String → Exec State (Unit {0})

-- `LambdaHandlerMgr`: `find` is the handler that a message of that name reaches.
pub record HandlerMgr : Type 1 where
  pub State : Type 0
  pub register : Bytes → Handler → Exec State (Unit {0})
  pub find : Bytes → State → Option Handler
  pub find-register_new :
      (name : Bytes) (h : Handler) (s t : State)
      → register name h s ≡ done tt t
      → find name t ≡ some h
  pub find-register_old :
      (name other : Bytes) (h : Handler) (s : State)
      → other ≢ name
      → find other (after (register name h s)) ≡ find other s

-- The monitor with the event manager inside it. `make` is the constructor of `EclipseMonitor`, with
-- the validator, the difficulty checker, the time and random sources that `BlockchainMgr` gives it.
pub record Chain : Type 1 where
  pub monitor : EclipseMonitor
  pub events : EventManager
  pub Conf : Type 0
  pub parse_conf : Bytes → Result Conf
  pub write_conf : Conf → Bytes
  pub make : Conf → Bytes → Bytes → Result monitor.State
  pub event_mgr : monitor.State → events.State
  pub keccak256 : Bytes → Bytes
  -- A configuration that is written is read back.
  pub parse-write_conf : (c : Conf) → parse_conf (write_conf c) ≡ ok c
  -- A new monitor's event manager has no listener, and planning the bootstrap adds none.
  pub find-make :
      (c : Conf) (addr topic : Bytes) (m : monitor.State) (i : ℕ)
      → make c addr topic ≡ ok m
      → events.find i (event_mgr m) ≡ none
  pub event_mgr-refresh :
      (latest : ℕ) (start : Option ℕ) (m : monitor.State)
      → event_mgr (monitor.refresh_bootstrap_plan latest start m) ≡ event_mgr m

-- `BlockchainMgr`, and the threads' state that its event manager and subscriber service make up.
pub record Manager (M E : Type 0) : Type 0 where
  pub blocks : BlockchainMgr M
  pub system : System E

-- `mgr` is `g_blockchainMgr`, a null pointer at first.
pub record Enclave (C H M E : Type 0) : Type 0 where
  pub credentials : C
  pub handlers : H
  pub mgr : Option (Manager M E)

module _ {C H M E A : Type 0} where
  -- A call on one part of the state.
  abbrev pub placed_credentials : Enclave C H M E → Outcome C A → Outcome (Enclave C H M E) A
  placed_credentials s (done a c) = done a (record s { credentials = c })
  placed_credentials s (thrown e c) = thrown e (record s { credentials = c })

  abbrev pub on_credentials : Exec C A → Exec (Enclave C H M E) A
  on_credentials m s = placed_credentials s (m s.credentials)

  abbrev pub placed_handlers : Enclave C H M E → Outcome H A → Outcome (Enclave C H M E) A
  placed_handlers s (done a h) = done a (record s { handlers = h })
  placed_handlers s (thrown e h) = thrown e (record s { handlers = h })

  abbrev pub on_handlers : Exec H A → Exec (Enclave C H M E) A
  on_handlers m s = placed_handlers s (m s.handlers)
