-- ===== src/Enclave/Init.antt =====
-- `Init` of src/Trusted/Enclave.cpp, in the order of its calls. Output is left out.
use decent_ethereum.Base.{
  String, ℕ, List, [], ◌∷◌, some, Bytes, Result, ok, Exec, lift, modify, pure, and_then, ◌>>=◌,
  ◌>>◌,
}
use decent_ethereum.Geth.Text.{codes}
use decent_ethereum.World.{PubsubServiceStore}
use decent_ethereum.Pubsub.Service.{new_store}
use decent_ethereum.Monitor.{HostCalls}
use decent_ethereum.Monitor.Callbacks.{new_mgr}
use decent_ethereum.Dispatch.{boot}
use decent_ethereum.Enclave.{
  handle_pubsub_sub_req, handle_receipt_sub_req, handle_send_raw, Credentials, HandlerMgr, Chain,
  Manager, Enclave, on_credentials, on_handlers,
}

module _ (cr : Credentials) where
  open cr use {
    State, Cert, mbed_tls_init, register_key, register_cert, platform_id_hex, self_hash_hex,
    key_sha256_hex, keyring_hash_hex, request_cert, from_pem, update_cert,
  }

  unfoldable pub global_initialization : Exec State (Unit {0})
  global_initialization = do
    mbed_tls_init
    register_key "Secp256r1"
    register_key "Secp256k1"
    register_cert "Secp256r1"
    register_cert "Secp256k1"

  -- The values that are printed.
  unfoldable pub print_my_info : Exec State (List Bytes)
  print_my_info = do
    id ← platform_id_hex
    self_hash ← self_hash_hex
    secp256r1_key_fp ← key_sha256_hex "Secp256r1"
    secp256k1_key_fp ← key_sha256_hex "Secp256k1"
    keyring_hash ← keyring_hash_hex
    pure (id ∷ self_hash ∷ secp256r1_key_fp ∷ secp256k1_key_fp ∷ keyring_hash ∷ [])

  -- A certificate store is named as its key.
  unfoldable pub request_app_cert : String → Exec State (Unit {0})
  request_app_cert key_name = do
    pem_chain ← request_cert "DecentServer" key_name
    cert ← lift (from_pem pem_chain)
    modify (update_cert key_name cert)

  -- What comes before the blockchain manager.
  unfoldable pub prepare : Exec State (Unit {0})
  prepare = do
    global_initialization
    info ← print_my_info
    request_app_cert "Secp256r1"
    request_app_cert "Secp256k1"

abbrev pub pubsub_subscribe : Bytes
pubsub_subscribe = codes "PubSub.Subscribe"

abbrev pub receipt_subscribe : Bytes
receipt_subscribe = codes "Receipt.Subscribe"

abbrev pub transaction_send_raw : Bytes
transaction_send_raw = codes "Transaction.SendRaw"

unfoldable pub register_handlers : (hm : HandlerMgr) → Exec hm.State (Unit {0})
register_handlers hm = do
  hm.register pubsub_subscribe handle_pubsub_sub_req
  hm.register receipt_subscribe handle_receipt_sub_req
  hm.register transaction_send_raw handle_send_raw

-- The arguments of `Init`.
pub record InitArgs (C : Type 0) : Type 0 where
  pub conf : C
  pub start_blk_num : ℕ
  pub sync_contract_addr : Bytes
  pub sync_event_sign : Bytes
  pub pubsub_contract_addr : Bytes

module _ (ch : Chain) where
  open ch use {monitor, events, Conf, make, event_mgr, keccak256}

  abbrev pub service_store : Bytes → PubsubServiceStore
  service_store pubsub_contract_addr =
      new_store keccak256 pubsub_contract_addr (codes "ServiceDeployed(address)")
        (codes "PublisherRegistered(address,address)") (codes "NotifySubscribers(bytes)")

  abbrev pub ManagerState : Type 0
  ManagerState = Manager monitor.State events.State

  -- The blockchain manager, its subscriber service started; `calls` is what the host answers.
  unfoldable pub make_manager : HostCalls → InitArgs Conf → Result ManagerState
  make_manager calls args =
      and_then (make args.conf args.sync_contract_addr (keccak256 args.sync_event_sign)) λ m.
        and_then (new_mgr monitor calls args.start_blk_num m) λ blocks. ok (record {
          blocks = blocks;
          system = boot events (event_mgr blocks.monitor) (service_store args.pubsub_contract_addr);
        })

module _ (cr : Credentials) (hm : HandlerMgr) (ch : Chain) where
  abbrev pub EnclaveState : Type 0
  EnclaveState = Enclave cr.State hm.State ch.monitor.State ch.events.State

  -- What comes behind it.
  unfoldable pub serve : Exec EnclaveState (Unit {0})
  serve = do
    on_credentials (cr.set_lambda_config "Secp256r1" "Secp256r1")
    on_handlers (register_handlers hm)

  -- `g_blockchainMgr` is set once the manager is made.
  unfoldable pub set_manager : HostCalls → InitArgs ch.Conf → Exec EnclaveState (Unit {0})
  set_manager calls args = do
    mgr ← lift (make_manager ch calls args)
    modify (λ s. record s { mgr = some mgr })

  unfoldable pub init : HostCalls → InitArgs ch.Conf → Exec EnclaveState (Unit {0})
  init calls args = do on_credentials (prepare cr); set_manager calls args; serve
