-- ===== src/HostMain/Process.antt =====
-- `main` of src/Untrusted/Main.cpp as a whole, in the order of its calls. Output is left out.
use mathlib.Core.Option
use decent_ethereum.Base.{
  ℕ, String, Option, none, some, List, [], ◌∷◌, ◌++◌, Bytes, Result, ok, err, Exec, Outcome, done,
  thrown, lift, modify, and_then, ◌>>=◌, ◌>>◌,
}
use decent_ethereum.Geth.Text.{codes}
use decent_ethereum.Geth.Libraries.{JsonLib, HexLib}
use decent_ethereum.Monitor.{HostCalls}
use decent_ethereum.BlockFeed.Service.{create, bind_receiver}
use decent_ethereum.BlockFeed.Tasks.{
  Task, heartbeat_emitter, asio_service, Host, start_sending_blocks,
}
use decent_ethereum.Enclave.{Credentials, HandlerMgr, Chain}
use decent_ethereum.Enclave.Init.{EnclaveState}
use decent_ethereum.Enclave.Host.{new_enclave}
use decent_ethereum.HostMain.{config_path, addr_bytes, run_until_signal}

-- What `main` calls outside of the repository, besides JSON and hex. `to_string` is
-- `std::to_string`. The last four may throw:
-- `endpoints` is `EndpointsMgr`, `sgx` the SGX enclave's constructor, on the authorised list, the
-- image's path and the token's, `lambda_server` the server's constructor and `AddFunction`.
pub record MainLib (Json : Type 0) : Type 0 where
  pub mbed_tls_init : Result (Unit {0})
  pub read_file : Bytes → Result Bytes
  pub auth_list : Json → Result Bytes
  pub as_cpp_uint32 : Json → Result ℕ
  pub as_cpp_uint64 : Json → Result ℕ
  pub to_string : ℕ → Bytes
  pub endpoints : Json → Result (Unit {0})
  pub sgx : Bytes → Bytes → Bytes → Result (Unit {0})
  pub lambda_server : Result (Unit {0})

-- The process: the enclave's state, the host block service with the thread pool, the address of the
-- node, and the functions of the API server.
pub record Process (S : Type 0) : Type 0 where
  pub enclave : S
  pub host : Host
  pub geth_url : Bytes
  pub functions : List Bytes

pub record GethConfig : Type 0 where
  pub protocol : Bytes
  pub host : Bytes
  pub port : ℕ
  pub sync_addr_hex : Bytes

pub record PubsubConfig : Type 0 where
  pub pubsub_addr_hex : Bytes
  pub start_block : ℕ

module _ (json : JsonLib) (lib : MainLib json.Json) where
  open json use {Json, dict_get, as_string}

  unfoldable pub text_of : Json → String → Result Bytes
  text_of section label = and_then (dict_get section label) as_string

  unfoldable pub geth_config : Json → Result GethConfig
  geth_config config = and_then (dict_get config "Geth") λ section.
      and_then (text_of section "Protocol") λ protocol. and_then (text_of section "Host") λ host.
        and_then (and_then (dict_get section "Port") lib.as_cpp_uint32) λ port.
          and_then (text_of section "SyncAddr") λ sync_addr_hex. ok (record {
            protocol = protocol;
            host = host;
            port = port;
            sync_addr_hex = sync_addr_hex;
          })

  unfoldable pub pubsub_config : Json → Result PubsubConfig
  pubsub_config config = and_then (dict_get config "PubSub") λ section.
      and_then (text_of section "PubSubAddr") λ pubsub_addr_hex.
        and_then (and_then (dict_get section "StartBlock") lib.as_cpp_uint64) λ start_block.
          ok (record { pubsub_addr_hex = pubsub_addr_hex; start_block = start_block })

  -- The image's path and the token's.
  unfoldable pub image_config : Json → Result (Bytes × Bytes)
  image_config config = and_then (dict_get config "EnclaveImage") λ section.
      and_then (text_of section "ImagePath")
        λ img_path. and_then (text_of section "TokenPath") λ token_path. ok (img_path, token_path)

  -- The configuration, and the authorised list in it.
  unfoldable pub load_config : Bytes → Result (Json × Bytes)
  load_config path = and_then lib.mbed_tls_init λ _. and_then (lib.read_file path) λ text.
      and_then (json.load_str text) λ config.
        and_then (lib.auth_list config)
          λ auth_list. and_then (lib.endpoints config) λ _. ok (config, auth_list)

  unfoldable pub geth_url_of : GethConfig → Bytes
  geth_url_of geth =
      geth.protocol ++ codes "://" ++ geth.host ++ codes ":" ++ lib.to_string geth.port

module _ {S : Type 0} where
  abbrev pub placed_enclave : Process S → Result (Unit {0}) × S → Outcome (Process S) (Unit {0})
  placed_enclave p (ok u, e) = done u (record p { enclave = e })
  placed_enclave p (err x, e) = thrown x (record p { enclave = e })

  abbrev pub placed_host : Process S → Outcome Host (Unit {0}) → Outcome (Process S) (Unit {0})
  placed_host p (done u h) = done u (record p { host = h })
  placed_host p (thrown x h) = thrown x (record p { host = h })

  unfoldable pub add_task : Task → Process S → Process S
  add_task t p = record p { host = record (p.host) { tasks = p.host.tasks ++ t ∷ [] } }

  -- `HostBlockService::Create`.
  unfoldable pub create_service : Bytes → Process S → Process S
  create_service geth_url p = record p {
    host = record (p.host) { service = create };
    geth_url = geth_url;
  }

  -- `BindReceiver`, then `StartSendingBlocks`.
  unfoldable pub feed : ℕ → Exec (Process S) (Unit {0})
  feed start_block p = placed_host p (
      start_sending_blocks start_block (record (p.host) { service = bind_receiver p.host.service }))

  -- The API server, the heartbeat emitter and the IO service.
  unfoldable pub open_server : Result (Unit {0}) → Exec (Process S) (Unit {0})
  open_server lambda_server = do
    lift lambda_server
    modify (λ p. record p { functions = p.functions ++ codes "DecentEthereum" ∷ [] })
    modify (add_task (heartbeat_emitter 2000))
    modify (add_task asio_service)

-- The signature of the synchronisation event.
abbrev pub sync_event_sign : Bytes
sync_event_sign = codes "SyncMsg(bytes16,bytes32)"

-- The value that `main` returns: -1, or 0.
pub data ExitCode : Type 0 where
  minus_one zero_code : ExitCode

module _ (json : JsonLib) (hex : HexLib) (lib : MainLib json.Json) (cr : Credentials)
    (hm : HandlerMgr) (ch : Chain) where
  abbrev pub ProcessState : Type 0
  ProcessState = Process (EnclaveState cr hm ch)

  -- `stack` is what memory holds for `syncAddr`, `conf` is `BuildEthereumMonitorConfig()`, and
  -- `calls` is what the host answers the enclave.
  unfoldable pub create_enclave :
      Bytes → ch.Conf → HostCalls → Bytes → Bytes → ℕ → Bytes → Bytes → Exec ProcessState (Unit {0})
  create_enclave stack conf calls auth_list pubsub_addr start_block img_path token_path p =
      placed_enclave p (
        new_enclave cr hm ch (lib.sgx auth_list img_path token_path) calls
          (record {
            conf = conf;
            start_blk_num = start_block;
            sync_contract_addr = stack;
            sync_event_sign = sync_event_sign;
            pubsub_contract_addr = pubsub_addr;
          })
          p.enclave)

  -- From the thread pool to `RunUntilSignal`.
  unfoldable pub start_up : Bytes → ch.Conf → HostCalls → Bytes → Exec ProcessState (Unit {0})
  start_up stack conf calls path = do
    (config, auth_list) ← lift (load_config json lib path)
    geth ← lift (geth_config json lib config)
    sync_addr_bytes ← lift (addr_bytes hex geth.sync_addr_hex)
    modify (create_service (geth_url_of json lib geth))
    pubsub ← lift (pubsub_config json lib config)
    pubsub_addr ← lift (addr_bytes hex pubsub.pubsub_addr_hex)
    (img_path, token_path) ← lift (image_config json lib config)
    create_enclave stack conf calls auth_list pubsub_addr pubsub.start_block img_path token_path
    feed pubsub.start_block
    open_server lib.lambda_server

  -- `update` is `threadPool->Update()`, `terminate` is `threadPool->Terminate()`, `sig` the signal
  -- seen at each test of the loop. `none`: the fuel of the loop ran out.
  unfoldable pub main :
      (ProcessState → ProcessState)
      → (ProcessState → ProcessState)
      → (ℕ → ℕ)
      → ℕ
      → Bytes
      → ch.Conf
      → HostCalls
      → List Bytes
      → ProcessState
      → Option (Outcome ProcessState ExitCode)
  main update terminate sig fuel stack conf calls argv p = elim (config_path argv) [
    | none ↦ some (done minus_one p)
    | some path ↦ elim (start_up stack conf calls path p) [
      | thrown e q ↦ some (thrown e q)
      | done u q ↦
          Option.map (λ r. done zero_code (terminate r)) (run_until_signal update sig fuel 0 q)
    ]
  ]
