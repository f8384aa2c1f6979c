-- ===== src/Tests/Serving.antt =====
-- The theorem on an enclave that serves, at a concrete input: the deployment, a registration, a
-- raw transaction, and a block with a notification.
use decent_ethereum.Base.{
  ℕ, List, sym, ◌∙◌, ◌≢◌, ◌⊎◌, Error, err, ok, push_back, ◌≡◌, refl, [], some, Bytes, Outcome,
  after, lookup, bytes_eq, insert,
}
use decent_ethereum.External.{ReceiptLogEntry, deploy, reg, notify_past}
use decent_ethereum.World.{PubsubServiceStore}
use decent_ethereum.Pubsub.Service.{
  new_store, get_past_events, get_event_mgr_addr, zero_addr, notify_past_event_handler,
  save_past_event, build_deploy_event_descr, build_reg_event_descr, build_notify_past_event_descr,
  deploy_event_handler, reg_event_handler, save_registration, abi_address_to_address,
  address_to_abi_address,
}
use decent_ethereum.Pubsub.Handler.{build_emitted_msg, publisher_of}
use decent_ethereum.Pubsub.Registration.{registration_data}
use decent_ethereum.Dispatch.{System, Step, Reach, here, next, boot, run_callback, deliver}
use decent_ethereum.History.{notified}
use decent_ethereum.Monitor.Callbacks.{new_mgr, MonitorCall, append_block}
use decent_ethereum.BlockFeed.Service.{send_raw_transaction}
use decent_ethereum.Geth.Requests.{send_raw_transaction_by_bytes}
use decent_ethereum.Geth.Decoding.{proc_resp_single_bytes_array, proc_resp_single_bytes}
use decent_ethereum.Boundary.Ecalls.{ecall, recv_block}
use decent_ethereum.Boundary.Ocalls.{
  sgx_success, send_raw, trusted_send_raw_transaction, ocall_send_raw_transaction,
}
use decent_ethereum.Enclave.{handle_pubsub_sub_req, handle_send_raw}
use decent_ethereum.Enclave.Init.{
  ManagerState, init, service_store, transaction_send_raw, prepare, global_initialization,
  print_my_info, request_app_cert, set_manager, make_manager, serve, register_handlers,
}
use decent_ethereum.Enclave.Calls.{
  ecall_block, Message, view_of, handle, ecall_init, init_args, deref, run_handler, placed_mgr,
}
use decent_ethereum.Enclave.Ready.{Called, Calls, start, call, message, thread, block}
use decent_ethereum.Enclave.Serving.{calls_notified, calls_registered, call_registered}
use decent_ethereum.History.Registrations.{
  addr_among, registrations, step_registered, registration_of,
}
use decent_ethereum.Enclave.Refines.{calls-Reach}
use decent_ethereum.Enclave.Subscribed.{subscribe-notified}
use decent_ethereum.Enclave.Host.{init_buffers}
use decent_ethereum.Tests.Instances.{slots, Slots, words}
use decent_ethereum.Tests.Libraries.{counter, calls, node}
use decent_ethereum.Tests.Enclave.{publisher, ev_mgr, hdr, event_log, write, shown}
use decent_ethereum.Tests.Startup.{
  State, credentials, handler_map, chain, codecs, args, running, raw_transaction,
}

abbrev store : PubsubServiceStore
store = service_store chain args.pubsub_contract_addr

abbrev new : System Slots
new = boot slots [] store

-- The manager of `running`, and `running` with another system in it.
abbrev manager : System Slots → ManagerState chain
manager y = record {
  blocks = record {
    monitor = counter.refresh_bootstrap_plan 9 (some 8) 4;
    last_chkpt_iter = 0;
    last_validated_blk_num = [];
    status_log = [];
  };
  system = y;
}

abbrev serving : System Slots → State
serving y = record running { mgr = some (manager y) }

abbrev deploy_log : ReceiptLogEntry
deploy_log = record { contract_addr = args.pubsub_contract_addr; topics = []; log_data = [] }

abbrev reg_log : ReceiptLogEntry
reg_log = record deploy_log { log_data = registration_data publisher ev_mgr [] }

abbrev deployed : System Slots
deployed = shown deploy 0 deploy_log new

abbrev registered : System Slots
registered = shown reg 1 reg_log deployed

abbrev told : System Slots
told = shown notify_past 2 event_log registered

abbrev deployment : Step slots words write new deployed
unfolding boot decent_ethereum.Pubsub.Service.start build_deploy_event_descr new_store
deployment = deliver 0 (build_deploy_event_descr store) hdr deploy_log refl refl refl refl

abbrev registration : Step slots words write deployed registered
unfolding boot run_callback deploy_event_handler build_reg_event_descr new_store
registration =
    deliver 1 (build_reg_event_descr deployed.world.store) hdr reg_log refl refl refl refl

abbrev notification : Step slots words write registered told
unfolding boot run_callback deploy_event_handler reg_event_handler build_notify_past_event_descr
    save_registration abi_address_to_address address_to_abi_address new_store
notification =
    deliver 2 (build_notify_past_event_descr ev_mgr registered.world.store) hdr event_log refl refl
      refl refl

abbrev by_thread :
    {y z : System Slots}
    → Step slots words write y z
    → Called credentials handler_map chain codecs words (serving y) (serving z)
by_thread {y} {z} st = thread (manager y) z refl st refl

abbrev outcome : Outcome State (Unit {0})
outcome =
    placed_mgr (serving registered)
      (run_handler chain codecs handle_send_raw raw_transaction (manager registered))

found : handler_map.find transaction_send_raw running.handlers ≡ some handle_send_raw
unfolding lookup ecall ecall_init init_args init_buffers init prepare global_initialization
    print_my_info request_app_cert set_manager make_manager new_mgr serve register_handlers insert
    bytes_eq
found = refl

handled :
    handle credentials handler_map chain codecs handle_send_raw raw_transaction (serving registered)
    ≡ some outcome
unfolding handle deref
handled = refl

unchanged : serving registered ≡ after outcome
unfolding run_handler send_raw trusted_send_raw_transaction ocall_send_raw_transaction
    send_raw_transaction send_raw_transaction_by_bytes proc_resp_single_bytes_array
    proc_resp_single_bytes
unchanged = refl

abbrev sent_raw :
    Called credentials handler_map chain codecs words (serving registered) (serving registered)
sent_raw =
    message transaction_send_raw handle_send_raw raw_transaction outcome found handled unchanged

-- A block for which the monitor does nothing of its own, and shows the notification.
no_update : Bytes → ℕ → List (MonitorCall counter)
no_update _ m = []

taken :
    ecall_block credentials handler_map chain no_update calls (λ b. b) [] (serving registered)
    ≡ some (sgx_success, serving registered)
unfolding ecall_block deref recv_block append_block ecall no_update
taken = refl

abbrev block_told :
    Called credentials handler_map chain codecs words (serving registered) (serving told)
block_told =
    block no_update calls (λ b. b) [] sgx_success (serving registered) (manager registered) told
      taken refl (next here notification) refl

abbrev served : Calls credentials handler_map chain codecs words (serving new) (serving told)
served =
    call (call (call (call start (by_thread deployment)) (by_thread registration)) sent_raw)
      block_told

calls-Reach_example :
    (n : ManagerState chain) × ((serving told).mgr ≡ some n)
    × (r : Reach slots words write new n.system) × ((addr : Bytes)
        → (notified slots words write r addr
            ≡ calls_notified credentials handler_map chain codecs words served addr)
          × (get_past_events n.system.world.store addr
              ≡ calls_notified credentials handler_map chain codecs words served addr))
    × ((p : Bytes)
        → get_event_mgr_addr n.system.world.store p
          ≡ addr_among p (calls_registered credentials handler_map chain codecs words served))
unfolding make_manager new_mgr
calls-Reach_example =
    calls-Reach credentials handler_map chain codecs words calls args (manager new) (serving new)
      (serving told) served refl refl ((((tt, tt), tt), tt), tt)

served_addr :
    addr_among publisher (calls_registered credentials handler_map chain codecs words served)
    ≡ ev_mgr
unfolding calls_registered call_registered addr_among step_registered registration_of bytes_eq boot
    run_callback deploy_event_handler abi_address_to_address address_to_abi_address new_store
    build_reg_event_descr notification registrations
served_addr = refl

served-known :
    addr_among publisher (calls_registered credentials handler_map chain codecs words served)
    ≢ zero_addr
served-known e = apart (sym served_addr ∙ e)
  where
    apart : ev_mgr ≢ zero_addr
    apart e = cc

-- A subscription to the publisher, whose socket takes the answer.
abbrev subscription : Message
subscription = record { socket = 7; content = publisher; accepted = ok tt; net = node 6 }

subscribe-notified_example :
    let addr =
      addr_among publisher (calls_registered credentials handler_map chain codecs words served) in
    (o : Outcome State (Unit {0})) × (q : ManagerState chain) × (handle credentials handler_map
        chain codecs handle_pubsub_sub_req subscription
        (serving told)
      ≡ some o)
    × ((after o).mgr ≡ some q)
    × (((subscription.accepted ≡ ok tt)
          × (q.system.world.sockets
              ≡ push_back subscription.socket
                  (build_emitted_msg write
                    (view_of chain codecs (manager told))
                    (calls_notified credentials handler_map chain codecs words served addr))
                  told.world.sockets))
        ⊎ ((e : Error) × (subscription.accepted ≡ err e)
            × (q.system.world.sockets ≡ told.world.sockets)))
unfolding make_manager new_mgr publisher_of
subscribe-notified_example =
    subscribe-notified credentials handler_map chain codecs words calls args (manager new)
      (manager told) (serving new) (serving told) served subscription publisher refl refl
      ((((tt, tt), tt), tt), tt) refl refl served-known
