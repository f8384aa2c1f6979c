-- ===== src/Tests/Enclave.antt =====
-- A run of the enclave's threads: the deployment, a registration and a notification; then a
-- subscription, a live event and a heartbeat.
use mathlib.Core.List.{Memᴰ}
use decent_ethereum.Base.{ℕ, refl, [], ◌∷◌, Bytes, ok, after, replicate}
use decent_ethereum.External.{
  HeaderMgr, ReceiptLogEntry, Callback, deploy, reg, notify_past, notify,
}
use decent_ethereum.World.{PubsubServiceStore, Emitter, events}
use decent_ethereum.Pubsub.Service.{
  new_store, get_notify_event_topic, build_deploy_event_descr, build_reg_event_descr,
  build_notify_past_event_descr, start, deploy_event_handler, reg_event_handler, save_registration,
  abi_address_to_address, address_to_abi_address,
}
use decent_ethereum.Pubsub.Registration.{registration_data}
use decent_ethereum.Pubsub.Handler.{
  Dict, MonitorView, subscribe_events, respond_events, build_notify_event_descr,
  notify_event_handler,
}
use decent_ethereum.Dispatch.{
  System, Step, Reach, boot, begin_request, run_callback, run_emitter, deliver, beat, answer, here,
  next,
}
use decent_ethereum.Tests.Instances.{slots, Slots, words}

abbrev pub contract : Bytes
contract = replicate 20 1

abbrev pub publisher : Bytes
publisher = replicate 20 2

abbrev pub ev_mgr : Bytes
ev_mgr = replicate 20 3

-- The topics are the signatures themselves.
abbrev pub store : PubsubServiceStore
store = new_store (λ b. b) contract (10 ∷ []) (11 ∷ []) (12 ∷ [])

abbrev pub hdr : HeaderMgr
hdr = record { number = 5; raw_number = 5 ∷ [] }

abbrev pub deploy_log : ReceiptLogEntry
deploy_log = record { contract_addr = contract; topics = []; log_data = [] }

abbrev pub reg_log : ReceiptLogEntry
reg_log = record {
  contract_addr = contract;
  topics = [];
  log_data = registration_data publisher ev_mgr [];
}

abbrev pub event_log : ReceiptLogEntry
event_log = record { contract_addr = ev_mgr; topics = []; log_data = 42 ∷ [] }

abbrev pub view : MonitorView
view = record { sec_state = []; latest_blk_num = 5 ∷ [] }

-- A message is left empty.
abbrev pub write : Dict → Bytes
write d = []

abbrev pub shown : Callback → ℕ → ReceiptLogEntry → System Slots → System Slots
shown c id log y = record y { world = after (run_callback slots words c id hdr log y.world) }

abbrev pub fresh : System Slots
fresh = boot slots [] store

abbrev pub deployed : System Slots
deployed = shown deploy 0 deploy_log fresh

abbrev pub registered : System Slots
registered = shown reg 1 reg_log deployed

abbrev pub notified_once : System Slots
notified_once = shown notify_past 2 event_log registered

abbrev pub deployment : Step slots words write fresh deployed
unfolding boot start build_deploy_event_descr new_store
deployment = deliver 0 (build_deploy_event_descr store) hdr deploy_log refl refl refl refl

abbrev pub registration : Step slots words write deployed registered
unfolding boot run_callback deploy_event_handler build_reg_event_descr new_store
registration =
    deliver 1 (build_reg_event_descr deployed.world.store) hdr reg_log refl refl refl refl

abbrev pub notification : Step slots words write registered notified_once
unfolding boot run_callback deploy_event_handler reg_event_handler build_notify_past_event_descr
    save_registration abi_address_to_address address_to_abi_address
notification =
    deliver 2 (build_notify_past_event_descr ev_mgr registered.world.store) hdr event_log refl refl
      refl refl

abbrev pub past_run : Reach slots words write fresh notified_once
past_run = next (next (next here deployment) registration) notification

abbrev pub asked : System Slots
asked = begin_request slots ev_mgr fresh

abbrev pub event_arrived : System Slots
event_arrived = shown (notify 0) 1 event_log asked

abbrev pub answered : System Slots
answered = record {
  world = after (respond_events slots write (ok tt) view 7 ev_mgr (0, 1) event_arrived.world);
  pending = [];
}

abbrev pub emitter : Emitter
emitter = record { kind = events; socket = 7; queue = 0; listen_id = 1 }

abbrev pub drained : System Slots
drained = record answered {
  world = after (run_emitter slots write (ok tt) view emitter answered.world);
}

abbrev pub arrival : Step slots words write asked event_arrived
unfolding boot begin_request build_notify_event_descr subscribe_events get_notify_event_topic
    new_store
arrival = deliver 1 (build_notify_event_descr ev_mgr (12 ∷ []) 0) hdr event_log refl refl refl refl

abbrev pub answering : Step slots words write event_arrived answered
unfolding boot begin_request subscribe_events
answering =
    answer (ok tt) view 7 (record { ev_mgr_addr = ev_mgr; queue = 0; listen_id = 1 }) [] [] refl
      refl

abbrev pub heartbeat : Step slots words write answered drained
unfolding boot begin_request subscribe_events respond_events run_callback notify_event_handler
heartbeat = beat (ok tt) view emitter (Memᴰ.head refl) refl

abbrev pub live_run : Reach slots words write asked drained
live_run = next (next (next here arrival) answering) heartbeat
