-- ===== src/Pubsub/Service.antt =====
-- include/DecentEthereum/Trusted/Pubsub/SubscriberService.hpp: the store of publishers and past
-- events, and the handlers that fill it. Log output is left out.
use decent_ethereum.Base.{
  ℕ, true, false, [], ◌∷◌, ◌++◌, none, some, Bytes, Exec, lift, modify, ◌>>=◌, ◌>>◌, lookup, insert,
  emplace, replicate, drop, if◌then◌else◌,
}
use decent_ethereum.External.{
  HeaderMgr, ReceiptLogEntry, EventDescription, deploy, reg, notify_past, EventManager, AbiParser,
}
use decent_ethereum.World.{EventData, EventDataQueue, PubsubServiceStore, World}

-- The constructor; `keccak256` is `EclipseMonitor::Eth::Keccak256`.
unfoldable pub new_store : (Bytes → Bytes) → Bytes → Bytes → Bytes → Bytes → PubsubServiceStore
new_store keccak256 pubsub_cont_addr deploy_ev_sign reg_ev_sign notify_ev_sign = record {
  pubsub_cont_addr = pubsub_cont_addr;
  deploy_ev_topic = keccak256 deploy_ev_sign;
  reg_ev_topic = keccak256 reg_ev_sign;
  notify_ev_topic = keccak256 notify_ev_sign;
  is_deployed = false;
  ev_mgr_addr_map = [];
  past_event_store = [];
}

-- `ContractAddr()`: twenty zero bytes, the answer for an unknown publisher.
abbrev pub zero_addr : Bytes
zero_addr = replicate 20 0

unfoldable pub get_event_mgr_addr : PubsubServiceStore → Bytes → Bytes
get_event_mgr_addr s publisher = elim (lookup publisher s.ev_mgr_addr_map) [
  | none ↦ zero_addr
  | some addr ↦ addr
]

unfoldable pub get_notify_event_topic : PubsubServiceStore → Bytes
get_notify_event_topic s = s.notify_ev_topic

unfoldable pub get_past_events : PubsubServiceStore → Bytes → EventDataQueue
get_past_events s ev_mgr_addr = elim (lookup ev_mgr_addr s.past_event_store) [
  | none ↦ []
  | some queue ↦ queue
]

-- `EventData({number, message})`
abbrev pub event_data : HeaderMgr → Bytes → EventData
event_data hdr msg = hdr.raw_number ∷ msg ∷ []

-- An address as a 32-byte word: twelve zero bytes in front.
unfoldable pub address_to_abi_address : Bytes → Bytes
address_to_abi_address addr = replicate 12 0 ++ addr

-- The copy behind `begin() + 12`, back to an address.
unfoldable pub abi_address_to_address : Bytes → Bytes
abi_address_to_address word = drop 12 word

unfoldable pub build_notify_past_event_descr : Bytes → PubsubServiceStore → EventDescription
build_notify_past_event_descr ev_mgr_addr s = record {
  contract_addr = ev_mgr_addr;
  topics = s.notify_ev_topic ∷ [];
  callback = notify_past;
}

unfoldable pub build_reg_event_descr : PubsubServiceStore → EventDescription
build_reg_event_descr s = record {
  contract_addr = s.pubsub_cont_addr;
  topics = s.reg_ev_topic ∷ [];
  callback = reg;
}

unfoldable pub build_deploy_event_descr : PubsubServiceStore → EventDescription
unfolding address_to_abi_address
build_deploy_event_descr s = record {
  contract_addr = s.pubsub_cont_addr;
  topics = s.deploy_ev_topic ∷ address_to_abi_address s.pubsub_cont_addr ∷ [];
  callback = deploy;
}

-- Appends to the queue of an event manager, if it has one; an unknown one is only logged.
unfoldable pub save_past_event : Bytes → EventData → PubsubServiceStore → PubsubServiceStore
save_past_event ev_mgr_id event s = elim (lookup ev_mgr_id s.past_event_store) [
  | none ↦ s
  | some queue ↦ record s {
    past_event_store = insert ev_mgr_id (queue ++ event ∷ []) s.past_event_store;
  }
]

-- The two maps after a registration.
unfoldable pub save_registration : Bytes → Bytes → PubsubServiceStore → PubsubServiceStore
save_registration pub_addr ev_mgr_addr s = record s {
  ev_mgr_addr_map = insert pub_addr ev_mgr_addr s.ev_mgr_addr_map;
  past_event_store = emplace ev_mgr_addr [] s.past_event_store;
}

abbrev pub on_store : {M : Type 0} → (PubsubServiceStore → PubsubServiceStore) → World M → World M
on_store f w = record w { store = f w.store }

module _ (em : EventManager) where
  open em use {State, listen, cancel}

  -- `Listen`, the id dropped.
  unfoldable pub listen_in : EventDescription → World State → World State
  listen_in d w = record w { event_mgr = (listen d w.event_mgr).0 }

  unfoldable pub cancel_in : ℕ → World State → World State
  cancel_in i w = record w { event_mgr = cancel i w.event_mgr }

  -- `Start`, on the event manager that the monitor owns.
  unfoldable pub start : World State → World State
  unfolding listen_in
  start w = listen_in (build_deploy_event_descr w.store) w

  unfoldable pub notify_past_event_handler :
      AbiParser → HeaderMgr → ReceiptLogEntry → Exec (World State) (Unit {0})
  notify_past_event_handler abi hdr log = do
    (msg, _) ← lift (abi.to_bytes log.log_data)
    modify (on_store (save_past_event log.contract_addr (event_data hdr msg)))

  -- `if (eventMgr) eventMgr->Listen(...)`
  unfoldable pub listen_if_alive :
      (PubsubServiceStore → EventDescription) → World State → World State
  unfolding listen_in
  listen_if_alive build w = if w.mgr_alive then listen_in (build w.store) w else w

  unfoldable pub reg_event_handler :
      AbiParser → HeaderMgr → ReceiptLogEntry → Exec (World State) (Unit {0})
  unfolding listen_if_alive
  reg_event_handler abi hdr log = do
    (pub_addr_abi, rest) ← lift (abi.to_bytes32 log.log_data)
    (ev_mgr_addr_abi, _) ← lift (abi.to_bytes32 rest)
    let pub_addr = abi_address_to_address pub_addr_abi
    let ev_mgr_addr = abi_address_to_address ev_mgr_addr_abi
    modify (on_store (save_registration pub_addr ev_mgr_addr))
    modify (listen_if_alive (build_notify_past_event_descr ev_mgr_addr))

  unfoldable pub deploy_event_handler : HeaderMgr → ℕ → Exec (World State) (Unit {0})
  unfolding cancel_in listen_in
  deploy_event_handler hdr cb_id = do
    modify (on_store (λ s. record s { is_deployed = true }))
    modify (λ w.
        if w.mgr_alive then listen_in (build_reg_event_descr w.store) (cancel_in cb_id w) else w)
