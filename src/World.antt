-- ===== src/World.antt =====
-- The state that the enclave's threads share (include/DecentEthereum/Trusted): the event manager,
-- the publish-subscribe store behind `m_svcStore`, and the queues that closures hold by pointer.
use decent_ethereum.Base.{ℕ, Bool, Bytes, List, ◌++◌, [], ◌∷◌, Map, Heap}

-- `EventData`: the block number and the message, in a list of byte strings.
abbrev pub EventData : Type 0
EventData = List Bytes

abbrev pub EventDataQueue : Type 0
EventDataQueue = List EventData

-- `SubscriberService::PubsubServiceStore`. A queue of `past_event_store` is reached through this
-- map alone, so it stands in it by value.
pub record PubsubServiceStore : Type 0 where
  pub pubsub_cont_addr : Bytes
  pub deploy_ev_topic : Bytes
  pub reg_ev_topic : Bytes
  pub notify_ev_topic : Bytes
  pub is_deployed : Bool
  pub ev_mgr_addr_map : Map Bytes
  pub past_event_store : Map EventDataQueue

-- An entry of `ReceiptQueue`: the block number, the topics and the data of a log.
pub record ReceiptItem : Type 0 where
  pub block_number : Bytes
  pub topics : List Bytes
  pub log_data : Bytes

-- A closure given to `HeartbeatEmitterMgr::AddEmitter`: what it captures.
pub data EmitterKind : Type 0 where
  events receipts : EmitterKind

pub record Emitter : Type 0 where
  pub kind : EmitterKind
  pub socket : ℕ
  pub queue : ℕ
  pub listen_id : ℕ

-- `mgr_alive`: the event manager still has an owner, so that `weakEventMgr.lock()` succeeds.
-- `sockets` holds the messages that each socket has sent.
pub record World (M : Type 0) : Type 0 where
  pub event_mgr : M
  pub mgr_alive : Bool
  pub store : PubsubServiceStore
  pub event_queues : Heap EventData
  pub receipt_queues : Heap ReceiptItem
  pub sockets : Heap Bytes
  pub emitters : List Emitter

-- `AddEmitter`
abbrev pub add_emitter : {M : Type 0} → Emitter → World M → World M
add_emitter e w = record w { emitters = w.emitters ++ e ∷ [] }
