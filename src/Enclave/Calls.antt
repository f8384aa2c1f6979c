-- ===== src/Enclave/Calls.antt =====
-- What enters the enclave: `ecall_decent_ethereum_init` and `ecall_decent_ethereum_recv_block` of
-- src/Trusted/Enclave.cpp, and the messages that the lambda server gives to the handlers.
use mathlib.Core.Option
use decent_ethereum.Base.{
  ℕ, List, [], ◌∷◌, Option, some, Bytes, Result, ok, Exec, Outcome, done, thrown, lift, pure,
  and_then, take, ◌>>=◌, ◌==◌, if◌then◌else◌,
}
use decent_ethereum.External.{RlpParser}
use decent_ethereum.World.{World}
use decent_ethereum.Pubsub.Handler.{Dict, MonitorView, sub_req}
use decent_ethereum.Receipts.{addr_size, receipt_sub_req}
use decent_ethereum.Geth.Libraries.{JsonLib, HexLib, Network}
use decent_ethereum.Monitor.{HostCalls, MonitorSecState}
use decent_ethereum.Monitor.Callbacks.{BlockchainMgr, MonitorCall}
use decent_ethereum.Boundary.Ocalls.{SgxStatus, send_raw}
use decent_ethereum.Boundary.Ecalls.{ecall, recv_block}
use decent_ethereum.Enclave.{
  Handler, handle_pubsub_sub_req, handle_receipt_sub_req, handle_send_raw, Credentials, HandlerMgr,
  Chain, Manager, Enclave,
}
use decent_ethereum.Enclave.Init.{InitArgs, ManagerState, EnclaveState, init}

-- The codecs of the handlers. `write_sec_state` writes a `MonitorSecState`.
pub record Codecs : Type 1 where
  pub rlp : RlpParser
  pub json : JsonLib
  pub hex : HexLib
  pub write : Dict → Bytes
  pub write_sec_state : MonitorSecState → Bytes

-- `std::string(const char*)`: the bytes before the first zero.
unfoldable pub c_string : Bytes → Bytes
c_string [] = []
c_string (b ∷ bs) = let rest = c_string bs in if b == 0 then [] else b ∷ rest

-- The parameters of the ecall: what its pointers lead to, and the size that is passed.
pub record InitBuffers : Type 0 where
  pub in_conf : Bytes
  pub in_conf_size : ℕ
  pub start_blk_num : ℕ
  pub in_sync_addr : Bytes
  pub in_sync_esign : Bytes
  pub in_pubsub_addr : Bytes

-- A message for a handler: whether the socket takes an answer, and what the node answers.
pub record Message : Type 0 where
  pub socket : ℕ
  pub content : Bytes
  pub accepted : Result (Unit {0})
  pub net : Network

module _ {C H M E A : Type 0} where
  abbrev pub placed_mgr : Enclave C H M E → Outcome (Manager M E) A → Outcome (Enclave C H M E) A
  placed_mgr s (done a x) = done a (record s { mgr = some x })
  placed_mgr s (thrown e x) = thrown e (record s { mgr = some x })

  -- `g_blockchainMgr->...`: `none` is the access through a null pointer.
  unfoldable pub deref :
      Exec (Manager M E) A → Enclave C H M E → Option (Outcome (Enclave C H M E) A)
  deref m s = Option.map (λ mgr. placed_mgr s (m mgr)) s.mgr

module _ {M E A : Type 0} where
  -- A call on one part of the manager.
  abbrev pub placed_world : Manager M E → Outcome (World E) A → Outcome (Manager M E) A
  placed_world s (done a w) = done a (record s { system = record (s.system) { world = w } })
  placed_world s (thrown e w) = thrown e (record s { system = record (s.system) { world = w } })

  abbrev pub on_world : Exec (World E) A → Exec (Manager M E) A
  on_world m s = placed_world s (m s.system.world)

  abbrev pub placed_blocks : Manager M E → Outcome (BlockchainMgr M) A → Outcome (Manager M E) A
  placed_blocks s (done a b) = done a (record s { blocks = b })
  placed_blocks s (thrown e b) = thrown e (record s { blocks = b })

  abbrev pub on_blocks : Exec (BlockchainMgr M) A → Exec (Manager M E) A
  on_blocks m s = placed_blocks s (m s.blocks)

module _ (ch : Chain) (co : Codecs) where
  -- `GetMonitorSecState` and `GetLastValidatedBlkNum`.
  unfoldable pub view_of : ManagerState ch → MonitorView
  view_of m = record {
    sec_state = co.write_sec_state (ch.monitor.get_monitor_sec_state m.blocks.monitor);
    latest_blk_num = m.blocks.last_validated_blk_num;
  }

  unfoldable pub run_handler : Handler → Message → Exec (ManagerState ch) (Unit {0})
  run_handler handle_pubsub_sub_req msg m =
      on_world (sub_req ch.events co.write co.rlp msg.accepted (view_of m) msg.socket msg.content) m
  run_handler handle_receipt_sub_req msg m =
      on_world (receipt_sub_req ch.events co.rlp msg.socket msg.content) m
  run_handler handle_send_raw msg m =
      (lift (send_raw co.json co.hex msg.net msg.content) >>= λ logged. pure tt) m

module _ (cr : Credentials) (hm : HandlerMgr) (ch : Chain) where
  unfoldable pub init_args : InitBuffers → Result (InitArgs ch.Conf)
  init_args b = and_then (ch.parse_conf (take b.in_conf_size b.in_conf)) λ conf. ok (record {
    conf = conf;
    start_blk_num = b.start_blk_num;
    sync_contract_addr = take addr_size b.in_sync_addr;
    sync_event_sign = c_string b.in_sync_esign;
    pubsub_contract_addr = take addr_size b.in_pubsub_addr;
  })

  unfoldable pub ecall_init :
      HostCalls → InitBuffers → EnclaveState cr hm ch → SgxStatus × EnclaveState cr hm ch
  ecall_init calls b s = ecall ((lift (init_args b) >>= init cr hm ch calls) s)

  -- `update` is what the monitor does with a header, as for `RecvBlock`.
  unfoldable pub ecall_block :
      (Bytes → ch.monitor.State → List (MonitorCall ch.monitor))
      → HostCalls
      → (Bytes → Bytes)
      → Bytes
      → EnclaveState cr hm ch
      → Option (SgxStatus × EnclaveState cr hm ch)
  ecall_block update calls hex hdr_rlp s =
      Option.map ecall (deref (on_blocks (recv_block ch.monitor update calls hex hdr_rlp)) s)

  -- `HandlePubsubSubReq`, `HandleReceiptSubReq` and the closure for raw transactions.
  unfoldable pub handle :
      Codecs
      → Handler
      → Message
      → EnclaveState cr hm ch
      → Option (Outcome (EnclaveState cr hm ch) (Unit {0}))
  handle co h msg s = deref (run_handler ch co h msg) s
