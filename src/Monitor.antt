-- ===== src/Monitor.antt =====
-- include/DecentEthereum/Trusted/BlockchainMgr.hpp: the callbacks that the eclipse monitor makes
-- while it takes a block, and the status log. The monitor itself is an interface.
pub mod Callbacks
pub mod Laws
pub mod Runs
pub mod Confirmed
use decent_ethereum.Base.{ℕ, Option, Bytes, Result, Outcome}
use decent_ethereum.External.{HeaderMgr}

pub data Phase : Type 0 where
  bootstrap_i bootstrap_ii sync runtime : Phase

pub record MonitorSecState : Type 0 where
  pub genesis_hash : Bytes
  pub checkpoint_hash : Bytes
  pub checkpoint_iter : ℕ

-- What the enclave asks of the host: `Trusted::HostBlockService`.
pub record HostCalls : Type 0 where
  pub get_receipts_rlp_by_num : ℕ → Result Bytes
  pub get_latest_block_num : Result ℕ

-- `EclipseMonitor::Eth::EclipseMonitor`. `check_events` is `GetEventManager()->CheckEvents`: it may
-- ask for receipts, it calls the listeners, and it may throw. `refresh_bootstrap_plan` takes the
-- latest block number, and a start block where the caller gives one.
pub record EclipseMonitor : Type 1 where
  pub State : Type 0
  pub get_phase : State → Phase
  pub get_bootstrap_i_end_blk_num : State → ℕ
  pub refresh_bootstrap_plan : ℕ → Option ℕ → State → State
  pub get_monitor_sec_state : State → MonitorSecState
  pub check_events : HeaderMgr → (ℕ → Result Bytes) → State → Outcome State (Unit {0})
