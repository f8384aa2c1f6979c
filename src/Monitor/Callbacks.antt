-- ===== src/Monitor/Callbacks.antt =====
-- The state of `BlockchainMgr`, its constructor, and its callbacks.
use decent_ethereum.Base.{
  ℕ, ◌%◌, String, Bool, true, List, [], ◌∷◌, ◌++◌, none, some, Bytes, Result, ok, err, done, thrown,
  Exec, lift, modify, get, ◌>>=◌, ◌>>◌, ◌==◌, if◌then◌else◌,
}
use decent_ethereum.External.{HeaderMgr}
use decent_ethereum.Monitor.{
  Phase, bootstrap_i, bootstrap_ii, sync, runtime, HostCalls, EclipseMonitor,
}

-- A line of the status log.
pub record Status : Type 0 where
  pub phase : String
  pub genesis_hash : Bytes
  pub checkpoint_hash : Bytes
  pub checkpoint_iter : ℕ

pub record BlockchainMgr (M : Type 0) : Type 0 where
  pub monitor : M
  pub last_chkpt_iter : ℕ
  pub last_validated_blk_num : Bytes
  pub status_log : List Status

-- The text of a phase, as the source has it.
unfoldable pub phase_str : Phase → String
phase_str bootstrap_i = "BootstrapII"
phase_str bootstrap_ii = "BootstrapII"
phase_str sync = "Sync"
phase_str runtime = "Runtime"

-- `logStatus` at a new checkpoint iteration.
unfoldable pub log_status_in_phase : Phase → ℕ → Bool
log_status_in_phase bootstrap_i chkpt_iter = chkpt_iter % 3 == 0
log_status_in_phase bootstrap_ii chkpt_iter = true
log_status_in_phase sync chkpt_iter = true
log_status_in_phase runtime chkpt_iter = true

module _ (em : EclipseMonitor) where
  open em use {
    State, get_phase, get_bootstrap_i_end_blk_num, refresh_bootstrap_plan, get_monitor_sec_state,
    check_events,
  }

  -- The constructor, on the monitor `m` that it makes.
  unfoldable pub new_mgr : HostCalls → ℕ → State → Result (BlockchainMgr State)
  new_mgr calls start_block_num m = elim calls.get_latest_block_num [
    | err e ↦ err e
    | ok latest ↦ ok (record {
      monitor = refresh_bootstrap_plan latest (some start_block_num) m;
      last_chkpt_iter = 0;
      last_validated_blk_num = [];
      status_log = [];
    })
  ]

  unfoldable pub refresh : HostCalls → Exec (BlockchainMgr State) (Unit {0})
  refresh calls = do
    latest ← lift calls.get_latest_block_num
    modify (λ s. record s { monitor = refresh_bootstrap_plan latest none s.monitor })

  -- The `switch` of `OnHeaderValidated`.
  unfoldable pub refresh_in_phase :
      Phase → HostCalls → HeaderMgr → Exec (BlockchainMgr State) (Unit {0})
  refresh_in_phase bootstrap_i calls hdr s =
      if hdr.number == get_bootstrap_i_end_blk_num s.monitor then refresh calls s else done tt s
  refresh_in_phase bootstrap_ii calls hdr s = refresh calls s
  refresh_in_phase sync calls hdr s = done tt s
  refresh_in_phase runtime calls hdr s = done tt s

  unfoldable pub run_check_events : HostCalls → HeaderMgr → Exec (BlockchainMgr State) (Unit {0})
  run_check_events calls hdr s = elim (check_events hdr calls.get_receipts_rlp_by_num s.monitor) [
    | done u m ↦ done u (record s { monitor = m })
    | thrown e m ↦ thrown e (record s { monitor = m })
  ]

  unfoldable pub on_header_validated : HostCalls → HeaderMgr → Exec (BlockchainMgr State) (Unit {0})
  on_header_validated calls hdr = do
    modify (λ s. record s { last_validated_blk_num = hdr.raw_number })
    run_check_events calls hdr
    phase ← get (λ s. get_phase s.monitor)
    refresh_in_phase phase calls hdr

  -- `hex` is `SimpleObjects::Codec::Hex::Encode`.
  unfoldable pub status_line : (Bytes → Bytes) → State → Status
  unfolding phase_str
  status_line hex m = record {
    phase = phase_str (get_phase m);
    genesis_hash = hex (get_monitor_sec_state m).genesis_hash;
    checkpoint_hash = hex (get_monitor_sec_state m).checkpoint_hash;
    checkpoint_iter = (get_monitor_sec_state m).checkpoint_iter;
  }

  unfoldable pub log_monitor_status : (Bytes → Bytes) → BlockchainMgr State → BlockchainMgr State
  unfolding status_line
  log_monitor_status hex s = record s {
    status_log = s.status_log ++ status_line hex s.monitor ∷ [];
  }

  unfoldable pub on_header_confirmed :
      (Bytes → Bytes) → HeaderMgr → BlockchainMgr State → BlockchainMgr State
  on_header_confirmed hex hdr s =
      let chkpt_iter = (get_monitor_sec_state s.monitor).checkpoint_iter in
      if s.last_chkpt_iter == chkpt_iter
      then s
      else (let t = record s { last_chkpt_iter = chkpt_iter } in
          if log_status_in_phase (get_phase s.monitor) chkpt_iter
          then log_monitor_status hex t
          else t)

  -- What the monitor does while `Update` takes a header: it changes its own state, and calls back.
  pub data MonitorCall : Type 0 where
    moved : (State → State) → MonitorCall
    validated confirmed : HeaderMgr → MonitorCall

  -- `AppendBlock`, by the calls that `Update` makes in order; it stops at an exception.
  unfoldable pub append_block :
      HostCalls → (Bytes → Bytes) → List MonitorCall → Exec (BlockchainMgr State) (Unit {0})
  append_block calls hex [] s = done tt s
  append_block calls hex (moved f ∷ cs) s =
      append_block calls hex cs (record s { monitor = f s.monitor })
  append_block calls hex (validated hdr ∷ cs) s =
      let rest = append_block calls hex cs in (on_header_validated calls hdr >> rest) s
  append_block calls hex (confirmed hdr ∷ cs) s =
      append_block calls hex cs (on_header_confirmed hex hdr s)
