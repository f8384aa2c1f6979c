-- ===== src/BlockFeed/Tasks.antt =====
-- include/DecentEthereum/Untrusted/HostBlockServiceTasks.hpp, and `StartSendingBlocks` of
-- src/Untrusted/Main.cpp.
use decent_ethereum.Base.{
  ℕ, ◌+◌, ◌-◌, ◌*◌, ◌^◌, ◌≡◌, Bool, true, false, not, List, [], ◌∷◌, ◌++◌, Exec, done, thrown,
  modify, ◌>>=◌, service_unavailable, already_started, ◌==◌, if◌then◌else◌,
}
use decent_ethereum.Geth.Libraries.{JsonLib, HexLib}
use decent_ethereum.BlockFeed.Service.{
  HostBlockService, Round, u64, set_upd_svc_start_block, try_push_new_block,
}

-- The tick interval of `SimpleConcurrency::Threading::TickingTask`.
pub record TickingTask : Type 1 where
  pub State : Type 0
  pub is_tick_interval_enabled : State → Bool
  pub disable_tick_interval : State → State
  pub set_interval : ℕ → ℕ → State → State
  pub enabled-disable : (t : State) → is_tick_interval_enabled (disable_tick_interval t) ≡ false
  pub enabled-set :
      (upd every : ℕ) (t : State) → is_tick_interval_enabled (set_interval upd every t) ≡ true

abbrev pub task_upd_interval_mli_sec : ℕ
task_upd_interval_mli_sec = 200

-- `BlockUpdatorServiceTask`. `has_service`: `m_blockUpdator.lock()` succeeds.
pub record Updator (T : Type 0) : Type 0 where
  pub ticking : T
  pub has_service : Bool
  pub retry_interval_mil_sec : ℕ
  pub service : HostBlockService

module _ (tt_lib : TickingTask) where
  open tt_lib use {State, is_tick_interval_enabled, disable_tick_interval, set_interval}

  -- The interval after a try that pushed a block, or did not.
  unfoldable pub next_interval : Bool → ℕ → State → State
  next_interval true retry t = if is_tick_interval_enabled t then disable_tick_interval t else t
  next_interval false retry t =
      if is_tick_interval_enabled t then t else set_interval task_upd_interval_mli_sec retry t

  -- `try_push_new_block` on the service that the task refers to.
  abbrev pub on_service : {A : Type 0} → Exec HostBlockService A → Exec (Updator State) A
  on_service m u = elim (m u.service) [
    | done a s ↦ done a (record u { service = s })
    | thrown e s ↦ thrown e (record u { service = s })
  ]

  unfoldable pub updator_tick : JsonLib → HexLib → Round → Exec (Updator State) (Unit {0})
  unfolding next_interval
  updator_tick json hex r u =
      if u.has_service
      then (do
        pushed ← on_service (try_push_new_block json hex r)
        modify
            (λ v. record v { ticking = next_interval pushed v.retry_interval_mil_sec v.ticking }))
          u
      else thrown service_unavailable u

-- `HostBlockStatusLogTask`: `report` holds the block number and the difference of each log line.
-- The rate is that difference over the interval, in floating point, and is left out.
pub record StatusLog : Type 0 where
  pub has_service : Bool
  pub last_block_num : ℕ
  pub report : List (ℕ × ℕ)

-- `size_t` subtraction wraps.
unfoldable pub sub64 : ℕ → ℕ → ℕ
sub64 a b = u64 (a + 2 ^ 64 - b)

unfoldable pub status_tick : HostBlockService → Exec StatusLog (Unit {0})
unfolding sub64
status_tick service t =
    if t.has_service
    then (let curr = service.curr_block_num in
        done tt (record t {
          report = t.report ++ (curr, sub64 curr t.last_block_num) ∷ [];
          last_block_num = curr;
        }))
    else thrown service_unavailable t

-- A task of the thread pool, with its interval in milliseconds.
pub data Task : Type 0 where
  status_log block_updator heartbeat_emitter : ℕ → Task
  asio_service : Task

-- The host block service, and the tasks of the thread pool.
pub record Host : Type 0 where
  pub service : HostBlockService
  pub tasks : List Task

unfoldable pub start_sending_blocks : ℕ → Exec Host (Unit {0})
start_sending_blocks start_block_num h =
    if not (h.service.curr_block_num == 0)
    then thrown already_started h
    else done tt (record {
      service = set_upd_svc_start_block start_block_num h.service;
      tasks = h.tasks ++ status_log (10 * 1000) ∷ block_updator (1 * 1000) ∷ [];
    })
