-- ===== src/BlockFeed/Status.antt =====
-- `HostBlockStatusLogTask` and `StartSendingBlocks`.
use decent_ethereum.Base.{
  ℕ, ◌+◌, ◌^◌, ◌≤◌, ◌<◌, ◌≡◌, ◌≢◌, refl, ap, true, not, List, [], ◌∷◌, ◌++◌, done, thrown, after,
  already_started, if_true, if_false, ==_iff, ==_ne, arith,
}
use decent_ethereum.BlockFeed.Service.{HostBlockService, set_upd_svc_start_block}
use decent_ethereum.BlockFeed.Tasks.{
  StatusLog, sub64, status_tick, Host, status_log, block_updator, start_sending_blocks,
}

-- The blocks that the log lines report, in all.
pub total : List (ℕ × ℕ) → ℕ
total [] = 0
total ((num, diff) ∷ lines) = diff + total lines

total-append : (xs ys : List (ℕ × ℕ)) → total (xs ++ ys) ≡ total xs + total ys
unfolding total
total-append [] ys = omega arith
total-append ((num, diff) ∷ xs) ys = omega (arith, total-append xs ys)

-- A tick for each state of the service, in order.
pub run_status : List HostBlockService → StatusLog → StatusLog
run_status [] t = t
run_status (s ∷ ss) t = run_status ss (after (status_tick s t))

-- The block number at the last of these ticks, or `last` if there is none.
pub final : ℕ → List HostBlockService → ℕ
final last [] = last
final last (s ∷ ss) = final s.curr_block_num ss

-- The block number does not fall, and fits in 64 bits.
abbrev pub Rises : ℕ → List HostBlockService → Type 0
Rises last [] = Unit {0}
Rises last (s ∷ ss) =
    (last ≤ s.curr_block_num) × (s.curr_block_num < 2 ^ 64) × Rises s.curr_block_num ss

-- The log task after a tick.
abbrev logged : HostBlockService → StatusLog → StatusLog
logged s t = record t {
  report = t.report ++ (s.curr_block_num, sub64 s.curr_block_num t.last_block_num) ∷ [];
  last_block_num = s.curr_block_num;
}

status_tick-logged :
    (s : HostBlockService) (t : StatusLog)
    → t.has_service ≡ true
    → status_tick s t ≡ done tt (logged s t)
unfolding status_tick
status_tick-logged s t h = if_true _ _ h

total-logged :
    (s : HostBlockService) (t : StatusLog)
    → t.last_block_num ≤ s.curr_block_num
    → s.curr_block_num < 2 ^ 64
    → t.last_block_num + total (logged s t).report ≡ s.curr_block_num + total t.report
unfolding total sub64
total-logged s t le lt = omega (arith, total-append t.report)

-- Over any number of ticks of the status log, while the service lives and its block number does not
-- fall and is below 2^64, the logged differences add up to the difference between the last and the
-- first block number: the wrapping subtraction loses nothing.
pub total-run_status :
    (ss : List HostBlockService) (t : StatusLog)
    → t.has_service ≡ true
    → Rises t.last_block_num ss
    → t.last_block_num + total (run_status ss t).report ≡ final t.last_block_num ss + total t.report
unfolding run_status final
total-run_status [] t h r = refl
total-run_status (s ∷ ss) t h r =
    rw (status_tick-logged s t h, run_status)
      (omega (arith, total-run_status ss (logged s t) h r.2, total-logged s t r.0 r.1))

abbrev started : ℕ → Host → Host
started num h = record {
  service = set_upd_svc_start_block num h.service;
  tasks = h.tasks ++ status_log 10000 ∷ block_updator 1000 ∷ [];
}

start_fresh :
    (num : ℕ) (h : Host)
    → h.service.curr_block_num ≡ 0
    → start_sending_blocks num h ≡ done tt (started num h)
unfolding start_sending_blocks
start_fresh num h z = if_false _ _ (ap not ((==_iff h.service.curr_block_num 0).1 z))

start_refused :
    (num : ℕ) (h : Host)
    → h.service.curr_block_num ≢ 0
    → start_sending_blocks num h ≡ thrown already_started h
unfolding start_sending_blocks
start_refused num h n = if_true _ _ (ap not (==_ne h.service.curr_block_num 0 n))

-- After a start of the block feed on a service at block 0, a second start is refused and changes
-- nothing if the first was at a block other than 0; if it was at block 0, the second start is not
-- refused and adds a second pair of tasks.
pub start_twice :
    (num again : ℕ) (h : Host)
    → h.service.curr_block_num ≡ 0
    → let first = after (start_sending_blocks num h) in
      (num ≢ 0 → start_sending_blocks again first ≡ thrown already_started first)
      × (num ≡ 0
          → (after (start_sending_blocks again first)).tasks
            ≡ first.tasks ++ status_log 10000 ∷ block_updator 1000 ∷ [])
unfolding set_upd_svc_start_block
start_twice num again h z = (
  λ n. rw (start_fresh num h z) (start_refused again (started num h) n),
  λ e. rw (start_fresh num h z) (rw (start_fresh again (started num h) e)),
)
