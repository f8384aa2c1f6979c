-- ===== src/Monitor/Laws.antt =====
-- What the callbacks do on every branch, and over the calls of one or more blocks.
use decent_ethereum.Base.{
  ℕ, ◌≡◌, refl, ap, ◌∙◌, inl, inr, Bool, true, false, Bool-cases, none, ok, err, Result-cases,
  Outcome, done, thrown, after, Error, bind-done, bind-thrown, ◌==◌, if◌then◌else◌, if_true,
  if_false,
}
use decent_ethereum.External.{HeaderMgr}
use decent_ethereum.Monitor.{
  Phase, bootstrap_i, bootstrap_ii, sync, runtime, HostCalls, EclipseMonitor,
}
use decent_ethereum.Monitor.Callbacks.{
  BlockchainMgr, refresh, refresh_in_phase, run_check_events, on_header_validated,
}

-- In the first bootstrap phase the plan is refreshed at its last block only, in the second at every
-- block, and later never.
pub refresh_due : Phase → ℕ → ℕ → Bool
refresh_due bootstrap_i number end_num = number == end_num
refresh_due bootstrap_ii number end_num = true
refresh_due sync number end_num = false
refresh_due runtime number end_num = false

module _ (em : EclipseMonitor) (calls : HostCalls) (hdr : HeaderMgr) where
  open em use {State, get_phase, get_bootstrap_i_end_blk_num, refresh_bootstrap_plan, check_events}

  refresh_ok :
      (s : BlockchainMgr State) (latest : ℕ)
      → calls.get_latest_block_num ≡ ok latest
      → refresh em calls s
        ≡ done tt (record s { monitor = refresh_bootstrap_plan latest none s.monitor })
  unfolding refresh
  refresh_ok s latest h = rw (h, refresh)

  refresh_err :
      (s : BlockchainMgr State) (e : Error)
      → calls.get_latest_block_num ≡ err e
      → refresh em calls s ≡ thrown e s
  unfolding refresh
  refresh_err s e h = rw (h, refresh)

  -- The phase as `refresh_in_phase` reads it.
  abbrev due : Phase → BlockchainMgr State → Bool
  due p s = refresh_due p hdr.number (get_bootstrap_i_end_blk_num s.monitor)

  refresh_in_phase-due :
      (p : Phase) (s : BlockchainMgr State)
      → refresh_in_phase em p calls hdr s ≡ (if due p s then refresh em calls s else done tt s)
  unfolding refresh_in_phase refresh_due
  refresh_in_phase-due bootstrap_i s = refl
  refresh_in_phase-due bootstrap_ii s = refl
  refresh_in_phase-due sync s = refl
  refresh_in_phase-due runtime s = refl

  -- The state after the number is recorded and the events are checked.
  abbrev checked : State → BlockchainMgr State → BlockchainMgr State
  checked m s = record s { monitor = m; last_validated_blk_num = hdr.raw_number }

  recorded : BlockchainMgr State → BlockchainMgr State
  recorded s = record s { last_validated_blk_num = hdr.raw_number }

  events_outcome :
      (s : BlockchainMgr State) (o : Outcome State (Unit {0}))
      → check_events hdr calls.get_receipts_rlp_by_num s.monitor ≡ o
      → run_check_events em calls hdr s ≡ elim o [
        | done u m ↦ done u (record s { monitor = m })
        | thrown e m ↦ thrown e (record s { monitor = m })
      ]
  unfolding run_check_events
  events_outcome s o h = ap put h
    where
      put : Outcome State (Unit {0}) → Outcome (BlockchainMgr State) (Unit {0})
      put o = elim o [
        | done u m ↦ done u (record s { monitor = m })
        | thrown e m ↦ thrown e (record s { monitor = m })
      ]

  validated_done :
      (s : BlockchainMgr State) (m : State)
      → check_events hdr calls.get_receipts_rlp_by_num s.monitor ≡ done tt m
      → on_header_validated em calls hdr s ≡ (
          if due (get_phase m) (checked m s)
          then refresh em calls (checked m s)
          else done tt (checked m s))
  unfolding on_header_validated recorded
  validated_done s m h =
      bind-done (run_check_events em calls hdr) _ (events_outcome (recorded s) (done tt m) h)
      ∙ refresh_in_phase-due (get_phase m) (checked m s)

  validated_thrown :
      (s : BlockchainMgr State) (m : State) (e : Error)
      → check_events hdr calls.get_receipts_rlp_by_num s.monitor ≡ thrown e m
      → on_header_validated em calls hdr s ≡ thrown e (checked m s)
  unfolding on_header_validated recorded
  validated_thrown s m e h =
      bind-thrown (run_check_events em calls hdr) _ (events_outcome (recorded s) (thrown e m) h)

  -- Every way that the callback for a validated header can end. The number is recorded first, so
  -- it stays recorded where a later part throws.
  pub data Validated (s : BlockchainMgr State) (o : Outcome (BlockchainMgr State) (Unit {0}))
      : Type 0 where
    events_failed :
        (m : State) (e : Error)
        → check_events hdr calls.get_receipts_rlp_by_num s.monitor ≡ thrown e m
        → o ≡ thrown e (checked m s)
        → Validated s o
    not_due :
        (m : State)
        → check_events hdr calls.get_receipts_rlp_by_num s.monitor ≡ done tt m
        → due (get_phase m) (checked m s) ≡ false
        → o ≡ done tt (checked m s)
        → Validated s o
    refreshed :
        (m : State) (latest : ℕ)
        → check_events hdr calls.get_receipts_rlp_by_num s.monitor ≡ done tt m
        → due (get_phase m) (checked m s) ≡ true
        → calls.get_latest_block_num ≡ ok latest
        → o ≡ done tt (checked (refresh_bootstrap_plan latest none m) s)
        → Validated s o
    no_latest :
        (m : State) (e : Error)
        → check_events hdr calls.get_receipts_rlp_by_num s.monitor ≡ done tt m
        → due (get_phase m) (checked m s) ≡ true
        → calls.get_latest_block_num ≡ err e
        → o ≡ thrown e (checked m s)
        → Validated s o

  after_events :
      (s : BlockchainMgr State) (m : State)
      → check_events hdr calls.get_receipts_rlp_by_num s.monitor ≡ done tt m
      → Validated s (on_header_validated em calls hdr s)
  after_events s m h = elim (Bool-cases (due (get_phase m) (checked m s))) [
    | inr b ↦ not_due m h b (validated_done s m h ∙ if_false _ _ b)
    | inl b ↦ elim (Result-cases calls.get_latest_block_num) [
      | inl (e, f) ↦
          no_latest m e h b f
            (validated_done s m h ∙ (if_true _ _ b ∙ refresh_err (checked m s) e f))
      | inr (n, f) ↦
          refreshed m n h b f
            (validated_done s m h ∙ (if_true _ _ b ∙ refresh_ok (checked m s) n f))
    ]
  ]

  -- `OnHeaderValidated` has four ends, and in all of them the number of the header is recorded: the
  -- event check threw; or it passed and no refresh is due; or it passed, a refresh is due and the
  -- plan is refreshed to the host's latest block; or the host did not give that block. A refresh is
  -- due in the first bootstrap phase at its last block only, in the second always, and later never,
  -- by the phase after the event check.
  pub on_header_validated-Validated :
      (s : BlockchainMgr State) → Validated s (on_header_validated em calls hdr s)
  on_header_validated-Validated s =
      go (check_events hdr calls.get_receipts_rlp_by_num s.monitor) refl
    where
      go :
          (o : Outcome State (Unit {0}))
          → check_events hdr calls.get_receipts_rlp_by_num s.monitor ≡ o
          → Validated s (on_header_validated em calls hdr s)
      go (done u m) h = after_events s m h
      go (thrown e m) h = events_failed m e h (validated_thrown s m e h)

  pub number_recorded :
      (s : BlockchainMgr State) (o : Outcome (BlockchainMgr State) (Unit {0}))
      → Validated s o
      → (after o).last_validated_blk_num ≡ hdr.raw_number
  number_recorded s o (events_failed m e h p) = rw p
  number_recorded s o (not_due m h d p) = rw p
  number_recorded s o (refreshed m n h d f p) = rw p
  number_recorded s o (no_latest m e h d f p) = rw p
