-- ===== src/Monitor/Confirmed.antt =====
-- What a confirmed header leaves: the recorded checkpoint iteration, and the status log.
use decent_ethereum.Base.{
  ℕ_discrete, ℕ, ◌+◌, ◌*◌, ◌/◌, ◌%◌, ◌≤◌, ◌≡◌, ◌≢◌, refl, sym, ap, ◌∙◌, inl, inr, true, false,
  Bool-cases, [], ◌∷◌, ◌++◌, String, Bytes, ==_iff, ==_ne, if_true, if_false, if◌then◌else◌, arith,
}
use decent_ethereum.External.{HeaderMgr}
use decent_ethereum.Monitor.{Phase, bootstrap_i, bootstrap_ii, sync, runtime, EclipseMonitor}
use decent_ethereum.Monitor.Callbacks.{
  BlockchainMgr, phase_str, status_line, log_status_in_phase, log_monitor_status,
  on_header_confirmed,
}

-- The text of a phase: the two bootstrap phases have the same.
pub data HasText : Phase → String → Type 0 where
  first_bootstrap : HasText bootstrap_i "BootstrapII"
  second_bootstrap : HasText bootstrap_ii "BootstrapII"
  syncing : HasText sync "Sync"
  running : HasText runtime "Runtime"

phase_str-HasText : (p : Phase) → HasText p (phase_str p)
unfolding phase_str
phase_str-HasText bootstrap_i = first_bootstrap
phase_str-HasText bootstrap_ii = second_bootstrap
phase_str-HasText sync = syncing
phase_str-HasText runtime = running

-- Only the first bootstrap phase leaves lines out.
logged_phase :
    (p : Phase) (n : ℕ) → log_status_in_phase p n ≡ true → p ≡ bootstrap_i → (k : ℕ) × (n ≡ 3 * k)
unfolding log_status_in_phase
logged_phase bootstrap_i n h e = (n / 3, thrice ((==_iff (n % 3) 0).0 h))
  where
    thrice : n % 3 ≡ 0 → n ≡ 3 * (n / 3)
    thrice h = omega arith
logged_phase bootstrap_ii n h e = absurd (apart e)
  where
    apart : bootstrap_ii ≢ bootstrap_i
    apart e = cc
logged_phase sync n h e = absurd (apart e)
  where
    apart : sync ≢ bootstrap_i
    apart e = cc
logged_phase runtime n h e = absurd (apart e)
  where
    apart : runtime ≢ bootstrap_i
    apart e = cc

skipped_phase :
    (p : Phase) (n : ℕ)
    → log_status_in_phase p n ≡ false
    → (p ≡ bootstrap_i) × (k r : ℕ) × (n ≡ 3 * k + r) × (1 ≤ r) × (r ≤ 2)
unfolding log_status_in_phase
skipped_phase bootstrap_i n h = (refl, n / 3, n % 3, omega arith, ground arith, omega arith)
skipped_phase bootstrap_ii n h = cc
skipped_phase sync n h = cc
skipped_phase runtime n h = cc

module _ (em : EclipseMonitor) (hex : Bytes → Bytes) where
  open em use {State, get_phase, get_monitor_sec_state}

  -- The ends of a confirmed header: its checkpoint iteration is the recorded one; or it is another,
  -- which is recorded, and in the first bootstrap phase it is no multiple of three; or it is
  -- recorded and a line is added to the status log.
  pub data Confirmed (s t : BlockchainMgr State) : Type 0 where
    unchanged :
        s.last_chkpt_iter ≡ (get_monitor_sec_state s.monitor).checkpoint_iter
        → t ≡ s
        → Confirmed s t
    skipped :
        (k r : ℕ)
        → s.last_chkpt_iter ≢ (get_monitor_sec_state s.monitor).checkpoint_iter
        → get_phase s.monitor ≡ bootstrap_i
        → (get_monitor_sec_state s.monitor).checkpoint_iter ≡ 3 * k + r
        → 1 ≤ r
        → r ≤ 2
        → t ≡ record s { last_chkpt_iter = 3 * k + r }
        → Confirmed s t
    logged :
        (text : String)
        → s.last_chkpt_iter ≢ (get_monitor_sec_state s.monitor).checkpoint_iter
        → (get_phase s.monitor ≡ bootstrap_i
            → (k : ℕ) × ((get_monitor_sec_state s.monitor).checkpoint_iter ≡ 3 * k))
        → HasText (get_phase s.monitor) text
        → t ≡ record s {
          last_chkpt_iter = (get_monitor_sec_state s.monitor).checkpoint_iter;
          status_log =
              s.status_log
              ++ record {
                phase = text;
                genesis_hash = hex (get_monitor_sec_state s.monitor).genesis_hash;
                checkpoint_hash = hex (get_monitor_sec_state s.monitor).checkpoint_hash;
                checkpoint_iter = (get_monitor_sec_state s.monitor).checkpoint_iter;
              }
                ∷ [];
        }
        → Confirmed s t

  abbrev iter_of : BlockchainMgr State → ℕ
  iter_of s = (get_monitor_sec_state s.monitor).checkpoint_iter

  confirmed_same :
      (hdr : HeaderMgr) (s : BlockchainMgr State)
      → s.last_chkpt_iter ≡ iter_of s
      → on_header_confirmed em hex hdr s ≡ s
  unfolding on_header_confirmed
  confirmed_same hdr s e = if_true _ _ ((==_iff _ _).1 e)

  confirmed_new :
      (hdr : HeaderMgr) (s : BlockchainMgr State)
      → s.last_chkpt_iter ≢ iter_of s
      → on_header_confirmed em hex hdr s ≡ (
          let t = record s { last_chkpt_iter = iter_of s } in
          if log_status_in_phase (get_phase s.monitor) (iter_of s)
          then log_monitor_status em hex t
          else t)
  unfolding on_header_confirmed
  confirmed_new hdr s n = if_false _ _ (==_ne _ _ n)

  new-Confirmed :
      (hdr : HeaderMgr) (s : BlockchainMgr State)
      → s.last_chkpt_iter ≢ iter_of s
      → Confirmed s (on_header_confirmed em hex hdr s)
  unfolding log_monitor_status status_line
  new-Confirmed hdr s n =
      elim (Bool-cases (log_status_in_phase (get_phase s.monitor) (iter_of s))) [
        | inl b ↦
            logged (phase_str (get_phase s.monitor)) n (logged_phase _ _ b) (phase_str-HasText _)
              (confirmed_new hdr s n ∙ if_true _ _ b)
        | inr b ↦
            let (first, k, r, e, l, u) = skipped_phase _ _ b in
            skipped k r n first e l u (
              confirmed_new hdr s n
              ∙ (if_false _ _ b ∙ ap (λ i. record s { last_chkpt_iter = i }) e))
      ]

  recorded-Confirmed : (s t : BlockchainMgr State) → Confirmed s t → t.last_chkpt_iter ≡ iter_of t
  recorded-Confirmed s t (unchanged e f) = rw f e
  recorded-Confirmed s t (skipped k r n p e l u f) = rw f (sym e)
  recorded-Confirmed s t (logged text n p h f) = rw f refl

  -- A confirmed header at the checkpoint iteration that is recorded changes nothing. At another
  -- iteration it records that one, and either adds nothing to the status log, in the first
  -- bootstrap phase at an iteration that is not a multiple of three; or adds one line, with the
  -- phase's text, both hashes in hex and the iteration, and then the iteration is a multiple of
  -- three if the phase is the first. Another confirmed header right after it changes nothing.
  pub on_header_confirmed-Confirmed :
      (hdr hdr' : HeaderMgr) (s : BlockchainMgr State)
      → let t = on_header_confirmed em hex hdr s in
        Confirmed s t × (on_header_confirmed em hex hdr' t ≡ t)
  on_header_confirmed-Confirmed hdr hdr' s =
      (ended, confirmed_same hdr' _ (recorded-Confirmed s _ ended))
    where
      ended : Confirmed s (on_header_confirmed em hex hdr s)
      ended = elim (ℕ_discrete s.last_chkpt_iter (iter_of s)) [
        | yes e ↦ unchanged e (confirmed_same hdr s e)
        | no n ↦ new-Confirmed hdr s n
      ]
