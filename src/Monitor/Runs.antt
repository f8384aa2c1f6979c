-- ===== src/Monitor/Runs.antt =====
-- The callbacks over the calls of one or more blocks: the last validated number.
use decent_ethereum.Base.{
  ◌≡◌, refl, sym, ap, ◌∙◌, List, [], ◌∷◌, Bytes, Outcome, done, thrown, after, ◌>>◌, bind-done,
  bind-thrown,
}
use decent_ethereum.External.{HeaderMgr}
use decent_ethereum.Monitor.{HostCalls, EclipseMonitor}
use decent_ethereum.Monitor.Callbacks.{
  BlockchainMgr, on_header_validated, on_header_confirmed, MonitorCall, moved, validated, confirmed,
  append_block,
}
use decent_ethereum.Monitor.Confirmed.{unchanged, skipped, logged, on_header_confirmed-Confirmed}
use decent_ethereum.Monitor.Laws.{on_header_validated-Validated, number_recorded}

module _ (em : EclipseMonitor) (calls : HostCalls) (hex : Bytes → Bytes) where
  open em use {State, get_phase, get_monitor_sec_state}

  pub confirmed_number :
      (hdr : HeaderMgr) (s : BlockchainMgr State)
      → (on_header_confirmed em hex hdr s).last_validated_blk_num ≡ s.last_validated_blk_num
  confirmed_number hdr s = elim (on_header_confirmed-Confirmed em hex hdr hdr s).0 [
    | unchanged e f ↦ rw f refl
    | skipped k r n p e l u f ↦ rw f refl
    | logged text n p t f ↦ rw f refl
  ]

  -- The number of the last header that was validated in a list of calls.
  pub last_number : Bytes → List (MonitorCall em) → Bytes
  last_number num [] = num
  last_number num (moved f ∷ cs) = last_number num cs
  last_number num (validated hdr ∷ cs) = last_number hdr.raw_number cs
  last_number num (confirmed hdr ∷ cs) = last_number num cs

  after_validated :
      (cs : List (MonitorCall em)) (hdr : HeaderMgr) (s t : BlockchainMgr State)
      → ((s' : BlockchainMgr State)
          → append_block em calls hex cs s' ≡ done tt t
          → t.last_validated_blk_num ≡ last_number s'.last_validated_blk_num cs)
      → (on_header_validated em calls hdr >> append_block em calls hex cs) s ≡ done tt t
      → t.last_validated_blk_num ≡ last_number hdr.raw_number cs
  after_validated cs hdr s t ih h = go (on_header_validated em calls hdr s) refl
    where
      rest : BlockchainMgr State → Outcome (BlockchainMgr State) (Unit {0})
      rest = append_block em calls hex cs

      number : (after (on_header_validated em calls hdr s)).last_validated_blk_num ≡ hdr.raw_number
      number = number_recorded em calls hdr s _ (on_header_validated-Validated em calls hdr s)

      go :
          (o : Outcome (BlockchainMgr State) (Unit {0}))
          → on_header_validated em calls hdr s ≡ o
          → t.last_validated_blk_num ≡ last_number hdr.raw_number cs
      go (done u s') e =
          ih s' (sym (bind-done (on_header_validated em calls hdr) (λ _. rest) e) ∙ h)
          ∙ ap (λ n. last_number n cs)
              (sym (
                  ap
                    (λ (o : Outcome (BlockchainMgr State) (Unit {0})).
                      (after o).last_validated_blk_num)
                    e)
                ∙ number)
      go (thrown x s') e = cc (bind-thrown (on_header_validated em calls hdr) (λ _. rest) e, h)

  -- Once the calls that the monitor makes for a block are all done without an exception, the last
  -- validated number is that of the last header that was validated among them, or the one of before
  -- if there was none.
  pub append_block-last_number :
      (cs : List (MonitorCall em)) (s t : BlockchainMgr State)
      → append_block em calls hex cs s ≡ done tt t
      → t.last_validated_blk_num ≡ last_number s.last_validated_blk_num cs
  unfolding append_block last_number
  append_block-last_number [] s t h = cc
  append_block-last_number (moved f ∷ cs) s t h =
      append_block-last_number cs (record s { monitor = f s.monitor }) t h
  append_block-last_number (validated hdr ∷ cs) s t h =
      after_validated cs hdr s t (λ s'. append_block-last_number cs s' t) h
  append_block-last_number (confirmed hdr ∷ cs) s t h =
      append_block-last_number cs (on_header_confirmed em hex hdr s) t h
      ∙ ap (λ n. last_number n cs) (confirmed_number hdr s)
