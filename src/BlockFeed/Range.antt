-- ===== src/BlockFeed/Range.antt =====
-- Blocks pushed by number, one after the other: the loop of
-- tests/geth-decent-throughput-eval/Untrusted/Main.cpp.
use decent_ethereum.Base.{
  arith, true, ◌<◌, ◌+◌, ℕ, zero, suc, ◌≡◌, refl, sym, ap, ◌∙◌, inl, inr, Bool-cases, List, [], ◌∷◌,
  ◌++◌, append-nil, append_assoc, Bytes, Result, ok, err, Result-cases, Exec, Outcome, done, thrown,
  receiver_unavailable, lift, ◌>>◌, bind-done, bind-thrown, if_true, if_false,
}
use decent_ethereum.Geth.Libraries.{JsonLib, HexLib}
use decent_ethereum.Geth.Requests.{get_header_rlp_by_num}
use decent_ethereum.BlockFeed.Service.{
  HostBlockService, Round, push_block, push_block_by_num, hand_over_block,
}
use decent_ethereum.BlockFeed.Chain.{segment, IsHonest}

module _ (json : JsonLib) (hex : HexLib) where
  -- The `n` blocks from `num` on; the world of every call is the same.
  unfoldable pub push_range : Round → ℕ → ℕ → Exec HostBlockService (Unit {0})
  push_range r num zero s = done tt s
  push_range r num (suc n) s =
      let rest = push_range r (suc num) n in (push_block_by_num json hex r num >> rest) s

  -- The service after it handed over some headers.
  abbrev with_received : HostBlockService → List Bytes → HostBlockService
  with_received s headers = record s { received = s.received ++ headers }

  end_of : Outcome HostBlockService (Unit {0}) → HostBlockService
  end_of (done u t) = t
  end_of (thrown e t) = t

  taken :
      (s t : HostBlockService) (u : Unit {0}) (header : Bytes) (a : Result (Unit {0}))
      → hand_over_block a header s ≡ done u t
      → t ≡ with_received s (header ∷ [])
  unfolding hand_over_block end_of
  taken s t u header (ok v) k = sym (ap end_of k)
  taken s t u header (err e) k = cc

  -- The header that the service handed over, if it did.
  push_block_by_num-done :
      (chain : ℕ → Bytes) (r : Round) (num : ℕ) (s t : HostBlockService) (u : Unit {0})
      → IsHonest json hex chain r
      → push_block_by_num json hex r num s ≡ done u t
      → t ≡ record s { received = s.received ++ chain num ∷ [] }
  unfolding push_block_by_num push_block
  push_block_by_num-done chain r num s t u honest h =
      elim (Result-cases (get_header_rlp_by_num json hex r.net num)) [
        | inl (e, f) ↦ cc (
          bind-thrown (lift (get_header_rlp_by_num json hex r.net num)) (push_block r)
              (ap (λ a. lift a s) f),
          h,
        )
        | inr (header, f) ↦ pushed header (honest num header f) (
            sym (
              bind-done (lift (get_header_rlp_by_num json hex r.net num)) (push_block r)
                (ap (λ a. lift a s) f))
            ∙ h)
      ]
    where
      pushed :
          (header : Bytes)
          → header ≡ chain num
          → push_block r header s ≡ done u t
          → t ≡ record s { received = s.received ++ chain num ∷ [] }
      pushed header e k = elim (Bool-cases s.has_receiver) [
        | inl b ↦
            taken s t u header (r.recv_block header) (sym (if_true _ _ b) ∙ k)
            ∙ ap (λ hd. with_received s (hd ∷ [])) e
        | inr b ↦ cc (
          if_false (hand_over_block (r.recv_block header) header s) (thrown receiver_unavailable s)
              b,
          k,
        )
      ]

  pushed_first :
      (chain : ℕ → Bytes) (r : Round) (num n : ℕ) (s t : HostBlockService)
      → IsHonest json hex chain r
      → ((s' : HostBlockService)
          → push_range r (suc num) n s' ≡ done tt t
          → t ≡ with_received s' (segment chain (suc num) n))
      → (push_block_by_num json hex r num >> push_range r (suc num) n) s ≡ done tt t
      → t ≡ with_received s (segment chain num (suc n))
  pushed_first chain r num n s t honest ih h = go (push_block_by_num json hex r num s) refl
    where
      first : Exec HostBlockService (Unit {0})
      first = push_block_by_num json hex r num

      rest : Exec HostBlockService (Unit {0})
      rest = push_range r (suc num) n

      go :
          (o : Outcome HostBlockService (Unit {0}))
          → first s ≡ o
          → t ≡ with_received s (segment chain num (suc n))
      go (done u s') e =
          ih s' (sym (bind-done first (λ _. rest) e) ∙ h)
          ∙ (ap (λ (q : HostBlockService). with_received q (segment chain (suc num) n))
                (push_block_by_num-done chain r num s s' u honest e)
              ∙ ap (λ l. record s { received = l })
                  (append_assoc s.received (chain num ∷ []) (segment chain (suc num) n)))
      go (thrown x s') e = cc (bind-thrown first (λ _. rest) e, h)

  -- If the headers that the node gives are those of one chain, and pushing a range of blocks by
  -- number ends without an exception, then the receiver has got exactly the blocks of the range, in
  -- order.
  pub push_range-segment :
      (chain : ℕ → Bytes) (r : Round) (num n : ℕ) (s t : HostBlockService)
      → IsHonest json hex chain r
      → push_range r num n s ≡ done tt t
      → t ≡ record s { received = s.received ++ segment chain num n }
  unfolding push_range end_of
  push_range-segment chain r num zero s t honest h =
      sym (ap end_of h) ∙ ap (λ l. record s { received = l }) (sym (append-nil s.received))
  push_range-segment chain r num (suc n) s t honest h =
      pushed_first chain r num n s t honest
        (λ s'. push_range-segment chain r (suc num) n s' t honest) h

  push_block_by_num-taken :
      (chain : ℕ → Bytes) (r : Round) (num : ℕ) (s : HostBlockService)
      → s.has_receiver ≡ true
      → get_header_rlp_by_num json hex r.net num ≡ ok (chain num)
      → r.recv_block (chain num) ≡ ok tt
      → push_block_by_num json hex r num s ≡ done tt (with_received s (chain num ∷ []))
  unfolding push_block_by_num push_block hand_over_block
  push_block_by_num-taken chain r num s b h k =
      bind-done (lift (get_header_rlp_by_num json hex r.net num)) (push_block r)
        (ap (λ a. lift a s) h)
      ∙ (if_true _ _ b ∙ ap (λ a. hand_over_block a (chain num) s) k)

  -- If a receiver is bound and takes every header, and the node gives the headers of a chain up to
  -- the end of the range, then pushing a range of blocks by number ends without an exception, and
  -- the receiver has got exactly the blocks of the range, in order; the current block number stays.
  pub push_range-done :
      (chain : ℕ → Bytes) (r : Round) (num n : ℕ) (s : HostBlockService)
      → s.has_receiver ≡ true
      → ((i : ℕ) → i < num + n → get_header_rlp_by_num json hex r.net i ≡ ok (chain i))
      → ((header : Bytes) → r.recv_block header ≡ ok tt)
      → push_range r num n s ≡ done tt (record s { received = s.received ++ segment chain num n })
  unfolding push_range
  push_range-done chain r num zero s b has accepts =
      ap (λ l. done tt (record s { received = l })) (sym (append-nil s.received))
  push_range-done chain r num (suc n) s b has accepts =
      bind-done (push_block_by_num json hex r num) (λ _. push_range r (suc num) n)
        (push_block_by_num-taken chain r num s b (has num (omega arith)) (accepts (chain num)))
      ∙ (push_range-done chain r (suc num) n (with_received s (chain num ∷ [])) b
            (λ i lt. has i (omega arith)) accepts
          ∙ ap (λ l. done tt (record s { received = l }))
              (append_assoc s.received (chain num ∷ []) (segment chain (suc num) n)))
