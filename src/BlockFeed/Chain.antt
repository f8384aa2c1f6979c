-- ===== src/BlockFeed/Chain.antt =====
-- A run of tries against a node that follows one chain: the receiver gets consecutive blocks.
use decent_ethereum.Base.{
  ℕ, zero, suc, ◌+◌, ◌^◌, ◌≤◌, ◌<◌, ◌≡◌, refl, sym, ap, ◌∙◌, Bool, true, List, [], ◌∷◌, ◌++◌,
  append-nil, append_assoc, Bytes, ok, some, and_then, Outcome, done, after, le→ltb, length, All,
  arith, if_false,
}
use decent_ethereum.Geth.Libraries.{JsonLib, HexLib}
use decent_ethereum.Geth.Requests.{get_header_rlp_by_num, get_block_number}
use decent_ethereum.BlockFeed.Service.{
  HostBlockService, Round, u64, fetch, push_fetched, try_push_new_block,
}
use decent_ethereum.BlockFeed.Pushing.{
  pushed, Tried, success, retry, failure, try_push_new_block-Tried, push_taken,
}

-- The headers of `n` blocks from number `a` on.
abbrev pub segment : (ℕ → Bytes) → ℕ → ℕ → List Bytes
segment chain a zero = []
segment chain a (suc n) = chain a ∷ segment chain (suc a) n

module _ (json : JsonLib) (hex : HexLib) where
  -- One try in each round, the exception of a failed one dropped.
  pub run_tries : List Round → HostBlockService → HostBlockService
  run_tries [] s = s
  run_tries (r ∷ rs) s = run_tries rs (after (try_push_new_block json hex r s))

  -- The headers that the node gives in this round are those of the chain.
  abbrev pub IsHonest : (ℕ → Bytes) → Round → Type 0
  IsHonest chain r =
      (num : ℕ) (header : Bytes)
      → get_header_rlp_by_num json hex r.net num ≡ ok header
      → header ≡ chain num

  -- The receiver has the blocks from number `a` on, `n` of them more than in `s`.
  abbrev pub Fed : (ℕ → Bytes) → HostBlockService → HostBlockService → ℕ → Type 0
  Fed chain s t n =
      (t.curr_block_num ≡ s.curr_block_num + n)
      × (t.received ≡ s.received ++ segment chain s.curr_block_num n)

  Fed-pushed :
      (chain : ℕ → Bytes) (s t : HostBlockService) (n : ℕ) (header : Bytes)
      → header ≡ chain s.curr_block_num
      → s.curr_block_num + 1 < 2 ^ 64
      → Fed chain (pushed header s) t n
      → Fed chain s t (suc n)
  Fed-pushed chain s t n header e lt (c, v) =
      let next : u64 (s.curr_block_num + 1) ≡ suc s.curr_block_num = omega arith in
      (
        rw next at c ∙ omega arith,
        (rw (next, e) at v) ∙ append_assoc s.received (chain s.curr_block_num ∷ []) _,
      )

  Tried-Fed :
      (chain : ℕ → Bytes) (r : Round) (rs : List Round) (s : HostBlockService)
      (o : Outcome HostBlockService Bool)
      → Tried json hex r s o
      → IsHonest chain r
      → s.curr_block_num + suc (length rs) < 2 ^ 64
      → ((u : HostBlockService)
          → u.curr_block_num + length rs < 2 ^ 64
          → (n : ℕ) × (n ≤ length rs) × Fed chain u (run_tries rs u) n)
      → (n : ℕ) × (n ≤ suc (length rs)) × Fed chain s (run_tries rs (after o)) n
  Tried-Fed chain r rs s o (success header c e) honest lt ih =
      let (n, le, fed) = ih (pushed header s) (omega arith) in
      (
        suc n,
        omega arith,
        rw e (
            Fed-pushed chain s (run_tries rs (pushed header s)) n header
              (honest s.curr_block_num header c.fetched) (omega arith) fed),
      )
  Tried-Fed chain r rs s o (retry e) honest lt ih =
      let (n, le, fed) = ih s (omega arith) in (n, omega arith, rw e fed)
  Tried-Fed chain r rs s o (failure x e) honest lt ih =
      let (n, le, fed) = ih s (omega arith) in (n, omega arith, rw e fed)

  -- Let the headers that the node gives in each round be those of one chain, and let the block
  -- number stay below 2^64. Then a run of tries, whatever fails in its rounds, hands over a list of
  -- consecutive blocks of that chain from the current block on, at most one for each round, none
  -- left out or sent twice, and the current block number goes up by their number.
  pub run_tries-Fed :
      (chain : ℕ → Bytes) (rs : List Round) (s : HostBlockService)
      → All (IsHonest chain) rs
      → s.curr_block_num + length rs < 2 ^ 64
      → (n : ℕ) × (n ≤ length rs) × Fed chain s (run_tries rs s) n
  unfolding run_tries
  run_tries-Fed chain [] s h lt = (0, omega arith, (omega arith, sym (append-nil s.received)))
  run_tries-Fed chain (r ∷ rs) s h lt =
      Tried-Fed chain r rs s _ (try_push_new_block-Tried json hex r s) h.0 lt
        (λ u lt'. run_tries-Fed chain rs u h.1 lt')

  -- A round in which the node has the chain up to `tip`, and the receiver takes what it is given.
  pub record Serves (chain : ℕ → Bytes) (tip : ℕ) (r : Round) : Type 0 where
    pub latest : ℕ
    pub reported : get_block_number json hex r.net ≡ ok latest
    pub reached : tip ≤ latest
    pub has_header :
        (num : ℕ) → num ≤ tip → get_header_rlp_by_num json hex r.net num ≡ ok (chain num)
    pub accepts : (header : Bytes) → r.recv_block header ≡ ok tt

  fetch-Serves :
      (chain : ℕ → Bytes) (tip num : ℕ) (r : Round)
      → Serves chain tip r
      → num ≤ tip
      → fetch json hex r num ≡ ok (some (chain num))
  unfolding fetch
  fetch-Serves chain tip num r v le =
      rw (v.reported, fetch)
        (if_false _ _ (le→ltb v.latest num (omega (arith, v.reached)))
          ∙ ap (λ a. and_then a (λ header. ok (some header))) (v.has_header num le))

  try-Serves :
      (chain : ℕ → Bytes) (tip : ℕ) (r : Round) (s : HostBlockService)
      → Serves chain tip r
      → s.has_receiver ≡ true
      → s.curr_block_num ≤ tip
      → try_push_new_block json hex r s ≡ done true (pushed (chain s.curr_block_num) s)
  unfolding try_push_new_block
  try-Serves chain tip r s v b le =
      ap (λ f. push_fetched json hex r f s) (fetch-Serves chain tip s.curr_block_num r v le)
      ∙ push_taken json hex r s (chain s.curr_block_num) b (v.accepts (chain s.curr_block_num))

  -- While the node has the chain up to a tip, reports at least that tip as its latest block, and
  -- the bound receiver takes what it is given, a run of tries that does not go past the tip pushes
  -- one block for each round, in order; the tip is below 2^64 - 1.
  pub run_tries-Serves :
      (chain : ℕ → Bytes) (tip : ℕ) (rs : List Round) (s : HostBlockService)
      → All (Serves chain tip) rs
      → s.has_receiver ≡ true
      → s.curr_block_num + length rs ≤ suc tip
      → suc tip < 2 ^ 64
      → Fed chain s (run_tries rs s) (length rs)
  unfolding run_tries
  run_tries-Serves chain tip [] s v b le lt = (omega arith, sym (append-nil s.received))
  run_tries-Serves chain tip (r ∷ rs) s v b le lt =
      rw (try-Serves chain tip r s v.0 b (omega arith), run_tries)
        (Fed-pushed chain s (run_tries rs (pushed (chain s.curr_block_num) s)) (length rs)
          (chain s.curr_block_num) refl (omega arith)
          (run_tries-Serves chain tip rs (pushed (chain s.curr_block_num) s) v.1 b (omega arith)
            lt))
