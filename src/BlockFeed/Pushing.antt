-- ===== src/BlockFeed/Pushing.antt =====
-- `TryPushNewBlock`: what one try does, and the sequence of blocks that a run of tries pushes.
use decent_ethereum.Base.{
  ℕ, ◌+◌, ◌≤◌, ◌≡◌, refl, ap, ◌∙◌, inl, inr, Bool, true, false, Bool-cases, [], ◌∷◌, ◌++◌, Option,
  none, some, Bytes, Result, ok, err, Result-cases, and_then-eq-ok, Outcome, done, thrown,
  bind-done, bind-thrown, Error, receiver_unavailable, ltb, ltb→le, if_true, if_false,
}
use decent_ethereum.Geth.Libraries.{JsonLib, HexLib}
use decent_ethereum.Geth.Requests.{get_header_rlp_by_num, get_block_number}
use decent_ethereum.BlockFeed.Service.{
  HostBlockService, Round, u64, hand_over_block, push_block, fetch, push_fetched,
  try_push_new_block,
}

-- The state after a push of the next block.
abbrev pub pushed : Bytes → HostBlockService → HostBlockService
pushed header s = record {
  curr_block_num = u64 (s.curr_block_num + 1);
  has_receiver = s.has_receiver;
  received = s.received ++ header ∷ [];
}

push_block_taken :
    (r : Round) (s : HostBlockService) (header : Bytes)
    → s.has_receiver ≡ true
    → r.recv_block header ≡ ok tt
    → push_block r header s ≡ done tt (record s { received = s.received ++ header ∷ [] })
unfolding push_block
push_block_taken r s header b h = if_true _ _ b ∙ ap (λ a. hand_over_block a header s) h

push_block_refused :
    (r : Round) (s : HostBlockService) (header : Bytes) (e : Error)
    → s.has_receiver ≡ true
    → r.recv_block header ≡ err e
    → push_block r header s ≡ thrown e s
unfolding push_block
push_block_refused r s header e b h = if_true _ _ b ∙ ap (λ a. hand_over_block a header s) h

push_block_unbound :
    (r : Round) (s : HostBlockService) (header : Bytes)
    → s.has_receiver ≡ false
    → push_block r header s ≡ thrown receiver_unavailable s
unfolding push_block
push_block_unbound r s header b = if_false _ _ b

module _ (json : JsonLib) (hex : HexLib) where
  -- The node is at the block or past it, gave its header, and the receiver took it.
  pub record CanPush (r : Round) (s : HostBlockService) (header : Bytes) : Type 0 where
    pub latest : ℕ
    pub reported : get_block_number json hex r.net ≡ ok latest
    pub reached : s.curr_block_num ≤ latest
    pub fetched : get_header_rlp_by_num json hex r.net s.curr_block_num ≡ ok header
    pub bound : s.has_receiver ≡ true
    pub taken : r.recv_block header ≡ ok tt

  -- The cases of a try: the block was pushed and the count advanced, or nothing changed at all,
  -- with `false` or an exception.
  pub data Tried (r : Round) (s : HostBlockService) (o : Outcome HostBlockService Bool)
      : Type 0 where
    success : (header : Bytes) → CanPush r s header → o ≡ done true (pushed header s) → Tried r s o
    retry : o ≡ done false s → Tried r s o
    failure : (e : Error) → o ≡ thrown e s → Tried r s o

  fetch-some :
      (r : Round) (num : ℕ) (header : Bytes)
      → fetch json hex r num ≡ ok (some header)
      → (latest : ℕ) × (get_block_number json hex r.net ≡ ok latest)
        × (num ≤ latest)
        × (get_header_rlp_by_num json hex r.net num ≡ ok header)
  unfolding fetch
  fetch-some r num header h =
      let (latest, e, f) = and_then-eq-ok (get_block_number json hex r.net) _ h in
      (elim (Bool-cases (ltb latest num)) [
        | inl b ↦ cc (rw b at f)
        | inr b ↦
            let (hd, g, k) =
              and_then-eq-ok (get_header_rlp_by_num json hex r.net num) _ (rw b at f) in
            (latest, e, ltb→le latest num b, cc)
      ])

  pub push_taken :
      (r : Round) (s : HostBlockService) (header : Bytes)
      → s.has_receiver ≡ true
      → r.recv_block header ≡ ok tt
      → push_fetched json hex r (ok (some header)) s ≡ done true (pushed header s)
  unfolding push_fetched
  push_taken r s header b h = bind-done (push_block r header) _ (push_block_taken r s header b h)

  push_thrown :
      (r : Round) (s : HostBlockService) (header : Bytes) (e : Error)
      → push_block r header s ≡ thrown e s
      → push_fetched json hex r (ok (some header)) s ≡ thrown e s
  unfolding push_fetched
  push_thrown r s header e h = bind-thrown (push_block r header) _ h

  push_fetched-Tried :
      (r : Round) (s : HostBlockService) (f : Result (Option Bytes))
      → fetch json hex r s.curr_block_num ≡ f
      → Tried r s (push_fetched json hex r f s)
  unfolding push_fetched
  push_fetched-Tried r s (err e) h = retry refl
  push_fetched-Tried r s (ok none) h = retry refl
  push_fetched-Tried r s (ok (some header)) h = elim (Bool-cases s.has_receiver) [
    | inr b ↦
        failure receiver_unavailable (push_thrown r s header _ (push_block_unbound r s header b))
    | inl b ↦ elim (Result-cases (r.recv_block header)) [
      | inl (e, t) ↦ failure e (push_thrown r s header e (push_block_refused r s header e b t))
      | inr (u, t) ↦
          let (latest, rep, rch, fet) = fetch-some r s.curr_block_num header h in
          success header
            (record {
              latest = latest;
              reported = rep;
              reached = rch;
              fetched = fet;
              bound = b;
              taken = t;
            })
            (push_taken r s header b t)
    ]
  ]

  -- `TryPushNewBlock` has three ends: it returns true, after the node reported a latest block at or
  -- past the current one and gave its header, and the bound receiver took it, and then the number
  -- is one up modulo 2^64; or it returns false with the state unchanged; or it throws with the
  -- state unchanged.
  pub try_push_new_block-Tried :
      (r : Round) (s : HostBlockService) → Tried r s (try_push_new_block json hex r s)
  unfolding try_push_new_block
  try_push_new_block-Tried r s = push_fetched-Tried r s (fetch json hex r s.curr_block_num) refl
