-- ===== src/BlockFeed/Service.antt =====
-- include/DecentEthereum/Untrusted/HostBlockService.hpp
use decent_ethereum.Base.{
  ℕ, ◌+◌, ◌%◌, ◌^◌, Bool, true, false, List, [], ◌∷◌, ◌++◌, Option, none, some, Bytes, Result, ok,
  err, Exec, done, thrown, lift, modify, pure, ◌>>=◌, ◌>>◌, and_then, receiver_unavailable, ltb,
  if◌then◌else◌,
}
use decent_ethereum.Geth.Text.{codes}
use decent_ethereum.Geth.Libraries.{JsonLib, HexLib, Network}
use decent_ethereum.Geth.Requests.{
  get_header_rlp_by_param, get_header_rlp_by_num, get_receipts_rlp_by_num,
  send_raw_transaction_by_bytes, get_block_number,
}

-- `has_receiver`: `m_blockReceiver.lock()` succeeds. `received` is what the receiver has taken.
pub record HostBlockService : Type 0 where
  pub curr_block_num : ℕ
  pub has_receiver : Bool
  pub received : List Bytes

-- `m_currBlockNum` is a `uint64_t`.
abbrev pub u64 : ℕ → ℕ
u64 n = n % 2 ^ 64

unfoldable pub create : HostBlockService
create = record { curr_block_num = 0; has_receiver = false; received = [] }

unfoldable pub set_upd_svc_start_block : ℕ → HostBlockService → HostBlockService
set_upd_svc_start_block num s = record s { curr_block_num = num }

-- The receiver of before, if any, is let go.
unfoldable pub bind_receiver : HostBlockService → HostBlockService
bind_receiver s = record s { has_receiver = true; received = [] }

-- The world of one call: what the node answers, and whether the receiver takes a header.
pub record Round : Type 0 where
  pub net : Network
  pub recv_block : Bytes → Result (Unit {0})

-- `RecvBlock` of the receiver: it takes the header, or throws.
unfoldable pub hand_over_block : Result (Unit {0}) → Bytes → Exec HostBlockService (Unit {0})
hand_over_block (ok u) header_rlp s =
    done tt (record s { received = s.received ++ header_rlp ∷ [] })
hand_over_block (err e) header_rlp s = thrown e s

unfoldable pub push_block : Round → Bytes → Exec HostBlockService (Unit {0})
unfolding hand_over_block
push_block r header_rlp s =
    if s.has_receiver
    then hand_over_block (r.recv_block header_rlp) header_rlp s
    else thrown receiver_unavailable s

module _ (json : JsonLib) (hex : HexLib) where
  unfoldable pub push_block_by_num : Round → ℕ → Exec HostBlockService (Unit {0})
  unfolding push_block
  push_block_by_num r num = do
    header_rlp ← lift (get_header_rlp_by_num json hex r.net num)
    push_block r header_rlp

  -- The body of the `try`: `none` where the node has not yet reached the block.
  unfoldable pub fetch : Round → ℕ → Result (Option Bytes)
  fetch r num = and_then (get_block_number json hex r.net) λ latest.
      if ltb latest num
      then ok none
      else and_then (get_header_rlp_by_num json hex r.net num) λ header_rlp. ok (some header_rlp)

  unfoldable pub push_fetched : Round → Result (Option Bytes) → Exec HostBlockService Bool
  push_fetched r (err e) = pure false
  push_fetched r (ok none) = pure false
  push_fetched r (ok (some header_rlp)) = do
    push_block r header_rlp
    modify (λ s. record s { curr_block_num = u64 (s.curr_block_num + 1) })
    pure true

  unfoldable pub try_push_new_block : Round → Exec HostBlockService Bool
  unfolding push_fetched
  try_push_new_block r s = push_fetched r (fetch r s.curr_block_num) s

  -- `parse_number` is `EthHeaderParser().Parse(...).get_Number()`.
  unfoldable pub get_latest_block_num : (Bytes → Result Bytes) → Network → Result ℕ
  get_latest_block_num parse_number net =
      and_then (get_header_rlp_by_param json hex net (codes "latest"))
        λ header_rlp. and_then (parse_number header_rlp) hex.from_bytes

  unfoldable pub receipts_rlp_by_num : Network → ℕ → Result (List Bytes)
  receipts_rlp_by_num net num = get_receipts_rlp_by_num json hex net num

  unfoldable pub send_raw_transaction : Network → Bytes → Result Bytes
  send_raw_transaction net bytes = send_raw_transaction_by_bytes json hex net bytes
