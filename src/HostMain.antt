-- ===== src/HostMain.antt =====
-- The host's `main` in src/Untrusted/Main.cpp, up to the enclave's creation, and the loop of
-- src/Untrusted/RunUntilSignal.hpp that it ends in.
pub mod Process
pub mod Started
pub mod Served
use decent_ethereum.Base.{
  ℕ, zero, suc, ◌+◌, ◌<◌, ◌≡◌, ◌≢◌, sym, ap, subst, ◌∙◌, String, List, [], ◌∷◌, ◌++◌, Option, none,
  some, Bytes, Result, ok, err, and_then, and_then-eq-ok, bad_length, length, ◌==◌, ==_iff, ==_ne,
  if◌then◌else◌, if_true, if_false, arith,
}
use decent_ethereum.Geth.Text.{codes}
use decent_ethereum.Geth.Libraries.{HexLib}

-- `argc` and `argv[1]`: the configuration's path, or `none`, for `return -1`.
unfoldable pub config_path : List Bytes → Option Bytes
config_path (self ∷ []) = some (codes "../../src/components_config.json")
config_path (self ∷ path ∷ []) = some path
config_path _ = none

-- The values of the components configuration that `main` reads.
pub record Config : Type 0 where
  pub protocol : Bytes
  pub host : Bytes
  pub port : Bytes
  pub sync_addr_hex : Bytes
  pub pubsub_addr_hex : Bytes
  pub start_block : ℕ

-- What goes to `HostBlockService::Create`, and to the enclave's constructor.
pub record EnclaveArgs : Type 0 where
  pub geth_url : Bytes
  pub sync_addr : Bytes
  pub pubsub_addr : Bytes
  pub start_block : ℕ

-- The size of a `ContractAddr`.
abbrev pub addr_size : ℕ
addr_size = 20

module _ (hex : HexLib) where
  -- A contract's address in the configuration has to have the size of one.
  unfoldable pub addr_bytes : Bytes → Result Bytes
  addr_bytes addr_hex =
      and_then (hex.decode addr_hex)
        λ bytes. if length bytes == addr_size then ok bytes else err bad_length

  -- `stack` is what memory holds where `syncAddr` is declared: it is not initialised, and its
  -- decoded bytes are only measured. Those of `pubsubAddr` are copied.
  unfoldable pub read_config : Bytes → Config → Result EnclaveArgs
  unfolding addr_bytes
  read_config stack config = and_then (addr_bytes config.sync_addr_hex) λ sync_addr_bytes.
      and_then (addr_bytes config.pubsub_addr_hex) λ pubsub_addr_bytes. ok (record {
        geth_url = config.protocol ++ codes "://" ++ config.host ++ codes ":" ++ config.port;
        sync_addr = stack;
        pubsub_addr = pubsub_addr_bytes;
        start_block = config.start_block;
      })

  -- An address that is read is the decoded text, and has its size.
  pub addr_bytes-ok :
      (addr_hex bytes : Bytes)
      → addr_bytes addr_hex ≡ ok bytes
      → (hex.decode addr_hex ≡ ok bytes) × (length bytes ≡ addr_size)
  unfolding addr_bytes
  addr_bytes-ok addr_hex bytes h =
      let (b, e, f) = and_then-eq-ok (hex.decode addr_hex) _ h in sized b e f
    where
      sized :
          (b : Bytes)
          → hex.decode addr_hex ≡ ok b
          → (if length b == addr_size then ok b else err bad_length) ≡ ok bytes
          → (hex.decode addr_hex ≡ ok bytes) × (length bytes ≡ addr_size)
      sized b e f = ground arith

  -- If the host accepts a configuration, both contract addresses in it are hex of 20 bytes, and the
  -- enclave is created with the publish-subscribe address and the start block of the configuration,
  -- but with what memory held in place of the synchronisation address.
  pub read_config-ok :
      (stack : Bytes) (config : Config) (args : EnclaveArgs)
      → read_config stack config ≡ ok args
      → (sync_addr_bytes : Bytes) × (hex.decode config.sync_addr_hex ≡ ok sync_addr_bytes)
        × (length sync_addr_bytes ≡ addr_size)
        × (args.sync_addr ≡ stack)
        × (hex.decode config.pubsub_addr_hex ≡ ok args.pubsub_addr)
        × (length args.pubsub_addr ≡ addr_size)
        × (args.start_block ≡ config.start_block)
  unfolding read_config
  read_config-ok stack config args h =
      let (s, e, f) = and_then-eq-ok (addr_bytes config.sync_addr_hex) _ h in
      let (p, e', f') = and_then-eq-ok (addr_bytes config.pubsub_addr_hex) _ f in
      let (d, l) = addr_bytes-ok config.sync_addr_hex s e in
      let (d', l') = addr_bytes-ok config.pubsub_addr_hex p e' in
      let (a, b, c, t) = given p f' d' l' in (s, d, l, a, b, c, t)
    where
      given :
          (p : Bytes)
          → ok (record {
            geth_url = config.protocol ++ codes "://" ++ config.host ++ codes ":" ++ config.port;
            sync_addr = stack;
            pubsub_addr = p;
            start_block = config.start_block;
          })
            ≡ ok args
          → hex.decode config.pubsub_addr_hex ≡ ok p
          → length p ≡ addr_size
          → (args.sync_addr ≡ stack)
            × (hex.decode config.pubsub_addr_hex ≡ ok args.pubsub_addr)
            × (length args.pubsub_addr ≡ addr_size)
            × (args.start_block ≡ config.start_block)
      given p f d l =
          let q = ap value f in
          (
            sym (ap (λ (a : EnclaveArgs). a.sync_addr) q),
            d ∙ ap (λ (a : EnclaveArgs). ok a.pubsub_addr) q,
            sym (ap (λ (a : EnclaveArgs). length a.pubsub_addr) q) ∙ l,
            sym (ap (λ (a : EnclaveArgs). a.start_block) q),
          )
        where
          value : Result EnclaveArgs → EnclaveArgs
          value (ok a) = a
          value (err e) = args

abbrev sigint : ℕ
sigint = 2

abbrev sigterm : ℕ
sigterm = 15

unfoldable pub get_signal_name : ℕ → String
get_signal_name sig =
    if sig == sigint then "SIGINT" else if sig == sigterm then "SIGTERM" else "Unknown"

-- `RunUntilSignal`: `sig` is the value of `g_sigVal` at each test of the loop. `none`: the fuel,
-- the number of tests allowed, ran out.
unfoldable pub run_until_signal : {S : Type 0} → (S → S) → (ℕ → ℕ) → ℕ → ℕ → S → Option S
run_until_signal func sig zero round s = none
run_until_signal func sig (suc fuel) round s =
    let rest = run_until_signal func sig fuel (suc round) (func s) in
    if sig round == 0 then rest else some s

abbrev pub iterate : {S : Type 0} → (S → S) → ℕ → S → S
iterate f zero s = s
iterate f (suc n) s = iterate f n (f s)

-- If the first signal is seen at the test after n runs, the loop ends, having run its function
-- exactly n times, with any fuel above n.
pub run_until_signal-iterate :
    {S : Type 0} (func : S → S) (sig : ℕ → ℕ) (fuel n round : ℕ) (s : S)
    → n < fuel
    → ((i : ℕ) → i < n → sig (round + i) ≡ 0)
    → sig (round + n) ≢ 0
    → run_until_signal func sig fuel round s ≡ some (iterate func n s)
unfolding run_until_signal
run_until_signal-iterate func sig zero n round s enough quiet seen = absurd (omega arith)
run_until_signal-iterate func sig (suc fuel) zero round s enough quiet seen =
    if_false _ _ (==_ne (sig round) 0 (subst (λ k. sig k ≢ 0) (omega arith) seen))
run_until_signal-iterate func sig (suc fuel) (suc n) round s enough quiet seen =
    if_true _ _
      ((==_iff (sig round) 0).1 (subst (λ k. sig k ≡ 0) (omega arith) (quiet 0 (omega arith))))
    ∙ run_until_signal-iterate func sig fuel n (suc round) (func s) (omega arith)
        (λ i h. subst (λ k. sig k ≡ 0) (omega arith) (quiet (suc i) (omega arith)))
        (subst (λ k. sig k ≢ 0) (omega arith) seen)
