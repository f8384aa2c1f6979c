-- ===== src/Enclave/Host.antt =====
-- The constructor of `DecentEthereumEnclave` (src/Untrusted/DecentEthereumEnclave.hpp): what the
-- host's arguments are once the enclave has read them from the ecall's buffers.
use decent_ethereum.Base.{
  ℕ, ◌≡◌, ◌≢◌, Bool, true, not, ◌&&◌, ◌==◌, arith, refl, sym, ap, ◌∙◌, List, [], ◌∷◌, ◌++◌, Bytes,
  Result, ok, err, lift, after, length, take, take-append, append-nil, All, if_false, ==_ne, ◌>>=◌,
}
use decent_ethereum.Receipts.{addr_size}
use decent_ethereum.Monitor.{HostCalls}
use decent_ethereum.Boundary.Ocalls.{check_error}
use decent_ethereum.Boundary.Ecalls.{ecall, ends_as, ecall-ends_as}
use decent_ethereum.Enclave.{Credentials, HandlerMgr, Chain}
use decent_ethereum.Enclave.Init.{InitArgs, EnclaveState, init}
use decent_ethereum.Enclave.Calls.{c_string, InitBuffers, init_args, ecall_init}

-- A text of no zero byte, with the zero that `c_str()` puts behind it.
c_string-append : (text rest : Bytes) → All (λ b. b ≢ 0) text → c_string (text ++ 0 ∷ rest) ≡ text
unfolding c_string
c_string-append [] rest h = refl
c_string-append (b ∷ text) rest h =
    if_false _ _ (==_ne b 0 h.0) ∙ ap (λ t. b ∷ t) (c_string-append text rest h.1)

-- A text without a zero byte, by running over it.
abbrev pub all_nonzero : Bytes → Bool
all_nonzero [] = true
all_nonzero (b ∷ text) = not (b == 0) && all_nonzero text

pub All-all_nonzero : (text : Bytes) → all_nonzero text ≡ true → All (λ b. b ≢ 0) text
All-all_nonzero [] h = tt
All-all_nonzero (b ∷ text) h = ground (arith, All-all_nonzero text)

take_all : {A : Type 0} (n : ℕ) (xs : List A) → length xs ≡ n → take n xs ≡ xs
take_all n xs h =
    ap (λ k. take k xs) (sym h) ∙ (ap (take (length xs)) (sym (append-nil xs)) ∙ take-append xs [])

module _ (cr : Credentials) (hm : HandlerMgr) (ch : Chain) where
  unfoldable pub init_buffers : InitArgs ch.Conf → InitBuffers
  init_buffers a = record {
    in_conf = ch.write_conf a.conf;
    in_conf_size = length (ch.write_conf a.conf);
    start_blk_num = a.start_blk_num;
    in_sync_addr = a.sync_contract_addr;
    in_sync_esign = a.sync_event_sign ++ 0 ∷ [];
    in_pubsub_addr = a.pubsub_contract_addr;
  }

  -- The constructor: `base` is that of the SGX enclave. The enclave's state is kept where it throws.
  unfoldable pub new_enclave :
      Result (Unit {0})
      → HostCalls
      → InitArgs ch.Conf
      → EnclaveState cr hm ch
      → Result (Unit {0}) × EnclaveState cr hm ch
  new_enclave (err e) calls args s = (err e, s)
  new_enclave (ok u) calls args s =
      let (status, t) = ecall_init cr hm ch calls (init_buffers args) s in (check_error status, t)

  init_args-init_buffers :
      (a : InitArgs ch.Conf)
      → length a.sync_contract_addr ≡ addr_size
      → length a.pubsub_contract_addr ≡ addr_size
      → All (λ b. b ≢ 0) a.sync_event_sign
      → init_args cr hm ch (init_buffers a) ≡ ok a
  unfolding init_args init_buffers
  init_args-init_buffers a h k z =
      rw
        (
          take_all _ (ch.write_conf a.conf) refl,
          ch.parse-write_conf a.conf,
          take_all addr_size a.sync_contract_addr h,
          take_all addr_size a.pubsub_contract_addr k,
          c_string-append a.sync_event_sign [] z,
        )
        refl

  -- The host's enclave constructor has the result of `Init` on the host's arguments, an SGX error
  -- for whichever exception, and leaves the enclave's state as `Init` does, if the two addresses
  -- have 20 bytes and the event signature has no zero byte: the configuration is read back as it
  -- was written, and addresses, signature and start block cross the ecall's buffers unchanged. The
  -- SGX enclave itself is created without an exception.
  pub new_enclave-init :
      (calls : HostCalls) (a : InitArgs ch.Conf) (s : EnclaveState cr hm ch)
      → length a.sync_contract_addr ≡ addr_size
      → length a.pubsub_contract_addr ≡ addr_size
      → All (λ b. b ≢ 0) a.sync_event_sign
      → let o = init cr hm ch calls a s in new_enclave (ok tt) calls a s ≡ (ends_as o, after o)
  unfolding new_enclave ecall_init
  new_enclave-init calls a s h k z =
      ap (λ r. let p = ecall ((lift r >>= init cr hm ch calls) s) in (check_error p.0, p.1))
        (init_args-init_buffers a h k z)
      ∙ (let (p, q) = ecall-ends_as (init cr hm ch calls a s) in rw (p, q) refl)
