-- ===== src/Boundary/Ecalls.antt =====
-- What the host asks of the enclave: `RecvBlock` and `ecall_decent_ethereum_recv_block` of
-- src/Trusted/Enclave.cpp, and `DecentEthereumEnclave::RecvBlock`, the host's block receiver.
use decent_ethereum.Base.{
  ◌≡◌, refl, List, Bytes, Result, ok, err, Outcome, done, thrown, after, sgx_error,
}
use decent_ethereum.Monitor.{HostCalls, EclipseMonitor}
use decent_ethereum.Monitor.Callbacks.{BlockchainMgr, MonitorCall, append_block}
use decent_ethereum.Monitor.Runs.{last_number, append_block-last_number}
use decent_ethereum.Boundary.Ocalls.{SgxStatus, sgx_success, sgx_error_unexpected, check_error}

-- The `try` of an ecall: the status, and the enclave's state, which stays changed.
unfoldable pub ecall : {S : Type 0} → Outcome S (Unit {0}) → SgxStatus × S
ecall (done u s) = (sgx_success, s)
ecall (thrown e s) = (sgx_error_unexpected, s)

-- The exception at the host, as `check_error` makes it of the status.
abbrev pub ends_as : {S : Type 0} → Outcome S (Unit {0}) → Result (Unit {0})
ends_as (done u s) = ok tt
ends_as (thrown e s) = err sgx_error

pub ecall-ends_as :
    {S : Type 0} (o : Outcome S (Unit {0}))
    → (check_error (ecall o).0 ≡ ends_as o) × ((ecall o).1 ≡ after o)
unfolding ecall
ecall-ends_as (done u s) = (refl, refl)
ecall-ends_as (thrown e s) = (refl, refl)

-- `update` is `EclipseMonitor::Update`: what it does with a header, in order.
module _ (em : EclipseMonitor) (update : Bytes → em.State → List (MonitorCall em)) where
  -- `RecvBlock`: `AppendBlock` of the one blockchain manager.
  unfoldable pub recv_block :
      HostCalls
      → (Bytes → Bytes)
      → Bytes
      → BlockchainMgr em.State
      → Outcome (BlockchainMgr em.State) (Unit {0})
  recv_block calls hex hdr_rlp s = append_block em calls hex (update hdr_rlp s.monitor) s

  unfoldable pub ecall_recv_block :
      HostCalls
      → (Bytes → Bytes)
      → Bytes
      → BlockchainMgr em.State
      → SgxStatus × BlockchainMgr em.State
  ecall_recv_block calls hex hdr_rlp s = ecall (recv_block calls hex hdr_rlp s)

  -- `DecentEthereumEnclave::RecvBlock`.
  unfoldable pub enclave_recv_block :
      HostCalls
      → (Bytes → Bytes)
      → Bytes
      → BlockchainMgr em.State
      → Result (Unit {0}) × BlockchainMgr em.State
  enclave_recv_block calls hex hdr_rlp s =
      let (status, t) = ecall_recv_block calls hex hdr_rlp s in (check_error status, t)

  module _ (calls : HostCalls) (hex : Bytes → Bytes) where
    accepted :
        (o : Outcome (BlockchainMgr em.State) (Unit {0}))
        → check_error (ecall o).0 ≡ ok tt
        → o ≡ done tt (ecall o).1
    unfolding ecall
    accepted (done u s) h = refl
    accepted (thrown e s) h = cc

    -- Where the host's `RecvBlock` returns without an exception, `AppendBlock` ran to the end in
    -- the enclave, and the number that subscribers are then told is that of the last header that
    -- the monitor validated, or the one of before if it validated none.
    pub enclave_recv_block-ok :
        (hdr_rlp : Bytes) (s : BlockchainMgr em.State)
        → (enclave_recv_block calls hex hdr_rlp s).0 ≡ ok tt
        → let t = (enclave_recv_block calls hex hdr_rlp s).1 in
          (append_block em calls hex (update hdr_rlp s.monitor) s ≡ done tt t)
          × (t.last_validated_blk_num
              ≡ last_number em calls hex s.last_validated_blk_num (update hdr_rlp s.monitor))
    unfolding enclave_recv_block ecall_recv_block recv_block
    enclave_recv_block-ok hdr_rlp s h =
        let e = accepted (append_block em calls hex (update hdr_rlp s.monitor) s) h in
        (e, append_block-last_number em calls hex (update hdr_rlp s.monitor) s _ e)
