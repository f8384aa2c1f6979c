-- ===== src/Enclave/Serving.antt =====
-- The calls of an enclave that has been started, and what they tell the store.
use decent_ethereum.Base.{List, [], ◌++◌, Bytes}
use decent_ethereum.External.{AbiParser}
use decent_ethereum.World.{EventDataQueue}
use decent_ethereum.History.{step_notified, notified}
use decent_ethereum.History.Registrations.{Registered, step_registered, registrations}
use decent_ethereum.Enclave.{Credentials, HandlerMgr, Chain}
use decent_ethereum.Enclave.Init.{EnclaveState}
use decent_ethereum.Enclave.Calls.{Codecs}
use decent_ethereum.Enclave.Ready.{Called, init_call, block, message, thread, Calls, start, call}

module _ (cr : Credentials) (hm : HandlerMgr) (ch : Chain) (co : Codecs) (abi : AbiParser) where
  abbrev State : Type 0
  State = EnclaveState cr hm ch

  -- A call of an enclave that serves: any but `ecall_decent_ethereum_init`.
  abbrev pub IsServing : {y z : State} → Called cr hm ch co abi y z → Type 0
  IsServing (init_call calls b e) = ⊥
  IsServing (block update calls hex hdr_rlp status u n system e f r g) = Unit {0}
  IsServing (message name h msg o f g e) = Unit {0}
  IsServing (thread m system e st f) = Unit {0}

  abbrev pub AllServing : {y z : State} → Calls cr hm ch co abi y z → Type 0
  AllServing start = Unit {0}
  AllServing (call r c) = AllServing r × IsServing c

  unfoldable pub call_notified : {y z : State} → Called cr hm ch co abi y z → Bytes → EventDataQueue
  call_notified (init_call calls b e) addr = []
  call_notified (block update calls hex hdr_rlp status u n system e f r g) addr =
      notified ch.events abi co.write r addr
  call_notified (message name h msg o f g e) addr = []
  call_notified (thread m system e st f) addr = step_notified ch.events abi co.write st addr

  -- The notifications of one event manager that were shown to the store, oldest first.
  unfoldable pub calls_notified : {y z : State} → Calls cr hm ch co abi y z → Bytes → EventDataQueue
  unfolding call_notified
  calls_notified start addr = []
  calls_notified (call r c) addr = calls_notified r addr ++ call_notified c addr

  unfoldable pub call_registered : {y z : State} → Called cr hm ch co abi y z → List Registered
  call_registered (init_call calls b e) = []
  call_registered (block update calls hex hdr_rlp status u n system e f r g) =
      registrations ch.events abi co.write r
  call_registered (message name h msg o f g e) = []
  call_registered (thread m system e st f) = step_registered ch.events abi co.write st

  -- The registrations that were shown to the store, newest first.
  unfoldable pub calls_registered : {y z : State} → Calls cr hm ch co abi y z → List Registered
  unfolding call_registered
  calls_registered start = []
  calls_registered (call r c) = call_registered c ++ calls_registered r
