-- ===== src/External.antt =====
-- The parts of EclipseMonitor that the enclave calls, as interfaces: the event manager that keeps
-- the listeners of include/DecentEthereum/Trusted and calls them, the ABI parser, and the RLP and
-- socket calls of the subscription handlers. What they
-- promise is stated as laws; their code is not part of this repository.
use decent_ethereum.Base.{
  String, ℕ, ◌≡◌, ◌≢◌, List, ◌++◌, Option, none, some, Bytes, Result, ok, length,
}

-- What the handlers read of a block header: `GetNumber()`, and `GetRawHeader().get_Number()`, which
-- is the number as the header spells it.
pub record HeaderMgr : Type 0 where
  pub number : ℕ
  pub raw_number : Bytes

pub record ReceiptLogEntry : Type 0 where
  pub contract_addr : Bytes
  pub topics : List Bytes
  pub log_data : Bytes

-- The closures that the program hands to `Listen`, one constructor for each place that builds one.
-- `notify` and `receipt` hold the queue that they share with a heartbeat emitter.
pub data Callback : Type 0 where
  deploy reg notify_past : Callback
  notify receipt : ℕ → Callback

pub record EventDescription : Type 0 where
  pub contract_addr : Bytes
  pub topics : List Bytes
  pub callback : Callback

-- `EclipseMonitor::Eth::EventManager`. `find` observes the description that an id stands for.
pub record EventManager : Type 1 where
  pub State : Type 0
  pub listen : EventDescription → State → State × ℕ
  pub cancel : ℕ → State → State
  pub find : ℕ → State → Option EventDescription
  -- The log is one that the description asks for.
  pub Matches : EventDescription → ReceiptLogEntry → Type 0
  -- Some listener has, or had, the id.
  pub Used : ℕ → State → Type 0
  -- Ids are not given twice, and one listener's calls leave the others alone.
  pub not-Used-listen : (d : EventDescription) (m : State) → ¬ Used (listen d m).1 m
  pub Used-listen_new : (d : EventDescription) (m : State) → Used (listen d m).1 (listen d m).0
  pub Used-listen_old :
      (d : EventDescription) (m : State) (i : ℕ) → Used i m → Used i (listen d m).0
  pub Used-cancel : (m : State) (i j : ℕ) → Used i m → Used i (cancel j m)
  pub find-Used : (m : State) (i : ℕ) (d : EventDescription) → find i m ≡ some d → Used i m
  pub find-listen_new :
      (d : EventDescription) (m : State) → find (listen d m).1 (listen d m).0 ≡ some d
  pub find-listen_old :
      (d : EventDescription) (m : State) (i : ℕ)
      → i ≢ (listen d m).1
      → find i (listen d m).0 ≡ find i m
  pub find-cancel_self : (m : State) (i : ℕ) → find i (cancel i m) ≡ none
  pub find-cancel_ne : (m : State) (i j : ℕ) → j ≢ i → find j (cancel i m) ≡ find j m
  -- A listener is only shown the logs of its contract.
  pub matches_addr :
      (d : EventDescription) (l : ReceiptLogEntry) → Matches d l → l.contract_addr ≡ d.contract_addr

-- `EclipseMonitor::Eth::AbiParser`, at a dynamic byte string and at a 32-byte word: the value and
-- the data behind it, or an exception.
pub record AbiParser : Type 0 where
  pub to_bytes : Bytes → Result (Bytes × Bytes)
  pub to_bytes32 : Bytes → Result (Bytes × Bytes)
  -- A 32-byte word is encoded as itself.
  pub to_bytes32-append :
      (word rest : Bytes) → length word ≡ 32 → to_bytes32 (word ++ rest) ≡ ok (word, rest)
  -- A word has 32 bytes: it is a `std::array`.
  pub length-to_bytes32 : (d word rest : Bytes) → to_bytes32 d ≡ ok (word, rest) → length word ≡ 32

-- `AdvancedRlp::Parse` and the accessors of `SimpleObjects` that throw on another type of object:
-- `dict_get o label` is `o.AsDict()[label]`.
pub record RlpParser : Type 1 where
  pub Obj : Type 0
  pub parse : Bytes → Result Obj
  pub dict_get : Obj → String → Result Obj
  pub as_bytes : Obj → Result Bytes
  pub as_list : Obj → Result (List Obj)
