-- ===== src/Tests/Libraries.antt =====
-- Concrete instances of the libraries that the host and the handlers call.
use decent_ethereum.Base.{
  ℕ, zero, suc, ◌+◌, ◌*◌, ◌≡◌, refl, ap, ◌∙◌, Bool, true, false, List, [], ◌∷◌, ◌++◌, map, Bytes,
  Result, ok, err, external_error, and_then, Outcome, done, thrown, length, replicate, ◌==◌,
  if◌then◌else◌, arith,
}
use decent_ethereum.External.{RlpParser}
use decent_ethereum.Geth.Libraries.{JsonLib, HexLib, JsonDict, texts, Network}
use decent_ethereum.Geth.Text.{codes}
use decent_ethereum.Boundary.Ocalls.{RlpCodec}
use decent_ethereum.BlockFeed.Tasks.{TickingTask}
use decent_ethereum.Monitor.{bootstrap_ii, EclipseMonitor, HostCalls}

-- A byte is the byte itself and a zero, for two digits.
abbrev pub pairs : Bytes → Bytes
pairs [] = []
pairs (b ∷ bs) = b ∷ 0 ∷ pairs bs

abbrev pub unpairs : Bytes → Result Bytes
unpairs [] = ok []
unpairs (b ∷ []) = err external_error
unpairs (b ∷ c ∷ bs) = and_then (unpairs bs) λ r. ok (b ∷ r)

pub length-pairs : (b : Bytes) → length (pairs b) ≡ 2 * length b
length-pairs [] = refl
length-pairs (b ∷ bs) = omega (arith, length-pairs bs)

pub unpairs-pairs : (b : Bytes) → unpairs (pairs b) ≡ ok b
unpairs-pairs [] = refl
unpairs-pairs (b ∷ bs) = ap (λ r. and_then r (λ r. ok (b ∷ r))) (unpairs-pairs bs)

abbrev pub first_byte : Bytes → Result ℕ
first_byte [] = err external_error
first_byte (b ∷ bs) = ok b

abbrev pub pair_hex : HexLib
pair_hex = record {
  decode = unpairs;
  encode = pairs;
  encode_num = λ n. n ∷ [];
  from_bytes = first_byte;
  length-encode = length-pairs;
  decode-encode = unpairs-pairs;
}

-- A text, or a list of texts; a body that starts with 1 is a list of one.
pub data TestJson : Type 0 where
  one : Bytes → TestJson
  many : List Bytes → TestJson

abbrev pub load_test : Bytes → Result TestJson
load_test [] = err external_error
load_test (b ∷ bs) = if b == 1 then ok (many (bs ∷ [])) else ok (one (b ∷ bs))

abbrev pub text_of : TestJson → Result Bytes
text_of (one b) = ok b
text_of (many bs) = err external_error

abbrev pub texts_of : TestJson → Result (List TestJson)
texts_of (one b) = err external_error
texts_of (many bs) = ok (map one bs)

abbrev pub written : TestJson → Bytes
written (one b) = b
written (many bs) = []

-- A request is written as the first of its parameters.
abbrev pub first_param : JsonDict → Bytes
first_param ((_, _) ∷ (_, texts (p ∷ ps)) ∷ d) = p
first_param d = []

-- The result of an answer is all of it.
abbrev pub test_json : JsonLib
test_json = record {
  Json = TestJson;
  load_str = load_test;
  dict_get = λ j label. ok j;
  as_string = text_of;
  as_list = texts_of;
  dump_str = written;
  dump_request = first_param;
}

-- A node at the block `latest`, with a header of one byte for each block.
abbrev pub node : ℕ → Network
node latest [] = ok ((codes "0x" ++ pairs (latest ∷ [])) ∷ [])
node latest (num ∷ _) = ok ((codes "0x" ++ pairs (num ∷ [])) ∷ [])

-- A node that gives no receipt in round 0, and one later.
abbrev pub mining : ℕ → Network
mining zero body = ok (codes "nu" ∷ codes "ll" ∷ [])
mining (suc n) body = ok (codes "mined" ∷ [])

-- Whether the tick interval is enabled.
abbrev pub bool_task : TickingTask
bool_task = record {
  State = Bool;
  is_tick_interval_enabled = λ b. b;
  disable_tick_interval = λ b. false;
  set_interval = λ upd every b. true;
  enabled-disable = λ b. refl;
  enabled-set = λ upd every b. refl;
}

-- A monitor whose state counts the blocks with receipts, in the second bootstrap phase.
abbrev pub count_receipts : Result Bytes → ℕ → Outcome ℕ (Unit {0})
count_receipts (ok r) m = done tt (suc m)
count_receipts (err e) m = thrown e m

abbrev pub counter : EclipseMonitor
counter = record {
  State = ℕ;
  get_phase = λ m. bootstrap_ii;
  get_bootstrap_i_end_blk_num = λ m. 0;
  refresh_bootstrap_plan = λ latest start m. latest + m;
  get_monitor_sec_state =
      λ m. record { genesis_hash = []; checkpoint_hash = []; checkpoint_iter = m };
  check_events = λ hdr receipts m. count_receipts (receipts hdr.number) m;
}

abbrev pub calls : HostCalls
calls = record { get_receipts_rlp_by_num = λ n. ok (n ∷ []); get_latest_block_num = ok 9 }

-- A request with an address and topics, and a byte string.
pub data TestObj : Type 0 where
  fields : Bytes → List Bytes → TestObj

abbrev pub topic : Bytes
topic = replicate 32 7

abbrev pub topic_objs : TestObj → Result (List TestObj)
topic_objs (fields a ts) = ok (map (λ t. fields t []) ts)

abbrev pub addr_of : TestObj → Result Bytes
addr_of (fields a ts) = ok a

abbrev pub test_rlp : RlpParser
test_rlp = record {
  Obj = TestObj;
  parse = λ content. ok (fields content (topic ∷ []));
  dict_get = λ o label. ok o;
  as_bytes = addr_of;
  as_list = topic_objs;
}

-- A list of byte strings, each byte raised by one and each string closed by a zero.
abbrev pub frame : Bytes → Bytes → Bytes
frame [] rest = 0 ∷ rest
frame (b ∷ bs) rest = suc b ∷ frame bs rest

abbrev pub frames : List Bytes → Bytes
frames [] = []
frames (b ∷ bs) = frame b (frames bs)

abbrev pub put_first : ℕ → List Bytes → List Bytes
put_first b [] = []
put_first b (l ∷ ls) = (b ∷ l) ∷ ls

abbrev pub unframe : Bytes → List Bytes
unframe [] = []
unframe (zero ∷ s) = [] ∷ unframe s
unframe (suc b ∷ s) = put_first b (unframe s)

unframe-frame : (b rest : Bytes) → unframe (frame b rest) ≡ b ∷ unframe rest
unframe-frame [] rest = refl
unframe-frame (b ∷ bs) rest = ap (put_first b) (unframe-frame bs rest)

pub unframe-frames : (l : List Bytes) → unframe (frames l) ≡ l
unframe-frames [] = refl
unframe-frames (b ∷ bs) = unframe-frame b (frames bs) ∙ ap (λ l. b ∷ l) (unframe-frames bs)

abbrev pub framed : RlpCodec
framed = record {
  write_rlp = frames;
  parse = λ s. ok (unframe s);
  parse-write_rlp = λ l. ap ok (unframe-frames l);
}
