-- ===== src/Lib.antt =====
-- A verification library for DecentEthereum: an enclave that follows the Ethereum chain, keeps the
-- past events of publish-subscribe contracts and forwards live events to subscribers, and the
-- untrusted host that feeds it with blocks.
--
-- How the parts interact. The host asks a node for blocks over JSON-RPC (GethRequester) and pushes
-- them, one after the other, to the enclave (HostBlockService and its tasks). The enclave's
-- BlockchainMgr gives a block to an eclipse monitor, which calls back for every validated header;
-- the event manager then calls the listeners whose contract and topics match a log. One listener
-- waits for the publish-subscribe contract's deployment, and is replaced by one for registrations,
-- which adds one for the notifications of each event manager. A subscriber gets the past events of
-- an event manager, a live queue with a listener that fills it, and a heartbeat that drains it.
--
-- Which file models which part:
--   World, Pubsub        include/DecentEthereum/Trusted/Pubsub. `PubsubServiceStore` is the record
--                        of that name; `notify_past_event_handler`, `reg_event_handler` and
--                        `deploy_event_handler` are NotifyPastEventHandler, RegEventHandler and
--                        DeployEventHandler; `sub_req` is SubReq and `emitter_handler` is
--                        EmitterHandler. A queue that closures share by pointer is a number in a heap.
--   Receipts             include/DecentEthereum/Trusted/ReceiptSubscriber.hpp. `receipt_sub_req` is
--                        ReceiptSubReq.
--   Dispatch             The enclave's threads: `Step` is one locked section of one of them, and
--                        `Reach` any interleaving. A subscription is two steps: its listener is
--                        registered in the first, and the past events are sent in the second. The
--                        step relation allows them for any address.
--   Lifecycle, History   The invariant of that system, and what its runs deliver.
--   Monitor              include/DecentEthereum/Trusted/BlockchainMgr.hpp. `on_header_validated`,
--                        `on_header_confirmed` and `append_block` are its methods of those names.
--   Geth                 include/DecentEthereum/Untrusted/GethRequester.hpp. Each request, and each
--                        `Proc...` function as `proc_resp_...`.
--   BlockFeed            include/DecentEthereum/Untrusted/HostBlockService.hpp and
--                        HostBlockServiceTasks.hpp, and StartSendingBlocks of src/Untrusted/Main.cpp.
--   Boundary             The ocalls of src/Untrusted/Main.cpp, the block ecall of
--                        src/Trusted/Enclave.cpp, and the classes that call them:
--                        include/DecentEthereum/Trusted/HostBlockService.hpp, Transaction.hpp and
--                        src/Untrusted/DecentEthereumEnclave.hpp.
--   Enclave              src/Trusted/Enclave.cpp as a whole: `init` is Init, `ecall_init` and
--                        `ecall_block` are its two ecalls, `handle` is a message that reaches one of
--                        the three registered handlers, and `new_enclave` is the constructor of
--                        src/Untrusted/DecentEthereumEnclave.hpp. `deref` is an access through
--                        `g_blockchainMgr`, and has no outcome where that is null. Enclave/Ready is
--                        the state machine of ecalls, messages and threads: a block's call has its
--                        effect on the monitor (Monitor), and a run of the threads' steps (Dispatch)
--                        stands for what goes on while it is processed: `CheckEvents` shows the logs
--                        to the listeners, and other threads go on between. Enclave/Serving are the
--                        calls behind a start, with what they tell the store; Enclave/Runs,
--                        Enclave/Refines and Enclave/Subscribed relate them to Dispatch.
--   HostMain             src/Untrusted/Main.cpp: `start_up` and `main`, the configuration that they
--                        read, and src/Untrusted/RunUntilSignal.hpp. `read_config` is the part from
--                        a configuration to the enclave's arguments alone.
--   Keys                 src/Trusted/Keys.hpp, the key that is made with an SGX context.
--   ThroughputEval       tests/geth-decent-throughput-eval: the enclave, and the host's `main` with
--                        its loop over the rates. BlockFeed/Range is a range of blocks on the host
--                        block service.
--   Base, External       Shared helpers, and the interfaces of what the repository only calls.
--   Tests                Instances of the interfaces, and the theorems at concrete inputs.
--
-- Conventions. A call that can throw is `Exec`: it ends in `done` or `thrown`, and the state is kept
-- either way. Unsigned 64-bit numbers wrap at 2 ^ 64 where the code adds or subtracts. Bytes are
-- numbers; their bound of 256 is not used. A handler runs as one step, as if its locks were one.
--
-- Fuel. Two loops of the code have no bound of their own: the wait for a transaction's receipt and
-- the loop until a signal. Both recurse on fuel, one unit for each round. A round of the first ends
-- it unless the node answers null, and a round of the second ends it once a signal is seen, so that
-- fuel above the number of those rounds is enough. All other loops recurse on a list
-- or on a count.
--
-- Not modelled: EclipseMonitor (the monitor, its validation of headers and receipts, the ABI
-- parser), DecentEnclave (sockets, certificates, the heartbeat service), SimpleJson, SimpleRlp and
-- the hex codec are interfaces with the laws that the code relies on. Log output, the floating-point
-- rate of the status log, the Secp256k1 key, which is one call of mbedTLS, and the time and random
-- sources, which forward to the SGX SDK and mbedTLS, are left out. Data races are not modelled: a
-- step is atomic. Where the host initialises the enclave again, the manager is replaced, and what
-- the old one's emitters go on to do is not followed.
pub mod Base
pub mod External
pub mod World
pub mod Pubsub
pub mod Receipts
pub mod Dispatch
pub mod Lifecycle
pub mod History
pub mod Geth
pub mod BlockFeed
pub mod Monitor
pub mod Boundary
pub mod Enclave
pub mod HostMain
pub mod Keys
pub mod ThroughputEval
pub mod Tests
