-- ===== src/Tests/ReceiptRun.antt =====
-- A receipt subscription, a receipt and a heartbeat.
use mathlib.Core.List.{Memᴰ}
use decent_ethereum.Base.{◌<◌, ◌≡◌, refl, [], ◌++◌, ok, after, alloc, arith}
use decent_ethereum.External.{receipt}
use decent_ethereum.World.{Emitter, receipts}
use decent_ethereum.Pubsub.Service.{start}
use decent_ethereum.Receipts.{
  valid, serve_request, subscribe_receipts, build_subscribed_event_descr,
  subscribed_receipt_handler,
}
use decent_ethereum.Dispatch.{
  System, Step, Reach, boot, run_callback, run_emitter, deliver, beat, here, next,
}
use decent_ethereum.History.ReceiptQueues.{
  receipts_taken, receipts_arrived, receipts_taken-receipts_arrived,
}
use decent_ethereum.Tests.Instances.{slots, Slots, words}
use decent_ethereum.Tests.Enclave.{ev_mgr, hdr, event_log, view, write, fresh, shown}

abbrev subscribed : System Slots
subscribed = record fresh { world = serve_request slots 7 (valid ev_mgr []) fresh.world }

abbrev receipt_arrived : System Slots
receipt_arrived = shown (receipt 0) 1 event_log subscribed

abbrev emitter : Emitter
emitter = record { kind = receipts; socket = 7; queue = 0; listen_id = 1 }

abbrev drained : System Slots
drained = record receipt_arrived {
  world = after (run_emitter slots write (ok tt) view emitter receipt_arrived.world);
}

arrival : Step slots words write subscribed receipt_arrived
unfolding boot serve_request subscribe_receipts build_subscribed_event_descr start
arrival = deliver 1 (build_subscribed_event_descr ev_mgr [] 0) hdr event_log refl refl refl refl

heartbeat : Step slots words write receipt_arrived drained
unfolding boot serve_request subscribe_receipts run_callback subscribed_receipt_handler start
heartbeat = beat (ok tt) view emitter (Memᴰ.head refl) refl

abbrev run : Reach slots words write subscribed drained
run = next (next here arrival) heartbeat

receipts_taken-receipts_arrived_example :
    (receipts_taken slots words write run 0 ++ drained.world.receipt_queues.cell 0
      ≡ subscribed.world.receipt_queues.cell 0 ++ receipts_arrived slots words write run 0)
    × (0 < drained.world.receipt_queues.next)
unfolding serve_request subscribe_receipts boot alloc start
receipts_taken-receipts_arrived_example =
    receipts_taken-receipts_arrived slots words write subscribed drained run 0 (omega arith)
