-- ===== src/Tests/Services.antt =====
-- The theorems on the enclave's publish-subscribe service at the run of Tests/Enclave.antt.
use decent_ethereum.Base.{
  replicate, ℕ, ◌≡◌, ◌≢◌, refl, ◌⊎◌, [], ◌∷◌, ◌++◌, none, some, Bytes, Error, arith, external_error,
  alloc, ◌<◌, Result, ok, err, after, thrown, push_back, bytes_eq, if◌then◌else◌,
}
use decent_ethereum.External.{ReceiptLogEntry, EventDescription}
use decent_ethereum.Pubsub.Service.{
  get_past_events, get_event_mgr_addr, build_notify_past_event_descr, reg_event_handler,
  notify_past_event_handler, event_data, deploy_event_handler,
}
use decent_ethereum.Pubsub.Handler.{build_emitted_msg, emitter_handler, subscribe_events}
use decent_ethereum.Pubsub.Registration.{registration_data, reg_event_handler-registration}
use decent_ethereum.Pubsub.Stored.{registration-notify_past_event_handler}
use decent_ethereum.Pubsub.Requests.{emitter_handler-drained}
use decent_ethereum.Receipts.{receipt_sub_req}
use decent_ethereum.Receipts.Validation.{receipt_sub_req-Handled, Handled}
use decent_ethereum.Dispatch.{begin_request, boot, run_callback}
use decent_ethereum.Lifecycle.Delivery.{SystemInv}
use decent_ethereum.Lifecycle.Boot.{new_store-IsNew, boot-Reach-SystemInv}
use decent_ethereum.History.{notified, taken, arrived}
use decent_ethereum.History.PastEvents.{boot-past_events-notified}
use decent_ethereum.History.Registrations.{addr_among, registrations, boot-registrations}
use decent_ethereum.History.Queues.{taken-arrived}
use decent_ethereum.Dispatch.TwoListeners.{listener, shown_to, two_registrations-twice}
use decent_ethereum.Tests.Instances.{slots, words}
use decent_ethereum.Tests.Libraries.{test_rlp}
use decent_ethereum.Tests.Enclave.{
  contract, publisher, ev_mgr, store, hdr, reg_log, event_log, view, write, deployed, notified_once,
  past_run, asked, drained, live_run,
}

-- What the socket makes of a message.
abbrev sent : Result (Unit {0})
sent = ok tt

abbrev refused : Result (Unit {0})
refused = err external_error

boot-Reach-SystemInv_example : SystemInv slots notified_once
boot-Reach-SystemInv_example =
    boot-Reach-SystemInv slots [] (λ i. refl) words write store notified_once
      (new_store-IsNew (λ b. b) contract (10 ∷ []) (11 ∷ []) (12 ∷ [])) past_run

boot-past_events-notified_example :
    get_past_events notified_once.world.store ev_mgr ≡ notified slots words write past_run ev_mgr
boot-past_events-notified_example =
    boot-past_events-notified slots words write [] (λ i. refl) store notified_once past_run ev_mgr
      (new_store-IsNew (λ b. b) contract (10 ∷ []) (11 ∷ []) (12 ∷ []))

boot-registrations_example :
    get_event_mgr_addr notified_once.world.store publisher
    ≡ addr_among publisher (registrations slots words write past_run)
boot-registrations_example =
    boot-registrations slots words write [] store notified_once past_run publisher
      (new_store-IsNew (λ b. b) contract (10 ∷ []) (11 ∷ []) (12 ∷ []))

taken-arrived_example :
    (taken slots words write live_run 0 ++ drained.world.event_queues.cell 0
      ≡ asked.world.event_queues.cell 0 ++ arrived slots words write live_run 0)
    × (0 < drained.world.event_queues.next)
unfolding begin_request subscribe_events boot alloc
taken-arrived_example = taken-arrived slots words write asked drained live_run 0 (omega arith)

reg_event_handler-registration_example :
    let t = after (reg_event_handler slots words hdr reg_log deployed.world) in
    ((q : Bytes)
      → get_event_mgr_addr t.store q
        ≡ (if bytes_eq publisher q then ev_mgr else get_event_mgr_addr deployed.world.store q))
    × ((b : Bytes) → get_past_events t.store b ≡ get_past_events deployed.world.store b)
    × (i : ℕ) × (slots.find i deployed.world.event_mgr ≡ none)
    × (slots.find i t.event_mgr ≡ some (build_notify_past_event_descr ev_mgr t.store))
    × ((j : ℕ) (d : EventDescription)
        → slots.find j deployed.world.event_mgr ≡ some d
        → slots.find j t.event_mgr ≡ some d)
unfolding boot deploy_event_handler run_callback
reg_event_handler-registration_example =
    reg_event_handler-registration slots words hdr reg_log deployed.world publisher ev_mgr [] refl
      refl refl refl

-- A second publisher with the same event manager.
abbrev reg_log2 : ReceiptLogEntry
reg_log2 = record {
  contract_addr = contract;
  topics = [];
  log_data = registration_data (replicate 20 4) ev_mgr [];
}

two_registrations-twice_example :
    let t = after (
      reg_event_handler slots words hdr reg_log2
        (after (reg_event_handler slots words hdr reg_log deployed.world))) in
    let e = event_data hdr (42 ∷ []) in
    let listener = listener slots words hdr hdr hdr reg_log reg_log2 event_log deployed.world in
    (i j : ℕ) × (i ≢ j)
    × (slots.find i t.event_mgr ≡ some listener)
    × (slots.find j t.event_mgr ≡ some listener)
    × (get_past_events
          (shown_to slots words hdr hdr hdr reg_log reg_log2 event_log i j t).store
          ev_mgr
        ≡ get_past_events deployed.world.store ev_mgr ++ (e ∷ e ∷ []))
unfolding boot deploy_event_handler run_callback
two_registrations-twice_example =
    two_registrations-twice slots words hdr hdr hdr reg_log reg_log2 event_log deployed.world
      publisher (replicate 20 4) [] [] (42 ∷ []) [] refl refl refl refl refl refl refl

registration-notify_past_event_handler_example :
    let t = after (reg_event_handler slots words hdr reg_log deployed.world) in
    let u = after (notify_past_event_handler slots words hdr event_log t) in
    (get_event_mgr_addr u.store publisher ≡ ev_mgr)
    × ((b : Bytes)
        → get_past_events u.store b
          ≡ get_past_events deployed.world.store b
            ++ (if bytes_eq ev_mgr b then event_data hdr (42 ∷ []) ∷ [] else []))
unfolding boot deploy_event_handler run_callback
registration-notify_past_event_handler_example =
    registration-notify_past_event_handler slots words hdr hdr reg_log event_log deployed.world
      publisher [] (42 ∷ []) [] refl refl refl refl refl

emitter_handler-drained_example :
    let t = after (emitter_handler slots write refused view 7 0 1 asked.world) in
    let msg = build_emitted_msg write view (asked.world.event_queues.cell 0) in
    (t.event_queues.cell 0 ≡ [])
    × (((refused ≡ ok tt)
          × (t.sockets ≡ push_back 7 msg asked.world.sockets)
          × (t.event_mgr ≡ asked.world.event_mgr))
        ⊎ ((e : Error) × (refused ≡ err e)
            × (emitter_handler slots write refused view 7 0 1 asked.world ≡ thrown e t)
            × (t.sockets ≡ asked.world.sockets)
            × (slots.find 1 t.event_mgr ≡ none)))
emitter_handler-drained_example = emitter_handler-drained slots write refused view 7 0 1 asked.world

receipt_sub_req-Handled_example :
    Handled slots test_rlp 7 contract asked.world
      (receipt_sub_req slots test_rlp 7 contract asked.world)
receipt_sub_req-Handled_example = receipt_sub_req-Handled slots test_rlp 7 contract asked.world
