-- ===== src/Tests/Runs.antt =====
-- The theorems on whole runs of the enclave's threads and of the measuring host, at concrete inputs.
use decent_ethereum.Base.{
  ℕ, ◌≡◌, refl, [], ◌∷◌, ◌++◌, some, false, Bytes, ok, push_back, replicate, lookup, emplace,
  insert, bytes_eq,
}
use decent_ethereum.External.{EventDescription}
use decent_ethereum.World.{PubsubServiceStore}
use decent_ethereum.Pubsub.Service.{
  new_store, start, build_deploy_event_descr, get_event_mgr_addr, get_notify_event_topic,
  reg_event_handler, deploy_event_handler, notify_past_event_handler, save_registration,
  save_past_event, address_to_abi_address, abi_address_to_address,
}
use decent_ethereum.Pubsub.Handler.{
  build_emitted_msg, build_notify_event_descr, subscribe_events, respond_events,
}
use decent_ethereum.Dispatch.{
  System, Step, Reach, boot, begin_request, run_callback, deliver, answer, here, next,
}
use decent_ethereum.External.{deploy, notify}
use decent_ethereum.Lifecycle.{is_subscriber}
use decent_ethereum.Lifecycle.Boot.{new_store-IsNew}
use decent_ethereum.Lifecycle.Sizes.{IsAddr, StoreSized, DescrSized}
use decent_ethereum.Lifecycle.SizedRuns.{boot-Reach-Sized}
use decent_ethereum.History.{notified, taken, arrived}
use decent_ethereum.History.Subscriber.{asked, answered, subscriber-sent}
use decent_ethereum.Tests.Instances.{slots, Slots, words}
use decent_ethereum.Tests.Enclave.{
  contract, ev_mgr, store, hdr, deploy_log, event_log, view, write, notified_once, past_run, shown,
}

-- A hash of the right size.
abbrev hashed : Bytes → Bytes
hashed b = replicate 32 7

abbrev sized_store : PubsubServiceStore
sized_store = new_store hashed contract (10 ∷ []) (11 ∷ []) (12 ∷ [])

abbrev sized_fresh : System Slots
sized_fresh = boot slots [] sized_store

abbrev sized_deployed : System Slots
sized_deployed = shown deploy 0 deploy_log sized_fresh

abbrev sized_deployment : Step slots words write sized_fresh sized_deployed
unfolding boot start build_deploy_event_descr new_store
sized_deployment =
    deliver 0 (build_deploy_event_descr sized_store) hdr deploy_log refl refl refl refl

boot-Reach-Sized_example :
    StoreSized sized_deployed.world.store
    × ((p : Bytes) → IsAddr (get_event_mgr_addr sized_deployed.world.store p))
    × ((id : ℕ) (d : EventDescription)
        → slots.find id sized_deployed.world.event_mgr ≡ some d
        → is_subscriber d.callback ≡ false
        → DescrSized d)
boot-Reach-Sized_example =
    boot-Reach-Sized slots words write [] (λ i. refl) hashed contract (10 ∷ []) (11 ∷ []) (12 ∷ [])
      sized_deployed refl (λ b. refl) (next here sized_deployment)

-- The request begins after the run with one notification; then one event arrives.
abbrev begun : System Slots
begun = begin_request slots ev_mgr notified_once

abbrev live_arrived : System Slots
live_arrived = shown (notify 0) 3 event_log begun

abbrev live_arrival : Step slots words write begun live_arrived
unfolding boot begin_request build_notify_event_descr subscribe_events get_notify_event_topic
    new_store run_callback deploy_event_handler reg_event_handler notify_past_event_handler
    save_registration save_past_event start address_to_abi_address lookup emplace insert bytes_eq
    abi_address_to_address
live_arrival =
    deliver 3 (build_notify_event_descr ev_mgr (12 ∷ []) 0) hdr event_log refl refl refl refl

abbrev still_pending :
    live_arrived.pending ≡ [] ++ asked slots words write ev_mgr 3 notified_once ∷ []
unfolding boot begin_request build_notify_event_descr subscribe_events get_notify_event_topic
    new_store run_callback deploy_event_handler reg_event_handler notify_past_event_handler
    save_registration save_past_event start address_to_abi_address lookup emplace insert bytes_eq
    abi_address_to_address
still_pending = refl

abbrev replied : System Slots
replied =
    answered slots words write view 7 [] [] (asked slots words write ev_mgr 3 notified_once)
      live_arrived

abbrev no_more : Reach slots words write replied replied
no_more = here

subscriber-sent_example :
    let r2 = next here live_arrival in
    let live = next r2 (
      answer
        (ok tt)
        view
        7
        (asked slots words write ev_mgr 3 notified_once)
        []
        []
        still_pending
        refl) in
    (replied.world.sockets
      ≡ push_back 7
          (build_emitted_msg write view
            (notified slots words write past_run ev_mgr ++ notified slots words write r2 ev_mgr))
          live_arrived.world.sockets)
    × (taken slots words write live 0
          ++ (taken slots words write no_more 0 ++ replied.world.event_queues.cell 0)
        ≡ arrived slots words write live 0 ++ arrived slots words write no_more 0)
unfolding boot begin_request respond_events still_pending live_arrival build_emitted_msg push_back
subscriber-sent_example =
    subscriber-sent slots words write [] (λ i. refl) store
      (new_store-IsNew (λ b. b) contract (10 ∷ []) (11 ∷ []) (12 ∷ [])) ev_mgr past_run
      (next here live_arrival) view 7 3 [] [] still_pending no_more
