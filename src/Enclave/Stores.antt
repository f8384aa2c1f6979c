-- ===== src/Enclave/Stores.antt =====
-- The messages that reach a handler: the threads' steps that they take, and that the store of the
-- subscriber service stays as it was.
use decent_ethereum.Base.{
  ℕ, ◌≡◌, refl, sym, subst, ap, ◌∙◌, inl, inr, Bytes, Result, ok, err, Result-cases, Outcome, after,
  done, lift, pure, ◌>>=◌, Bytes-cases,
}
use decent_ethereum.External.{EventManager, AbiParser, RlpParser}
use decent_ethereum.World.{World, PubsubServiceStore}
use decent_ethereum.Pubsub.Service.{get_event_mgr_addr, zero_addr}
use decent_ethereum.Pubsub.Handler.{
  Dict, MonitorView, publisher_of, sub_req, subscribe_events, respond_events,
}
use decent_ethereum.Pubsub.Requests.{sub_req-malformed, sub_req-unknown, sub_req-known}
use decent_ethereum.Receipts.{Request, request_of, serve_request, receipt_sub_req}
use decent_ethereum.Dispatch.{System, Reach, here}
use decent_ethereum.Dispatch.Requests.{requests-Reach}
use decent_ethereum.Boundary.Ocalls.{send_raw}
use decent_ethereum.History.PastEvents.{store-respond_events, store-serve_request}
use decent_ethereum.Enclave.{
  Handler, handle_pubsub_sub_req, handle_receipt_sub_req, handle_send_raw, Chain,
}
use decent_ethereum.Enclave.Init.{ManagerState}
use decent_ethereum.Enclave.Calls.{Codecs, Message, run_handler, view_of}
use decent_ethereum.Enclave.Parts.{on_world-system}

module _ (em : EventManager) (write : Dict → Bytes) (rlp : RlpParser) (accepted : Result (Unit {0}))
    (view : MonitorView) (socket : ℕ) (content : Bytes) (w : World em.State) where
  open em use {State}

  abbrev store_after : Outcome (World State) (Unit {0}) → PubsubServiceStore
  store_after o = (after o).store

  store-subscribed :
      (addr : Bytes)
      → store_after
          ((subscribe_events em addr >>= respond_events em write accepted view socket addr) w)
        ≡ w.store
  unfolding subscribe_events
  store-subscribed addr = store-respond_events em write accepted view socket addr _ _ _

  pub store-sub_req : store_after (sub_req em write rlp accepted view socket content w) ≡ w.store
  store-sub_req = elim (Result-cases (publisher_of rlp content)) [
    | inl (e, f) ↦
        ap store_after (sub_req-malformed em write rlp accepted view socket content w e f)
    | inr (p, f) ↦ elim (Bytes-cases (get_event_mgr_addr w.store p) zero_addr) [
      | inl z ↦ ap store_after (sub_req-unknown em write rlp accepted view socket content w p f z)
      | inr (n, _) ↦
          ap store_after (sub_req-known em write rlp accepted view socket content w p f n)
          ∙ store-subscribed (get_event_mgr_addr w.store p)
    ]
  ]

  pub store-receipt_sub_req : store_after (receipt_sub_req em rlp socket content w) ≡ w.store
  unfolding receipt_sub_req
  store-receipt_sub_req = go (request_of rlp content)
    where
      go :
          (r : Result Request)
          → store_after ((lift r >>= λ r. λ w. done tt (serve_request em socket r w)) w) ≡ w.store
      go (err e) = refl
      go (ok r) = store-serve_request em write socket r w

module _ (ch : Chain) (co : Codecs) (abi : AbiParser) where
  abbrev Threads : Type 0
  Threads = System ch.events.State

  -- What a handler makes of the manager's system: a run that leaves the store.
  abbrev pub Quiet : (y z : Threads) → Type 0
  Quiet y z = Reach ch.events abi co.write y z × (z.world.store ≡ y.world.store)

  pub unmoved : {y z : Threads} → z ≡ y → Quiet y z
  unmoved {y} e = subst (Quiet y) (sym e) (here, refl)

  pub run_handler-Quiet :
      (h : Handler) (msg : Message) (m : ManagerState ch)
      → Quiet m.system (after (run_handler ch co h msg m)).system
  unfolding run_handler
  run_handler-Quiet handle_pubsub_sub_req msg m =
      subst (Quiet m.system)
        (sym (
          on_world-system ch.monitor.State
            (sub_req ch.events co.write co.rlp msg.accepted (view_of ch co m) msg.socket
              msg.content)
            m))
        (
          (requests-Reach ch.events abi co.write co.rlp msg.socket msg.content m.system msg.accepted
              (view_of ch co m)).0,
          store-sub_req ch.events co.write co.rlp msg.accepted (view_of ch co m) msg.socket
              msg.content m.system.world,
        )
  run_handler-Quiet handle_receipt_sub_req msg m =
      subst (Quiet m.system)
        (sym (
          on_world-system ch.monitor.State (receipt_sub_req ch.events co.rlp msg.socket msg.content)
            m))
        (
          (requests-Reach ch.events abi co.write co.rlp msg.socket msg.content m.system msg.accepted
              (view_of ch co m)).1,
          store-receipt_sub_req ch.events co.write co.rlp msg.accepted (view_of ch co m) msg.socket
              msg.content m.system.world,
        )
  run_handler-Quiet handle_send_raw msg m = go (send_raw co.json co.hex msg.net msg.content)
    where
      go :
          (r : Result Bytes)
          → Quiet m.system (after ((lift {S = ManagerState ch} r >>= λ logged. pure tt) m)).system
      go (ok b) = (here, refl)
      go (err e) = (here, refl)
