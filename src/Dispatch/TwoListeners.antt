-- ===== src/Dispatch/TwoListeners.antt =====
-- Two publishers with one event manager: what `RegEventHandler` listens for, and what that stores.
use decent_ethereum.Base.{ℕ, ◌≡◌, ◌≢◌, ap, ◌∙◌, true, [], ◌∷◌, ◌++◌, some, Bytes, ok, after, length}
use decent_ethereum.External.{
  HeaderMgr, ReceiptLogEntry, EventDescription, notify_past, EventManager, AbiParser,
}
use decent_ethereum.World.{World, PubsubServiceStore}
use decent_ethereum.Pubsub.Service.{
  get_past_events, save_registration, build_notify_past_event_descr, reg_event_handler, event_data,
}
use decent_ethereum.Pubsub.PastEvents.{get_past_events-save_registration}
use decent_ethereum.Pubsub.Registration.{
  registration_data, registered, notify_past_event_handler-twice,
}
use decent_ethereum.Pubsub.Stored.{queue-save_registration}
use decent_ethereum.Dispatch.{run_callback}
use decent_ethereum.Lifecycle.Listeners.{find-listen_keep, Used-ne-new}

module _ (em : EventManager) (abi : AbiParser) (hdr1 hdr2 hdr : HeaderMgr)
    (log1 log2 event : ReceiptLogEntry) where
  open em use {State, listen, find, find-Used, find-listen_new}

  -- The listener for the notifications of `event`'s contract.
  abbrev pub listener : World State → EventDescription
  listener w = record {
    contract_addr = event.contract_addr;
    topics = w.store.notify_ev_topic ∷ [];
    callback = notify_past;
  }

  -- `event`, shown to the listeners `i` and `j`.
  abbrev pub shown_to : ℕ → ℕ → World State → World State
  shown_to i j w =
      let once = after (run_callback em abi (listener w).callback i hdr event w) in
      after (run_callback em abi (listener w).callback j hdr event once)

  -- While the event manager is alive, two registration logs that name the same contract of 20 bytes
  -- as the event manager, for publishers of 20 bytes each, are handled one after the other. Then
  -- two different listeners for that contract's notifications are registered, and a well-formed
  -- notification from it that is shown to both is in its past events twice, behind those of before.
  pub two_registrations-twice :
      (w : World State) (p1 p2 rest1 rest2 msg rest : Bytes)
      → w.mgr_alive ≡ true
      → log1.log_data ≡ registration_data p1 event.contract_addr rest1
      → log2.log_data ≡ registration_data p2 event.contract_addr rest2
      → length p1 ≡ 20
      → length p2 ≡ 20
      → length event.contract_addr ≡ 20
      → abi.to_bytes event.log_data ≡ ok (msg, rest)
      → let t =
          after
            (reg_event_handler em abi hdr2 log2 (after (reg_event_handler em abi hdr1 log1 w))) in
        let e = event_data hdr msg in
        (i j : ℕ) × (i ≢ j)
        × (find i t.event_mgr ≡ some (listener w))
        × (find j t.event_mgr ≡ some (listener w))
        × (get_past_events (shown_to i j t).store event.contract_addr
            ≡ get_past_events w.store event.contract_addr ++ (e ∷ e ∷ []))
  unfolding run_callback save_registration build_notify_past_event_descr
  two_registrations-twice w p1 p2 rest1 rest2 msg rest alive f1 f2 l1 l2 l m =
      rw
        (
          registered em abi hdr1 log1 w p1 a rest1 alive f1 l1 l,
          registered em abi hdr2 log2 w1 p2 a rest2 alive f2 l2 l,
        )
        (
          i,
          j,
          Used-ne-new em d2 w1.event_mgr i
              (find-Used w1.event_mgr i d1 (find-listen_new d1 w.event_mgr)),
          find-listen_keep em d2 d1 w1.event_mgr i (find-listen_new d1 w.event_mgr),
          find-listen_new d2 w1.event_mgr,
          notify_past_event_handler-twice em abi hdr event w2 msg rest
                (queue-save_registration p2 a s1).0 m (queue-save_registration p2 a s1).1
              ∙ ap (λ q. q ++ (event_data hdr msg ∷ event_data hdr msg ∷ []))
                  (get_past_events-save_registration p2 a a s1
                    ∙ get_past_events-save_registration p1 a a w.store),
        )
    where
      a : Bytes
      a = event.contract_addr

      s1 : PubsubServiceStore
      s1 = save_registration p1 a w.store

      s2 : PubsubServiceStore
      s2 = save_registration p2 a s1

      d1 : EventDescription
      d1 = build_notify_past_event_descr a s1

      d2 : EventDescription
      d2 = build_notify_past_event_descr a s2

      w1 : World State
      w1 = record w { store = s1; event_mgr = (listen d1 w.event_mgr).0 }

      w2 : World State
      w2 = record w1 { store = s2; event_mgr = (listen d2 w1.event_mgr).0 }

      i : ℕ
      i = (listen d1 w.event_mgr).1

      j : ℕ
      j = (listen d2 w1.event_mgr).1
