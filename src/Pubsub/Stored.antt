-- ===== src/Pubsub/Stored.antt =====
-- A registration, and the first notification after it.
use decent_ethereum.Base.{
  ◌≡◌, ap, ◌∙◌, true, inl, inr, [], ◌∷◌, ◌++◌, some, Bytes, arith, Option-cases, ok, after, length,
  lookup, lookup-emplace_self, bytes_eq, bytes_eq_refl, if◌then◌else◌, if_true,
}
use decent_ethereum.External.{HeaderMgr, ReceiptLogEntry, EventManager, AbiParser}
use decent_ethereum.World.{EventData, EventDataQueue, PubsubServiceStore, World}
use decent_ethereum.Pubsub.Service.{
  get_past_events, get_event_mgr_addr, save_past_event, save_registration, reg_event_handler,
  notify_past_event_handler, event_data,
}
use decent_ethereum.Pubsub.Behaviour.{notify_past_parsed}
use decent_ethereum.Pubsub.PastEvents.{
  get_past_events-save_registration, get_past_events-save_past_event,
}
use decent_ethereum.Pubsub.Registration.{
  registration_data, registered, get_event_mgr_addr-save_registration,
}

pub get_event_mgr_addr-save_past_event :
    (a p : Bytes) (e : EventData) (s : PubsubServiceStore)
    → get_event_mgr_addr (save_past_event a e s) p ≡ get_event_mgr_addr s p
unfolding get_event_mgr_addr save_past_event
get_event_mgr_addr-save_past_event a p e s = elim (Option-cases (lookup a s.past_event_store)) [
  | inl h ↦ rw (h, save_past_event)
  | inr (q, h) ↦ rw (h, save_past_event)
]

pub queue-save_registration :
    (p a : Bytes) (s : PubsubServiceStore)
    → (q : EventDataQueue) × (lookup a (save_registration p a s).past_event_store ≡ some q)
unfolding save_registration
queue-save_registration p a s = elim (Option-cases (lookup a s.past_event_store)) [
  | inl h ↦ ([], ground (arith, lookup-emplace_self a [] s.past_event_store))
  | inr (q, h) ↦ (q, ground (arith, lookup-emplace_self a [] s.past_event_store))
]

module _ (em : EventManager) (abi : AbiParser) (hdr hdr' : HeaderMgr)
    (log event : ReceiptLogEntry) where
  open em use {State}

  -- While the event manager is alive, a registration log with two 20-byte addresses is handled, and
  -- then a well-formed notification from the contract that it names as the publisher's event
  -- manager: then the publisher has that event manager, the notification is the last of that
  -- contract's past events, behind those of before, and the past events of every other address are
  -- those of before.
  pub registration-notify_past_event_handler :
      (w : World State) (publisher rest msg rest' : Bytes)
      → w.mgr_alive ≡ true
      → log.log_data ≡ registration_data publisher event.contract_addr rest
      → length publisher ≡ 20
      → length event.contract_addr ≡ 20
      → abi.to_bytes event.log_data ≡ ok (msg, rest')
      → let t = after (reg_event_handler em abi hdr log w) in
        let u = after (notify_past_event_handler em abi hdr' event t) in
        (get_event_mgr_addr u.store publisher ≡ event.contract_addr)
        × ((b : Bytes)
            → get_past_events u.store b
              ≡ get_past_events w.store b
                ++ (if bytes_eq event.contract_addr b then event_data hdr' msg ∷ [] else []))
  registration-notify_past_event_handler w publisher rest msg rest' alive d lp le m =
      let (q, h) = queue-save_registration publisher event.contract_addr w.store in
      rw
        (
          registered em abi hdr log w publisher event.contract_addr rest alive d lp le,
          notify_past_parsed em abi hdr' event _ msg rest' m,
        )
        (
          get_event_mgr_addr-save_past_event event.contract_addr publisher _ _
              ∙ (get_event_mgr_addr-save_registration publisher event.contract_addr publisher
                    w.store
                  ∙ if_true _ _ (bytes_eq_refl publisher)),
          λ b.
              get_past_events-save_past_event event.contract_addr b (event_data hdr' msg) _ q h
              ∙ ap
                  (λ l.
                    l ++ (if bytes_eq event.contract_addr b then event_data hdr' msg ∷ [] else []))
                  (get_past_events-save_registration publisher event.contract_addr b w.store),
        )
