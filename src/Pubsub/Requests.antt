-- ===== src/Pubsub/Requests.antt =====
-- The subscribe request, `SubReq`: how it ends, and what it leaves.
use decent_ethereum.Base.{
  ℕ, ◌≡◌, ◌≢◌, refl, ap, ◌∙◌, false, inl, inr, ◌⊎◌, [], ◌∷◌, ◌++◌, some, none, Bytes, Error, Result,
  ok, err, Result-cases, Outcome, done, thrown, after, bytes_eq, bytes_eq_iff, lift, Bytes-cases,
  Exec, push_back, alloc, clear, bind-done, ◌>>=◌, if_true, if_false, ==_refl,
}
use decent_ethereum.External.{EventManager, RlpParser}
use decent_ethereum.World.{World, events}
use decent_ethereum.Pubsub.Service.{
  get_past_events, get_event_mgr_addr, get_notify_event_topic, zero_addr,
}
use decent_ethereum.Pubsub.Handler.{
  Dict, MonitorView, build_emitted_msg, build_notify_event_descr, publisher_of, subscribe_events,
  respond_events, sub_req, emitter_handler,
}

bytes_eq_ne : (xs ys : Bytes) → xs ≢ ys → bytes_eq xs ys ≡ false
bytes_eq_ne xs ys n = elim (Bytes-cases xs ys) [ inl e ↦ absurd (n e) | inr (_, f) ↦ f ]

module _ (em : EventManager) (write : Dict → Bytes) (rlp : RlpParser) (accepted : Result (Unit {0}))
    (view : MonitorView) (socket : ℕ) (content : Bytes) (w : World em.State) where
  open em use {State, listen, find, find-listen_new}

  abbrev request : Outcome (World State) (Unit {0})
  request = sub_req em write rlp accepted view socket content w

  read :
      (p : Bytes) → publisher_of rlp content ≡ ok p → lift (publisher_of rlp content) w ≡ done p w
  read p h = ap (λ r. lift r w) h

  run_here : Exec (World State) (Unit {0}) → Outcome (World State) (Unit {0})
  run_here f = f w

  pub sub_req-malformed : (e : Error) → publisher_of rlp content ≡ err e → request ≡ thrown e w
  unfolding sub_req
  sub_req-malformed e h = rw (h, sub_req)

  -- A subscribe request for a publisher whose event manager is the zero address, as for one that is
  -- not registered, sends nothing and changes nothing.
  pub sub_req-unknown :
      (p : Bytes)
      → publisher_of rlp content ≡ ok p
      → get_event_mgr_addr w.store p ≡ zero_addr
      → request ≡ done tt w
  unfolding sub_req run_here
  sub_req-unknown p h k =
      bind-done (lift (publisher_of rlp content)) _ (read p h)
      ∙ ap run_here (if_true _ _ ((bytes_eq_iff (get_event_mgr_addr w.store p) zero_addr).1 k))

  pub sub_req-known :
      (p : Bytes)
      → publisher_of rlp content ≡ ok p
      → get_event_mgr_addr w.store p ≢ zero_addr
      → let addr = get_event_mgr_addr w.store p in
        request ≡ (subscribe_events em addr >>= respond_events em write accepted view socket addr) w
  unfolding sub_req run_here
  sub_req-known p h k =
      bind-done (lift (publisher_of rlp content)) _ (read p h)
      ∙ ap run_here (if_false _ _ (bytes_eq_ne (get_event_mgr_addr w.store p) zero_addr k))

  pub sub_req-subscribed :
      (p : Bytes)
      → publisher_of rlp content ≡ ok p
      → get_event_mgr_addr w.store p ≢ zero_addr
      → let addr = get_event_mgr_addr w.store p in
        let t = after request in
        let queue = w.event_queues.next in
        let msg = build_emitted_msg write view (get_past_events w.store addr) in
        (id : ℕ) × (find id t.event_mgr
          ≡ some (build_notify_event_descr addr (get_notify_event_topic w.store) queue))
        × (t.event_queues.cell queue ≡ [])
        × (((accepted ≡ ok tt)
              × (t.sockets ≡ push_back socket msg w.sockets)
              × (t.emitters
                  ≡ w.emitters
                    ++ record { kind = events; socket = socket; queue = queue; listen_id = id }
                      ∷ []))
            ⊎ ((e : Error) × (accepted ≡ err e)
                × (t.sockets ≡ w.sockets)
                × (t.emitters ≡ w.emitters)))
  unfolding subscribe_events respond_events alloc
  sub_req-subscribed p h k = elim (Result-cases accepted) [
    | inl (e, f) ↦
        rw (sub_req-known p h k ∙ ap answered f)
          (new_id, registered, emptied, inr (e, f, refl, refl))
    | inr (u, f) ↦
        rw (sub_req-known p h k ∙ ap answered f) (new_id, registered, emptied, inl (f, refl, refl))
  ]
    where
      addr : Bytes
      addr = get_event_mgr_addr w.store p

      answered : Result (Unit {0}) → Outcome (World State) (Unit {0})
      answered r = (subscribe_events em addr >>= respond_events em write r view socket addr) w

      new_id : ℕ
      new_id =
          (listen
            (build_notify_event_descr addr (get_notify_event_topic w.store) w.event_queues.next)
            w.event_mgr).1

      registered :
          find new_id
            (listen
              (build_notify_event_descr addr (get_notify_event_topic w.store) w.event_queues.next)
              w.event_mgr).0
          ≡ some
              (build_notify_event_descr addr (get_notify_event_topic w.store) w.event_queues.next)
      registered = find-listen_new _ w.event_mgr

      emptied : (alloc w.event_queues).cell w.event_queues.next ≡ []
      emptied = if_true _ _ (==_refl w.event_queues.next)

module _ (em : EventManager) (write : Dict → Bytes) (accepted : Result (Unit {0}))
    (view : MonitorView) (socket queue id : ℕ) (w : World em.State) where
  open em use {State, find, find-cancel_self}

  -- A heartbeat empties its queue whether the socket takes the message or not. If it does, the one
  -- message sent is built of what the queue held, and the listeners are those of before; if it does
  -- not, the exception goes on, nothing is sent, and the listener is no longer there.
  pub emitter_handler-drained :
      let t = after (emitter_handler em write accepted view socket queue id w) in
      let msg = build_emitted_msg write view (w.event_queues.cell queue) in
      (t.event_queues.cell queue ≡ [])
      × (((accepted ≡ ok tt)
            × (t.sockets ≡ push_back socket msg w.sockets)
            × (t.event_mgr ≡ w.event_mgr))
          ⊎ ((e : Error) × (accepted ≡ err e)
              × (emitter_handler em write accepted view socket queue id w ≡ thrown e t)
              × (t.sockets ≡ w.sockets)
              × (find id t.event_mgr ≡ none)))
  unfolding emitter_handler clear
  emitter_handler-drained = elim (Result-cases accepted) [
    | inr (u, h) ↦ rw (ap beat h) (if_true _ _ (==_refl queue), inl (h, refl, refl))
    | inl (e, h) ↦
        rw (ap beat h)
          (if_true _ _ (==_refl queue), inr (e, h, refl, refl, find-cancel_self w.event_mgr id))
  ]
    where
      beat : Result (Unit {0}) → Outcome (World State) (Unit {0})
      beat r = emitter_handler em write r view socket queue id w
