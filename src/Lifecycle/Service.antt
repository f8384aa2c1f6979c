-- ===== src/Lifecycle/Service.antt =====
-- The deployment, the registrations and the notifications keep the invariant.
use decent_ethereum.Base.{
  ℕ, ◌≡◌, refl, sym, ap, ◌∙◌, true, false, inl, inr, [], some, none, arith, Bytes, lookup,
  lookup-insert, bytes_eq, bytes_eq_refl, Bytes-cases, if◌then◌else◌,
}
use decent_ethereum.External.{EventDescription, EventManager}
use decent_ethereum.World.{PubsubServiceStore, EventData}
use decent_ethereum.Pubsub.Service.{
  build_notify_past_event_descr, save_registration, save_past_event,
}
use decent_ethereum.Lifecycle.{past_listener, Inv, drives, driver, HasQueue}
use decent_ethereum.Lifecycle.Listeners.{find-listen_cases, find-listen_keep}
use decent_ethereum.Lifecycle.Growth.{
  Extends, Wired-Extends, driver-Extends, HasQueue-emplace_self, save_past_event-Extends,
  save_registration-Extends,
}

-- Until the deployment nothing can be heard: the store has no queues.
save_past_event_silent :
    (s : PubsubServiceStore) (k : Bytes) (e : EventData)
    → s.past_event_store ≡ []
    → save_past_event k e s ≡ s
unfolding save_past_event lookup
save_past_event_silent s k e h =
    let n : lookup k s.past_event_store ≡ none = rw h refl in rw (n, save_past_event)

ev_mgr_addr_map-save_past_event :
    (s : PubsubServiceStore) (k : Bytes) (e : EventData)
    → (save_past_event k e s).ev_mgr_addr_map ≡ s.ev_mgr_addr_map
unfolding save_past_event
ev_mgr_addr_map-save_past_event s k e = ground arith

driver-grows :
    (s t : PubsubServiceStore) → Extends s t → driver t t.is_deployed ≡ driver s s.is_deployed
driver-grows s t x = ap (driver t) x.deployed ∙ driver-Extends s t s.is_deployed x

lookup-save_registration :
    (s : PubsubServiceStore) (p a k : Bytes)
    → lookup k (save_registration p a s).ev_mgr_addr_map
      ≡ (if bytes_eq p k then some a else lookup k s.ev_mgr_addr_map)
unfolding save_registration
lookup-save_registration s p a k = lookup-insert p k a s.ev_mgr_addr_map

HasQueue-save_registration :
    (s : PubsubServiceStore) (p a : Bytes) → HasQueue (save_registration p a s) a
unfolding save_registration
HasQueue-save_registration s p a = HasQueue-emplace_self s a

module _ (em : EventManager) where
  open em use {State, listen, cancel, find, find-listen_new}

  pub save_past_event-Inv :
      (m : State) (s : PubsubServiceStore) (k : Bytes) (e : EventData)
      → Inv em m s
      → Inv em m (save_past_event k e s)
  save_past_event-Inv m s k e v = record {
    wired = λ id d h. Wired-Extends s t d d.callback x (v.wired id d h);
    one_driver = v.one_driver;
    driven = (v.driven.0, v.driven.1 ∙ ap some (sym (driver-grows s t x)));
    heard = λ p a h.
        let (q, (id, f)) = v.heard p a (rw (ev_mgr_addr_map-save_past_event s k e) at h) in
        (x.queues a q, (id, f ∙ ap some (sym (x.past_descr a))));
    silent = λ h.
        let (r, q) = v.silent (sym x.deployed ∙ h) in
        (
          ev_mgr_addr_map-save_past_event s k e ∙ r,
          ap (λ u. u.past_event_store) (save_past_event_silent s k e q) ∙ q,
        );
  }
    where
      t : PubsubServiceStore
      t = save_past_event k e s

      x : Extends s t
      x = save_past_event-Extends s k e

  -- A registration: the maps, then the listener.
  pub registration-Inv :
      (m : State) (s : PubsubServiceStore) (p a : Bytes)
      → s.is_deployed ≡ true
      → Inv em m s
      → let t = save_registration p a s in Inv em (listen (build_notify_past_event_descr a t) m).0 t
  unfolding build_notify_past_event_descr
  registration-Inv m s p a up v = record {
    wired = λ id e h. elim (find-listen_cases em d e m id h) [
      | inl (_, q) ↦ rw q (HasQueue-save_registration s p a, refl)
      | inr (_, q) ↦ Wired-Extends s t e e.callback x (v.wired id e q)
    ];
    one_driver = λ i j e f hi hj di dj. v.one_driver i j e f (old i e hi di) (old j f hj dj) di dj;
    driven = (
      v.driven.0,
      find-listen_keep em d _ m v.driven.0 (v.driven.1 ∙ ap some (sym (driver-grows s t x))),
    );
    heard = λ k b h. elim (Bytes-cases p k) [
      | inl q ↦ mapped b (new k b q h)
      | inr (_, n) ↦
          let (r, (id, f)) = v.heard k b (kept k b n h) in
          (x.queues b r, (id, find-listen_keep em d _ m id (f ∙ ap some (sym (x.past_descr b)))))
    ];
    silent = λ h. cc (x.deployed, up);
  }
    where
      t : PubsubServiceStore
      t = save_registration p a s

      d : EventDescription
      d = build_notify_past_event_descr a t

      x : Extends s t
      x = save_registration-Extends s p a

      old :
          (i : ℕ) (e : EventDescription)
          → find i (listen d m).0 ≡ some e
          → drives e.callback ≡ true
          → find i m ≡ some e
      old i e h di = elim (find-listen_cases em d e m i h) [
        | inl (_, q) ↦ cc (ap (λ u. drives u.callback) q)
        | inr (_, q) ↦ q
      ]

      new : (k b : Bytes) → p ≡ k → lookup k t.ev_mgr_addr_map ≡ some b → b ≡ a
      new k b q h = ground (arith, lookup-save_registration s p a k, bytes_eq_refl k)

      kept :
          (k b : Bytes)
          → bytes_eq p k ≡ false
          → lookup k t.ev_mgr_addr_map ≡ some b
          → lookup k s.ev_mgr_addr_map ≡ some b
      kept k b n h = ground (arith, lookup-save_registration s p a k)

      mapped :
          (b : Bytes)
          → b ≡ a
          → HasQueue t b × ((id : ℕ) × (find id (listen d m).0 ≡ some (past_listener b t)))
      mapped b q = rw q (HasQueue-save_registration s p a, ((listen d m).1, find-listen_new d m))
