-- ===== src/Lifecycle/Growth.antt =====
-- How the store grows: queues are added and never dropped, and the descriptions stay the same.
use decent_ethereum.Base.{
  ◌≡◌, refl, sym, ap, ◌∙◌, Bool, true, false, inl, inr, List, [], ◌∷◌, ◌++◌, Bytes, lookup, insert,
  emplace, lookup-insert, lookup-emplace_self, lookup-emplace_ne, bytes_eq_refl, Bytes-cases,
  Option-cases,
}
use decent_ethereum.External.{Callback, deploy, reg, notify_past, notify, receipt, EventDescription}
use decent_ethereum.World.{PubsubServiceStore, EventData}
use decent_ethereum.Pubsub.Service.{save_registration, save_past_event}
use decent_ethereum.Lifecycle.{
  deploy_listener, reg_listener, past_listener, Wired, driver, HasQueue,
}

-- The store has grown: the same service, with at least the queues it had.
pub record Extends (s t : PubsubServiceStore) : Type 0 where
  pub deployed : t.is_deployed ≡ s.is_deployed
  pub deploy_descr : deploy_listener t ≡ deploy_listener s
  pub reg_descr : reg_listener t ≡ reg_listener s
  pub past_descr : (a : Bytes) → past_listener a t ≡ past_listener a s
  pub topic : t.notify_ev_topic ≡ s.notify_ev_topic
  pub queues : (a : Bytes) → HasQueue s a → HasQueue t a

pub Wired-Extends :
    (s t : PubsubServiceStore) (d : EventDescription) (c : Callback)
    → Extends s t
    → Wired s d c
    → Wired t d c
Wired-Extends s t d deploy x (h, e) = (x.deployed ∙ h, e ∙ sym x.deploy_descr)
Wired-Extends s t d reg x (h, e) = (x.deployed ∙ h, e ∙ sym x.reg_descr)
Wired-Extends s t d notify_past x (q, e) = (x.queues _ q, e ∙ sym (x.past_descr d.contract_addr))
Wired-Extends s t d (notify q) x h = h ∙ ap (λ topic. topic ∷ []) (sym x.topic)
Wired-Extends s t d (receipt q) x h = tt

pub driver-Extends : (s t : PubsubServiceStore) (b : Bool) → Extends s t → driver t b ≡ driver s b
driver-Extends s t true x = x.reg_descr
driver-Extends s t false x = x.deploy_descr

HasQueue-insert :
    (s : PubsubServiceStore) (k a : Bytes) (q : List EventData)
    → HasQueue s a
    → HasQueue (record s { past_event_store = insert k q s.past_event_store }) a
HasQueue-insert s k a q (r, h) = elim (Bytes-cases k a) [
  | inl p ↦ (q, rw (lookup-insert k a q s.past_event_store, p, bytes_eq_refl a))
  | inr (_, n) ↦ (r, rw (lookup-insert k a q s.past_event_store, n) h)
]

pub HasQueue-emplace_self :
    (s : PubsubServiceStore) (a : Bytes)
    → HasQueue (record s { past_event_store = emplace a [] s.past_event_store }) a
HasQueue-emplace_self s a = elim (Option-cases (lookup a s.past_event_store)) [
  | inl n ↦ ([], rw (lookup-emplace_self a [] s.past_event_store, n))
  | inr (q, h) ↦ (q, rw (lookup-emplace_self a [] s.past_event_store, h))
]

HasQueue-emplace :
    (s : PubsubServiceStore) (k a : Bytes)
    → HasQueue s a
    → HasQueue (record s { past_event_store = emplace k [] s.past_event_store }) a
HasQueue-emplace s k a (q, h) = elim (Bytes-cases k a) [
  | inl p ↦ rw p (HasQueue-emplace_self s a)
  | inr (_, n) ↦ (q, rw (lookup-emplace_ne k a [] s.past_event_store n) h)
]

pub save_past_event-Extends :
    (s : PubsubServiceStore) (k : Bytes) (e : EventData) → Extends s (save_past_event k e s)
unfolding save_past_event
save_past_event-Extends s k e = elim (Option-cases (lookup k s.past_event_store)) [
  | inl n ↦
      rw (n, save_past_event)
        (record {
          deployed = refl;
          deploy_descr = refl;
          reg_descr = refl;
          past_descr = λ a. refl;
          topic = refl;
          queues = λ a q. q;
        })
  | inr (q, h) ↦
      rw (h, save_past_event)
        (record {
          deployed = refl;
          deploy_descr = refl;
          reg_descr = refl;
          past_descr = λ a. refl;
          topic = refl;
          queues = λ a. HasQueue-insert s k a (q ++ e ∷ []);
        })
]

pub save_registration-Extends :
    (s : PubsubServiceStore) (p a : Bytes) → Extends s (save_registration p a s)
unfolding save_registration
save_registration-Extends s p a = record {
  deployed = refl;
  deploy_descr = refl;
  reg_descr = refl;
  past_descr = λ a. refl;
  topic = refl;
  queues = λ b. HasQueue-emplace s a b;
}
