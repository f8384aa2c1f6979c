-- ===== src/Lifecycle/Sizes.antt =====
-- The sizes of the fixed arrays: a `ContractAddr` has 20 bytes, an `EventTopic` and an ABI word 32.
-- Byte strings stand for them in the model; the code's types fix their sizes.
use decent_ethereum.Base.{
  ◌≡◌, refl, sym, ap, ◌∙◌, subst, false, inl, inr, [], ◌∷◌, Option-cases, Bytes, lookup, length,
  All, All-lookup, All-insert, All-emplace, length-append, length-drop, arith,
}
use decent_ethereum.External.{Callback, deploy, reg, notify_past, notify, receipt, EventDescription}
use decent_ethereum.World.{EventData, EventDataQueue, PubsubServiceStore}
use decent_ethereum.Pubsub.Service.{
  get_event_mgr_addr, address_to_abi_address, abi_address_to_address, build_notify_past_event_descr,
  build_reg_event_descr, build_deploy_event_descr, save_past_event, save_registration,
}
use decent_ethereum.Receipts.{addr_size, topic_size}
use decent_ethereum.Lifecycle.{Wired, is_subscriber}

abbrev pub IsAddr : Bytes → Type 0
IsAddr a = length a ≡ addr_size

abbrev pub IsTopic : Bytes → Type 0
IsTopic t = length t ≡ topic_size

-- Every array in the store has the size of its type.
pub record StoreSized (s : PubsubServiceStore) : Type 0 where
  pub pubsub : IsAddr s.pubsub_cont_addr
  pub deploy_topic : IsTopic s.deploy_ev_topic
  pub reg_topic : IsTopic s.reg_ev_topic
  pub notify_topic : IsTopic s.notify_ev_topic
  pub publishers : All (λ (e : Bytes × Bytes). IsAddr e.0 × IsAddr e.1) s.ev_mgr_addr_map
  pub queues : All (λ (e : Bytes × EventDataQueue). IsAddr e.0) s.past_event_store

-- A description's contract and topics.
abbrev pub DescrSized : EventDescription → Type 0
DescrSized d = IsAddr d.contract_addr × All IsTopic d.topics

pub abi_address_to_address-IsAddr :
    (word : Bytes) → length word ≡ 32 → IsAddr (abi_address_to_address word)
unfolding abi_address_to_address
abi_address_to_address-IsAddr word h = omega (arith, length-drop 12 word)

address_to_abi_address-IsTopic : (a : Bytes) → IsAddr a → IsTopic (address_to_abi_address a)
unfolding address_to_abi_address
address_to_abi_address-IsTopic a h =
    length-append (0 ∷ 0 ∷ 0 ∷ 0 ∷ 0 ∷ 0 ∷ 0 ∷ 0 ∷ 0 ∷ 0 ∷ 0 ∷ 0 ∷ []) a ∙ omega arith

pub save_past_event-StoreSized :
    (addr : Bytes) (event : EventData) (s : PubsubServiceStore)
    → StoreSized s
    → StoreSized (save_past_event addr event s)
unfolding save_past_event
save_past_event-StoreSized addr event s v = elim (Option-cases (lookup addr s.past_event_store)) [
  | inl e ↦ rw (e, save_past_event) v
  | inr (q, e) ↦
      rw (e, save_past_event)
        (record {
          pubsub = v.pubsub;
          deploy_topic = v.deploy_topic;
          reg_topic = v.reg_topic;
          notify_topic = v.notify_topic;
          publishers = v.publishers;
          queues =
              All-insert (λ (e : Bytes × EventDataQueue). IsAddr e.0) addr _ s.past_event_store
                (All-lookup (λ (e : Bytes × EventDataQueue). IsAddr e.0) addr q s.past_event_store e
                  v.queues)
                v.queues;
        })
]

pub save_registration-StoreSized :
    (pub_addr addr : Bytes) (s : PubsubServiceStore)
    → IsAddr pub_addr
    → IsAddr addr
    → StoreSized s
    → StoreSized (save_registration pub_addr addr s)
unfolding save_registration
save_registration-StoreSized pub_addr addr s h k v = record {
  pubsub = v.pubsub;
  deploy_topic = v.deploy_topic;
  reg_topic = v.reg_topic;
  notify_topic = v.notify_topic;
  publishers = All-insert _ pub_addr addr s.ev_mgr_addr_map (h, k) v.publishers;
  queues =
      All-emplace (λ (e : Bytes × EventDataQueue). IsAddr e.0) addr [] s.past_event_store k
        v.queues;
}

-- The address that a request finds for a publisher, known or not.
pub get_event_mgr_addr-IsAddr :
    (s : PubsubServiceStore) (p : Bytes) → StoreSized s → IsAddr (get_event_mgr_addr s p)
unfolding get_event_mgr_addr
get_event_mgr_addr-IsAddr s p v = elim (Option-cases (lookup p s.ev_mgr_addr_map)) [
  | inl e ↦ rw (e, get_event_mgr_addr) refl
  | inr (a, e) ↦
      rw (e, get_event_mgr_addr)
        (All-lookup (λ (e : Bytes × Bytes). IsAddr e.0 × IsAddr e.1) p a s.ev_mgr_addr_map e
          v.publishers).1
]

pub Wired-DescrSized :
    (s : PubsubServiceStore) (d : EventDescription) (c : Callback)
    → Wired s d c
    → is_subscriber c ≡ false
    → StoreSized s
    → DescrSized d
unfolding build_reg_event_descr build_deploy_event_descr build_notify_past_event_descr
Wired-DescrSized s d deploy (_, e) h v =
    rw e
      (v.pubsub, (v.deploy_topic, (address_to_abi_address-IsTopic s.pubsub_cont_addr v.pubsub, tt)))
Wired-DescrSized s d reg (_, e) h v = rw e (v.pubsub, (v.reg_topic, tt))
Wired-DescrSized s d notify_past ((q, f), e) h v = (
  All-lookup (λ (e : Bytes × EventDataQueue). IsAddr e.0) d.contract_addr q s.past_event_store f
      v.queues,
  subst (All IsTopic) (sym (ap (λ (d : EventDescription). d.topics) e)) (v.notify_topic, tt),
)
Wired-DescrSized s d (notify q) w h v = cc
Wired-DescrSized s d (receipt q) w h v = cc
