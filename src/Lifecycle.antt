-- ===== src/Lifecycle.antt =====
-- What the event manager and the publish-subscribe store agree on, whatever the threads do: the
-- invariant of the handlers in include/DecentEthereum/Trusted/Pubsub/SubscriberService.hpp.
pub mod Listeners
pub mod Subscribers
pub mod Growth
pub mod Service
pub mod Deployment
pub mod Delivery
pub mod Reachable
pub mod Boot
pub mod Sizes
pub mod SizedRuns
use decent_ethereum.Base.{
  ℕ, ◌≡◌, Bool, true, false, List, [], ◌∷◌, Option, none, some, Bytes, lookup, replicate, ◌++◌,
}
use decent_ethereum.External.{
  Callback, deploy, reg, notify_past, notify, receipt, EventDescription, EventManager,
}
use decent_ethereum.World.{PubsubServiceStore, EventDataQueue}

-- The listeners of the service: for its deployment, for registrations, and for the notifications of
-- one event manager.
abbrev pub deploy_listener : PubsubServiceStore → EventDescription
deploy_listener s = record {
  contract_addr = s.pubsub_cont_addr;
  topics = s.deploy_ev_topic ∷ (replicate 12 0 ++ s.pubsub_cont_addr) ∷ [];
  callback = deploy;
}

abbrev pub reg_listener : PubsubServiceStore → EventDescription
reg_listener s = record {
  contract_addr = s.pubsub_cont_addr;
  topics = s.reg_ev_topic ∷ [];
  callback = reg;
}

abbrev pub past_listener : Bytes → PubsubServiceStore → EventDescription
past_listener addr s = record {
  contract_addr = addr;
  topics = s.notify_ev_topic ∷ [];
  callback = notify_past;
}

-- An event manager contract has a queue for its past events.
abbrev pub HasQueue : PubsubServiceStore → Bytes → Type 0
HasQueue s addr = (q : EventDataQueue) × (lookup addr s.past_event_store ≡ some q)

-- A listener of the service is the one for its callback, and stands where
-- the service is ready for it. One for live events asks for the notifications' topic; one for
-- receipts asks for what its subscriber wants.
abbrev pub Wired : PubsubServiceStore → EventDescription → Callback → Type 0
Wired s d deploy = (s.is_deployed ≡ false) × (d ≡ deploy_listener s)
Wired s d reg = (s.is_deployed ≡ true) × (d ≡ reg_listener s)
Wired s d notify_past = HasQueue s d.contract_addr × (d ≡ past_listener d.contract_addr s)
Wired s d (notify q) = d.topics ≡ s.notify_ev_topic ∷ []
Wired s d (receipt q) = Unit

-- The two listeners that drive the service: for its deployment, then for registrations.
abbrev pub drives : Callback → Bool
drives deploy = true
drives reg = true
drives _ = false

abbrev pub is_subscriber : Callback → Bool
is_subscriber (notify q) = true
is_subscriber (receipt q) = true
is_subscriber _ = false

-- The listener that drives the service now.
abbrev pub driver : PubsubServiceStore → Bool → EventDescription
driver s true = reg_listener s
driver s false = deploy_listener s

module _ (em : EventManager) where
  open em use {State, find, Used}

  -- The id was given to a subscriber, and no service listener has it.
  pub record IsOutside (m : State) (id : ℕ) : Type 0 where
    pub used : Used id m
    pub outside : (d : EventDescription) → find id m ≡ some d → is_subscriber d.callback ≡ true

  pub record Inv (m : State) (s : PubsubServiceStore) : Type 0 where
    pub wired : (id : ℕ) (d : EventDescription) → find id m ≡ some d → Wired s d d.callback
    -- At most one listener drives the service.
    pub one_driver :
        (i j : ℕ) (d e : EventDescription)
        → find i m ≡ some d
        → find j m ≡ some e
        → drives d.callback ≡ true
        → drives e.callback ≡ true
        → i ≡ j
    -- There is one.
    pub driven : (id : ℕ) × (find id m ≡ some (driver s s.is_deployed))
    -- The event manager of a registered publisher has a queue and a listener.
    pub heard :
        (publisher addr : Bytes)
        → lookup publisher s.ev_mgr_addr_map ≡ some addr
        → HasQueue s addr × ((id : ℕ) × (find id m ≡ some (past_listener addr s)))
    -- Nobody is registered before the deployment.
    pub silent : s.is_deployed ≡ false → (s.ev_mgr_addr_map ≡ []) × (s.past_event_store ≡ [])
