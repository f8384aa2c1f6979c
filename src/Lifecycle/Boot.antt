-- ===== src/Lifecycle/Boot.antt =====
-- The invariant from the constructor on, and what it gives to the handlers.
use decent_ethereum.Base.{
  ℕ, ◌≡◌, refl, sym, ◌∙◌, subst, Bool, false, inl, inr, List, [], ◌∷◌, some, none, Bytes, lookup,
}
use decent_ethereum.External.{EventDescription, EventManager, AbiParser}
use decent_ethereum.World.{PubsubServiceStore}
use decent_ethereum.Pubsub.Service.{new_store, build_deploy_event_descr, address_to_abi_address}
use decent_ethereum.Pubsub.Handler.{Dict}
use decent_ethereum.Dispatch.{System, Reach, boot}
use decent_ethereum.Lifecycle.{Inv, driver}
use decent_ethereum.Lifecycle.Listeners.{find-listen_cases}
use decent_ethereum.Lifecycle.Delivery.{SystemInv}
use decent_ethereum.Lifecycle.Reachable.{Reach-SystemInv}

-- A store as the constructor leaves it.
pub record IsNew (s : PubsubServiceStore) : Type 0 where
  pub undeployed : s.is_deployed ≡ false
  pub unmapped : s.ev_mgr_addr_map ≡ []
  pub no_events : s.past_event_store ≡ []

pub new_store-IsNew :
    (k : Bytes → Bytes) (addr dep reg not : Bytes) → IsNew (new_store k addr dep reg not)
unfolding new_store
new_store-IsNew k addr dep reg not = record { undeployed = refl; unmapped = refl; no_events = refl }

lookup-nothing : (k a : Bytes) (m : List (Bytes × Bytes)) → m ≡ [] → lookup k m ≡ some a → ⊥
unfolding lookup
lookup-nothing k a [] e h = cc
lookup-nothing k a (x ∷ m) e h = cc

module _ (em : EventManager) (m : em.State) (no_listener : (i : ℕ) → em.find i m ≡ none) where
  open em use {State, listen, find, find-listen_new}

  boot-Inv : (s : PubsubServiceStore) → IsNew s → Inv em (listen (build_deploy_event_descr s) m).0 s
  unfolding build_deploy_event_descr address_to_abi_address
  boot-Inv s n = record {
    wired = λ id e h. elim (find-listen_cases em d e m id h) [
      | inl (_, p) ↦ rw p (n.undeployed, refl)
      | inr (_, p) ↦ cc (no_listener id)
    ];
    one_driver = λ i j e f hi hj di dj. only i e hi ∙ sym (only j f hj);
    driven = ((listen d m).1, subst IsDriven (sym n.undeployed) (find-listen_new d m));
    heard = λ p a h. absurd (lookup-nothing p a _ n.unmapped h);
    silent = λ h. (n.unmapped, n.no_events);
  }
    where
      d : EventDescription
      d = build_deploy_event_descr s

      only : (i : ℕ) (e : EventDescription) → find i (listen d m).0 ≡ some e → i ≡ (listen d m).1
      only i e h = elim (find-listen_cases em d e m i h) [
        | inl (p, _) ↦ p
        | inr (_, p) ↦ cc (no_listener i)
      ]

      IsDriven : Bool → Type 0
      IsDriven b = find (listen d m).1 (listen d m).0 ≡ some (driver s b)

  pub boot-SystemInv : (s : PubsubServiceStore) → IsNew s → SystemInv em (boot em m s)
  unfolding boot
  boot-SystemInv s n = record {
    alive = refl;
    service = boot-Inv s n;
    held = record { emitters = tt; requests = tt };
  }

  -- Start from an event manager without listeners, the store as its constructor leaves it, and
  -- `Start`. Then in every state that the threads reach by any interleaving of delivered logs,
  -- heartbeats, subscriptions and receipt requests: each listener of the service has the contract
  -- and the topics that belong to its callback (deployment, registrations, or the notifications of
  -- one event manager), and each listener for a subscriber's live events asks for the topic of
  -- notifications alone; exactly one listener drives the service, for the deployment until it is
  -- seen and for registrations from then on; every registered publisher's event manager has a past
  -- event queue and a listener that fills it; and no request or emitter holds the id of a service
  -- listener.
  pub boot-Reach-SystemInv :
      (abi : AbiParser) (write : Dict → Bytes) (s : PubsubServiceStore) (z : System State)
      → IsNew s
      → Reach em abi write (boot em m s) z
      → SystemInv em z
  boot-Reach-SystemInv abi write s z n r =
      Reach-SystemInv em abi write (boot em m s) z r (boot-SystemInv s n)
