-- ===== src/Pubsub/PastEvents.antt =====
-- What the store of past events holds after each of its updates.
use decent_ethereum.Base.{
  ◌≡◌, inl, inr, [], ◌∷◌, ◌++◌, some, Bytes, arith, lookup, lookup-insert, lookup-emplace_self,
  lookup-emplace_ne, bytes_eq, bytes_eq_refl, Bytes-cases, if◌then◌else◌, append-nil,
}
use decent_ethereum.World.{EventData, EventDataQueue, PubsubServiceStore}
use decent_ethereum.Pubsub.Service.{get_past_events, save_past_event, save_registration}

pub get_past_events-save_past_event :
    (k b : Bytes) (e : EventData) (s : PubsubServiceStore) (q : EventDataQueue)
    → lookup k s.past_event_store ≡ some q
    → get_past_events (save_past_event k e s) b
      ≡ get_past_events s b ++ (if bytes_eq k b then e ∷ [] else [])
unfolding get_past_events save_past_event
get_past_events-save_past_event k b e s q h = elim (Bytes-cases k b) [
  | inl p ↦ ground (arith, lookup-insert k b (q ++ e ∷ []) s.past_event_store, bytes_eq_refl k)
  | inr (_, n) ↦
      ground (
        arith,
        lookup-insert k b (q ++ e ∷ []) s.past_event_store,
        append-nil (get_past_events s b),
      )
]

pub get_past_events-save_registration :
    (p a b : Bytes) (s : PubsubServiceStore)
    → get_past_events (save_registration p a s) b ≡ get_past_events s b
unfolding get_past_events save_registration
get_past_events-save_registration p a b s = elim (Bytes-cases a b) [
  | inl e ↦ ground (arith, lookup-emplace_self a [] s.past_event_store)
  | inr (_, n) ↦ ground (arith, lookup-emplace_ne a b [] s.past_event_store)
]
