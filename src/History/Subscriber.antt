-- ===== src/History/Subscriber.antt =====
-- All that a subscriber is sent, from the request to its last heartbeat.
use decent_ethereum.Base.{
  ℕ, ◌<◌, ◌≡◌, refl, sym, ap, ◌∙◌, List, [], ◌∷◌, ◌++◌, none, Bytes, ok, after, push_back, alloc,
  append-nil, append_assoc, ==_refl, if_true, arith,
}
use decent_ethereum.External.{EventManager, AbiParser}
use decent_ethereum.World.{PubsubServiceStore}
use decent_ethereum.Pubsub.Service.{get_past_events}
use decent_ethereum.Pubsub.Handler.{
  Dict, MonitorView, build_emitted_msg, subscribe_events, respond_events,
}
use decent_ethereum.Dispatch.{
  System, Pending, Reach, begin, answer, here, next, boot, begin_request,
}
use decent_ethereum.Lifecycle.Boot.{IsNew}
use decent_ethereum.History.{step_notified, notified, arrived, taken}
use decent_ethereum.History.PastEvents.{boot-past_events-notified}
use decent_ethereum.History.Queues.{taken-arrived}

module _ (em : EventManager) (abi : AbiParser) (write : Dict → Bytes) where
  open em use {State, find}

  -- One run after the other.
  pub follow :
      {y z u : System State}
      → Reach em abi write y z
      → Reach em abi write z u
      → Reach em abi write y u
  follow r here = r
  follow r (next s st) = next (follow r s) st

  notified-follow :
      {y z u : System State} (r : Reach em abi write y z) (s : Reach em abi write z u)
      (addr : Bytes)
      → notified em abi write (follow r s) addr
        ≡ notified em abi write r addr ++ notified em abi write s addr
  unfolding follow notified
  notified-follow r here addr = sym (append-nil _)
  notified-follow r (next s st) addr =
      ap (λ q. q ++ step_notified em abi write st addr) (notified-follow r s addr)
      ∙ append_assoc (notified em abi write r addr) _ _

  begun_queue :
      (addr : Bytes) (y : System State)
      → let q = y.world.event_queues.next in
        let z = begin_request em addr y in
        (z.world.event_queues.cell q ≡ []) × (q < z.world.event_queues.next)
  unfolding begin_request subscribe_events alloc
  begun_queue addr y = (if_true _ _ (==_refl y.world.event_queues.next), omega arith)

  -- A request that begins tells nobody of a notification.
  notified-begin :
      {y z : System State} (r : Reach em abi write y z) (a addr : Bytes)
      → notified em abi write (next r (begin a refl)) addr ≡ notified em abi write r addr
  unfolding notified
  notified-begin r a addr = append-nil _

  -- The request for `addr` that began at `y`.
  abbrev pub asked : Bytes → ℕ → System State → Pending
  asked addr id y = record { ev_mgr_addr = addr; queue = y.world.event_queues.next; listen_id = id }

  -- `u` once the request is answered.
  abbrev pub answered :
      MonitorView → ℕ → List Pending → List Pending → Pending → System State → System State
  answered view socket before rest p u = record {
    world =
        after (
          respond_events em write (ok tt) view socket p.ev_mgr_addr (p.queue, p.listen_id) u.world);
    pending = before ++ rest;
  }

  module _ (m : State) (no_listener : (i : ℕ) → find i m ≡ none) (s : PubsubServiceStore)
      (n : IsNew s) (addr : Bytes) {y u z : System State} (r1 : Reach em abi write (boot em m s) y)
      (r2 : Reach em abi write (begin_request em addr y) u) (view : MonitorView) (socket id : ℕ)
      (before rest : List Pending) where
    -- Start from an event manager without listeners and a new store; a subscription to an event
    -- manager begins in some reachable state, and in some state after that it is answered and the
    -- socket takes the message. Then the one message sent is built of all the notifications of that
    -- event manager that the store was told, before the subscription began and then until the
    -- answer, in order; and what heartbeats take out of the subscriber's live queue from the
    -- beginning of the subscription to any later state, followed by what the queue then holds, is
    -- what has arrived in it since.
    pub subscriber-sent :
        (held : u.pending ≡ before ++ asked addr id y ∷ rest)
        (r3 : Reach em abi write (answered view socket before rest (asked addr id y) u) z)
        → let q = y.world.event_queues.next in
          let live = next r2 (answer (ok tt) view socket (asked addr id y) before rest held refl) in
          ((answered view socket before rest (asked addr id y) u).world.sockets
            ≡ push_back socket
                (build_emitted_msg write view
                  (notified em abi write r1 addr ++ notified em abi write r2 addr))
                u.world.sockets)
          × (taken em abi write live q ++ (taken em abi write r3 q ++ z.world.event_queues.cell q)
              ≡ arrived em abi write live q ++ arrived em abi write r3 q)
    unfolding respond_events
    subscriber-sent held r3 =
        let q = y.world.event_queues.next in
        let live = next r2 (answer (ok tt) view socket (asked addr id y) before rest held refl) in
        let (empty, made) = begun_queue addr y in
        let (e, made') = taken-arrived em abi write _ _ live q made in
        let (f, _) = taken-arrived em abi write _ _ r3 q made' in
        (
          ap (λ past. push_back socket (build_emitted_msg write view past) u.world.sockets) past,
          ap (λ k. taken em abi write live q ++ k) f
              ∙ (sym (append_assoc (taken em abi write live q) _ _)
                  ∙ ap (λ k. k ++ arrived em abi write r3 q)
                      (e ∙ ap (λ k. k ++ arrived em abi write live q) empty)),
        )
      where
        whole : Reach em abi write (boot em m s) u
        whole = follow (next r1 (begin addr refl)) r2

        past :
            get_past_events u.world.store addr
            ≡ notified em abi write r1 addr ++ notified em abi write r2 addr
        past =
            boot-past_events-notified em abi write m no_listener s u whole addr n
            ∙ (notified-follow (next r1 (begin addr refl)) r2 addr
                ∙ ap (λ k. k ++ notified em abi write r2 addr) (notified-begin r1 addr addr))
