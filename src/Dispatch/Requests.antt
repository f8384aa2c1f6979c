-- ===== src/Dispatch/Requests.antt =====
-- The two subscription requests, whole, as runs of the threads' steps.
use decent_ethereum.Base.{
  ℕ, ◌≡◌, refl, sym, ap, ◌∙◌, subst, inl, inr, [], Bytes, Result, Result-cases, Outcome, after,
  done, lift, ◌>>=◌, Bytes-cases,
}
use decent_ethereum.External.{EventManager, AbiParser, RlpParser}
use decent_ethereum.World.{World}
use decent_ethereum.Pubsub.Service.{get_event_mgr_addr, zero_addr}
use decent_ethereum.Pubsub.Handler.{
  Dict, MonitorView, publisher_of, sub_req, subscribe_events, respond_events,
}
use decent_ethereum.Pubsub.Requests.{sub_req-malformed, sub_req-unknown, sub_req-known}
use decent_ethereum.Receipts.{Request, request_of, serve_request, receipt_sub_req}
use decent_ethereum.Dispatch.{System, Reach, begin, answer, serve, here, next, begin_request}

module _ (em : EventManager) (abi : AbiParser) (write : Dict → Bytes) (rlp : RlpParser) (socket : ℕ)
    (content : Bytes) (y : System em.State) where
  open em use {State}

  -- The system where a request left the world so.
  abbrev left : Outcome (World State) (Unit {0}) → System State
  left o = record y { world = after o }

  unchanged :
      (o p : Outcome (World State) (Unit {0}))
      → o ≡ p
      → after p ≡ y.world
      → Reach em abi write y (left o)
  unchanged o p e f =
      subst (Reach em abi write y) (sym (ap left e ∙ ap (λ w. record y { world = w }) f)) here

  module _ (accepted : Result (Unit {0})) (view : MonitorView) where
    known_run :
        (addr : Bytes)
        → Reach em abi write y (
            left (
              (subscribe_events em addr >>= respond_events em write accepted view socket addr)
                y.world))
    unfolding subscribe_events begin_request
    known_run addr =
        next (next here (begin addr refl)) (answer accepted view socket _ [] y.pending refl refl)

    sub_req-run :
        Reach em abi write y (left (sub_req em write rlp accepted view socket content y.world))
    sub_req-run = elim (Result-cases (publisher_of rlp content)) [
      | inl (e, f) ↦
          unchanged _ _ (sub_req-malformed em write rlp accepted view socket content y.world e f)
            refl
      | inr (p, f) ↦ elim (Bytes-cases (get_event_mgr_addr y.world.store p) zero_addr) [
        | inl z ↦
            unchanged _ _ (sub_req-unknown em write rlp accepted view socket content y.world p f z)
              refl
        | inr (n, _) ↦
            subst (λ o. Reach em abi write y (left o))
              (sym (sub_req-known em write rlp accepted view socket content y.world p f n))
              (known_run (get_event_mgr_addr y.world.store p))
      ]
    ]

    receipt_sub_req-run :
        Reach em abi write y (left (receipt_sub_req em rlp socket content y.world))
    unfolding receipt_sub_req
    receipt_sub_req-run = elim (Result-cases (request_of rlp content)) [
      | inl (e, f) ↦ unchanged _ _ (ap run f) refl
      | inr (r, f) ↦
          subst (λ o. Reach em abi write y (left o)) (sym (ap run f))
            (next here (serve socket r refl))
    ]
      where
        run : Result Request → Outcome (World State) (Unit {0})
        run r = (lift r >>= λ r. λ w. done tt (serve_request em socket r w)) y.world

    -- A whole subscribe request, and a whole receipt request, with any message and whether the
    -- socket takes the answer or not, is a run of the threads' steps that starts at the same state:
    -- what holds in all reachable states holds after the request too.
    pub requests-Reach :
        Reach em abi write y
          (record y { world = after (sub_req em write rlp accepted view socket content y.world) })
        × Reach em abi write y
            (record y { world = after (receipt_sub_req em rlp socket content y.world) })
    requests-Reach = (sub_req-run, receipt_sub_req-run)
