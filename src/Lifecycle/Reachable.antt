-- ===== src/Lifecycle/Reachable.antt =====
-- Every state that the enclave's threads reach keeps the invariant.
use decent_ethereum.Base.{
  ℕ, ◌≡◌, refl, List, ◌∷◌, ◌++◌, Bytes, Result, ok, err, after, All-append, All-append_left,
  All-mem,
}
use decent_ethereum.External.{EventManager, AbiParser}
use decent_ethereum.World.{Emitter, EmitterKind, events, receipts}
use decent_ethereum.Pubsub.Service.{get_notify_event_topic}
use decent_ethereum.Pubsub.Handler.{
  Dict, MonitorView, subscribe_events, build_notify_event_descr, emitter_handler, respond_events,
}
use decent_ethereum.Receipts.{
  Request, bad_address, bad_topic, valid, serve_request, subscribed_receipt_emitter,
  build_subscribed_event_descr,
}
use decent_ethereum.Dispatch.{
  System, Pending, Step, Reach, deliver, beat, begin, answer, serve, here, next, begin_request,
  run_emitter,
}
use decent_ethereum.Lifecycle.{IsOutside}
use decent_ethereum.Lifecycle.Listeners.{IsOutside-listen_new}
use decent_ethereum.Lifecycle.Subscribers.{listen-Inv, cancel-Inv}
use decent_ethereum.Lifecycle.Delivery.{SystemInv, Holds-listen, Holds-cancel, deliver-SystemInv}

module _ (em : EventManager) where
  open em use {State, listen, cancel, find, find-listen_new}

  cancelled-SystemInv :
      (y : System State) (id : ℕ)
      → IsOutside em y.world.event_mgr id
      → SystemInv em y
      → SystemInv em
          (record y { world = record y.world { event_mgr = cancel id y.world.event_mgr } })
  cancelled-SystemInv y id o v = record {
    alive = v.alive;
    service = cancel-Inv em _ _ id o v.service;
    held = Holds-cancel em _ _ _ id v.held;
  }

  -- A heartbeat changes the event manager only by cancelling its own listener.
  beat-SystemInv :
      (write : Dict → Bytes) (accepted : Result (Unit {0})) (view : MonitorView) (k : EmitterKind)
      (socket queue id : ℕ) (y : System State)
      → IsOutside em y.world.event_mgr id
      → SystemInv em y
      → let e : Emitter = record { kind = k; socket = socket; queue = queue; listen_id = id } in
        SystemInv em (record y { world = after (run_emitter em write accepted view e y.world) })
  unfolding run_emitter emitter_handler subscribed_receipt_emitter
  beat-SystemInv write (ok u) view events socket queue id y o v = record {
    alive = v.alive;
    service = v.service;
    held = v.held;
  }
  beat-SystemInv write (ok u) view receipts socket queue id y o v = record {
    alive = v.alive;
    service = v.service;
    held = v.held;
  }
  beat-SystemInv write (err e) view events socket queue id y o v =
      let c = cancelled-SystemInv y id o v in
      record { alive = c.alive; service = c.service; held = c.held }
  beat-SystemInv write (err e) view receipts socket queue id y o v =
      let c = cancelled-SystemInv y id o v in
      record { alive = c.alive; service = c.service; held = c.held }

  begin-SystemInv :
      (addr : Bytes) (y : System State) → SystemInv em y → SystemInv em (begin_request em addr y)
  unfolding begin_request subscribe_events build_notify_event_descr get_notify_event_topic
  begin-SystemInv addr y v = record {
    alive = v.alive;
    service = listen-Inv em _ _ _ refl refl v.service;
    held =
        let h = Holds-listen em _ _ _ _ v.held in
        record {
          emitters = h.emitters;
          requests = (IsOutside-listen_new em _ y.world.event_mgr refl, h.requests);
        };
  }

  serve-SystemInv :
      (socket : ℕ) (r : Request) (y : System State)
      → SystemInv em y
      → SystemInv em (record y { world = serve_request em socket r y.world })
  unfolding serve_request build_subscribed_event_descr
  serve-SystemInv socket bad_address y v = v
  serve-SystemInv socket bad_topic y v = v
  serve-SystemInv socket (valid addr topics) y v = record {
    alive = v.alive;
    service = listen-Inv em _ _ _ refl tt v.service;
    held =
        let h = Holds-listen em _ _ _ _ v.held in
        record {
          emitters =
              All-append _ y.world.emitters _ h.emitters
                (IsOutside-listen_new em _ y.world.event_mgr refl, tt);
          requests = h.requests;
        };
  }

  answer-SystemInv :
      (write : Dict → Bytes) (accepted : Result (Unit {0})) (view : MonitorView) (socket : ℕ)
      (p : Pending) (before rest : List Pending) (y : System State)
      → y.pending ≡ before ++ p ∷ rest
      → SystemInv em y
      → SystemInv em (record {
        world = after (
            respond_events em write accepted view socket p.ev_mgr_addr
              (p.queue, p.listen_id)
              y.world);
        pending = before ++ rest;
      })
  unfolding respond_events
  answer-SystemInv write (ok u) view socket p before rest y e v = record {
    alive = v.alive;
    service = v.service;
    held =
        let (l, r) = All-append_left _ before (p ∷ rest) (rw e at v.held.requests) in
        record {
          emitters = All-append _ y.world.emitters _ v.held.emitters (r.0, tt);
          requests = All-append _ before rest l r.1;
        };
  }
  answer-SystemInv write (err f) view socket p before rest y e v = record {
    alive = v.alive;
    service = v.service;
    held =
        let (l, r) = All-append_left _ before (p ∷ rest) (rw e at v.held.requests) in
        record { emitters = v.held.emitters; requests = All-append _ before rest l r.1 };
  }

  module _ (abi : AbiParser) (write : Dict → Bytes) where
    -- From any state that has the invariant, a single step of any thread (a log shown to a
    -- registered listener, with well-formed or malformed data, a heartbeat that is sent or fails,
    -- the start or the answer of a subscription, a receipt request) leads to a state that has it.
    pub Step-SystemInv :
        (y z : System State) → Step em abi write y z → SystemInv em y → SystemInv em z
    Step-SystemInv y z (deliver id d hdr log alive h m e) v =
        rw e (deliver-SystemInv em abi hdr log y id d d.callback h refl v)
    Step-SystemInv y z (beat accepted view f m e) v = rw e (
        beat-SystemInv write accepted view f.kind f.socket f.queue f.listen_id y
          (All-mem _ f y.world.emitters m v.held.emitters) v)
    Step-SystemInv y z (begin addr e) v = rw e (begin-SystemInv addr y v)
    Step-SystemInv y z (answer accepted view socket p before rest q e) v =
        rw e (answer-SystemInv write accepted view socket p before rest y q v)
    Step-SystemInv y z (serve socket r e) v = rw e (serve-SystemInv socket r y v)

    pub Reach-SystemInv :
        (y z : System State) → Reach em abi write y z → SystemInv em y → SystemInv em z
    Reach-SystemInv y z here v = v
    Reach-SystemInv y z (next {z = u} r st) v = Step-SystemInv u z st (Reach-SystemInv y u r v)
