-- ===== src/Enclave/Subscribed.antt =====
-- A subscription to an enclave that has been started, from the host's call to the answer.
use mathlib.Core.Option
use decent_ethereum.Base.{
  ◌≡◌, ◌≢◌, sym, ap, ◌∙◌, inl, inr, ◌⊎◌, some, Bytes, Error, ok, err, Outcome, after, push_back,
}
use decent_ethereum.Dispatch.{System}
use decent_ethereum.Pubsub.Service.{get_event_mgr_addr, get_past_events, zero_addr}
use decent_ethereum.Pubsub.Handler.{build_emitted_msg, publisher_of, sub_req}
use decent_ethereum.Pubsub.Requests.{sub_req-subscribed}
use decent_ethereum.Monitor.{HostCalls}
use decent_ethereum.External.{AbiParser}
use decent_ethereum.Enclave.{handle_pubsub_sub_req, Credentials, HandlerMgr, Chain}
use decent_ethereum.Enclave.Init.{InitArgs, ManagerState, EnclaveState, make_manager}
use decent_ethereum.Enclave.Calls.{Codecs, Message, run_handler, handle, deref, placed_mgr, view_of}
use decent_ethereum.Enclave.Ready.{Calls}
use decent_ethereum.Enclave.Parts.{on_world-system, deref-some}
use decent_ethereum.Enclave.Serving.{AllServing, calls_notified, calls_registered}
use decent_ethereum.History.Registrations.{addr_among}
use decent_ethereum.Enclave.Refines.{calls-Reach}

module _ (cr : Credentials) (hm : HandlerMgr) (ch : Chain) (co : Codecs) (abi : AbiParser) where
  abbrev State : Type 0
  State = EnclaveState cr hm ch

  -- A message to a handler where there is a manager.
  handle-mgr :
      (msg : Message) (z : State) (n : ManagerState ch)
      → z.mgr ≡ some n
      → (o : Outcome State (Unit {0})) × (handle cr hm ch co handle_pubsub_sub_req msg z ≡ some o)
        × ((after o).mgr ≡ some (after (run_handler ch co handle_pubsub_sub_req msg n)))
  unfolding handle deref
  handle-mgr msg z n e =
      let f = run_handler ch co handle_pubsub_sub_req msg in
      let g : deref f z ≡ some (placed_mgr z (f n)) = ap (Option.map (λ m. placed_mgr z (f m))) e in
      let (x, e', k, _) = deref-some f z _ g in
      let q : x ≡ n = cc in (placed_mgr z (f n), g, k ∙ ap (λ m. some (after (f m))) q)

  -- Start from an enclave whose blockchain manager is the one that `Init` makes, with any
  -- configuration and any answers of the host, and let any calls but a further initialisation have
  -- been made since, in any order. Let a subscribe message parse and name a publisher whose newest
  -- registration among those calls is with an event manager other than the zero address. Then the
  -- message is handled, and if the socket takes the answer, the one message sent to it is built of
  -- exactly the notifications of that event manager that the calls told the store of, in order,
  -- with the monitor's state and last validated block; if the socket does not take it, nothing is
  -- sent.
  pub subscribe-notified :
      (calls : HostCalls) (args : InitArgs ch.Conf) (m n : ManagerState ch) (y z : State)
      (c : Calls cr hm ch co abi y z) (msg : Message) (p : Bytes)
      → make_manager ch calls args ≡ ok m
      → y.mgr ≡ some m
      → AllServing cr hm ch co abi c
      → z.mgr ≡ some n
      → publisher_of co.rlp msg.content ≡ ok p
      → addr_among p (calls_registered cr hm ch co abi c) ≢ zero_addr
      → let w = n.system.world in
        let addr = addr_among p (calls_registered cr hm ch co abi c) in
        (o : Outcome State (Unit {0})) × (q : ManagerState ch) × (handle cr hm ch co
            handle_pubsub_sub_req msg z
          ≡ some o)
        × ((after o).mgr ≡ some q)
        × (((msg.accepted ≡ ok tt)
              × (q.system.world.sockets
                  ≡ push_back msg.socket
                      (build_emitted_msg co.write
                        (view_of ch co n)
                        (calls_notified cr hm ch co abi c addr))
                      w.sockets))
            ⊎ ((e : Error) × (msg.accepted ≡ err e) × (q.system.world.sockets ≡ w.sockets)))
  unfolding run_handler
  subscribe-notified calls args m n y z c msg p made set s e f k =
      let w = n.system.world in
      let addr = addr_among p (calls_registered cr hm ch co abi c) in
      let (n', e', _, past, known) = calls-Reach cr hm ch co abi calls args m y z c made set s in
      let same : n' ≡ n = cc in
      let named : get_event_mgr_addr w.store p ≡ addr =
        ap (λ (n : ManagerState ch). get_event_mgr_addr n.system.world.store p) (sym same)
        ∙ known p in
      let told : get_past_events w.store (get_event_mgr_addr w.store p)
          ≡ calls_notified cr hm ch co abi c addr =
        ap (get_past_events w.store) named
        ∙ (ap (λ (n : ManagerState ch). get_past_events n.system.world.store addr) (sym same)
            ∙ (past addr).1) in
      let (o, g, q) = handle-mgr msg z n e in
      let placed =
        on_world-system ch.monitor.State
          (sub_req ch.events co.write co.rlp msg.accepted (view_of ch co n) msg.socket msg.content)
          n in
      let sockets = ap (λ (x : System ch.events.State). x.world.sockets) placed in
      let (_, _, _, sent) =
        sub_req-subscribed ch.events co.write co.rlp msg.accepted (view_of ch co n) msg.socket
          msg.content w p f (λ u. k (sym named ∙ u)) in
      (
        o,
        _,
        g,
        q,
        elim sent [
          | inl (a, b, _) ↦ inl (
            a,
            sockets
                ∙ b
                ∙ ap
                    (λ past.
                      push_back msg.socket (build_emitted_msg co.write (view_of ch co n) past)
                        w.sockets)
                    told,
          )
          | inr (why, a, b, _) ↦ inr (why, a, sockets ∙ b)
        ],
      )
