-- ===== src/Enclave/Initialised.antt =====
-- How `Init` ends, and what each end leaves.
use decent_ethereum.Base.{
  ◌≡◌, ◌≢◌, refl, sym, ap, ◌∙◌, inl, inr, false, some, Bytes, bytes_eq, bytes_eq_iff, Result, ok,
  Result-cases, Outcome, Outcome-cases, Error, done, thrown, after, bind-eq-done, bind-done,
  bind-thrown, Exec, subst, lift, modify, ◌⊎◌, ◌>>=◌, ◌>>◌,
}
use decent_ethereum.Monitor.{HostCalls}
use decent_ethereum.Enclave.{
  Handler, handle_pubsub_sub_req, handle_receipt_sub_req, handle_send_raw, Credentials, HandlerMgr,
  Chain, Manager, on_credentials, on_handlers, placed_credentials, placed_handlers,
}
use decent_ethereum.Enclave.Init.{
  prepare, pubsub_subscribe, receipt_subscribe, transaction_send_raw, register_handlers, InitArgs,
  make_manager, EnclaveState, serve, set_manager, init,
}

apart : (xs ys : Bytes) → bytes_eq xs ys ≡ false → xs ≢ ys
apart xs ys h e = cc ((bytes_eq_iff xs ys).1 e)

module _ (hm : HandlerMgr) where
  open hm use {State, register, find, find-register_new, find-register_old}

  -- The three messages have their handlers.
  pub record HasHandlers (t : State) : Type 0 where
    pub pubsub : find pubsub_subscribe t ≡ some handle_pubsub_sub_req
    pub receipt : find receipt_subscribe t ≡ some handle_receipt_sub_req
    pub send_raw : find transaction_send_raw t ≡ some handle_send_raw

  -- A name keeps its handler while another is registered.
  kept :
      (name other : Bytes) (h k : Handler) (s t : State)
      → other ≢ name
      → register name h s ≡ done tt t
      → find other s ≡ some k
      → find other t ≡ some k
  kept name other h k s t n e f =
      sym (ap (λ (o : Outcome State (Unit {0})). find other (after o)) e)
      ∙ (find-register_old name other h s n ∙ f)

  register_handlers-done : (s t : State) → register_handlers hm s ≡ done tt t → HasHandlers t
  unfolding register_handlers bytes_eq
  register_handlers-done s t h =
      let (_, s1, e1, h1) = bind-eq-done (register pubsub_subscribe handle_pubsub_sub_req) _ h in
      let (_, s2, e2, e3) = bind-eq-done (register receipt_subscribe handle_receipt_sub_req) _ h1 in
      record {
        pubsub =
            kept _ _ _ _ s2 t (apart _ _ refl) e3
              (kept _ _ _ _ s1 s2 (apart _ _ refl) e2 (find-register_new _ _ s s1 e1));
        receipt = kept _ _ _ _ s2 t (apart _ _ refl) e3 (find-register_new _ _ s1 s2 e2);
        send_raw = find-register_new _ _ s2 t e3;
      }

module _ (cr : Credentials) (hm : HandlerMgr) (ch : Chain) where
  abbrev State : Type 0
  State = EnclaveState cr hm ch

  set_config : Exec cr.State (Unit {0})
  set_config = cr.set_lambda_config "Secp256r1" "Secp256r1"

  -- Serving leaves the manager alone, and where it returns the handlers are there.
  serve-cases :
      (s : State)
      → ((e : Error) × (t : State) × (serve cr hm ch s ≡ thrown e t) × (t.mgr ≡ s.mgr))
        ⊎ ((t : State) × (serve cr hm ch s ≡ done tt t)
            × (t.mgr ≡ s.mgr)
            × HasHandlers hm t.handlers)
  unfolding serve set_config
  serve-cases s = elim (Outcome-cases (set_config s.credentials)) [
    | inl (e, c, h) ↦
        inl (e, _, bind-thrown configure (λ _. register) (ap (placed_credentials s) h), refl)
    | inr (u, c, h) ↦
        let begun = bind-done configure (λ _. register) (ap (placed_credentials s) h) in
        elim (Outcome-cases (register_handlers hm s.handlers)) [
          | inl (e, x, k) ↦
              inl (e, _, begun ∙ ap (placed_handlers (record s { credentials = c })) k, refl)
          | inr (u, x, k) ↦ inr (
            _,
            begun ∙ ap (placed_handlers (record s { credentials = c })) k,
            refl,
            register_handlers-done hm s.handlers x k,
          )
        ]
  ]
    where
      configure : Exec State (Unit {0})
      configure = on_credentials set_config

      register : Exec State (Unit {0})
      register = on_handlers (register_handlers hm)

  -- The ends of `Init`, started at `s`.
  pub data Initialised (calls : HostCalls) (args : InitArgs ch.Conf) (s : State)
      : Outcome State (Unit {0}) → Type 0 where
    unprepared :
        (e : Error) (t : State)
        → t.mgr ≡ s.mgr
        → t.handlers ≡ s.handlers
        → Initialised calls args s (thrown e t)
    unserved :
        (e : Error) (t : State) (m : Manager ch.monitor.State ch.events.State)
        → make_manager ch calls args ≡ ok m
        → t.mgr ≡ some m
        → Initialised calls args s (thrown e t)
    initialised :
        (t : State) (m : Manager ch.monitor.State ch.events.State)
        → make_manager ch calls args ≡ ok m
        → t.mgr ≡ some m
        → HasHandlers hm t.handlers
        → Initialised calls args s (done tt t)

  -- `Init` has three ends: an exception before the manager is set, which leaves the manager and the
  -- handlers of before; an exception after it, with the new manager in place; or it returns, the
  -- manager is the one made of the arguments, its service started, and each of the three messages
  -- (publish-subscribe subscription, receipt subscription, raw transaction) reaches its own
  -- handler.
  pub init-Initialised :
      (calls : HostCalls) (args : InitArgs ch.Conf) (s : State)
      → Initialised calls args s (init cr hm ch calls args s)
  unfolding init set_manager
  init-Initialised calls args s = elim (Outcome-cases (prepare cr s.credentials)) [
    | inl (e, c, h) ↦
        ended (bind-thrown prepared (λ _. rest) {s = s} (ap (placed_credentials s) h))
          (unprepared e _ refl refl)
    | inr (u, c, h) ↦
        let begun = bind-done prepared (λ _. rest) {s = s} (ap (placed_credentials s) h) in
        let t = record s { credentials = c } in
        elim (Result-cases (make_manager ch calls args)) [
          | inl (e, k) ↦
              ended (begun ∙ bind-thrown managed (λ _. serve cr hm ch) {s = t} (ap (set t) k))
                (unprepared e t refl refl)
          | inr (m, k) ↦
              let made = begun ∙ bind-done managed (λ _. serve cr hm ch) {s = t} (ap (set t) k) in
              elim (serve-cases (record t { mgr = some m })) [
                | inl (e, x, l, o) ↦ ended (made ∙ l) (unserved e x m k o)
                | inr (x, l, o, f) ↦ ended (made ∙ l) (initialised x m k o f)
              ]
        ]
  ]
    where
      prepared : Exec State (Unit {0})
      prepared = on_credentials (prepare cr)

      managed : Exec State (Unit {0})
      managed = set_manager cr hm ch calls args

      rest : Exec State (Unit {0})
      rest = managed >> serve cr hm ch

      set : State → Result (Manager ch.monitor.State ch.events.State) → Outcome State (Unit {0})
      set t r = (lift r >>= λ m. modify (λ s. record s { mgr = some m })) t

      ended :
          {o : Outcome State (Unit {0})}
          → init cr hm ch calls args s ≡ o
          → Initialised calls args s o
          → Initialised calls args s (init cr hm ch calls args s)
      ended e i = subst (Initialised calls args s) (sym e) i
