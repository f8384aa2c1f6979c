-- ===== src/Pubsub/Registration.antt =====
-- A publisher's registration, `RegEventHandler`, from the log that the contract emits.
use decent_ethereum.Base.{
  Option-cases, ℕ, ◌≡◌, ◌≢◌, ap, ◌∙◌, true, inl, inr, [], ◌∷◌, ◌++◌, some, none, Bytes, arith, ok,
  done, after, length, length-append, replicate, drop-append-replicate, lookup, lookup-insert,
  bytes_eq, bytes_eq_refl, append_assoc, if◌then◌else◌,
}
use decent_ethereum.External.{HeaderMgr, ReceiptLogEntry, EventDescription, EventManager, AbiParser}
use decent_ethereum.World.{EventData, EventDataQueue, PubsubServiceStore, World}
use decent_ethereum.Pubsub.Service.{
  get_past_events, get_event_mgr_addr, address_to_abi_address, abi_address_to_address,
  save_past_event, save_registration, build_notify_past_event_descr, reg_event_handler, event_data,
  notify_past_event_handler,
}
use decent_ethereum.Pubsub.Behaviour.{reg_alive, notify_past_parsed}
use decent_ethereum.Pubsub.PastEvents.{
  get_past_events-save_registration, get_past_events-save_past_event,
}

-- An address of any length that is written as an ABI word is read back from it.
pub abi_address-roundtrip :
    (addr : Bytes) → abi_address_to_address (address_to_abi_address addr) ≡ addr
unfolding abi_address_to_address address_to_abi_address
abi_address-roundtrip addr = drop-append-replicate 12 0 addr

length-address_to_abi_address :
    (addr : Bytes) → length addr ≡ 20 → length (address_to_abi_address addr) ≡ 32
unfolding address_to_abi_address
length-address_to_abi_address addr h = omega (arith, length-append (replicate 12 0) addr)

pub get_event_mgr_addr-save_registration :
    (p a q : Bytes) (s : PubsubServiceStore)
    → get_event_mgr_addr (save_registration p a s) q
      ≡ (if bytes_eq p q then a else get_event_mgr_addr s q)
unfolding get_event_mgr_addr save_registration
get_event_mgr_addr-save_registration p a q s = ground (arith, lookup-insert p q a s.ev_mgr_addr_map)

-- The data of a registration's log: the two addresses, each in a word.
abbrev pub registration_data : Bytes → Bytes → Bytes → Bytes
registration_data publisher ev_mgr rest =
    address_to_abi_address publisher ++ (address_to_abi_address ev_mgr ++ rest)

lookup-save_past_event :
    (k : Bytes) (e : EventData) (s : PubsubServiceStore) (q : EventDataQueue)
    → lookup k s.past_event_store ≡ some q
    → lookup k (save_past_event k e s).past_event_store ≡ some (q ++ e ∷ [])
unfolding save_past_event
lookup-save_past_event k e s q h =
    ground (arith, lookup-insert k k (q ++ e ∷ []) s.past_event_store, bytes_eq_refl k)

stored_twice :
    (k : Bytes) (e : EventData) (s : PubsubServiceStore) (q : EventDataQueue)
    → lookup k s.past_event_store ≡ some q
    → get_past_events (save_past_event k e (save_past_event k e s)) k
      ≡ get_past_events s k ++ (e ∷ e ∷ [])
stored_twice k e s q h =
    get_past_events-save_past_event k k e (save_past_event k e s) (q ++ e ∷ [])
      (lookup-save_past_event k e s q h)
    ∙ rw (get_past_events-save_past_event k k e s q h, bytes_eq_refl k)
        (append_assoc (get_past_events s k) (e ∷ []) (e ∷ []))

module _ (em : EventManager) (abi : AbiParser) (hdr : HeaderMgr) (log : ReceiptLogEntry) where
  open em use {State, listen, find, not-Used-listen, find-Used, find-listen_new, find-listen_old}

  -- The handler on a log of that form.
  pub registered :
      (w : World State) (publisher ev_mgr rest : Bytes)
      → w.mgr_alive ≡ true
      → log.log_data ≡ registration_data publisher ev_mgr rest
      → length publisher ≡ 20
      → length ev_mgr ≡ 20
      → let t = save_registration publisher ev_mgr w.store in
        reg_event_handler em abi hdr log w
        ≡ done tt (record w {
          store = t;
          event_mgr = (listen (build_notify_past_event_descr ev_mgr t) w.event_mgr).0;
        })
  registered w publisher ev_mgr rest alive h lp le =
      reg_alive em abi hdr log w _ _ _ rest alive
        (ap abi.to_bytes32 h
          ∙ abi.to_bytes32-append _ _ (length-address_to_abi_address publisher lp))
        (abi.to_bytes32-append _ rest (length-address_to_abi_address ev_mgr le))
      ∙ rw (abi_address-roundtrip publisher, abi_address-roundtrip ev_mgr)

  -- A log whose data are the words of two 20-byte addresses, publisher and event manager, and
  -- anything behind them, is handled while the event manager is alive: then the publisher has that
  -- event manager and every other publisher the one of before, the past events of every address are
  -- those of before, a listener under a new id asks for the event manager's notifications, and the
  -- listeners of before are there under their ids.
  pub reg_event_handler-registration :
      (w : World State) (publisher ev_mgr rest : Bytes)
      → w.mgr_alive ≡ true
      → log.log_data ≡ registration_data publisher ev_mgr rest
      → length publisher ≡ 20
      → length ev_mgr ≡ 20
      → let t = after (reg_event_handler em abi hdr log w) in
        ((q : Bytes)
          → get_event_mgr_addr t.store q
            ≡ (if bytes_eq publisher q then ev_mgr else get_event_mgr_addr w.store q))
        × ((b : Bytes) → get_past_events t.store b ≡ get_past_events w.store b)
        × (i : ℕ) × (find i w.event_mgr ≡ none)
        × (find i t.event_mgr ≡ some (build_notify_past_event_descr ev_mgr t.store))
        × ((j : ℕ) (d : EventDescription)
            → find j w.event_mgr ≡ some d
            → find j t.event_mgr ≡ some d)
  reg_event_handler-registration w publisher ev_mgr rest alive h lp le =
      rw (registered w publisher ev_mgr rest alive h lp le) (
        λ q. get_event_mgr_addr-save_registration publisher ev_mgr q w.store,
        λ b. get_past_events-save_registration publisher ev_mgr b w.store,
        (listen d w.event_mgr).1,
        fresh,
        find-listen_new d w.event_mgr,
        λ j d' f. find-listen_old d w.event_mgr j (other j d' f) ∙ f,
      )
    where
      d : EventDescription
      d = build_notify_past_event_descr ev_mgr (save_registration publisher ev_mgr w.store)

      fresh : find (listen d w.event_mgr).1 w.event_mgr ≡ none
      fresh = elim (Option-cases (find (listen d w.event_mgr).1 w.event_mgr)) [
        | inl e ↦ e
        | inr (d', e) ↦ absurd (not-Used-listen d w.event_mgr (find-Used w.event_mgr _ d' e))
      ]

      other :
          (j : ℕ) (d' : EventDescription)
          → find j w.event_mgr ≡ some d'
          → j ≢ (listen d w.event_mgr).1
      other j d' f e = not-Used-listen d w.event_mgr (find-Used w.event_mgr _ d' (rw e at f))

  -- Where an event manager has a past event queue, a well-formed notification that the store's
  -- handler is given twice is in the past events twice.
  pub notify_past_event_handler-twice :
      (w : World State) (msg rest : Bytes) (q : EventDataQueue)
      → abi.to_bytes log.log_data ≡ ok (msg, rest)
      → lookup log.contract_addr w.store.past_event_store ≡ some q
      → let e = event_data hdr msg in
        let once = after (notify_past_event_handler em abi hdr log w) in
        get_past_events
          (after (notify_past_event_handler em abi hdr log once)).store
          log.contract_addr
        ≡ get_past_events w.store log.contract_addr ++ (e ∷ e ∷ [])
  notify_past_event_handler-twice w msg rest q h k =
      rw
        (
          notify_past_parsed em abi hdr log w msg rest h,
          notify_past_parsed em abi hdr log (record w { store = saved }) msg rest h,
        )
        (stored_twice log.contract_addr (event_data hdr msg) w.store q k)
    where
      saved : PubsubServiceStore
      saved = save_past_event log.contract_addr (event_data hdr msg) w.store
