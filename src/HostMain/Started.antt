-- ===== src/HostMain/Started.antt =====
-- What a start of the host that succeeds leaves, on the host and in the enclave.
use decent_ethereum.Base.{
  ℕ, ◌≡◌, refl, sym, ap, ◌∙◌, subst, true, [], ◌∷◌, ◌++◌, Bytes, Result, ok, err, Error, Outcome,
  done, thrown, after, ◌>>◌, append_assoc, bind-eq-done, bind_lift-eq-done, length,
}
use decent_ethereum.Geth.Text.{codes}
use decent_ethereum.Geth.Libraries.{JsonLib, HexLib}
use decent_ethereum.Receipts.{addr_size}
use decent_ethereum.Monitor.{HostCalls}
use decent_ethereum.BlockFeed.Service.{bind_receiver, create, set_upd_svc_start_block}
use decent_ethereum.BlockFeed.Tasks.{
  status_log, block_updator, heartbeat_emitter, asio_service, start_sending_blocks,
}
use decent_ethereum.Boundary.Ecalls.{ends_as}
use decent_ethereum.Enclave.{Credentials, HandlerMgr, Chain}
use decent_ethereum.Enclave.Init.{InitArgs, EnclaveState, init}
use decent_ethereum.Enclave.Host.{new_enclave, All-all_nonzero, new_enclave-init}
use decent_ethereum.HostMain.{addr_bytes, addr_bytes-ok}
use decent_ethereum.HostMain.Process.{
  MainLib, GethConfig, PubsubConfig, geth_config, pubsub_config, image_config, load_config,
  geth_url_of, add_task, placed_enclave, create_service, feed, open_server, ProcessState,
  create_enclave, sync_event_sign, start_up,
}

module _ (json : JsonLib) (hex : HexLib) (lib : MainLib json.Json) (cr : Credentials)
    (hm : HandlerMgr) (ch : Chain) where
  abbrev State : Type 0
  State = ProcessState json hex lib cr hm ch

  abbrev pub given_args : Bytes → ch.Conf → Bytes → ℕ → InitArgs ch.Conf
  given_args stack conf pubsub_addr start_block = record {
    conf = conf;
    start_blk_num = start_block;
    sync_contract_addr = stack;
    sync_event_sign = sync_event_sign;
    pubsub_contract_addr = pubsub_addr;
  }

  create_enclave-done :
      (stack : Bytes) (conf : ch.Conf) (calls : HostCalls) (auth_list pubsub_addr : Bytes)
      (start_block : ℕ) (img_path token_path : Bytes) (p q : State)
      → length stack ≡ addr_size
      → length pubsub_addr ≡ addr_size
      → create_enclave json hex lib cr hm ch stack conf calls auth_list pubsub_addr start_block
          img_path token_path p
        ≡ done tt q
      → (init cr hm ch calls (given_args stack conf pubsub_addr start_block) p.enclave
          ≡ done tt q.enclave)
        × (record p { enclave = q.enclave } ≡ q)
  unfolding create_enclave new_enclave
  create_enclave-done stack conf calls auth_list pubsub_addr start_block img_path token_path p q h k
        e =
      go (lib.sgx auth_list img_path token_path) e
    where
      a : InitArgs ch.Conf
      a = given_args stack conf pubsub_addr start_block

      ran :
          (o : Outcome (EnclaveState cr hm ch) (Unit {0}))
          → placed_enclave p (ends_as o, after o) ≡ done tt q
          → (o ≡ done tt q.enclave) × (record p { enclave = q.enclave } ≡ q)
      ran (done u s) f =
          let g : record p { enclave = s } ≡ q = ap after f in
          (
            ap (λ (r : State). done tt r.enclave) g,
            subst (λ (r : State). record p { enclave = r.enclave } ≡ r) g refl,
          )
      ran (thrown e s) f = cc

      failed :
          {x : Error}
          → ¬ (placed_enclave p (new_enclave cr hm ch (err x) calls a p.enclave) ≡ done tt q)
      failed f = cc

      go :
          (r : Result (Unit {0}))
          → placed_enclave p (new_enclave cr hm ch r calls a p.enclave) ≡ done tt q
          → (init cr hm ch calls a p.enclave ≡ done tt q.enclave)
            × (record p { enclave = q.enclave } ≡ q)
      go (err x) f = absurd (failed f)
      go (ok u) f = ran (init cr hm ch calls a p.enclave) (
          ap (placed_enclave p) (
            sym (
              new_enclave-init cr hm ch calls a p.enclave h k
                (All-all_nonzero sync_event_sign refl)))
          ∙ f)

  open_server-done :
      (r : Result (Unit {0})) (p q : State)
      → open_server r p ≡ done tt q
      → (q.enclave ≡ p.enclave)
        × (q.host.service ≡ p.host.service)
        × (q.host.tasks ≡ (p.host.tasks ++ heartbeat_emitter 2000 ∷ []) ++ asio_service ∷ [])
        × (q.geth_url ≡ p.geth_url)
        × (q.functions ≡ p.functions ++ codes "DecentEthereum" ∷ [])
  unfolding open_server add_task
  open_server-done (ok u) p q e =
      let g = ap after (sym e) in
      (
        ap (λ (r : State). r.enclave) g,
        ap (λ (r : State). r.host.service) g,
        ap (λ (r : State). r.host.tasks) g,
        ap (λ (r : State). r.geth_url) g,
        ap (λ (r : State). r.functions) g,
      )
  open_server-done (err x) p q e = absurd cc

  -- What a start leaves that ends in the loop, from `p` to `q`.
  pub record Started (stack : Bytes) (conf : ch.Conf) (calls : HostCalls) (path : Bytes)
      (p q : State) : Type 0 where
    pub config : json.Json
    pub auth_list : Bytes
    pub geth : GethConfig
    pub pubsub : PubsubConfig
    pub pubsub_addr : Bytes
    pub loaded : load_config json lib path ≡ ok (config, auth_list)
    pub geth_read : geth_config json lib config ≡ ok geth
    pub pubsub_read : pubsub_config json lib config ≡ ok pubsub
    pub addr_read : hex.decode pubsub.pubsub_addr_hex ≡ ok pubsub_addr
    pub initialised :
        init cr hm ch calls (given_args stack conf pubsub_addr pubsub.start_block) p.enclave
        ≡ done tt q.enclave
    pub service :
        q.host.service
        ≡ record { curr_block_num = pubsub.start_block; has_receiver = true; received = [] }
    pub tasks :
        q.host.tasks
        ≡ p.host.tasks
          ++ status_log 10000 ∷ block_updator 1000 ∷ heartbeat_emitter 2000 ∷ asio_service ∷ []
    pub geth_url : q.geth_url ≡ geth_url_of json lib geth
    pub functions : q.functions ≡ p.functions ++ codes "DecentEthereum" ∷ []

  -- The part behind the configuration.
  run_up :
      (stack : Bytes) (conf : ch.Conf) (calls : HostCalls) (auth_list addr : Bytes) (n : ℕ)
      (img token url : Bytes) (p q : State)
      → length stack ≡ addr_size
      → length addr ≡ addr_size
      → (create_enclave json hex lib cr hm ch stack conf calls auth_list addr n img token
            >> (feed n >> open_server lib.lambda_server))
          (create_service url p)
        ≡ done tt q
      → (init cr hm ch calls (given_args stack conf addr n) p.enclave ≡ done tt q.enclave)
        × (q.host.service ≡ record { curr_block_num = n; has_receiver = true; received = [] })
        × (q.host.tasks
            ≡ p.host.tasks
              ++ status_log 10000 ∷ block_updator 1000 ∷ heartbeat_emitter 2000 ∷ asio_service ∷ [])
        × (q.geth_url ≡ url)
        × (q.functions ≡ p.functions ++ codes "DecentEthereum" ∷ [])
  unfolding create_service feed start_sending_blocks bind_receiver create set_upd_svc_start_block
  run_up stack conf calls auth_list addr n img token url p q h k e =
      let (u, t, f, g) =
        bind-eq-done
          (create_enclave json hex lib cr hm ch stack conf calls auth_list addr n img token) _ e in
      let (i, l) = create_enclave-done stack conf calls auth_list addr n img token _ t h k f in
      let (a, b, c, d, m) = open_server-done lib.lambda_server (fed t.enclave) q (
        subst (λ (r : State). (feed n >> open_server lib.lambda_server) r ≡ done tt q) (sym l) g) in
      (
        i ∙ ap (done tt) (sym a),
        b,
        c ∙ (append_assoc (p.host.tasks ++ _) _ _ ∙ append_assoc p.host.tasks _ _),
        d,
        m,
      )
    where
      fed : EnclaveState cr hm ch → State
      fed s = record {
        enclave = s;
        host = record {
          service = record { curr_block_num = n; has_receiver = true; received = [] };
          tasks = p.host.tasks ++ status_log 10000 ∷ block_updator 1000 ∷ [];
        };
        geth_url = url;
        functions = p.functions;
      }

  pub start_up-Started :
      (stack : Bytes) (conf : ch.Conf) (calls : HostCalls) (path : Bytes) (p q : State)
      → length stack ≡ addr_size
      → start_up json hex lib cr hm ch stack conf calls path p ≡ done tt q
      → Started stack conf calls path p q
  unfolding start_up
  start_up-Started stack conf calls path p q h e =
      let ((config, auth_list), l1, f1) = bind_lift-eq-done (load_config json lib path) _ e in
      let (geth, l2, f2) = bind_lift-eq-done (geth_config json lib config) _ f1 in
      let (sync, l3, f3) = bind_lift-eq-done (addr_bytes hex geth.sync_addr_hex) _ f2 in
      let (pubsub, l4, f4) = bind_lift-eq-done (pubsub_config json lib config) _ f3 in
      let (addr, l5, f5) = bind_lift-eq-done (addr_bytes hex pubsub.pubsub_addr_hex) _ f4 in
      let ((img, token), l6, f6) = bind_lift-eq-done (image_config json lib config) _ f5 in
      let (d, k) = addr_bytes-ok hex pubsub.pubsub_addr_hex addr l5 in
      let (i, s, t, g, n) =
        run_up stack conf calls auth_list addr pubsub.start_block img token
          (geth_url_of json lib geth) p q h k f6 in
      record {
        config = config;
        auth_list = auth_list;
        geth = geth;
        pubsub = pubsub;
        pubsub_addr = addr;
        loaded = l1;
        geth_read = l2;
        pubsub_read = l4;
        addr_read = d;
        initialised = i;
        service = s;
        tasks = t;
        geth_url = g;
        functions = n;
      }
