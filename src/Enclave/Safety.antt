-- ===== src/Enclave/Safety.antt =====
-- A handler that is registered never meets a null manager.
use mathlib.Core.Option
use decent_ethereum.Base.{
  ◌≡◌, refl, sym, ap, ◌∙◌, subst, List, Option, none, some, Bytes, Result, ok, err, Outcome, after,
  lift, Exec, ◌>>=◌,
}
use decent_ethereum.Dispatch.{System}
use decent_ethereum.Lifecycle.Delivery.{SystemInv}
use decent_ethereum.Lifecycle.Reachable.{Step-SystemInv, Reach-SystemInv}
use decent_ethereum.Monitor.{HostCalls}
use decent_ethereum.Monitor.Callbacks.{MonitorCall}
use decent_ethereum.Boundary.Ocalls.{SgxStatus}
use decent_ethereum.Boundary.Ecalls.{ecall, ecall-ends_as, recv_block}
use decent_ethereum.External.{AbiParser}
use decent_ethereum.Enclave.{Handler, Credentials, HandlerMgr, Chain}
use decent_ethereum.Enclave.Init.{InitArgs, ManagerState, EnclaveState, init}
use decent_ethereum.Enclave.Initialised.{init-Initialised}
use decent_ethereum.Enclave.Calls.{
  Codecs, InitBuffers, Message, run_handler, init_args, ecall_init, ecall_block, handle, deref,
  placed_mgr, on_blocks,
}
use decent_ethereum.Enclave.Ready.{
  Called, init_call, block, message, thread, Calls, start, call, Ready, IsFresh, init-Ready,
}
use decent_ethereum.Enclave.Stores.{run_handler-Quiet}
use decent_ethereum.Enclave.Parts.{on_blocks-system, deref-some}

module _ (cr : Credentials) (hm : HandlerMgr) (ch : Chain) (co : Codecs) (abi : AbiParser) where
  abbrev State : Type 0
  State = EnclaveState cr hm ch

  run_handler-SystemInv :
      (h : Handler) (msg : Message) (m : ManagerState ch)
      → SystemInv ch.events m.system
      → SystemInv ch.events (after (run_handler ch co h msg m)).system
  run_handler-SystemInv h msg m v =
      Reach-SystemInv ch.events abi co.write m.system _ (run_handler-Quiet ch co abi h msg m).0 v

  deref-Ready :
      (m : Exec (ManagerState ch) (Unit {0})) (y : State) (o : Outcome State (Unit {0}))
      → ((x : ManagerState ch)
          → SystemInv ch.events x.system
          → SystemInv ch.events (after (m x)).system)
      → deref m y ≡ some o
      → Ready cr hm ch co abi y
      → Ready cr hm ch co abi (after o)
  deref-Ready m y o k h v =
      let (x, e, f, g) = deref-some m y o h in
      record {
        served = λ name a p. (after (m x), f);
        sound = λ n p.
            subst (λ (n : ManagerState ch). SystemInv ch.events n.system) (ap (given n) (sym f ∙ p))
              (k x (v.sound x e));
      }
    where
      given : ManagerState ch → Option (ManagerState ch) → ManagerState ch
      given n none = n
      given n (some x) = x

  ecall_init-Ready :
      (calls : HostCalls) (b : InitBuffers) (y : State)
      → Ready cr hm ch co abi y
      → Ready cr hm ch co abi (ecall_init cr hm ch calls b y).1
  unfolding ecall_init
  ecall_init-Ready calls b y v =
      subst (Ready cr hm ch co abi) (sym ((ecall-ends_as _).1)) (go (init_args cr hm ch b))
    where
      go :
          (r : Result (InitArgs ch.Conf))
          → Ready cr hm ch co abi (after ((lift r >>= init cr hm ch calls) y))
      go (ok args) =
          init-Ready cr hm ch co abi calls args y _ (init-Initialised cr hm ch calls args y) v
      go (err e) = v

  ecall_block-Ready :
      (update : Bytes → ch.monitor.State → List (MonitorCall ch.monitor)) (calls : HostCalls)
      (hex : Bytes → Bytes) (hdr_rlp : Bytes) (status : SgxStatus) (y z : State)
      → ecall_block cr hm ch update calls hex hdr_rlp y ≡ some (status, z)
      → Ready cr hm ch co abi y
      → Ready cr hm ch co abi z
  unfolding ecall_block
  ecall_block-Ready update calls hex hdr_rlp status y z h v = go (deref run y) refl h
    where
      run : Exec (ManagerState ch) (Unit {0})
      run = on_blocks (recv_block ch.monitor update calls hex hdr_rlp)

      go :
          (p : Option (Outcome State (Unit {0})))
          → deref run y ≡ p
          → Option.map ecall p ≡ some (status, z)
          → Ready cr hm ch co abi z
      go none e h = cc
      go (some o) e h = subst (Ready cr hm ch co abi) (sym ((ecall-ends_as o).1) ∙ ap (left z) h) (
          deref-Ready run y o
            (λ x w.
              subst (SystemInv ch.events)
                (sym (
                  on_blocks-system ch.monitor.State (recv_block ch.monitor update calls hex hdr_rlp)
                    x))
                w)
            e v)
        where
          left : State → Option (SgxStatus × State) → State
          left z none = z
          left z (some r) = r.1

  -- The manager is in place, with another system that has the invariant.
  moved :
      (u : State) (n : ManagerState ch) (system : System ch.events.State)
      → SystemInv ch.events system
      → Ready cr hm ch co abi (record u { mgr = some (record n { system = system }) })
  moved u n system v = record {
    served = λ name h p. (record n { system = system }, refl);
    sound = λ m p.
        let q : record n { system = system } ≡ m = cc in
        subst (λ (m : ManagerState ch). SystemInv ch.events m.system) q v;
  }

  Called-Ready :
      (y z : State) → Called cr hm ch co abi y z → Ready cr hm ch co abi y → Ready cr hm ch co abi z
  unfolding handle
  Called-Ready y z (init_call calls b e) v =
      subst (Ready cr hm ch co abi) (sym e) (ecall_init-Ready calls b y v)
  Called-Ready y z (block update calls hex hdr_rlp status u n system e f r g) v =
      let w = ecall_block-Ready update calls hex hdr_rlp status y u e v in
      subst (Ready cr hm ch co abi) (sym g)
        (moved u n system (Reach-SystemInv ch.events abi co.write n.system system r (w.sound n f)))
  Called-Ready y z (message name h msg o f g e) v =
      subst (Ready cr hm ch co abi) (sym e)
        (deref-Ready (run_handler ch co h msg) y o (run_handler-SystemInv h msg) g v)
  Called-Ready y z (thread m system e st f) v =
      subst (Ready cr hm ch co abi) (sym f)
        (moved y m system (Step-SystemInv ch.events abi co.write m.system system st (v.sound m e)))

  Calls-Ready :
      (y z : State) → Calls cr hm ch co abi y z → Ready cr hm ch co abi y → Ready cr hm ch co abi z
  Calls-Ready y z start v = v
  Calls-Ready y z (call {z = u} r st) v = Called-Ready u z st (Calls-Ready y u r v)

  -- Start from an enclave with no handler registered and no blockchain manager. After any calls in
  -- any order (initialisation with any arguments and any failure of the host or the libraries, also
  -- repeated; blocks; messages to registered handlers; steps of the enclave's threads), a message
  -- to a handler that is registered finds a blockchain manager, never a null pointer; it leaves the
  -- manager as the handler does, whether that returns or throws, and the handlers as they were; and
  -- the invariant of the manager's publish-subscribe system holds before and after.
  pub message-handled :
      (y z : State) (name : Bytes) (h : Handler) (msg : Message)
      → IsFresh cr hm ch co abi y
      → Calls cr hm ch co abi y z
      → hm.find name z.handlers ≡ some h
      → (m : ManagerState ch) × (o : Outcome State (Unit {0})) × (z.mgr ≡ some m)
        × (handle cr hm ch co h msg z ≡ some o)
        × ((after o).mgr ≡ some (after (run_handler ch co h msg m)))
        × ((after o).handlers ≡ z.handlers)
        × SystemInv ch.events m.system
        × SystemInv ch.events (after (run_handler ch co h msg m)).system
  unfolding handle deref
  message-handled y z name h msg n r f =
      let v = Calls-Ready y z r (record {
        served = λ a g p. absurd (cc (n.no_handler a, p));
        sound = λ m p. absurd (cc (n.no_mgr, p));
      }) in
      let (m, e) = v.served name h f in
      let o = placed_mgr z (run_handler ch co h msg m) in
      let g : deref (run_handler ch co h msg) z ≡ some o =
        ap (Option.map (λ m. placed_mgr z (run_handler ch co h msg m))) e in
      let (x, e', k, l) = deref-some (run_handler ch co h msg) z o g in
      let q : x ≡ m = cc in
      (
        m,
        o,
        e,
        g,
        k ∙ ap (λ x. some (after (run_handler ch co h msg x))) q,
        l,
        v.sound m e,
        run_handler-SystemInv h msg m (v.sound m e),
      )
