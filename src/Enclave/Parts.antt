-- ===== src/Enclave/Parts.antt =====
-- What a call on one part of the enclave's state leaves of the others.
use mathlib.Core.Option
use decent_ethereum.Base.{◌≡◌, refl, subst, Option, none, some, Outcome, done, thrown, after, Exec}
use decent_ethereum.World.{World}
use decent_ethereum.Monitor.Callbacks.{BlockchainMgr}
use decent_ethereum.Enclave.{Manager, Enclave}
use decent_ethereum.Enclave.Calls.{
  deref, placed_mgr, on_world, on_blocks, placed_world, placed_blocks,
}

module _ {E A : Type 0} (M : Type 0) where
  -- A call on the world, or on the block's part, in the system.
  pub on_world-system :
      (f : Exec (World E) A) (m : Manager M E)
      → (after (on_world f m)).system ≡ record (m.system) { world = after (f m.system.world) }
  on_world-system f m = go (f m.system.world)
    where
      go :
          (o : Outcome (World E) A)
          → (after (placed_world m o)).system ≡ record (m.system) { world = after o }
      go (done a w) = refl
      go (thrown e w) = refl

  pub on_blocks-system :
      (f : Exec (BlockchainMgr M) A) (m : Manager M E) → (after (on_blocks f m)).system ≡ m.system
  on_blocks-system f m = go (f m.blocks)
    where
      go : (o : Outcome (BlockchainMgr M) A) → (after (placed_blocks m o)).system ≡ m.system
      go (done a w) = refl
      go (thrown e w) = refl

module _ {C H M E A : Type 0} where
  -- Where there is an outcome, there was a manager, and only it has changed.
  pub deref-some :
      (m : Exec (Manager M E) A) (s : Enclave C H M E) (o : Outcome (Enclave C H M E) A)
      → deref m s ≡ some o
      → (x : Manager M E) × (s.mgr ≡ some x)
        × ((after o).mgr ≡ some (after (m x)))
        × ((after o).handlers ≡ s.handlers)
  unfolding deref
  deref-some m s o h = go s.mgr refl h
    where
      placed :
          (r : Outcome (Manager M E) A)
          → ((after (placed_mgr s r)).mgr ≡ some (after r))
            × ((after (placed_mgr s r)).handlers ≡ s.handlers)
      placed (done a x) = (refl, refl)
      placed (thrown e x) = (refl, refl)

      go :
          (p : Option (Manager M E))
          → s.mgr ≡ p
          → Option.map (λ mgr. placed_mgr s (m mgr)) p ≡ some o
          → (x : Manager M E) × (s.mgr ≡ some x)
            × ((after o).mgr ≡ some (after (m x)))
            × ((after o).handlers ≡ s.handlers)
      go none e h = cc
      go (some x) e h =
          let p : placed_mgr s (m x) ≡ o = cc in
          (
            x,
            e,
            subst (λ (o : Outcome (Enclave C H M E) A). (after o).mgr ≡ some (after (m x))) p
                (placed (m x)).0,
            subst (λ (o : Outcome (Enclave C H M E) A). (after o).handlers ≡ s.handlers) p
                (placed (m x)).1,
          )
