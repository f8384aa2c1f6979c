-- ===== src/BlockFeed/Ticks.antt =====
-- `BlockUpdatorServiceTask`: what one tick does.
use decent_ethereum.Base.{
  ℕ, ◌≡◌, refl, ap, ◌∙◌, inl, inr, Bool, true, false, Bool-cases, Bytes, Outcome, done, thrown,
  bind-done, bind-thrown, Error, service_unavailable, if_true, if_false,
}
use decent_ethereum.Geth.Libraries.{JsonLib, HexLib}
use decent_ethereum.BlockFeed.Service.{HostBlockService, Round, try_push_new_block}
use decent_ethereum.BlockFeed.Pushing.{
  pushed, CanPush, success, retry, failure, try_push_new_block-Tried,
}
use decent_ethereum.BlockFeed.Tasks.{TickingTask, Updator, next_interval, on_service, updator_tick}

module _ (lib : TickingTask) (json : JsonLib) (hex : HexLib) where
  open lib use {State, is_tick_interval_enabled, enabled-disable, enabled-set}

  next_interval-pushed :
      (every : ℕ) (t : State) → is_tick_interval_enabled (next_interval lib true every t) ≡ false
  unfolding next_interval
  next_interval-pushed every t = elim (Bool-cases (is_tick_interval_enabled t)) [
    | inl e ↦ rw (if_true (lib.disable_tick_interval t) t e) (enabled-disable t)
    | inr e ↦ rw (if_false (lib.disable_tick_interval t) t e) e
  ]

  next_interval-retry :
      (every : ℕ) (t : State) → is_tick_interval_enabled (next_interval lib false every t) ≡ true
  unfolding next_interval
  next_interval-retry every t = elim (Bool-cases (is_tick_interval_enabled t)) [
    | inl e ↦ rw (if_true t (lib.set_interval 200 every t) e) e
    | inr e ↦ rw (if_false t (lib.set_interval 200 every t) e) (enabled-set 200 every t)
  ]

  -- The cases of a tick: a block was pushed and the task goes on without delay; nothing was pushed
  -- and it waits; or an exception left the task and the service as they were.
  pub data Ticked (r : Round) (u : Updator State) (o : Outcome (Updator State) (Unit {0}))
      : Type 0 where
    fast :
        (v : Updator State) (header : Bytes)
        → o ≡ done tt v
        → CanPush json hex r u.service header
        → v.service ≡ pushed header u.service
        → is_tick_interval_enabled v.ticking ≡ false
        → Ticked r u o
    slow :
        (v : Updator State)
        → o ≡ done tt v
        → v.service ≡ u.service
        → is_tick_interval_enabled v.ticking ≡ true
        → Ticked r u o
    stopped : (e : Error) → o ≡ thrown e u → Ticked r u o

  on_service-done :
      {A : Type 0} (m : HostBlockService → Outcome HostBlockService A) (u : Updator State)
      {t : HostBlockService} {a : A}
      → m u.service ≡ done a t
      → on_service lib m u ≡ done a (record u { service = t })
  on_service-done {A} m u {t} {a} h = ap put h
    where
      put : Outcome HostBlockService A → Outcome (Updator State) A
      put o = elim o [
        | done a s ↦ done a (record u { service = s })
        | thrown e s ↦ thrown e (record u { service = s })
      ]

  on_service-thrown :
      {A : Type 0} (m : HostBlockService → Outcome HostBlockService A) (u : Updator State)
      {t : HostBlockService} {e : Error}
      → m u.service ≡ thrown e t
      → on_service lib m u ≡ thrown e (record u { service = t })
  on_service-thrown {A} m u {t} {e} h = ap put h
    where
      put : Outcome HostBlockService A → Outcome (Updator State) A
      put o = elim o [
        | done a s ↦ done a (record u { service = s })
        | thrown e s ↦ thrown e (record u { service = s })
      ]

  -- The task after a try.
  abbrev tried : Bool → HostBlockService → Updator State → Updator State
  tried pushed s u = record u {
    service = s;
    ticking = next_interval lib pushed u.retry_interval_mil_sec u.ticking;
  }

  -- A tick of the updater has three ends: a block was pushed, under the conditions of a successful
  -- try, and the tick interval is off; or nothing was pushed, the service is unchanged and the
  -- interval is on; or an exception left the task and the service as they were.
  pub updator_tick-Ticked :
      (r : Round) (u : Updator State) → Ticked r u (updator_tick lib json hex r u)
  unfolding updator_tick
  updator_tick-Ticked r u = elim (Bool-cases u.has_service) [
    | inr b ↦ stopped service_unavailable (if_false _ _ b)
    | inl b ↦ elim (try_push_new_block-Tried json hex r u.service) [
      | success header c e ↦
          fast (tried true (pushed header u.service) u) header
            (if_true _ _ b ∙ bind-done try _ (on_service-done (try_push_new_block json hex r) u e))
            c refl (next_interval-pushed u.retry_interval_mil_sec u.ticking)
      | retry e ↦
          slow (tried false u.service u)
            (if_true _ _ b ∙ bind-done try _ (on_service-done (try_push_new_block json hex r) u e))
            refl (next_interval-retry u.retry_interval_mil_sec u.ticking)
      | failure x e ↦ stopped x (
          if_true _ _ b ∙ bind-thrown try _ (on_service-thrown (try_push_new_block json hex r) u e))
    ]
  ]
    where
      try : Updator State → Outcome (Updator State) Bool
      try = on_service lib (try_push_new_block json hex r)
