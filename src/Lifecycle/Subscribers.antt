-- ===== src/Lifecycle/Subscribers.antt =====
-- Subscribers come and go: the service's listeners stay as they are.
use decent_ethereum.Base.{ℕ, ◌≡◌, refl, Bool, true, false, inl, inr, some, Bytes}
use decent_ethereum.External.{
  Callback, deploy, reg, notify_past, notify, receipt, EventDescription, EventManager,
}
use decent_ethereum.World.{PubsubServiceStore}
use decent_ethereum.Lifecycle.{past_listener, Inv, IsOutside, Wired, drives, is_subscriber, driver}
use decent_ethereum.Lifecycle.Listeners.{
  find-listen_cases, find-listen_keep, find-cancel_some, find-cancel_keep, inside-ne-outside,
}

subscriber-drives : (c : Callback) → is_subscriber c ≡ true → drives c ≡ false
subscriber-drives (notify q) h = refl
subscriber-drives (receipt q) h = refl
subscriber-drives deploy h = cc
subscriber-drives reg h = cc
subscriber-drives notify_past h = cc

driver-subscriber :
    (s : PubsubServiceStore) (b : Bool) → is_subscriber (driver s b).callback ≡ false
driver-subscriber s true = refl
driver-subscriber s false = refl

notify_past-subscriber :
    (s : PubsubServiceStore) (addr : Bytes) → is_subscriber (past_listener addr s).callback ≡ false
notify_past-subscriber s addr = refl

module _ (em : EventManager) where
  open em use {State, listen, cancel, find}

  pub listen-Inv :
      (d : EventDescription) (m : State) (s : PubsubServiceStore)
      → is_subscriber d.callback ≡ true
      → Wired s d d.callback
      → Inv em m s
      → Inv em (listen d m).0 s
  listen-Inv d m s sub w v = record {
    wired = λ id e h. elim (find-listen_cases em d e m id h) [
      | inl (_, p) ↦ rw p w
      | inr (_, p) ↦ v.wired id e p
    ];
    one_driver = λ i j e f hi hj di dj. v.one_driver i j e f (old i e hi di) (old j f hj dj) di dj;
    driven = (v.driven.0, find-listen_keep em d _ m v.driven.0 v.driven.1);
    heard = λ p a h. let (q, (id, e)) = v.heard p a h in (q, (id, find-listen_keep em d _ m id e));
    silent = v.silent;
  }
    where
      old :
          (i : ℕ) (e : EventDescription)
          → find i (listen d m).0 ≡ some e
          → drives e.callback ≡ true
          → find i m ≡ some e
      old i e h di = elim (find-listen_cases em d e m i h) [
        | inl (_, p) ↦ cc (subscriber-drives d.callback sub)
        | inr (_, p) ↦ p
      ]

  pub cancel-Inv :
      (m : State) (s : PubsubServiceStore) (i : ℕ)
      → IsOutside em m i
      → Inv em m s
      → Inv em (cancel i m) s
  cancel-Inv m s i o v = record {
    wired = λ id e h. v.wired id e (find-cancel_some em e m id i h).1;
    one_driver = λ j k e f hj hk.
        v.one_driver j k e f (find-cancel_some em e m j i hj).1 (find-cancel_some em f m k i hk).1;
    driven = (v.driven.0, stays v.driven.0 _ v.driven.1 (driver-subscriber s s.is_deployed));
    heard = λ p a h.
        let (q, (id, e)) = v.heard p a h in (q, (id, stays id _ e (notify_past-subscriber s a)));
    silent = v.silent;
  }
    where
      stays :
          (id : ℕ) (e : EventDescription)
          → find id m ≡ some e
          → is_subscriber e.callback ≡ false
          → find id (cancel i m) ≡ some e
      stays id e h n = find-cancel_keep em e m id i (inside-ne-outside em m id i e o h n) h
