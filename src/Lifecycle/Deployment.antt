-- ===== src/Lifecycle/Deployment.antt =====
-- `DeployEventHandler`: the deployment's listener gives way to the one for registrations.
use decent_ethereum.Base.{
  ℕ, ◌≡◌, ◌≢◌, refl, sym, ap, ◌∙◌, true, false, inl, inr, List, [], ◌∷◌, some, Bytes, lookup,
  Bool-cases,
}
use decent_ethereum.External.{
  Callback, deploy, reg, notify_past, notify, receipt, EventDescription, EventManager,
}
use decent_ethereum.World.{PubsubServiceStore}
use decent_ethereum.Pubsub.Service.{build_reg_event_descr}
use decent_ethereum.Lifecycle.{Inv, Wired, drives}
use decent_ethereum.Lifecycle.Listeners.{find-listen_cases, find-cancel_some}

abbrev pub deployed : PubsubServiceStore → PubsubServiceStore
deployed s = record s { is_deployed = true }

Wired-deployed :
    (s : PubsubServiceStore) (d : EventDescription) (c : Callback)
    → drives c ≡ false
    → Wired s d c
    → Wired (deployed s) d c
Wired-deployed s d notify_past h w = w
Wired-deployed s d (notify q) h w = w
Wired-deployed s d (receipt q) h w = tt
Wired-deployed s d deploy h w = cc
Wired-deployed s d reg h w = cc

lookup-empty : (k a : Bytes) (m : List (Bytes × Bytes)) → m ≡ [] → lookup k m ≡ some a → ⊥
unfolding lookup
lookup-empty k a [] e h = cc
lookup-empty k a (x ∷ m) e h = cc

module _ (em : EventManager) where
  open em use {State, listen, cancel, find, find-listen_new}

  pub deploy-Inv :
      (m : State) (s : PubsubServiceStore) (id : ℕ) (d : EventDescription)
      → find id m ≡ some d
      → d.callback ≡ deploy
      → Inv em m s
      → Inv em (listen (build_reg_event_descr (deployed s)) (cancel id m)).0 (deployed s)
  unfolding build_reg_event_descr
  deploy-Inv m s id d hd c v = record {
    wired = λ i e h. elim (find-listen_cases em r e (cancel id m) i h) [
      | inl (_, p) ↦ rw p (refl, refl)
      | inr (_, p) ↦ kept i e (find-cancel_some em e m i id p)
    ];
    one_driver = λ i j e f hi hj di dj. fresh i e hi di ∙ sym (fresh j f hj dj);
    driven = ((listen r (cancel id m)).1, find-listen_new r (cancel id m));
    heard = λ p a h. absurd (lookup-empty p a _ (v.silent (before d hd c)).0 h);
    silent = λ h. cc;
  }
    where
      r : EventDescription
      r = build_reg_event_descr (deployed s)

      before :
          (e : EventDescription) → find id m ≡ some e → e.callback ≡ deploy → s.is_deployed ≡ false
      before e h p = (rw p at (v.wired id e h)).0

      quiet :
          (i : ℕ) (e : EventDescription)
          → (i ≢ id) × (find i m ≡ some e)
          → drives e.callback ≡ false
      quiet i e (n, h) = elim (Bool-cases (drives e.callback)) [
        | inl y ↦ absurd (n (v.one_driver i id e d h hd y (ap drives c)))
        | inr y ↦ y
      ]

      kept :
          (i : ℕ) (e : EventDescription)
          → (i ≢ id) × (find i m ≡ some e)
          → Wired (deployed s) e e.callback
      kept i e h = Wired-deployed s e e.callback (quiet i e h) (v.wired i e h.1)

      fresh :
          (i : ℕ) (e : EventDescription)
          → find i (listen r (cancel id m)).0 ≡ some e
          → drives e.callback ≡ true
          → i ≡ (listen r (cancel id m)).1
      fresh i e h y = elim (find-listen_cases em r e (cancel id m) i h) [
        | inl (p, _) ↦ p
        | inr (_, p) ↦ cc (quiet i e (find-cancel_some em e m i id p))
      ]
