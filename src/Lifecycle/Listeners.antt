-- ===== src/Lifecycle/Listeners.antt =====
-- How the ids and listeners of the event manager move under `Listen` and `Cancel`.
use decent_ethereum.Base.{ℕ, ◌≡◌, ◌≢◌, sym, ◌∙◌, true, false, ◌⊎◌, inl, inr, some, ℕ_discrete}
use decent_ethereum.External.{EventDescription, EventManager}
use decent_ethereum.Lifecycle.{IsOutside, is_subscriber}

module _ (em : EventManager) where
  open em use {
    State, listen, cancel, find, Used, not-Used-listen, Used-listen_new, Used-listen_old,
    Used-cancel, find-Used, find-listen_new, find-listen_old, find-cancel_self, find-cancel_ne,
  }

  -- A listener after `Listen` is the new one, or was there.
  pub find-listen_cases :
      (d e : EventDescription) (m : State) (i : ℕ)
      → find i (listen d m).0 ≡ some e
      → ((i ≡ (listen d m).1) × (e ≡ d)) ⊎ ((i ≢ (listen d m).1) × (find i m ≡ some e))
  find-listen_cases d e m i h = elim (ℕ_discrete i (listen d m).1) [
    | yes p ↦ inl (p, cc (find-listen_new d m))
    | no p ↦ inr (p, sym (find-listen_old d m i p) ∙ h)
  ]

  -- What was there stays there.
  pub find-listen_keep :
      (d e : EventDescription) (m : State) (i : ℕ)
      → find i m ≡ some e
      → find i (listen d m).0 ≡ some e
  find-listen_keep d e m i h = find-listen_old d m i old ∙ h
    where
      old : i ≢ (listen d m).1
      old p = not-Used-listen d m (rw p at (find-Used m i e h))

  pub find-cancel_some :
      (e : EventDescription) (m : State) (i j : ℕ)
      → find i (cancel j m) ≡ some e
      → (i ≢ j) × (find i m ≡ some e)
  find-cancel_some e m i j h = elim (ℕ_discrete i j) [
    | yes p ↦ cc (find-cancel_self m j)
    | no p ↦ (p, sym (find-cancel_ne m j i p) ∙ h)
  ]

  pub find-cancel_keep :
      (e : EventDescription) (m : State) (i j : ℕ)
      → i ≢ j
      → find i m ≡ some e
      → find i (cancel j m) ≡ some e
  find-cancel_keep e m i j p h = find-cancel_ne m j i p ∙ h

  -- An id that was never given is not one that was.
  pub Used-ne-new : (d : EventDescription) (m : State) (i : ℕ) → Used i m → i ≢ (listen d m).1
  Used-ne-new d m i u p = not-Used-listen d m (rw p at u)

  pub IsOutside-listen :
      (d : EventDescription) (m : State) (i : ℕ) → IsOutside em m i → IsOutside em (listen d m).0 i
  IsOutside-listen d m i o = record {
    used = Used-listen_old d m i o.used;
    outside = λ e h. o.outside e (sym (find-listen_old d m i (Used-ne-new d m i o.used)) ∙ h);
  }

  pub IsOutside-listen_new :
      (d : EventDescription) (m : State)
      → is_subscriber d.callback ≡ true
      → IsOutside em (listen d m).0 (listen d m).1
  IsOutside-listen_new d m h = record {
    used = Used-listen_new d m;
    outside = λ e p. cc (find-listen_new d m);
  }

  pub IsOutside-cancel : (m : State) (i j : ℕ) → IsOutside em m i → IsOutside em (cancel j m) i
  IsOutside-cancel m i j o = record {
    used = Used-cancel m i j o.used;
    outside = λ e h. o.outside e (find-cancel_some e m i j h).1;
  }

  -- A listener that is not a subscriber's has another id than an outside one.
  pub inside-ne-outside :
      (m : State) (i j : ℕ) (e : EventDescription)
      → IsOutside em m j
      → find i m ≡ some e
      → is_subscriber e.callback ≡ false
      → i ≢ j
  inside-ne-outside m i j e o h s p = cc (o.outside e (rw p at h))
