-- ===== src/Base/Maps.antt =====
-- `std::unordered_map` keyed by byte strings, and the store of shared queues.
use Prim.Native.Nat.{ℕ, ◌+◌}
use mathlib.Core.Path.{◌≡◌, refl, sym, ap, subst, ◌∙◌}
use mathlib.Core.Logic.{inl, inr}
use mathlib.Core.Bool.{false}
use mathlib.Core.Option.{Option, none, some}
use mathlib.Core.List.{List, [], ◌∷◌, ◌++◌}
use native.Mathlib.Omega.{arith}
use decent_ethereum.Base.Tests.{◌==◌, if◌then◌else◌, if_true, if_false, Bool-cases, Option-cases}
use decent_ethereum.Base.Lists.{Bytes, bytes_eq, bytes_eq_iff, bytes_eq_refl, Bytes-cases, All}

abbrev pub Map : Type 0 → Type 0
Map V = List (Bytes × V)

module _ {V : Type 0} where
  -- `m.find(k)`
  unfoldable pub lookup : Bytes → Map V → Option V
  lookup k [] = none
  lookup k ((j, v) ∷ m) = if bytes_eq j k then some v else lookup k m

  -- `m[k] = v`
  unfoldable pub insert : Bytes → V → Map V → Map V
  insert k v [] = (k, v) ∷ []
  insert k v ((j, w) ∷ m) = if bytes_eq j k then (k, v) ∷ m else (j, w) ∷ insert k v m

  -- `m.emplace(k, v)`: an entry that is there stays.
  unfoldable pub emplace : Bytes → V → Map V → Map V
  emplace k v m = elim (lookup k m) [ some _ ↦ m | none ↦ insert k v m ]

  pub lookup-insert :
      (k j : Bytes) (v : V) (m : Map V)
      → lookup j (insert k v m) ≡ (if bytes_eq k j then some v else lookup j m)
  unfolding lookup insert
  lookup-insert k j v [] = refl
  lookup-insert k j v ((i, w) ∷ m) =
      ground (arith, bytes_eq_iff k j, bytes_eq_iff i k, bytes_eq_iff i j, lookup-insert k j v m)

  pub lookup-emplace_self :
      (k : Bytes) (v : V) (m : Map V)
      → lookup k (emplace k v m) ≡ elim (lookup k m) [ some w ↦ some w | none ↦ some v ]
  unfolding emplace
  lookup-emplace_self k v m = ground (arith, lookup-insert k k v m, bytes_eq_refl k)

  pub lookup-emplace_ne :
      (k j : Bytes) (v : V) (m : Map V)
      → bytes_eq k j ≡ false
      → lookup j (emplace k v m) ≡ lookup j m
  unfolding emplace
  lookup-emplace_ne k j v m h = ground (arith, lookup-insert k j v m)

module _ {κ} {V : Type 0} where
  -- What holds of each entry.
  pub All-lookup :
      (P : Bytes × V → Type κ) (k : Bytes) (v : V) (m : Map V)
      → lookup k m ≡ some v
      → All P m
      → P (k, v)
  unfolding lookup
  All-lookup P k v [] h a = cc
  All-lookup P k v ((j, w) ∷ m) h a = elim (Bytes-cases j k) [
    | inl e ↦
        let f : some w ≡ some v =
          sym (if_true (some w) (lookup k m) ((bytes_eq_iff j k).1 e)) ∙ h in
        subst P (rw e (ap (λ o. (k, given w o)) f)) a.0
    | inr (n, e) ↦ All-lookup P k v m (sym (if_false (some w) (lookup k m) e) ∙ h) a.1
  ]
    where
      given : V → Option V → V
      given w none = w
      given w (some x) = x

  pub All-insert :
      (P : Bytes × V → Type κ) (k : Bytes) (v : V) (m : Map V)
      → P (k, v)
      → All P m
      → All P (insert k v m)
  unfolding insert
  All-insert P k v [] p a = (p, tt)
  All-insert P k v ((j, w) ∷ m) p a = elim (Bool-cases (bytes_eq j k)) [
    | inl e ↦ subst (All P) (sym (if_true _ _ e)) (p, a.1)
    | inr e ↦ subst (All P) (sym (if_false _ _ e)) (a.0, All-insert P k v m p a.1)
  ]

  pub All-emplace :
      (P : Bytes × V → Type κ) (k : Bytes) (v : V) (m : Map V)
      → P (k, v)
      → All P m
      → All P (emplace k v m)
  unfolding emplace
  All-emplace P k v m p a = elim (Option-cases (lookup k m)) [
    | inl e ↦ rw (e, emplace) (All-insert P k v m p a)
    | inr (w, e) ↦ rw (e, emplace) a
  ]

-- The queues made by `std::make_shared`, by number. Closures share one by holding its number.
pub record Heap (A : Type 0) : Type 0 where
  pub next : ℕ
  pub cell : ℕ → List A

module _ {A : Type 0} where
  abbrev pub update : (ℕ → List A) → ℕ → List A → ℕ → List A
  update f p v q = if p == q then v else f q

  abbrev pub new_heap : Heap A
  new_heap = record { next = 0; cell = λ _. [] }

  -- A fresh, empty queue: it is number `h.next`.
  unfoldable pub alloc : Heap A → Heap A
  alloc h = record { next = h.next + 1; cell = update h.cell h.next [] }

  -- `queue.push_back(a)`
  unfoldable pub push_back : ℕ → A → Heap A → Heap A
  push_back p a h = record h { cell = update h.cell p (h.cell p ++ a ∷ []) }

  -- `out = std::move(queue); queue = {}`, under the queue's lock.
  unfoldable pub clear : ℕ → Heap A → Heap A
  clear p h = record h { cell = update h.cell p [] }
