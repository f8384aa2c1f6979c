-- ===== src/Base/Effects.antt =====
-- Exceptions and state. A call that throws keeps what it had already written.

use mathlib.Core.Path.{◌≡◌, refl, ap, sym, ◌∙◌}
use mathlib.Core.Logic.{◌⊎◌, inl, inr}

-- The `std::exception`s that reach a handler of this program.
pub data Error : Type 0 where
  invalid_geth_response bad_length receiver_unavailable service_unavailable already_started : Error
  sgx_error root_mismatch external_error : Error

pub data Result {ℓ} (A : Type ℓ) : Type ℓ where
  ok : A → Result A
  err : Error → Result A

pub Result-cases {ℓ} :
    {A : Type ℓ} (r : Result A) → ((e : Error) × (r ≡ err e)) ⊎ ((a : A) × (r ≡ ok a))
Result-cases (ok a) = inr (a, refl)
Result-cases (err e) = inl (e, refl)

-- What a call leaves: its value or its exception, and the state either way.
pub data Outcome (S : Type 0) (A : Type 0) : Type 0 where
  done : A → S → Outcome S A
  thrown : Error → S → Outcome S A

abbrev pub Exec : Type 0 → Type 0 → Type 0
Exec S A = S → Outcome S A

abbrev pub after : {S A : Type 0} → Outcome S A → S
after (done a s) = s
after (thrown e s) = s

abbrev pub pure : {S A : Type 0} → A → Exec S A
pure a s = done a s

abbrev pub throw : {S A : Type 0} → Error → Exec S A
throw e s = thrown e s

abbrev pub lift : {S A : Type 0} → Result A → Exec S A
lift (ok a) s = done a s
lift (err e) s = thrown e s

abbrev pub modify : {S : Type 0} → (S → S) → Exec S (Unit {0})
modify f s = done tt (f s)

abbrev pub get : {S A : Type 0} → (S → A) → Exec S A
get f s = done (f s) s

-- `try { m } catch (const std::exception& e) { h }`
abbrev pub try_catch : {S A : Type 0} → Exec S A → (Error → Exec S A) → Exec S A
try_catch m h s = elim (m s) [ done a t ↦ done a t | thrown e t ↦ h e t ]

-- Fallible calls in a row, with no state.
abbrev pub and_then : {A B : Type 0} → Result A → (A → Result B) → Result B
and_then (ok a) f = f a
and_then (err e) f = err e

-- Inversion of a success.
pub and_then-eq-ok :
    {A B : Type 0} (m : Result A) (f : A → Result B) {b : B}
    → and_then m f ≡ ok b
    → (a : A) × (m ≡ ok a) × (f a ≡ ok b)
and_then-eq-ok (ok a) f h = (a, refl, h)
and_then-eq-ok (err e) f h = cc

infixl 5 ◌>>=◌ ◌>>◌
abbrev pub ◌>>=◌ : {S A B : Type 0} → Exec S A → (A → Exec S B) → Exec S B
◌>>=◌ m f s = elim (m s) [ done a t ↦ f a t | thrown e t ↦ thrown e t ]

abbrev pub ◌>>◌ : {S B : Type 0} → Exec S (Unit {0}) → Exec S B → Exec S B
m >> k = m >>= λ _. k

-- A call whose outcome is known.
pub bind-done :
    {S A B : Type 0} (m : Exec S A) (f : A → Exec S B) {s t : S} {a : A}
    → m s ≡ done a t
    → (m >>= f) s ≡ f a t
bind-done {S} {A} {B} m f {s} {t} {a} h = ap next h
  where
    next : Outcome S A → Outcome S B
    next o = elim o [ done a t ↦ f a t | thrown e t ↦ thrown e t ]

pub bind-thrown :
    {S A B : Type 0} (m : Exec S A) (f : A → Exec S B) {s t : S} {e : Error}
    → m s ≡ thrown e t
    → (m >>= f) s ≡ thrown e t
bind-thrown {S} {A} {B} m f {s} {t} {e} h = ap next h
  where
    next : Outcome S A → Outcome S B
    next o = elim o [ done a t ↦ f a t | thrown e t ↦ thrown e t ]

pub Outcome-cases :
    {S A : Type 0} (o : Outcome S A)
    → ((e : Error) × (s : S) × (o ≡ thrown e s)) ⊎ ((a : A) × (s : S) × (o ≡ done a s))
Outcome-cases (done a s) = inr (a, s, refl)
Outcome-cases (thrown e s) = inl (e, s, refl)

-- Inversion of a call that returns.
pub bind-eq-done :
    {S A B : Type 0} (m : Exec S A) (f : A → Exec S B) {s u : S} {b : B}
    → (m >>= f) s ≡ done b u
    → (a : A) × (t : S) × (m s ≡ done a t) × (f a t ≡ done b u)
bind-eq-done m f {s} h = elim (Outcome-cases (m s)) [
  | inl (e, t, k) ↦ cc (sym (bind-thrown m f k) ∙ h)
  | inr (a, t, k) ↦ (a, t, k, sym (bind-done m f k) ∙ h)
]

pub bind_lift-eq-done :
    {S A B : Type 0} (r : Result A) (f : A → Exec S B) {s u : S} {b : B}
    → (lift r >>= f) s ≡ done b u
    → (a : A) × (r ≡ ok a) × (f a s ≡ done b u)
bind_lift-eq-done (ok a) f h = (a, refl, h)
bind_lift-eq-done (err e) f h = cc
