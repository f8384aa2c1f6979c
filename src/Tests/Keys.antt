-- ===== src/Tests/Keys.antt =====
-- The theorem on the key, at a concrete input.
use decent_ethereum.Base.{
  ℕ, ◌≡◌, ◌≢◌, refl, sym, ap, ◌∙◌, ==_ne, Error, Bool, true, false, if◌then◌else◌, ◌==◌, [], ◌∷◌,
  Bytes, Result, ok, err, after, external_error, arith,
}
use decent_ethereum.Keys.{EccContexts, KeyPairs, make_secp256r1, make_secp256r1-is_open}

-- One context, whose handle is 0.
abbrev open_one : Bool → Result ℕ × Bool
open_one true = (err external_error, true)
open_one false = (ok 0, true)

abbrev is_open_one : ℕ → Bool → Bool
is_open_one h true = h == 0
is_open_one h false = false

-- The handle that was opened, and the state after.
opened : (s t : Bool) (h : ℕ) → open_one s ≡ (ok h, t) → (s ≡ false) × (h ≡ 0) × (t ≡ true)
opened true t h e = absurd (impossible e)
  where
    impossible : ¬ (open_one true ≡ (ok h, t))
    impossible e = cc
opened false t h e = (refl, ap (λ r. value r.0) (sym e), ap (λ r. r.1) (sym e))
  where
    value : Result ℕ → ℕ
    value (ok n) = n
    value (err e) = 0

fresh_handle : (s t : Bool) (h : ℕ) → open_one s ≡ (ok h, t) → is_open_one h s ≡ false
fresh_handle s t h e = let (a, b, c) = opened s t h e in rw a refl

other_handle :
    (s t : Bool) (h i : ℕ) → open_one s ≡ (ok h, t) → i ≢ h → is_open_one i t ≡ is_open_one i s
other_handle s t h i e n =
    let (a, b, c) = opened s t h e in rw (a, c) (==_ne i 0 (λ f. n (f ∙ sym b)))

not_opened :
    (s t : Bool) (e : Error) (i : ℕ) → open_one s ≡ (err e, t) → is_open_one i t ≡ is_open_one i s
not_opened true t e i h = ap (λ r. is_open_one i r.1) (sym h)
not_opened false t e i h = absurd (impossible h)
  where
    impossible : ¬ (open_one false ≡ (err e, t))
    impossible h = cc

abbrev close_one : ℕ → Bool → Bool
close_one h s = if h == 0 then false else s

close_self : (h : ℕ) (s : Bool) → is_open_one h (close_one h s) ≡ false
close_self h true = ground arith
close_self h false = ground arith

close_other : (h i : ℕ) (s : Bool) → i ≢ h → is_open_one i (close_one h s) ≡ is_open_one i s
close_other h i true n = ground arith
close_other h i false n = ground arith

abbrev one_context : EccContexts
one_context = record {
  State = Bool;
  open_context = open_one;
  create_key_pair = λ h s. (ok (1 ∷ [], 2 ∷ []), s);
  close_context = close_one;
  is_open = is_open_one;
  open-fresh = fresh_handle;
  open-other = other_handle;
  open-failed = not_opened;
  create-keeps = λ h i s. refl;
  close-self = close_self;
  close-other = close_other;
}

abbrev test_pairs : KeyPairs
test_pairs = record {
  KeyPair = Bytes;
  empty = [];
  export_public = λ k p. ok (k);
  export_private = λ k p. ok (k);
}

make_secp256r1-is_open_example :
    one_context.is_open 0 (after (make_secp256r1 one_context test_pairs false)) ≡ false
make_secp256r1-is_open_example = make_secp256r1-is_open one_context test_pairs false 0
