-- ===== src/Tests/Instances.antt =====
-- Concrete instances of the interfaces: an event manager that numbers its listeners, and parsers,
-- codecs and hosts that are as simple as their laws allow.
use decent_ethereum.Base.{
  ℕ, zero, suc, ◌<◌, ◌≡◌, ◌≢◌, refl, sym, ap, ◌∙◌, inl, inr, Bool-cases, List, [], ◌∷◌, ◌++◌,
  Option, none, some, Bytes, Result, ok, err, external_error, and_then, and_then-eq-ok, length,
  ◌==◌, ==_iff, ==_refl, ==_ne, if◌then◌else◌, if_true, if_false, arith,
}
use decent_ethereum.External.{EventDescription, EventManager, AbiParser}

-- The listeners, newest first; a cancelled one leaves its place empty.
abbrev pub Slots : Type 0
Slots = List (Option EventDescription)

abbrev pub find_at : ℕ → Slots → Option EventDescription
find_at i [] = none
find_at i (d ∷ ds) = if i == length ds then d else find_at i ds

abbrev pub cancel_at : ℕ → Slots → Slots
cancel_at i [] = []
cancel_at i (d ∷ ds) = let rest = cancel_at i ds in if i == length ds then none ∷ ds else d ∷ rest

pub find_at-lt : (m : Slots) (i : ℕ) (d : EventDescription) → find_at i m ≡ some d → i < length m
find_at-lt [] i d h = cc
find_at-lt (x ∷ m) i d h = elim (Bool-cases (i == length m)) [
  | inl b ↦ let e = (==_iff i (length m)).0 b in omega arith
  | inr b ↦ let l = find_at-lt m i d (sym (if_false _ _ b) ∙ h) in omega arith
]

pub length-cancel_at : (i : ℕ) (m : Slots) → length (cancel_at i m) ≡ length m
length-cancel_at i [] = refl
length-cancel_at i (d ∷ m) = elim (Bool-cases (i == length m)) [
  | inl b ↦ ap length (if_true (none ∷ m) (d ∷ cancel_at i m) b)
  | inr b ↦ ap length (if_false (none ∷ m) (d ∷ cancel_at i m) b) ∙ ap suc (length-cancel_at i m)
]

pub find_at-cons_ne :
    (i : ℕ) (d : Option EventDescription) (m : Slots)
    → i ≢ length m
    → find_at i (d ∷ m) ≡ find_at i m
find_at-cons_ne i d m n = if_false _ _ (==_ne i (length m) n)

pub find_at-cancel_self : (m : Slots) (i : ℕ) → find_at i (cancel_at i m) ≡ none
find_at-cancel_self [] i = refl
find_at-cancel_self (d ∷ m) i = elim (Bool-cases (i == length m)) [
  | inl b ↦ ap (find_at i) (if_true (none ∷ m) (d ∷ cancel_at i m) b) ∙ if_true _ _ b
  | inr b ↦
      ap (find_at i) (if_false (none ∷ m) (d ∷ cancel_at i m) b)
      ∙ (if_false _ _ (ap (λ n. i == n) (length-cancel_at i m) ∙ b) ∙ find_at-cancel_self m i)
]

pub find_at-cancel_ne : (m : Slots) (i j : ℕ) → j ≢ i → find_at j (cancel_at i m) ≡ find_at j m
find_at-cancel_ne [] i j n = refl
find_at-cancel_ne (d ∷ m) i j n = elim (Bool-cases (i == length m)) [
  | inl b ↦
      let e = (==_iff i (length m)).0 b in
      ap (find_at j) (if_true (none ∷ m) (d ∷ cancel_at i m) b)
      ∙ (find_at-cons_ne j none m (λ k. n (k ∙ sym e))
          ∙ sym (find_at-cons_ne j d m (λ k. n (k ∙ sym e))))
  | inr b ↦
      ap (find_at j) (if_false (none ∷ m) (d ∷ cancel_at i m) b)
      ∙ (ap (λ l. if j == l then d else find_at j (cancel_at i m)) (length-cancel_at i m)
          ∙ ap (λ r. if j == length m then d else r) (find_at-cancel_ne m i j n))
]

abbrev pub slots : EventManager
slots = record {
  State = Slots;
  listen = λ d m. (some d ∷ m, length m);
  cancel = cancel_at;
  find = find_at;
  Matches = λ d l. l.contract_addr ≡ d.contract_addr;
  Used = λ i m. i < length m;
  not-Used-listen = λ d m h. omega arith;
  Used-listen_new = λ d m. omega arith;
  Used-listen_old = λ d m i h. omega arith;
  Used-cancel = λ m i j h. omega (arith, length-cancel_at j m);
  find-Used = find_at-lt;
  find-listen_new = λ d m. if_true _ _ (==_refl (length m));
  find-listen_old = λ d m i n. find_at-cons_ne i (some d) m n;
  find-cancel_self = find_at-cancel_self;
  find-cancel_ne = find_at-cancel_ne;
  matches_addr = λ d l h. h;
}

abbrev pub split_at : ℕ → Bytes → Result (Bytes × Bytes)
split_at zero bs = ok ([], bs)
split_at (suc n) [] = err external_error
split_at (suc n) (b ∷ bs) = and_then (split_at n bs) λ r. ok (b ∷ r.0, r.1)

pub split_at-append : (word rest : Bytes) → split_at (length word) (word ++ rest) ≡ ok (word, rest)
split_at-append [] rest = refl
split_at-append (b ∷ word) rest =
    ap (λ r. and_then r (λ r. ok (b ∷ r.0, r.1))) (split_at-append word rest)

pub split_at-length :
    (n : ℕ) (d word rest : Bytes) → split_at n d ≡ ok (word, rest) → length word ≡ n
split_at-length zero d word rest h = ap (λ r. length (first r)) (sym h)
  where
    first : Result (Bytes × Bytes) → Bytes
    first (ok r) = r.0
    first (err e) = []
split_at-length (suc n) [] word rest h = cc
split_at-length (suc n) (b ∷ d) word rest h =
    let (r, e, f) = and_then-eq-ok (split_at n d) _ h in
    sym (ap (λ r. length (first r)) f) ∙ ap suc (split_at-length n d r.0 r.1 e)
  where
    first : Result (Bytes × Bytes) → Bytes
    first (ok r) = r.0
    first (err e) = []

-- A dynamic byte string is all of the data, which may not be empty.
abbrev pub all_bytes : Bytes → Result (Bytes × Bytes)
all_bytes [] = err external_error
all_bytes (b ∷ bs) = ok (b ∷ bs, [])

abbrev pub words : AbiParser
words = record {
  to_bytes = all_bytes;
  to_bytes32 = split_at 32;
  to_bytes32-append =
      λ word rest h. ap (λ n. split_at n (word ++ rest)) (sym h) ∙ split_at-append word rest;
  length-to_bytes32 = λ d word rest h. split_at-length 32 d word rest h;
}
