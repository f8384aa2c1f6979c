-- ===== src/Geth/Exchange.antt =====
-- The HTTP exchange, and the loop that waits for a transaction's receipt.
use mathlib.Core.List.{flatten}
use decent_ethereum.Base.{
  ℕ, zero, suc, ◌+◌, ◌<◌, ◌≡◌, ◌≢◌, refl, sym, ap, ◌∙◌, inl, inr, List, [], ◌∷◌, ◌++◌, append_assoc,
  append-nil, Option, some, Bytes, Result, ok, err, and_then, bytes_eq_iff, Bytes-cases,
  Result-cases, Error, arith,
}
use decent_ethereum.Geth.Text.{codes}
use decent_ethereum.Geth.Libraries.{JsonLib, HexLib, Network}
use decent_ethereum.Geth.Requests.{
  receive, post_request, get_transaction_receipt, wait_and_get_transaction_receipt,
}

receive-flatten : (body : Bytes) (ps : List Bytes) → receive body ps ≡ body ++ flatten ps
unfolding receive flatten
receive-flatten body [] = sym (append-nil body)
receive-flatten body (p ∷ ps) = receive-flatten (body ++ p) ps ∙ append_assoc body p (flatten ps)

-- A request returns the pieces of the answer joined in their order, however many there are, and
-- fails exactly as the exchange fails.
pub post_request-flatten :
    (net : Network) (req : Bytes)
    → post_request net req ≡ and_then (net req) (λ ps. ok (flatten ps))
unfolding post_request
post_request-flatten net req = elim (Result-cases (net req)) [
  | inl (e, h) ↦ rw (h, post_request)
  | inr (ps, h) ↦ rw (h, post_request) (ap ok (receive-flatten [] ps))
]

module _ (json : JsonLib) (hex : HexLib) (net : ℕ → Network) (txn_hash : Bytes) where
  -- The node's answer at a round.
  abbrev pub answer : ℕ → Result Bytes
  answer round = get_transaction_receipt json hex (net round) txn_hash

  abbrev wait : ℕ → ℕ → Option (Result Bytes)
  wait = wait_and_get_transaction_receipt json hex net txn_hash

  wait_mined :
      (fuel round : ℕ) (obj : Bytes)
      → answer round ≡ ok obj
      → obj ≢ codes "null"
      → wait (suc fuel) round ≡ some (ok obj)
  unfolding wait_and_get_transaction_receipt
  wait_mined fuel round obj h n = elim (Bytes-cases obj (codes "null")) [
    | inl e ↦ absurd (n e)
    | inr (_, q) ↦ rw (h, wait_and_get_transaction_receipt) (rw q)
  ]

  wait_failed :
      (fuel round : ℕ) (e : Error) → answer round ≡ err e → wait (suc fuel) round ≡ some (err e)
  unfolding wait_and_get_transaction_receipt
  wait_failed fuel round e h = rw (h, wait_and_get_transaction_receipt)

  wait_again :
      (fuel round : ℕ)
      → answer round ≡ ok (codes "null")
      → wait (suc fuel) round ≡ wait fuel (suc round)
  unfolding wait_and_get_transaction_receipt
  wait_again fuel round h =
      rw (h, wait_and_get_transaction_receipt)
        (rw ((bytes_eq_iff (codes "null") (codes "null")).1 refl))

  -- If the node answers null for k rounds and in the round after them a receipt other than null,
  -- the wait for a transaction's receipt returns that receipt, with any fuel above k.
  pub wait_and_get-mined :
      (k fuel round : ℕ) (obj : Bytes)
      → k < fuel
      → ((i : ℕ) → i < k → answer (round + i) ≡ ok (codes "null"))
      → answer (round + k) ≡ ok obj
      → obj ≢ codes "null"
      → wait_and_get_transaction_receipt json hex net txn_hash fuel round ≡ some (ok obj)
  wait_and_get-mined zero zero round obj lt nulls h n = absurd (omega arith)
  wait_and_get-mined zero (suc fuel) round obj lt nulls h n =
      let e : round + 0 ≡ round = omega arith in wait_mined fuel round obj (rw e at h) n
  wait_and_get-mined (suc k) zero round obj lt nulls h n = absurd (omega arith)
  wait_and_get-mined (suc k) (suc fuel) round obj lt nulls h n =
      wait_again fuel round (rw first at (nulls 0 (omega arith)))
      ∙ wait_and_get-mined k fuel (suc round) obj (omega arith)
          (λ i l. rw (shift i) (nulls (suc i) (omega arith))) (rw (shift k) h) n
    where
      first : round + 0 ≡ round
      first = omega arith

      shift : (i : ℕ) → suc round + i ≡ round + suc i
      shift i = omega arith

  -- With any network and fuel, a receipt that the wait returns is not null.
  wait_and_get-ne-null :
      (fuel round : ℕ) (obj : Bytes)
      → wait_and_get_transaction_receipt json hex net txn_hash fuel round ≡ some (ok obj)
      → obj ≢ codes "null"
  unfolding wait_and_get_transaction_receipt
  wait_and_get-ne-null zero round obj h = cc
  wait_and_get-ne-null (suc fuel) round obj h = elim (Result-cases (answer round)) [
    | inl (e, f) ↦ cc (wait_failed fuel round e f)
    | inr (o, f) ↦ elim (Bytes-cases o (codes "null")) [
      | inl p ↦
          wait_and_get-ne-null fuel (suc round) obj (sym (wait_again fuel round (f ∙ ap ok p)) ∙ h)
      | inr (n, _) ↦ λ p. n (same o obj (sym (wait_mined fuel round o f n) ∙ h) ∙ p)
    ]
  ]
    where
      same : (a b : Bytes) → some (ok a) ≡ some (ok b) → a ≡ b
      same a b e = cc
