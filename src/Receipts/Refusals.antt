-- ===== src/Receipts/Refusals.antt =====
-- Which messages `ReceiptSubReq` refuses for their sizes, told without the loop that reads them.
use mathlib.Core.Option
use decent_ethereum.Base.{
  ◌≡◌, refl, sym, ap, ◌≢◌, false, ◌∙◌, Bool-cases, inl, inr, List, [], ◌∷◌, ◌++◌, Option, some,
  none, Bytes, ok, and_then, and_then-eq-ok, length, All, ◌==◌, ==_iff, if_true, if_false,
}
use decent_ethereum.External.{RlpParser}
use decent_ethereum.Receipts.{
  bad_address, bad_topic, valid, addr_size, topic_size, topics_of, topics_request, request_of,
}
use decent_ethereum.Receipts.Requests.{Reads}

module _ (rlp : RlpParser) where
  open rlp use {Obj, as_bytes, as_list, parse, dict_get}

  abbrev pub WrongAddress : Bytes → Type 0
  WrongAddress content =
      (obj : Obj) × (addr : Bytes) × (parse content ≡ ok obj)
      × (and_then (dict_get obj "contract") as_bytes ≡ ok addr)
      × (length addr ≢ 20)

  -- A topic of a wrong size behind topics of the right one.
  abbrev pub HasWrongTopic : List Obj → Type 0
  HasWrongTopic os =
      (front rest : List Obj) × (ts : List Bytes) × (o : Obj) × (t : Bytes) × (os
        ≡ front ++ o ∷ rest)
      × Reads rlp front ts
      × All (λ t. length t ≡ 32) ts
      × (as_bytes o ≡ ok t)
      × (length t ≢ 32)

  abbrev pub WrongTopic : Bytes → Type 0
  WrongTopic content =
      (obj : Obj) × (os : List Obj) × (addr : Bytes) × (parse content ≡ ok obj)
      × (and_then (dict_get obj "contract") as_bytes ≡ ok addr)
      × (length addr ≡ 20)
      × (and_then (dict_get obj "topics") as_list ≡ ok os)
      × HasWrongTopic os

  topics_of-none : (os : List Obj) → topics_of rlp os ≡ ok none → HasWrongTopic os
  unfolding topics_of
  topics_of-none [] h = cc
  topics_of-none (o ∷ os) h =
      let (t, e, f) = and_then-eq-ok (as_bytes o) _ h in
      elim (Bool-cases (length t == topic_size)) [
        | inr b ↦ ([], os, [], o, t, refl, tt, tt, e, λ l. differs t b l)
        | inl b ↦
            let (q, g, k) = and_then-eq-ok (topics_of rlp os) _ (sym (if_true _ (ok none) b) ∙ f) in
            let (front, rest, ts, o', t', p, r, ls, e', n) =
              topics_of-none os (g ∙ ap ok (nothing t q k)) in
            (
              o ∷ front,
              rest,
              t ∷ ts,
              o',
              t',
              ap (λ os. o ∷ os) p,
              (e, r),
              ((==_iff (length t) topic_size).0 b, ls),
              e',
              n,
            )
      ]
    where
      differs : (t : Bytes) → (length t == topic_size) ≡ false → length t ≢ 32
      differs t b l = cc ((==_iff (length t) topic_size).1 l, b)

      nothing :
          (t : Bytes) (q : Option (List Bytes))
          → ok (Option.map (λ ts. t ∷ ts) q) ≡ ok none
          → q ≡ none
      nothing t none h = refl
      nothing t (some us) h = cc

  pub request_of-bad_address :
      (content : Bytes) → request_of rlp content ≡ ok bad_address → WrongAddress content
  unfolding request_of topics_request
  request_of-bad_address content h =
      let (obj, e, f) = and_then-eq-ok (parse content) _ h in
      let (a, g, k) = and_then-eq-ok (and_then (dict_get obj "contract") as_bytes) _ f in
      elim (Bool-cases (length a == addr_size)) [
        | inr b ↦ (obj, a, e, g, λ l. cc ((==_iff (length a) addr_size).1 l, b))
        | inl b ↦
            let (os, m, n) =
              and_then-eq-ok (and_then (dict_get obj "topics") as_list) _
                (sym (if_true _ (ok bad_address) b) ∙ k) in
            let (r, p, q) = and_then-eq-ok (topics_of rlp os) _ n in absurd (impossible a r q)
      ]
    where
      impossible :
          (a : Bytes) (r : Option (List Bytes))
          → ¬ (ok (elim r [ none ↦ bad_topic | some ts ↦ valid a ts ]) ≡ ok bad_address)
      impossible a none q = cc
      impossible a (some ts) q = cc

  pub request_of-bad_topic :
      (content : Bytes) → request_of rlp content ≡ ok bad_topic → WrongTopic content
  unfolding request_of topics_request
  request_of-bad_topic content h =
      let (obj, e, f) = and_then-eq-ok (parse content) _ h in
      let (a, g, k) = and_then-eq-ok (and_then (dict_get obj "contract") as_bytes) _ f in
      elim (Bool-cases (length a == addr_size)) [
        | inr b ↦ cc (if_false (topics_request rlp a obj) (ok bad_address) b, k)
        | inl b ↦
            let (os, m, n) =
              and_then-eq-ok (and_then (dict_get obj "topics") as_list) _
                (sym (if_true _ (ok bad_address) b) ∙ k) in
            let (r, p, q) = and_then-eq-ok (topics_of rlp os) _ n in
            let wrong = topics_of-none os (p ∙ ap ok (refused a r q)) in
            (obj, os, a, e, g, (==_iff (length a) addr_size).0 b, m, wrong)
      ]
    where
      refused :
          (a : Bytes) (r : Option (List Bytes))
          → ok (elim r [ none ↦ bad_topic | some ts ↦ valid a ts ]) ≡ ok bad_topic
          → r ≡ none
      refused a none q = refl
      refused a (some ts) q = cc
