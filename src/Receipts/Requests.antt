-- ===== src/Receipts/Requests.antt =====
-- Which messages `ReceiptSubReq` accepts, told without the loop that reads them.
use mathlib.Core.Option
use decent_ethereum.Base.{
  ◌≡◌, refl, sym, ap, subst, ◌∙◌, Bool-cases, inl, inr, List, [], ◌∷◌, Option, some, none, Bytes,
  Result, ok, and_then, and_then-eq-ok, length, All, ◌==◌, ==_iff, if◌then◌else◌, if_true, if_false,
}
use decent_ethereum.External.{RlpParser}
use decent_ethereum.Receipts.{
  Request, bad_address, bad_topic, valid, addr_size, topic_size, topics_of, topics_request,
  request_of,
}

module _ (rlp : RlpParser) where
  open rlp use {Obj, as_bytes, as_list, parse, dict_get}

  -- Each topic is the byte string of the object at its place.
  abbrev pub Reads : List Obj → List Bytes → Type 0
  Reads [] [] = Unit
  Reads (o ∷ os) (t ∷ ts) = (as_bytes o ≡ ok t) × Reads os ts
  Reads _ _ = ⊥

  topics_of_rest :
      (t : Bytes) (q : Option (List Bytes)) (ts : List Bytes)
      → ok (Option.map (λ ts. t ∷ ts) q) ≡ ok (some ts)
      → (us : List Bytes) × (q ≡ some us) × (t ∷ us ≡ ts)
  topics_of_rest t none ts h = cc
  topics_of_rest t (some us) ts h = (us, refl, cc)

  topics_of_sized :
      (t : Bytes) (r : Result (Option (List Bytes))) (ts : List Bytes)
      → (if length t == topic_size
          then and_then r (λ r. ok (Option.map (λ ts. t ∷ ts) r))
          else ok none)
        ≡ ok (some ts)
      → (length t ≡ topic_size) × (us : List Bytes) × (r ≡ ok (some us)) × (t ∷ us ≡ ts)
  topics_of_sized t r ts h = elim (Bool-cases (length t == topic_size)) [
    | inr b ↦ cc (if_false (and_then r (λ r. ok (Option.map (λ ts. t ∷ ts) r))) (ok none) b, h)
    | inl b ↦
        let (q, e, f) = and_then-eq-ok r _ (sym (if_true _ (ok none) b) ∙ h) in
        let (us, g, k) = topics_of_rest t q ts f in
        ((==_iff (length t) topic_size).0 b, us, e ∙ ap ok g, k)
  ]

  pub topics_of-some :
      (os : List Obj) (ts : List Bytes)
      → topics_of rlp os ≡ ok (some ts)
      → Reads os ts × All (λ t. length t ≡ topic_size) ts
  unfolding topics_of
  topics_of-some [] [] h = (tt, tt)
  topics_of-some [] (t ∷ ts) h = cc
  topics_of-some (o ∷ os) ts h =
      let (t, e, f) = and_then-eq-ok (as_bytes o) _ h in
      let (l, us, g, k) = topics_of_sized t (topics_of rlp os) ts f in
      let (reads, sizes) = topics_of-some os us g in
      subst (λ ts. Reads (o ∷ os) ts × All (λ t. length t ≡ topic_size) ts) k
        ((e, reads), (l, sizes))

  -- The message names this address and these topics, whatever their sizes.
  abbrev pub Asks : Bytes → Bytes → List Bytes → Type 0
  Asks content addr topics =
      (obj : Obj) × (os : List Obj) × (parse content ≡ ok obj)
      × (and_then (dict_get obj "contract") as_bytes ≡ ok addr)
      × (and_then (dict_get obj "topics") as_list ≡ ok os)
      × Reads os topics

  -- The address and the topics have the sizes of Ethereum's.
  abbrev pub RightSizes : Bytes → List Bytes → Type 0
  RightSizes addr topics = (length addr ≡ 20) × All (λ t. length t ≡ 32) topics

  pub request_of-valid :
      (content addr : Bytes) (topics : List Bytes)
      → request_of rlp content ≡ ok (valid addr topics)
      → Asks content addr topics × RightSizes addr topics
  unfolding request_of topics_request
  request_of-valid content addr topics h =
      let (obj, e, f) = and_then-eq-ok (parse content) _ h in
      let (a, g, k) = and_then-eq-ok (and_then (dict_get obj "contract") as_bytes) _ f in
      let (l, k') = addressed obj a k in
      let (os, m, n) = and_then-eq-ok (and_then (dict_get obj "topics") as_list) _ k' in
      let (r, p, q) = and_then-eq-ok (topics_of rlp os) _ n in
      let (some_topics, same) = accepted a r q in
      let (reads, sizes) = topics_of-some os topics (p ∙ ap ok some_topics) in
      ((obj, os, e, g ∙ ap ok same, m, reads), (ap length (sym same) ∙ l, sizes))
    where
      addressed :
          (obj : Obj) (a : Bytes)
          → (if length a == addr_size then topics_request rlp a obj else ok bad_address)
            ≡ ok (valid addr topics)
          → (length a ≡ addr_size) × (topics_request rlp a obj ≡ ok (valid addr topics))
      addressed obj a k = elim (Bool-cases (length a == addr_size)) [
        | inr b ↦ cc (if_false (topics_request rlp a obj) (ok bad_address) b, k)
        | inl b ↦ ((==_iff (length a) addr_size).0 b, sym (if_true _ (ok bad_address) b) ∙ k)
      ]

      accepted :
          (a : Bytes) (r : Option (List Bytes))
          → ok (elim r [ none ↦ bad_topic | some ts ↦ valid a ts ]) ≡ ok (valid addr topics)
          → (r ≡ some topics) × (a ≡ addr)
      accepted a none q = cc
      accepted a (some ts) q = (cc, cc)

  topics_of-right :
      (os : List Obj) (ts : List Bytes)
      → Reads os ts
      → All (λ t. length t ≡ 32) ts
      → topics_of rlp os ≡ ok (some ts)
  unfolding topics_of
  topics_of-right [] [] r l = refl
  topics_of-right [] (t ∷ ts) r l = absurd r
  topics_of-right (o ∷ os) [] r l = absurd r
  topics_of-right (o ∷ os) (t ∷ ts) (e, r) (l, ls) =
      ap (λ b. and_then b (sized os)) e
      ∙ (if_true _ _ ((==_iff (length t) topic_size).1 l)
          ∙ ap (λ q. and_then q (λ r. ok (Option.map (λ ts. t ∷ ts) r)))
              (topics_of-right os ts r ls))
    where
      sized : List Obj → Bytes → Result (Option (List Bytes))
      sized os t =
          let rest = topics_of rlp os in
          if length t == topic_size
          then and_then rest (λ r. ok (Option.map (λ ts. t ∷ ts) r))
          else ok none

  pub request_of-right :
      (content addr : Bytes) (topics : List Bytes)
      → Asks content addr topics
      → RightSizes addr topics
      → request_of rlp content ≡ ok (valid addr topics)
  unfolding request_of topics_request
  request_of-right content addr topics (obj, os, e, f, g, r) (l, ls) =
      ap (λ o. and_then o read) e
      ∙ (ap (λ a. and_then a (sized obj)) f
          ∙ (if_true _ _ ((==_iff (length addr) addr_size).1 l)
              ∙ (ap (λ o. and_then o accept) g
                  ∙ ap (λ q. and_then q decide) (topics_of-right os topics r ls))))
    where
      decide : Option (List Bytes) → Result Request
      decide r = ok (elim r [ none ↦ bad_topic | some ts ↦ valid addr ts ])

      accept : List Obj → Result Request
      accept os = and_then (topics_of rlp os) decide

      sized : Obj → Bytes → Result Request
      sized obj addr =
          if length addr == addr_size then topics_request rlp addr obj else ok bad_address

      read : Obj → Result Request
      read obj = and_then (and_then (dict_get obj "contract") as_bytes) (sized obj)
