-- ===== src/Keys.antt =====
-- src/Trusted/Keys.hpp: how the enclave's Secp256r1 key is made. The SGX SDK's elliptic curve context is
-- an interface, and so are mbedTLS's key pairs.
use decent_ethereum.Base.{
  ℕ, ◌≡◌, ◌≢◌, refl, sym, ap, ◌∙◌, inl, inr, Bool, true, false, Bytes, Result, ok, err, Exec, done,
  thrown, after, lift, Error, sgx_error, ◌>>=◌, ◌==◌, ==_iff, Bool-cases,
}

-- `sgx_tcrypto.h`: a status other than a success is `err`. `is_open` tells whether a handle has a
-- context.
pub record EccContexts : Type 1 where
  pub State : Type 0
  pub open_context : State → Result ℕ × State
  -- The private and the public key.
  pub create_key_pair : ℕ → State → Result (Bytes × Bytes) × State
  pub close_context : ℕ → State → State
  pub is_open : ℕ → State → Bool
  -- A new handle is one that was not open, and a failure opens none.
  pub open-fresh : (s t : State) (h : ℕ) → open_context s ≡ (ok h, t) → is_open h s ≡ false
  pub open-other :
      (s t : State) (h i : ℕ) → open_context s ≡ (ok h, t) → i ≢ h → is_open i t ≡ is_open i s
  pub open-failed :
      (s t : State) (e : Error) (i : ℕ) → open_context s ≡ (err e, t) → is_open i t ≡ is_open i s
  pub create-keeps : (h i : ℕ) (s : State) → is_open i (create_key_pair h s).1 ≡ is_open i s
  pub close-self : (h : ℕ) (s : State) → is_open h (close_context h s) ≡ false
  pub close-other : (h i : ℕ) (s : State) → i ≢ h → is_open i (close_context h s) ≡ is_open i s

-- `EcKeyPair` of mbedTLS: an empty one, and the two `ExportEcKey`, which may throw.
pub record KeyPairs : Type 1 where
  pub KeyPair : Type 0
  pub empty : KeyPair
  pub export_public : Bytes → KeyPair → Result KeyPair
  pub export_private : Bytes → KeyPair → Result KeyPair

module _ (ecc : EccContexts) (pairs : KeyPairs) where
  open ecc use {State, open_context, create_key_pair, close_context, is_open}
  open pairs use {KeyPair, empty, export_public, export_private}

  -- `DECENTENCLAVE_CHECK_SGX_RUNTIME_ERROR`: each failure is the same exception.
  unfoldable pub check_sgx : {A : Type 0} → Result A → Exec State A
  check_sgx (ok a) s = done a s
  check_sgx (err e) s = thrown sgx_error s

  -- The key pair of the two keys, with the context closed.
  unfoldable pub export_pair : Bytes × Bytes → Exec State KeyPair
  export_pair (priv, pub_key) = do
    with_public ← lift (export_public pub_key empty)
    lift (export_private priv with_public)

  -- The keys of a context that is open, which is closed before the status is checked.
  unfoldable pub use_context : ℕ → Exec State KeyPair
  use_context handle s =
      let (keys, t) = create_key_pair handle s in
      (check_sgx keys >>= export_pair) (close_context handle t)

  unfoldable pub make_secp256r1 : Exec State KeyPair
  make_secp256r1 s = let (handle, t) = open_context s in (check_sgx handle >>= use_context) t

  export_pair-after : (keys : Bytes × Bytes) (s : State) → after (export_pair keys s) ≡ s
  unfolding export_pair
  export_pair-after (priv, pub_key) s = exported (export_public pub_key empty)
    where
      lifted : (r : Result KeyPair) → after (lift {S = State} r s) ≡ s
      lifted (ok k) = refl
      lifted (err e) = refl

      exported :
          (r : Result KeyPair)
          → after ((lift {S = State} r >>= λ k. lift (export_private priv k)) s) ≡ s
      exported (ok k) = lifted (export_private priv k)
      exported (err e) = refl

  use_context-after :
      (h : ℕ) (s : State) → after (use_context h s) ≡ close_context h (create_key_pair h s).1
  unfolding use_context check_sgx
  use_context-after h s = checked (create_key_pair h s).0
    where
      checked :
          (r : Result (Bytes × Bytes))
          → after ((check_sgx r >>= export_pair) (close_context h (create_key_pair h s).1))
            ≡ close_context h (create_key_pair h s).1
      checked (ok keys) = export_pair-after keys _
      checked (err e) = refl

  -- Making the Secp256r1 key leaves exactly the elliptic curve contexts open that were open before,
  -- for every handle and at every end: a failed opening, a failed key pair, a failed export, or a
  -- key.
  pub make_secp256r1-is_open :
      (s : State) (i : ℕ) → is_open i (after (make_secp256r1 s)) ≡ is_open i s
  unfolding make_secp256r1 check_sgx
  make_secp256r1-is_open s i = opened (open_context s).0 refl
    where
      opened :
          (r : Result ℕ)
          → (open_context s).0 ≡ r
          → is_open i (after ((check_sgx r >>= use_context) (open_context s).1)) ≡ is_open i s
      opened (err e) f = ecc.open-failed s _ e i (ap (λ r. (r, (open_context s).1)) f)
      opened (ok h) f =
          let t = (open_context s).1 in
          let g : open_context s ≡ (ok h, t) = ap (λ r. (r, t)) f in
          ap (is_open i) (use_context-after h t) ∙ elim (Bool-cases (i == h)) [
            | inl b ↦
                let e = (==_iff i h).0 b in rw e (ecc.close-self h _ ∙ sym (ecc.open-fresh s t h g))
            | inr b ↦
                let n : i ≢ h = λ e. let t : (i == h) ≡ true = (==_iff i h).1 e in cc in
                ecc.close-other h i _ n ∙ (ecc.create-keeps h i t ∙ ecc.open-other s t h i g n)
          ]
