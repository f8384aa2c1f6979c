-- ===== src/ThroughputEval.antt =====
-- The measuring enclave of tests/geth-decent-throughput-eval/Trusted/Enclave.cpp, which verifies the
-- receipts of a share of the blocks, chosen by the last byte of their hashes.
pub mod Loop
pub mod Rates
pub mod Startup
use decent_ethereum.Base.{
  ◌≤◌, length, refl, ℕ, ◌+◌, ◌%◌, ◌^◌, ◌<◌, ◌≡◌, sym, ap, ◌∙◌, inl, inr, Bool, Bool-cases, ◌||◌,
  List, [], ◌∷◌, Bytes, bytes_eq, bytes_eq_refl, Result, ok, done, Exec, lift, modify, throw,
  root_mismatch, ◌>>=◌, ◌>>◌, bind-done, ltb, ◌==◌, if◌then◌else◌, if_true, if_false, arith,
}

-- `g_receiptLimit`, a `uint8_t`, and `g_verifiedReceipts`, a `size_t`.
pub record EvalState : Type 0 where
  pub receipt_limit : ℕ
  pub verified_receipts : ℕ

-- What is read of a header: its number, the last byte of its hash, and the root of its receipts.
pub record EvalHeader : Type 0 where
  pub number : ℕ
  pub last_hash_byte : ℕ
  pub receipts_root : Bytes

-- The header parser, the host, and the hash of the receipts that it gives.
pub record EvalLib : Type 0 where
  pub header_of : Bytes → Result EvalHeader
  pub receipts_root_of : ℕ → Result Bytes

-- `limit` is what the product of 255 and the rate, a `double`, converts to.
unfoldable pub set_receipt_rate : ℕ → EvalState → EvalState
set_receipt_rate limit s = record { receipt_limit = limit; verified_receipts = 0 }

unfoldable pub is_selected : ℕ → EvalHeader → Bool
is_selected limit hdr = ltb hdr.last_hash_byte limit || limit == 255

-- A `size_t` counter.
abbrev pub count_one : EvalState → EvalState
count_one s = record s { verified_receipts = (s.verified_receipts + 1) % 2 ^ 64 }

module _ (lib : EvalLib) where
  unfoldable pub verify_receipts : EvalHeader → Exec EvalState (Unit {0})
  verify_receipts hdr = do
    root ← lift (lib.receipts_root_of hdr.number)
    if bytes_eq root hdr.receipts_root then modify count_one else throw root_mismatch

  unfoldable pub recv_header : EvalHeader → Exec EvalState (Unit {0})
  unfolding verify_receipts is_selected
  recv_header hdr s = if is_selected s.receipt_limit hdr then verify_receipts hdr s else done tt s

  unfoldable pub recv_block : Bytes → Exec EvalState (Unit {0})
  unfolding recv_header
  recv_block hdr_rlp = lift (lib.header_of hdr_rlp) >>= recv_header

  -- The block's header is read, and the host's receipts have the root that it names.
  abbrev pub Sound : Bytes → EvalHeader → Type 0
  Sound hdr_rlp hdr =
      (lib.header_of hdr_rlp ≡ ok hdr) × (lib.receipts_root_of hdr.number ≡ ok hdr.receipts_root)

  verified :
      (hdr : EvalHeader) (s : EvalState)
      → lib.receipts_root_of hdr.number ≡ ok hdr.receipts_root
      → verify_receipts hdr s ≡ done tt (count_one s)
  unfolding verify_receipts
  verified hdr s h =
      bind-done (lift (lib.receipts_root_of hdr.number)) _ (ap (λ r. lift r s) h)
      ∙ ap (λ (f : Exec EvalState (Unit {0})). f s) (if_true _ _ (bytes_eq_refl hdr.receipts_root))

  -- A sound block is taken without an exception, and counted exactly if it is selected.
  pub recv_block-Sound :
      (hdr_rlp : Bytes) (hdr : EvalHeader) (s : EvalState)
      → Sound hdr_rlp hdr
      → recv_block hdr_rlp s ≡ done tt (if is_selected s.receipt_limit hdr then count_one s else s)
  unfolding recv_block recv_header
  recv_block-Sound hdr_rlp hdr s (h, k) =
      bind-done (lift (lib.header_of hdr_rlp)) _ (ap (λ r. lift r s) h)
      ∙ elim (Bool-cases (is_selected s.receipt_limit hdr)) [
        | inl b ↦ if_true _ _ b ∙ (verified hdr s k ∙ ap (done tt) (sym (if_true _ _ b)))
        | inr b ↦ if_false _ _ b ∙ ap (done tt) (sym (if_false _ _ b))
      ]

  unfoldable pub recv_blocks : List Bytes → Exec EvalState (Unit {0})
  recv_blocks [] s = done tt s
  recv_blocks (b ∷ bs) s = let rest = recv_blocks bs in (recv_block b >> rest) s

  abbrev pub AllSound : List Bytes → List EvalHeader → Type 0
  AllSound [] [] = Unit
  AllSound (b ∷ bs) (hdr ∷ hdrs) = Sound b hdr × AllSound bs hdrs
  AllSound _ _ = ⊥

  abbrev with_count : EvalState → ℕ → EvalState
  with_count s n = record s { verified_receipts = n }

  small : (v : ℕ) → v < 2 ^ 64 → v ≡ (v + 0) % 2 ^ 64
  small v h = omega arith

  wraps : (v : ℕ) → (v + 1) % 2 ^ 64 < 2 ^ 64
  wraps v = omega arith

  one_more : (v c : ℕ) → ((v + 1) % 2 ^ 64 + c) % 2 ^ 64 ≡ (v + (1 + c)) % 2 ^ 64
  one_more v c = omega arith

  none_more : (v c : ℕ) → (v + c) % 2 ^ 64 ≡ (v + (0 + c)) % 2 ^ 64
  none_more v c = omega arith

  pub selected_count : ℕ → List EvalHeader → ℕ
  selected_count limit [] = 0
  selected_count limit (hdr ∷ hdrs) =
      (if is_selected limit hdr then 1 else 0) + selected_count limit hdrs

  -- Blocks whose headers are read and whose receipts have the root that the header names are all
  -- taken without an exception, and the counter, if it is below 2^64, goes up by the number of
  -- selected blocks modulo 2^64; the limit stays.
  pub recv_blocks-selected_count :
      (bs : List Bytes) (hdrs : List EvalHeader) (s : EvalState)
      → AllSound bs hdrs
      → s.verified_receipts < 2 ^ 64
      → recv_blocks bs s
        ≡ done tt (record s {
          verified_receipts = (s.verified_receipts + selected_count s.receipt_limit hdrs) % 2 ^ 64;
        })
  unfolding recv_blocks selected_count
  recv_blocks-selected_count [] [] s h lt =
      ap (λ n. done tt (with_count s n)) (small s.verified_receipts lt)
  recv_blocks-selected_count [] (hdr ∷ hdrs) s h lt = absurd h
  recv_blocks-selected_count (b ∷ bs) [] s h lt = absurd h
  recv_blocks-selected_count (b ∷ bs) (hdr ∷ hdrs) s (h, hs) lt =
      elim (Bool-cases (is_selected s.receipt_limit hdr)) [
        | inl c ↦
            bind-done (recv_block b) _ (recv_block-Sound b hdr s h ∙ ap (done tt) (if_true _ _ c))
            ∙ (recv_blocks-selected_count bs hdrs (count_one s) hs (wraps s.verified_receipts)
                ∙ ap (λ n. done tt (with_count s n))
                    (one_more s.verified_receipts (selected_count s.receipt_limit hdrs)
                      ∙ ap
                          (λ k.
                            (s.verified_receipts + (k + selected_count s.receipt_limit hdrs))
                            % 2 ^ 64)
                          (sym (if_true 1 0 c))))
        | inr c ↦
            bind-done (recv_block b) _ (recv_block-Sound b hdr s h ∙ ap (done tt) (if_false _ _ c))
            ∙ (recv_blocks-selected_count bs hdrs s hs lt
                ∙ ap (λ n. done tt (with_count s n))
                    (none_more s.verified_receipts (selected_count s.receipt_limit hdrs)
                      ∙ ap
                          (λ k.
                            (s.verified_receipts + (k + selected_count s.receipt_limit hdrs))
                            % 2 ^ 64)
                          (sym (if_false 1 0 c))))
      ]

selected : ℕ → EvalHeader → ℕ
selected limit hdr = if is_selected limit hdr then 1 else 0

selected_mono : (a b : ℕ) (hdr : EvalHeader) → a ≤ b → b ≤ 255 → selected a hdr ≤ selected b hdr
unfolding selected is_selected
selected_mono a b hdr le small = ground arith

selected_all : (hdr : EvalHeader) → selected 255 hdr ≡ 1
unfolding selected is_selected
selected_all hdr = ground arith

selected_none : (hdr : EvalHeader) → selected 0 hdr ≡ 0
unfolding selected is_selected
selected_none hdr = ground arith

-- Of any list of headers, and for limits up to 255, a higher limit selects at least as many as a
-- lower one, a limit of 0 selects none, and a limit of 255 selects all.
pub selected_count_mono :
    (lib : EvalLib) (a b : ℕ) (hdrs : List EvalHeader)
    → a ≤ b
    → b ≤ 255
    → (selected_count lib a hdrs ≤ selected_count lib b hdrs)
      × (selected_count lib 0 hdrs ≡ 0)
      × (selected_count lib 255 hdrs ≡ length hdrs)
unfolding selected_count selected
selected_count_mono lib a b [] le small = (omega arith, refl, refl)
selected_count_mono lib a b (hdr ∷ hdrs) le small =
    let (m, none_, all_) = selected_count_mono lib a b hdrs le small in
    (
      omega (arith, selected_mono a b hdr le small, m),
      omega (arith, selected_none hdr, none_),
      omega (arith, selected_all hdr, all_),
    )

-- The headers whose last hash byte is below a limit.
pub below : ℕ → List EvalHeader → ℕ
below limit [] = 0
below limit (hdr ∷ hdrs) = (if ltb hdr.last_hash_byte limit then 1 else 0) + below limit hdrs

pub selected_count-below :
    (lib : EvalLib) (limit : ℕ) (hdrs : List EvalHeader)
    → limit < 255
    → selected_count lib limit hdrs ≡ below limit hdrs
unfolding selected_count below is_selected
selected_count-below lib limit [] lt = refl
selected_count-below lib limit (hdr ∷ hdrs) lt =
    ground (arith, selected_count-below lib limit hdrs lt)
