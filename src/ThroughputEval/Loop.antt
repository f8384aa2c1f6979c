-- ===== src/ThroughputEval/Loop.antt =====
-- The measuring host, tests/geth-decent-throughput-eval/Untrusted: its loop over the receipt rates,
-- with the enclave behind its ecalls. Time and the rates that are printed are left out.
use decent_ethereum.Base.{
  ℕ, zero, suc, ◌+◌, ◌-◌, ◌*◌, ◌/◌, ◌%◌, ◌^◌, ◌<◌, ◌≤◌, ◌≡◌, refl, sym, ap, ◌∙◌, List, [], ◌∷◌,
  ◌++◌, map, append_assoc, Bytes, ok, Exec, Outcome, done, thrown, after, lift, ◌>>=◌, ◌>>◌,
  bind-done, length, if◌then◌else◌, arith,
}
use decent_ethereum.Geth.Libraries.{JsonLib, HexLib, Network}
use decent_ethereum.Geth.Requests.{get_header_rlp_by_num}
use decent_ethereum.Boundary.Ocalls.{SgxStatus, check_error}
use decent_ethereum.Boundary.Ecalls.{ecall}
use decent_ethereum.BlockFeed.Chain.{segment}
use decent_ethereum.ThroughputEval.{
  EvalState, EvalHeader, EvalLib, set_receipt_rate, is_selected, count_one, recv_block, recv_blocks,
  Sound, AllSound, recv_block-Sound, recv_blocks-selected_count, selected_count,
}

-- The enclave, and the numbers of verified receipts that it has logged.
pub record Measured : Type 0 where
  pub enclave : EvalState
  pub logged : List ℕ

abbrev placed : Measured → Outcome EvalState (Unit {0}) → Outcome Measured (Unit {0})
placed s (done u e) = done u (record s { enclave = e })
placed s (thrown x e) = thrown x (record s { enclave = e })

-- `SetReceiptRate`, which logs the count that it resets. A rate is given in tenths: the product of
-- 255 and the `double`, converted to `uint8_t`, is this quotient for each of the eleven rates.
unfoldable pub set_rate : ℕ → Measured → Measured
set_rate tenths s = record {
  enclave = set_receipt_rate (255 * tenths / 10) s.enclave;
  logged = s.logged ++ s.enclave.verified_receipts ∷ [];
}

unfoldable pub ecall_eval_recv_block : EvalLib → Bytes → EvalState → SgxStatus × EvalState
ecall_eval_recv_block lib hdr_rlp s = ecall (recv_block lib hdr_rlp s)

-- The host's `RecvBlock`, with its check.
unfoldable pub enclave_recv : EvalLib → Bytes → Exec EvalState (Unit {0})
enclave_recv lib hdr_rlp s =
    let (status, t) = ecall_eval_recv_block lib hdr_rlp s in lift (check_error status) t

abbrev pub receipt_rates : List ℕ
receipt_rates = 0 ∷ 1 ∷ 2 ∷ 3 ∷ 4 ∷ 5 ∷ 6 ∷ 7 ∷ 8 ∷ 9 ∷ 10 ∷ []

abbrev pub start_block_num : ℕ
start_block_num = 8875000

abbrev pub end_block_num : ℕ
end_block_num = 8880000

module _ (json : JsonLib) (hex : HexLib) (lib : EvalLib) (net : Network) where
  -- `PushBlock`, the receiver being the enclave.
  unfoldable pub push_num : ℕ → Exec Measured (Unit {0})
  push_num num = lift (get_header_rlp_by_num json hex net num) >>= λ header_rlp.
      λ s. placed s (enclave_recv lib header_rlp s.enclave)

  unfoldable pub push_nums : ℕ → ℕ → Exec Measured (Unit {0})
  push_nums num zero s = done tt s
  push_nums num (suc n) s = let rest = push_nums (suc num) n in (push_num num >> rest) s

  -- The loop over the rates, `n` blocks from `num` on for each, and the last `SetReceiptRate`.
  unfoldable pub measure : ℕ → ℕ → List ℕ → Exec Measured (Unit {0})
  measure num n [] s = done tt (set_rate 0 s)
  measure num n (rate ∷ rates) s =
      let rest = measure num n rates in (push_nums num n >> rest) (set_rate rate s)

  -- The loop of `main`.
  unfoldable pub main_loop : Exec Measured (Unit {0})
  main_loop = measure start_block_num (end_block_num - start_block_num) receipt_rates

  module _ (chain : ℕ → Bytes) where
    enclave_recv-Sound :
        (b : Bytes) (hdr : EvalHeader) (e : EvalState)
        → Sound lib b hdr
        → enclave_recv lib b e
          ≡ done tt (if is_selected e.receipt_limit hdr then count_one e else e)
    unfolding enclave_recv ecall_eval_recv_block ecall
    enclave_recv-Sound b hdr e h = ap checked (recv_block-Sound lib b hdr e h)
      where
        checked : Outcome EvalState (Unit {0}) → Outcome EvalState (Unit {0})
        checked o = let (status, t) = ecall o in lift (check_error status) t

    push_num-Sound :
        (num : ℕ) (hdr : EvalHeader) (s : Measured)
        → get_header_rlp_by_num json hex net num ≡ ok (chain num)
        → Sound lib (chain num) hdr
        → push_num num s
          ≡ done tt (record s { enclave = after (recv_block lib (chain num) s.enclave) })
    unfolding push_num
    push_num-Sound num hdr s h k =
        bind-done (lift (get_header_rlp_by_num json hex net num)) _ (ap (λ r. lift r s) h)
        ∙ (ap (placed s) (enclave_recv-Sound (chain num) hdr s.enclave k)
            ∙ ap (λ (o : Outcome EvalState (Unit {0})). done tt (record s { enclave = after o }))
                (sym (recv_block-Sound lib (chain num) hdr s.enclave k)))

    push_nums-Sound :
        (num n : ℕ) (hdrs : List EvalHeader) (s : Measured)
        → ((i : ℕ) → num ≤ i → i < num + n → get_header_rlp_by_num json hex net i ≡ ok (chain i))
        → AllSound lib (segment chain num n) hdrs
        → push_nums num n s
          ≡ done tt (record s { enclave = after (recv_blocks lib (segment chain num n) s.enclave) })
    unfolding push_nums recv_blocks
    push_nums-Sound num zero hdrs s has k = refl
    push_nums-Sound num (suc n) [] s has k = absurd k
    push_nums-Sound num (suc n) (hdr ∷ hdrs) s has (k, ks) =
        let e = s.enclave in
        let first = recv_block-Sound lib (chain num) hdr e k in
        bind-done (push_num num) (λ _. push_nums (suc num) n)
          (push_num-Sound num hdr s (has num (omega arith) (omega arith)) k)
        ∙ (push_nums-Sound (suc num) n hdrs
              (record s { enclave = after (recv_block lib (chain num) e) })
              (λ i a l. has i (omega arith) (omega arith)) ks
            ∙ ap (λ (o : Outcome EvalState (Unit {0})). done tt (record s { enclave = after o }))
                (sym (
                  bind-done (recv_block lib (chain num))
                    (λ _. recv_blocks lib (segment chain (suc num) n))
                    (first
                      ∙ ap (λ (o : Outcome EvalState (Unit {0})). done tt (after o)) (sym first)))))

    selected_count_le :
        (limit : ℕ) (hdrs : List EvalHeader) → selected_count lib limit hdrs ≤ length hdrs
    unfolding selected_count
    selected_count_le limit [] = omega arith
    selected_count_le limit (hdr ∷ hdrs) = ground (arith, selected_count_le limit hdrs)

    -- What is logged for a rate.
    abbrev pub count_at : List EvalHeader → ℕ → ℕ
    count_at hdrs tenths = selected_count lib (255 * tenths / 10) hdrs

    abbrev finished : List ℕ → Measured
    finished logged = record {
      enclave = record { receipt_limit = 0; verified_receipts = 0 };
      logged = logged;
    }

    -- One rate.
    measured_rate :
        (num n rate : ℕ) (hdrs : List EvalHeader) (s : Measured)
        → ((i : ℕ) → num ≤ i → i < num + n → get_header_rlp_by_num json hex net i ≡ ok (chain i))
        → AllSound lib (segment chain num n) hdrs
        → length hdrs < 2 ^ 64
        → push_nums num n (set_rate rate s)
          ≡ done tt (record {
            enclave = record {
              receipt_limit = 255 * rate / 10;
              verified_receipts = count_at hdrs rate;
            };
            logged = s.logged ++ s.enclave.verified_receipts ∷ [];
          })
    unfolding set_rate set_receipt_rate
    measured_rate num n rate hdrs s has k small =
        push_nums-Sound num n hdrs (set_rate rate s) has k
        ∙ ap
            (λ (o : Outcome EvalState (Unit {0})).
              done tt (record {
                enclave = after o;
                logged = s.logged ++ s.enclave.verified_receipts ∷ [];
              }))
            (recv_blocks-selected_count lib (segment chain num n) hdrs
                (set_receipt_rate (255 * rate / 10) s.enclave) k (omega arith)
              ∙ ap
                  (λ v. done tt (record { receipt_limit = 255 * rate / 10; verified_receipts = v }))
                  (unwrapped (count_at hdrs rate) (selected_count_le (255 * rate / 10) hdrs)))
      where
        unwrapped : (c : ℕ) → c ≤ length hdrs → (0 + c) % 2 ^ 64 ≡ c
        unwrapped c le = omega arith

    -- Where the node gives the headers of a chain for the range of blocks, each header is read, and
    -- the host's receipts have the root that the header names, and there are fewer than 2^64
    -- headers, the measuring loop over any list of rates ends without an exception. The numbers
    -- that the enclave logs are the count of before, then for each rate the number of blocks of the
    -- range that the rate's limit selects; at the end the limit and the count are 0.
    pub measure-logged :
        (num n : ℕ) (rates : List ℕ) (hdrs : List EvalHeader) (s : Measured)
        → ((i : ℕ) → num ≤ i → i < num + n → get_header_rlp_by_num json hex net i ≡ ok (chain i))
        → AllSound lib (segment chain num n) hdrs
        → length hdrs < 2 ^ 64
        → measure num n rates s
          ≡ done tt (record {
            enclave = record { receipt_limit = 0; verified_receipts = 0 };
            logged = s.logged ++ s.enclave.verified_receipts ∷ map (count_at hdrs) rates;
          })
    unfolding measure set_rate set_receipt_rate
    measure-logged num n [] hdrs s has k small = refl
    measure-logged num n (rate ∷ rates) hdrs s has k small =
        bind-done (push_nums num n) (λ _. measure num n rates)
          (measured_rate num n rate hdrs s has k small)
        ∙ (measure-logged num n rates hdrs _ has k small
            ∙ ap (λ l. done tt (finished l)) (append_assoc s.logged _ _))
