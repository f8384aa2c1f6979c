-- ===== src/ThroughputEval/Rates.antt =====
-- What each of the eleven rates selects.
use decent_ethereum.Base.{
  All, ℕ, ◌*◌, ◌/◌, ◌<◌, ◌≡◌, ap, ◌∙◌, List, [], ◌∷◌, ◌++◌, map, length, arith,
}
use decent_ethereum.ThroughputEval.{
  EvalHeader, EvalLib, selected_count, selected_count_mono, below, selected_count-below,
}
use decent_ethereum.ThroughputEval.Loop.{receipt_rates}

-- The ten rates below one, in tenths.
abbrev pub partial_rates : List ℕ
partial_rates = 0 ∷ 1 ∷ 2 ∷ 3 ∷ 4 ∷ 5 ∷ 6 ∷ 7 ∷ 8 ∷ 9 ∷ []

-- The headers below the limit of a rate.
abbrev pub count_below : List EvalHeader → ℕ → ℕ
count_below hdrs tenths = below (255 * tenths / 10) hdrs

-- What is logged for a rate.
abbrev count_at : EvalLib → List EvalHeader → ℕ → ℕ
count_at lib hdrs tenths = selected_count lib (255 * tenths / 10) hdrs

module _ (lib : EvalLib) where
  all_selected : (hdrs : List EvalHeader) → selected_count lib 255 hdrs ≡ length hdrs
  all_selected hdrs =
      let (_, _, all) = selected_count_mono lib 255 255 hdrs (omega arith) (omega arith) in all

  counts-below :
      (hdrs : List EvalHeader) (rates : List ℕ)
      → All (λ tenths. tenths < 10) rates
      → map (count_at lib hdrs) (rates ++ 10 ∷ [])
        ≡ map (count_below hdrs) rates ++ length hdrs ∷ []
  counts-below hdrs [] small = ap (λ c. c ∷ []) (all_selected hdrs)
  counts-below hdrs (rate ∷ rates) (lt, small) =
      ap (λ c. c ∷ map (count_at lib hdrs) (rates ++ 10 ∷ []))
        (selected_count-below lib (255 * rate / 10) hdrs (omega arith))
      ∙ ap (λ cs. count_below hdrs rate ∷ cs) (counts-below hdrs rates small)

  pub receipt_rates-below :
      (hdrs : List EvalHeader)
      → map (count_at lib hdrs) receipt_rates
        ≡ map (count_below hdrs) partial_rates ++ length hdrs ∷ []
  receipt_rates-below hdrs = counts-below hdrs partial_rates (
    omega arith,
    (
      omega arith,
      (
        omega arith,
        (
          omega arith,
          (
            omega arith,
            (omega arith, (omega arith, (omega arith, (omega arith, (omega arith, tt))))),
          ),
        ),
      ),
    ),
  )
