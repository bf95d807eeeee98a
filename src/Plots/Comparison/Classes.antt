-- ===== src/Plots/Comparison/Classes.antt =====
-- The classification of the rows of `build_policy_comparison` (scripts/plot_results.py).
use dm_simulator.Base.{
  String, ◌≡◌, refl, true, Option, none, some, List, [], ◌∷◌, All, map, contains, Bool-cases, inl,
  inr,
}
use dm_simulator.Base.Float.{Floats, Arithmetic}
use dm_simulator.Base.Dict.{get, insert, update}
use dm_simulator.Plots.Values.{missing, text, real, Row, cell, of_option, classify_delta}
use dm_simulator.Plots.Comparison.{
  mean_delta, comparison_row, build_policy_comparison, find_key, group_key, baseline_by_group,
}

module _ {F : Type 0} ⦃fl : Floats F⦄ ⦃ar : Arithmetic F⦄ where
  -- The class of a row: no baseline just when there is no delta, else a win, a tie or a loss.
  pub data IsClassified (row : Row F) : Type 0 where
    unmatched :
        cell row "classification" ≡ text "no_baseline"
        → cell row "mean_latency_delta_pct" ≡ missing
        → IsClassified row
    matched :
        (class : String) (delta : F)
        → contains ("win" ∷ "tie" ∷ "loss" ∷ []) class ≡ true
        → cell row "classification" ≡ text class
        → cell row "mean_latency_delta_pct" ≡ real delta
        → IsClassified row

  classify-class :
      (delta threshold : F)
      → contains ("win" ∷ "tie" ∷ "loss" ∷ []) (classify_delta (some delta) threshold) ≡ true
  unfolding classify_delta
  classify-class delta threshold = elim (Bool-cases (fl.lt delta (ar.negate threshold))) [
    | inl e ↦ rw e
    | inr e ↦ elim (Bool-cases (fl.lt threshold delta)) [ inl f ↦ rw (e, f) | inr f ↦ rw (e, f) ]
  ]

  comparison_row-classification :
      (baseline_policy : String) (threshold : F) (row : Row F) (baseline : Option (Row F))
      → (cell (comparison_row baseline_policy threshold row baseline) "classification"
          ≡ text (classify_delta (mean_delta row baseline) threshold))
        × (cell (comparison_row baseline_policy threshold row baseline) "mean_latency_delta_pct"
            ≡ of_option (mean_delta row baseline))
  unfolding comparison_row update insert get
  comparison_row-classification baseline_policy threshold row baseline = (refl, refl)

  comparison_row-IsClassified :
      (baseline_policy : String) (threshold : F) (row : Row F) (baseline : Option (Row F))
      → IsClassified (comparison_row baseline_policy threshold row baseline)
  unfolding classify_delta
  comparison_row-IsClassified baseline_policy threshold row baseline =
      let (class, delta) = comparison_row-classification baseline_policy threshold row baseline in
      by_delta (mean_delta row baseline) class delta
    where
      by_delta :
          (found : Option F)
          → cell (comparison_row baseline_policy threshold row baseline) "classification"
            ≡ text (classify_delta found threshold)
          → cell (comparison_row baseline_policy threshold row baseline) "mean_latency_delta_pct"
            ≡ of_option found
          → IsClassified (comparison_row baseline_policy threshold row baseline)
      by_delta none class delta = unmatched class delta
      by_delta (some d) class delta =
          matched (classify_delta (some d) threshold) d (classify-class d threshold) class delta

  -- Every row of the comparison is classified: without a delta of the mean latency as no
  -- baseline, and with one as a win, a tie or a loss.
  pub build_policy_comparison-IsClassified :
      (rows : List (Row F)) (baseline_policy : String) (threshold : F)
      → All IsClassified (build_policy_comparison rows baseline_policy threshold)
  unfolding build_policy_comparison
  build_policy_comparison-IsClassified rows baseline_policy threshold = over rows
    where
      over :
          (some_rows : List (Row F))
          → All IsClassified (
              map
                (λ row.
                  comparison_row baseline_policy threshold row
                    (find_key (group_key row) (baseline_by_group baseline_policy [] rows)))
                some_rows)
      over [] = tt
      over (row ∷ others) =
          (comparison_row-IsClassified baseline_policy threshold row _, over others)
