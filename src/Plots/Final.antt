-- ===== src/Plots/Final.antt =====
-- `build_final_policy_table` (scripts/plot_results.py).
use dm_simulator.Base.{
  String, Option, none, some, List, [], ◌∷◌, ◌++◌, length, keep, contains, Result, ok, ◌>>=◌,
}
use dm_simulator.Base.Float.{Floats, Arithmetic, one}
use dm_simulator.Base.Dict.{Dict, get, insert}
use dm_simulator.Plots.Columns.{final_report_policy_order}
use dm_simulator.Plots.Values.{
  text, count, Row, cell_or_blank, show_value, of_option, average, mean_or_none,
  sample_standard_deviation,
}
use dm_simulator.Plots.Summary.{count_class, comparable}
use dm_simulator.Plots.Best.{minus_hundred, policy_of, rows_at}

-- `metric_specs`: source, columns of the mean and of the deviation, and scale.
pub record MetricSpec (F : Type 0) : Type 0 where
  pub source : String
  pub mean_column : String
  pub std_column : String
  pub scale : F

module _ {F : Type 0} ⦃fl : Floats F⦄ ⦃ar : Arithmetic F⦄ where
  abbrev pub preset_rows : List String → List (Row F) → List (Row F)
  preset_rows presets = keep λ row. contains presets (show_value (cell_or_blank row "preset"))

  abbrev pub or_fallback : List (Row F) → List (Row F) → List (Row F)
  or_fallback [] fallback = fallback
  or_fallback (row ∷ selected) fallback = row ∷ selected

  unfoldable pub rows_for_preferred_presets :
      List (Row F) → List String → List String → List (Row F)
  rows_for_preferred_presets rows preferred fallback =
      or_fallback (preset_rows preferred rows) (preset_rows fallback rows)

  -- `d[key(row)].append(row)` for each row, with `defaultdict(list)`.
  unfoldable pub rows_by :
      (Row F → String) → Dict (List (Row F)) → List (Row F) → Dict (List (Row F))
  rows_by key d [] = d
  rows_by key d (row ∷ rows) =
      rows_by key (insert d (key row) (rows_at (get d (key row)) ++ (row ∷ []))) rows

  abbrev pub spec : String → String → String → F → MetricSpec F
  spec source mean_column std_column scale = record {
    source = source;
    mean_column = mean_column;
    std_column = std_column;
    scale = scale;
  }

  abbrev pub metric_specs : List (MetricSpec F)
  metric_specs =
      spec "mean_latency_delta_pct" "mean_latency_improvement_pct"
        "seed_std_latency_improvement_pct" minus_hundred
      ∷ spec "p99_latency_delta_pct" "mean_p99_improvement_pct" "seed_std_p99_improvement_pct"
          minus_hundred
      ∷ spec "average_memory_wait_delta_pct" "mean_memory_wait_reduction_pct"
          "seed_std_memory_wait_reduction_pct" minus_hundred
      ∷ spec "local_hit_rate" "mean_local_hit_rate" "seed_std_local_hit_rate" one
      ∷ []

  abbrev pub cons_scaled : F → Option F → List F → List F
  cons_scaled scale none means = means
  cons_scaled scale (some mean) means = ar.times scale mean ∷ means

  unfoldable pub seed_means : MetricSpec F → Dict (List (Row F)) → List F
  seed_means s [] = []
  seed_means s ((seed, rows) ∷ by_seed) =
      cons_scaled s.scale (average rows s.source) (seed_means s by_seed)

  unfoldable pub metric_columns : Dict (List (Row F)) → List (MetricSpec F) → Result (Row F)
  metric_columns by_seed [] = ok []
  metric_columns by_seed (s ∷ specs) = do
    deviation ← sample_standard_deviation (seed_means s by_seed)
    rest ← metric_columns by_seed specs
    ok (
        (s.mean_column, of_option (mean_or_none (seed_means s by_seed)))
        ∷ (s.std_column, of_option deviation)
        ∷ rest)

  -- `count_class(comparable, "win") / len(comparable) if comparable else None`
  abbrev pub win_rate : List (Row F) → Option F
  win_rate [] = none
  win_rate (row ∷ rows) =
      some (ar.over (ar.of_ℕ (count_class (row ∷ rows) "win")) (ar.of_ℕ (length (row ∷ rows))))

  abbrev pub seed_of : Row F → String
  seed_of row = show_value (cell_or_blank row "seed")

  unfoldable pub final_row : String → List (Row F) → Result (Row F)
  final_row policy policy_rows = do
    columns ← metric_columns (rows_by seed_of [] policy_rows) metric_specs
    ok (
        ("policy", text policy)
        ∷ ("seed_count", count (length (rows_by seed_of [] policy_rows)))
        ∷ ("comparable_run_count", count (length (comparable policy_rows)))
        ∷ ("win_rate", of_option (win_rate (comparable policy_rows)))
        ∷ columns)

  -- A policy without rows has no row in the table.
  abbrev pub add_final_row : String → List (Row F) → Result (List (Row F)) → Result (List (Row F))
  add_final_row policy [] rest = rest
  add_final_row policy (row ∷ rows) rest = do
    first ← final_row policy (row ∷ rows)
    others ← rest
    ok (first ∷ others)

  unfoldable pub final_rows : Dict (List (Row F)) → List String → Result (List (Row F))
  final_rows groups [] = ok []
  final_rows groups (policy ∷ policies) =
      add_final_row policy (rows_at (get groups policy)) (final_rows groups policies)

  unfoldable pub build_final_policy_table : List (Row F) → Result (List (Row F))
  build_final_policy_table comparison_rows =
      let rows =
        rows_for_preferred_presets comparison_rows ("eval_final_policy_iteration" ∷ [])
          ("eval_policy_iteration" ∷ []) in
      final_rows
        (rows_by policy_of []
          (keep (λ row. contains final_report_policy_order (policy_of row)) rows))
        final_report_policy_order
