-- ===== src/Plots/Schema.antt =====
-- The columns of the rows that scripts/plot_results.py writes.
use mathlib.Core.List.Memᴰ
use dm_simulator.Base.{
  String, ◌≡◌, refl, ap, subst, true, Option, List, [], ◌∷◌, map, flat_map, mem-flat_map, All,
  All-of_Memᴰ, Result, ok, err, ◌>>=◌, >>=-Ensures, ok-Ensures, contains,
}
use dm_simulator.Base.Float.{Floats, Arithmetic}
use dm_simulator.Base.Dict.{Dict, keys, insert, update}
use dm_simulator.Matrix.Rows.Columns.{among-All}
use dm_simulator.Plots.Columns.{
  comparison_columns, policy_summary_columns, final_policy_table_columns, condition_columns,
  best_run_columns, best_run_context_columns,
}
use dm_simulator.Plots.Values.{Value, Row, sample_standard_deviation}
use dm_simulator.Plots.Comparison.{comparison_row, build_policy_comparison}
use dm_simulator.Plots.Summary.{policy_summary}
use dm_simulator.Plots.Final.{
  MetricSpec, metric_specs, seed_of, seed_means, rows_by, metric_columns, final_row,
}
use dm_simulator.Plots.Conditions.{condition_row}
use dm_simulator.Plots.Best.{
  policy_of, best_rows, best_run_summary_row, best_run_context_row, context_rows,
  build_best_run_examples,
}

-- A row has a key for each of some columns, and no other key.
abbrev pub HasColumns : {F : Type 0} → List String → Row F → Type 0
HasColumns columns row =
    All (λ column. contains (keys row) column ≡ true) columns
    × All (λ key. contains columns key ≡ true) (keys row)

module _ {F : Type 0} ⦃fl : Floats F⦄ ⦃ar : Arithmetic F⦄ where
  abbrev spec_columns : List (MetricSpec F) → List String
  spec_columns [] = []
  spec_columns (s ∷ specs) = s.mean_column ∷ s.std_column ∷ spec_columns specs

  metric_columns-keys :
      (by_seed : Dict (List (Row F))) (specs : List (MetricSpec F)) (row : Row F)
      → metric_columns by_seed specs ≡ ok row
      → keys row ≡ spec_columns specs
  unfolding metric_columns
  metric_columns-keys by_seed [] = ok-Ensures (λ r. keys r ≡ []) refl
  metric_columns-keys by_seed (s ∷ specs) =
      let P = λ (r : Row F). keys r ≡ spec_columns (s ∷ specs) in
      >>=-Ensures P (sample_standard_deviation (seed_means s by_seed)) _ λ deviation e.
        >>=-Ensures P (metric_columns by_seed specs) _ λ rest e'.
          ok-Ensures P (
            ap (λ ks. s.mean_column ∷ s.std_column ∷ ks)
              (metric_columns-keys by_seed specs rest e'))

  final_row-keys :
      (policy : String) (rows : List (Row F)) (row : Row F)
      → final_row policy rows ≡ ok row
      → keys row ≡ final_policy_table_columns
  unfolding final_row
  final_row-keys policy rows =
      let P = λ (r : Row F). keys r ≡ final_policy_table_columns in
      >>=-Ensures P (metric_columns (rows_by seed_of [] rows) metric_specs) _ λ columns e.
        ok-Ensures P (
          ap (λ ks. "policy" ∷ "seed_count" ∷ "comparable_run_count" ∷ "win_rate" ∷ ks)
            (metric_columns-keys (rows_by seed_of [] rows) metric_specs columns e))

  comparison_row-HasColumns :
      (baseline_policy : String) (threshold : F) (row : Row F) (baseline : Option (Row F))
      → HasColumns comparison_columns (comparison_row baseline_policy threshold row baseline)
  unfolding comparison_row update insert
  comparison_row-HasColumns baseline_policy threshold row baseline = (
    among-All (keys (comparison_row baseline_policy threshold row baseline)) comparison_columns
        refl,
    among-All comparison_columns (keys (comparison_row baseline_policy threshold row baseline))
        refl,
  )

  best_run_summary_row-HasColumns :
      (row : Row F) → HasColumns best_run_columns (best_run_summary_row row)
  unfolding best_run_summary_row update insert
  best_run_summary_row-HasColumns row = (
    among-All (keys (best_run_summary_row row)) best_run_columns refl,
    among-All best_run_columns (keys (best_run_summary_row row)) refl,
  )

  best_run_context_row-HasColumns :
      (policy : String) (row : Row F)
      → HasColumns best_run_context_columns (best_run_context_row policy row)
  unfolding best_run_context_row update insert
  best_run_context_row-HasColumns policy row = (
    among-All (keys (best_run_context_row policy row)) best_run_context_columns refl,
    among-All best_run_context_columns (keys (best_run_context_row policy row)) refl,
  )

  made_by :
      {A : Type 0} (P : Row F → Type 0) (f : A → Row F) (xs : List A)
      → ((x : A) → P (f x))
      → All P (map f xs)
  made_by P f [] h = tt
  made_by P f (x ∷ xs) h = (h x, made_by P f xs h)

  same_keys :
      (columns : List String) (made : Result (Row F))
      → ((row : Row F) → made ≡ ok row → keys row ≡ columns)
      → (made >>= λ row. ok (keys row)) ≡ (made >>= λ row. ok columns)
  same_keys columns (ok row) h = ap ok (h row refl)
  same_keys columns (err e) h = refl

  -- The rows that are written have just the columns of their files as keys: those of the policy
  -- comparison, of the best runs and of their context, and, in the columns' order, those of the
  -- policy summary and of the condition summary, and those of the final table where they can be
  -- made.
  pub rows-HasColumns :
      (rows : List (Row F)) (policy baseline_policy dimension : String) (threshold : F)
      (value policy_value : Value F)
      → All (HasColumns comparison_columns) (build_policy_comparison rows baseline_policy threshold)
        × All (HasColumns best_run_columns) (build_best_run_examples rows).0
        × All (HasColumns best_run_context_columns) (build_best_run_examples rows).1
        × (keys (policy_summary policy rows) ≡ policy_summary_columns)
        × (keys (condition_row dimension (value ∷ policy_value ∷ [], rows)) ≡ condition_columns)
        × ((final_row policy rows >>= λ row. ok (keys row))
            ≡ (final_row policy rows >>= λ row. ok final_policy_table_columns))
  unfolding build_policy_comparison policy_summary condition_row build_best_run_examples
      context_rows
  rows-HasColumns rows policy baseline_policy dimension threshold value policy_value = (
    made_by (HasColumns comparison_columns) _ rows
        (λ row. comparison_row-HasColumns baseline_policy threshold row _),
    made_by (HasColumns best_run_columns) best_run_summary_row (best_rows rows)
        best_run_summary_row-HasColumns,
    All-of_Memᴰ (HasColumns best_run_context_columns)
        (flat_map (context_rows rows) (best_rows rows))
        λ row m.
          let (best, mb) = mem-flat_map (context_rows rows) (best_rows rows) m in
          let (peer, mp, made) = Memᴰ.of_map (best_run_context_row (policy_of best)) _ mb in
          subst (HasColumns best_run_context_columns) made
            (best_run_context_row-HasColumns (policy_of best) peer),
    refl,
    refl,
    same_keys final_policy_table_columns (final_row policy rows) (final_row-keys policy rows),
  )
