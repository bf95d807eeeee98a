-- ===== src/Plots/Best.antt =====
-- The best runs of the policies (scripts/plot_results.py).
pub mod Order
pub mod Least
use dm_simulator.Base.{
  ℕ, zero, suc, String, Bool, true, false, not, ◌&&◌, Option, none, some, List, [], ◌∷◌, ◌++◌, map,
  flat_map, keep, contains, str_eq, leb, if◌then◌else◌,
}
use dm_simulator.Base.Float.{Floats, Arithmetic}
use dm_simulator.Base.Dict.{Dict, get, insert, update, keys}
use dm_simulator.Base.Sets.{text_le}
use dm_simulator.Base.Sort.{sort_by}
use dm_simulator.Plots.Columns.{
  preferred_policy_order, group_columns, best_run_baseline_policies, best_run_columns,
  best_run_context_columns,
}
use dm_simulator.Plots.Values.{
  Value, missing, text, real, flag, Row, cell_or_blank, show_value, of_option, metric,
}
use dm_simulator.Plots.Policies.{index_of, ordered_policies}
use dm_simulator.Plots.Comparison.{Key, same_key, find_key, insert_key, group_key}

abbrev pub or_else : {F : Type 0} → F → Option F → F
or_else fallback none = fallback
or_else fallback (some x) = x

abbrev pub is_some : {F : Type 0} → Option F → Bool
is_some none = false
is_some (some x) = true

-- `policy_order_key(p) <= policy_order_key(q)`
unfoldable pub policy_le : String → String → Bool
policy_le p q =
    if contains preferred_policy_order p
    then (if contains preferred_policy_order q
        then leb (index_of preferred_policy_order p) (index_of preferred_policy_order q)
        else true)
    else (if contains preferred_policy_order q then false else text_le p q)

abbrev pub rows_at : {K : Type 0} → Option (List K) → List K
rows_at none = []
rows_at (some rows) = rows

-- The tuples that rank the rows of a policy, and `<` of them.
pub record BestKey (F : Type 0) : Type 0 where
  pub mean_delta : F
  pub p99_delta : F
  pub hit_rate : F
  pub experiment_name : String

module _ {F : Type 0} ⦃fl : Floats F⦄ ⦃ar : Arithmetic F⦄ where
  unfoldable pub value_for_plot : Row F → String → Option F
  value_for_plot row column = metric row column

  -- The literals `-100.0` and `-1.0`
  abbrev pub minus_hundred : F
  minus_hundred = ar.negate (fl.lit 100 0)

  abbrev pub scaled : Option F → Option F
  scaled none = none
  scaled (some delta) = some (ar.times minus_hundred delta)

  unfoldable pub latency_improvement_pct : Row F → Option F
  latency_improvement_pct row = scaled (value_for_plot row "mean_latency_delta_pct")

  abbrev pub policy_of : Row F → String
  policy_of row = show_value (cell_or_blank row "policy")

  unfoldable pub is_best_run_policy : Row F → Bool
  is_best_run_policy row =
      not (contains best_run_baseline_policies (policy_of row))
      && is_some (value_for_plot row "mean_latency_delta_pct")

  unfoldable pub best_run_sort_key : Row F → BestKey F
  best_run_sort_key row = record {
    mean_delta = or_else ar.infinity (value_for_plot row "mean_latency_delta_pct");
    p99_delta = or_else ar.infinity (value_for_plot row "p99_latency_delta_pct");
    hit_rate = ar.negate (or_else (ar.negate (fl.lit 1 0)) (value_for_plot row "local_hit_rate"));
    experiment_name = show_value (cell_or_blank row "experiment_name");
  }

  -- `k < l`: by the first entries that are not equal
  unfoldable pub key_lt : BestKey F → BestKey F → Bool
  key_lt k l =
      if not (fl.eq k.mean_delta l.mean_delta)
      then fl.lt k.mean_delta l.mean_delta
      else (if not (fl.eq k.p99_delta l.p99_delta)
          then fl.lt k.p99_delta l.p99_delta
          else (if not (fl.eq k.hit_rate l.hit_rate)
              then fl.lt k.hit_rate l.hit_rate
              else not (text_le l.experiment_name k.experiment_name)))

  -- `min(rows, key=best_run_sort_key)`: the first of the least rows
  unfoldable pub best_row : Row F → List (Row F) → Row F
  best_row best [] = best
  best_row best (row ∷ rows) =
      best_row (if key_lt (best_run_sort_key row) (best_run_sort_key best) then row else best) rows

  abbrev pub metrics_of : Row F → List String → Row F
  metrics_of row columns = map (λ column. (column, of_option (value_for_plot row column))) columns

  -- `{column: row.get(column, "") for column in columns if column in GROUP_COLUMNS}`
  abbrev pub group_part : Row F → List String → Row F
  group_part row columns =
      map (λ column. (column, cell_or_blank row column)) (keep (contains group_columns) columns)

  unfoldable pub best_run_summary_row : Row F → Row F
  best_run_summary_row row = update (group_part row best_run_columns) (
      ("target_policy", cell_or_blank row "policy")
        ∷ ("latency_improvement_pct", of_option (latency_improvement_pct row))
        ∷ metrics_of row (
            "mean_latency_delta_pct" ∷ "p99_latency_delta_pct" ∷ "local_hit_rate"
            ∷ "local_hit_rate_delta" ∷ "average_memory_wait_delta_pct"
            ∷ "total_remote_accesses_delta_pct" ∷ "admission_yield" ∷ "reuse_after_admit_rate"
            ∷ "stale_telemetry_rate" ∷ "average_top_object_overlap" ∷ [])
      ++ (("best_experiment_name", cell_or_blank row "experiment_name")
          ∷ ("best_output_dir", cell_or_blank row "output_dir")
          ∷ []))

  unfoldable pub best_run_context_row : String → Row F → Row F
  best_run_context_row target_policy row = update (group_part row best_run_context_columns) (
      ("target_policy", text target_policy)
        ∷ ("comparison_policy", text (policy_of row))
        ∷ ("is_target_policy", flag (str_eq (policy_of row) target_policy))
        ∷ ("latency_improvement_pct", of_option (latency_improvement_pct row))
        ∷ metrics_of row (
            "mean_latency_delta_pct" ∷ "p99_latency_delta_pct" ∷ "local_hit_rate"
            ∷ "local_hit_rate_delta" ∷ "average_memory_wait" ∷ "average_memory_wait_delta_pct"
            ∷ "total_remote_accesses" ∷ "total_remote_accesses_delta_pct" ∷ "admission_yield"
            ∷ "reuse_after_admit_rate" ∷ "stale_telemetry_rate" ∷ "average_top_object_overlap" ∷ [])
      ++ (("experiment_name", cell_or_blank row "experiment_name")
          ∷ ("output_dir", cell_or_blank row "output_dir")
          ∷ []))

  -- `by_policy` and `by_group`, of all the rows.
  unfoldable pub best_by_policy : Dict (List (Row F)) → List (Row F) → Dict (List (Row F))
  best_by_policy d [] = d
  best_by_policy d (row ∷ rows) =
      best_by_policy
        (if is_best_run_policy row
          then insert d (policy_of row) (rows_at (get d (policy_of row)) ++ (row ∷ []))
          else d)
        rows

  unfoldable pub by_group : List (Key F × List (Row F)) → List (Row F) → List (Key F × List (Row F))
  by_group d [] = d
  by_group d (row ∷ rows) =
      by_group (insert_key d (group_key row) (rows_at (find_key (group_key row) d) ++ (row ∷ [])))
        rows

  -- The best row of a policy, if it has rows.
  abbrev pub best_of : List (Row F) → List (Row F)
  best_of [] = []
  best_of (row ∷ rows) = best_row row rows ∷ []

  unfoldable pub best_rows : List (Row F) → List (Row F)
  best_rows rows =
      let groups = best_by_policy [] rows in
      flat_map (λ policy. best_of (rows_at (get groups policy)))
        (ordered_policies {F = F} (map (λ policy. ("policy", text policy) ∷ []) (keys groups)))

  -- The comparison rows of a best row's group, in the order of the policies.
  unfoldable pub context_rows : List (Row F) → Row F → List (Row F)
  context_rows rows best = map (best_run_context_row (policy_of best)) (
      sort_by (λ a b. policy_le (policy_of a) (policy_of b))
        (keep is_best_run_policy (rows_at (find_key (group_key best) (by_group [] rows)))))

  unfoldable pub build_best_run_examples : List (Row F) → List (Row F) × List (Row F)
  build_best_run_examples rows =
      (map best_run_summary_row (best_rows rows), flat_map (context_rows rows) (best_rows rows))
