-- ===== src/Plots/Summary.antt =====
-- `build_policy_summary` (scripts/plot_results.py).
pub mod Groups
pub mod Counts
use dm_simulator.Base.{
  ℕ, String, Bool, true, false, not, Option, none, some, List, [], ◌∷◌, ◌++◌, map, length, keep,
  Result, ok, err, key_error, ◌>>=◌, each,
}
use dm_simulator.Base.Float.{Floats, Arithmetic, least, greatest}
use dm_simulator.Base.Dict.{Dict, get, insert}
use dm_simulator.Plots.Values.{
  Value, missing, text, real, count, Row, cell, is_text, of_option, numeric_values, average,
}
use dm_simulator.Plots.Policies.{ordered_policies}

abbrev pub or_none : {F : Type 0} → Option (List (Row F)) → List (Row F)
or_none none = []
or_none (some rows) = rows

-- `by_policy[policy].append(row)`. Only the groups of texts are read.
abbrev pub add_row : {F : Type 0} → Dict (List (Row F)) → Value F → Row F → Dict (List (Row F))
add_row d (text policy) row = insert d policy (or_none (get d policy) ++ (row ∷ []))
add_row d _ row = d

-- `row["policy"]`
abbrev pub policy_or_raise : {F : Type 0} → Option (Value F) → Result (Value F)
policy_or_raise none = err (key_error "policy")
policy_or_raise (some v) = ok v

abbrev pub policy_cell : {F : Type 0} → Row F → Result (Value F)
policy_cell row = policy_or_raise (get row "policy")

unfoldable pub by_policy :
    {F : Type 0} → Dict (List (Row F)) → List (Row F) → Result (Dict (List (Row F)))
by_policy d [] = ok d
by_policy d (row ∷ rows) = do policy ← policy_cell row; by_policy (add_row d policy row) rows

unfoldable pub count_class : {F : Type 0} → List (Row F) → String → ℕ
count_class rows name = length (keep (λ row. is_text (cell row "classification") name) rows)

-- The rows that have a baseline.
unfoldable pub comparable : {F : Type 0} → List (Row F) → List (Row F)
comparable = keep λ row. not (is_text (cell row "classification") "no_baseline")

module _ {F : Type 0} ⦃fl : Floats F⦄ ⦃ar : Arithmetic F⦄ where
  -- `min(values) if values else None`, and `max`
  abbrev pub least_value : List F → Value F
  least_value [] = missing
  least_value (x ∷ xs) = real (least x xs)

  abbrev pub greatest_value : List F → Value F
  greatest_value [] = missing
  greatest_value (x ∷ xs) = real (greatest x xs)

  unfoldable pub policy_summary : String → List (Row F) → Row F
  policy_summary policy rows =
      let matched = comparable rows in
      let mean_deltas = numeric_values matched "mean_latency_delta_pct" in
      ("policy", text policy)
      ∷ ("run_count", count (length rows))
      ∷ ("comparable_run_count", count (length matched))
      ∷ ("win_count", count (count_class matched "win"))
      ∷ ("tie_count", count (count_class matched "tie"))
      ∷ ("loss_count", count (count_class matched "loss"))
      ∷ ("avg_mean_latency", of_option (average rows "mean_latency"))
      ∷ ("avg_p99_latency", of_option (average rows "p99_latency"))
      ∷ ("avg_local_hit_rate", of_option (average rows "local_hit_rate"))
      ∷ ("avg_average_memory_wait", of_option (average rows "average_memory_wait"))
      ∷ ("avg_total_remote_accesses", of_option (average rows "total_remote_accesses"))
      ∷ ("avg_mean_latency_delta_pct", of_option (average matched "mean_latency_delta_pct"))
      ∷ ("best_mean_latency_delta_pct", least_value mean_deltas)
      ∷ ("worst_mean_latency_delta_pct", greatest_value mean_deltas)
      ∷ ("avg_p99_latency_delta_pct", of_option (average matched "p99_latency_delta_pct"))
      ∷ ("avg_local_hit_rate_delta", of_option (average matched "local_hit_rate_delta"))
      ∷ (
        "avg_average_memory_wait_delta_pct",
        of_option (average matched "average_memory_wait_delta_pct"),
      )
      ∷ (
        "avg_total_remote_accesses_delta_pct",
        of_option (average matched "total_remote_accesses_delta_pct"),
      )
      ∷ ("avg_admission_yield", of_option (average rows "admission_yield"))
      ∷ ("avg_reuse_after_admit_rate", of_option (average rows "reuse_after_admit_rate"))
      ∷ ("avg_stale_telemetry_rate", of_option (average rows "stale_telemetry_rate"))
      ∷ ("avg_average_top_object_overlap", of_option (average rows "average_top_object_overlap"))
      ∷ (
        "avg_estimated_avoided_remote_accesses",
        of_option (average rows "estimated_avoided_remote_accesses"),
      )
      ∷ (
        "avg_estimated_avoided_contention_cost",
        of_option (average rows "estimated_avoided_contention_cost"),
      )
      ∷ ("avg_eviction_regret_count", of_option (average rows "eviction_regret_count"))
      ∷ (
        "avg_jain_inverse_latency_fairness",
        of_option (average rows "jain_inverse_latency_fairness"),
      )
      ∷ (
        "avg_jain_inverse_latency_fairness_delta",
        of_option (average matched "jain_inverse_latency_fairness_delta"),
      )
      ∷ []

  unfoldable pub build_policy_summary : List (Row F) → Result (List (Row F))
  build_policy_summary rows = do
    groups ← by_policy [] rows
    ok (map (λ policy. policy_summary policy (or_none (get groups policy))) (ordered_policies rows))
