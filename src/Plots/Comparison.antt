-- ===== src/Plots/Comparison.antt =====
-- `build_policy_comparison` (scripts/plot_results.py): each run against the baseline of its group.
pub mod Baseline
pub mod Keys
pub mod Classes
use dm_simulator.Base.{
  String, Bool, true, false, ◌&&◌, Option, none, some, List, [], ◌∷◌, map, str_eq, if◌then◌else◌,
  ◌==◌,
}
use dm_simulator.Base.Float.{Floats, Arithmetic}
use dm_simulator.Base.Dict.{update}
use dm_simulator.Plots.Columns.{group_columns}
use dm_simulator.Plots.Values.{
  Value, missing, text, real, count, flag, Row, cell, cell_or_blank, is_text, of_option, metric,
  ratio_delta, absolute_delta, classify_delta, sum_optional,
}

-- The values of a key, and dicts by such keys. A group's columns are texts, or missing.
abbrev pub Key : Type 0 → Type 0
Key F = List (Value F)

module _ {F : Type 0} ⦃fl : Floats F⦄ where
  abbrev pub same_value : Value F → Value F → Bool
  same_value missing missing = true
  same_value (text s) (text t) = str_eq s t
  same_value (real x) (real y) = fl.eq x y
  same_value (count m) (count n) = m == n
  same_value (flag true) (flag b) = b
  same_value (flag false) (flag b) = if b then false else true
  same_value _ _ = false

  unfoldable pub same_key : Key F → Key F → Bool
  same_key [] [] = true
  same_key [] (w ∷ ws) = false
  same_key (v ∷ vs) [] = false
  same_key (v ∷ vs) (w ∷ ws) = same_value v w && same_key vs ws

  unfoldable pub find_key : {A : Type 0} → Key F → List (Key F × A) → Option A
  find_key k [] = none
  find_key k ((j, a) ∷ d) = let rest = find_key k d in if same_key j k then some a else rest

  unfoldable pub insert_key : {A : Type 0} → List (Key F × A) → Key F → A → List (Key F × A)
  insert_key [] k a = (k, a) ∷ []
  insert_key ((j, b) ∷ d) k a =
      let rest = insert_key d k a in if same_key j k then (j, a) ∷ d else (j, b) ∷ rest

  unfoldable pub group_key : Row F → Key F
  group_key row = map (cell_or_blank row) group_columns

  -- `baseline_by_group`, after more rows.
  unfoldable pub baseline_by_group :
      String → List (Key F × Row F) → List (Row F) → List (Key F × Row F)
  baseline_by_group baseline_policy d [] = d
  baseline_by_group baseline_policy d (row ∷ rows) =
      baseline_by_group baseline_policy
        (if is_text (cell row "policy") baseline_policy
          then insert_key d (group_key row) row
          else d)
        rows

abbrev pub is_available : {A : Type 0} → Option A → Bool
is_available none = false
is_available (some _) = true

module _ {F : Type 0} ⦃fl : Floats F⦄ ⦃ar : Arithmetic F⦄ where
  -- `metric(baseline, column) if baseline else None`
  abbrev pub baseline_metric : Option (Row F) → String → Option F
  baseline_metric none column = none
  baseline_metric (some row) column = metric row column

  abbrev pub group_cells : Row F → Row F
  group_cells row = map (λ column. (column, cell_or_blank row column)) group_columns

  abbrev pub label_cells : String → Row F → Option (Row F) → Row F
  label_cells baseline_policy row baseline =
      ("contention_weight_profile", cell_or_blank row "contention_weight_profile")
      ∷ ("contention_weight_name", cell_or_blank row "contention_weight_name")
      ∷ ("contention_weight_value", cell_or_blank row "contention_weight_value")
      ∷ ("policy", cell_or_blank row "policy")
      ∷ ("baseline_policy", text baseline_policy)
      ∷ ("baseline_available", flag (is_available baseline))
      ∷ ("source_aggregate", cell_or_blank row "_source_aggregate")
      ∷ ("experiment_name", cell_or_blank row "experiment_name")
      ∷ ("output_dir", cell_or_blank row "output_dir")
      ∷ []

  -- `mean_delta_pct`
  abbrev pub mean_delta : Row F → Option (Row F) → Option F
  mean_delta row baseline =
      ratio_delta (metric row "mean_latency") (baseline_metric baseline "mean_latency")

  abbrev pub metric_cells : F → Row F → Option (Row F) → Row F
  metric_cells tie_threshold row baseline =
      ("classification", text (classify_delta (mean_delta row baseline) tie_threshold))
      ∷ ("mean_latency", of_option (metric row "mean_latency"))
      ∷ ("baseline_mean_latency", of_option (baseline_metric baseline "mean_latency"))
      ∷ (
        "mean_latency_delta",
        of_option
            (absolute_delta (metric row "mean_latency") (baseline_metric baseline "mean_latency")),
      )
      ∷ ("mean_latency_delta_pct", of_option (mean_delta row baseline))
      ∷ ("p99_latency", of_option (metric row "p99_latency"))
      ∷ ("baseline_p99_latency", of_option (baseline_metric baseline "p99_latency"))
      ∷ (
        "p99_latency_delta",
        of_option
            (absolute_delta (metric row "p99_latency") (baseline_metric baseline "p99_latency")),
      )
      ∷ (
        "p99_latency_delta_pct",
        of_option (ratio_delta (metric row "p99_latency") (baseline_metric baseline "p99_latency")),
      )
      ∷ ("local_hit_rate", of_option (metric row "local_hit_rate"))
      ∷ ("baseline_local_hit_rate", of_option (baseline_metric baseline "local_hit_rate"))
      ∷ (
        "local_hit_rate_delta",
        of_option (
            absolute_delta (metric row "local_hit_rate")
              (baseline_metric baseline "local_hit_rate")),
      )
      ∷ ("average_memory_wait", of_option (metric row "average_memory_wait"))
      ∷ ("baseline_average_memory_wait", of_option (baseline_metric baseline "average_memory_wait"))
      ∷ (
        "average_memory_wait_delta",
        of_option (
            absolute_delta (metric row "average_memory_wait")
              (baseline_metric baseline "average_memory_wait")),
      )
      ∷ (
        "average_memory_wait_delta_pct",
        of_option (
            ratio_delta (metric row "average_memory_wait")
              (baseline_metric baseline "average_memory_wait")),
      )
      ∷ ("max_memory_wait", of_option (metric row "max_memory_wait"))
      ∷ ("peak_memory_queue_depth", of_option (metric row "peak_memory_queue_depth"))
      ∷ (
        "peak_memory_channel_queue_depth",
        of_option (metric row "peak_memory_channel_queue_depth"),
      )
      ∷ ("max_channel_total_queue_wait", of_option (metric row "max_channel_total_queue_wait"))
      ∷ ("channel_queue_imbalance", of_option (metric row "channel_queue_imbalance"))
      ∷ ("total_remote_accesses", of_option (metric row "total_remote_accesses"))
      ∷ (
        "baseline_total_remote_accesses",
        of_option (baseline_metric baseline "total_remote_accesses"),
      )
      ∷ (
        "total_remote_accesses_delta",
        of_option (
            absolute_delta (metric row "total_remote_accesses")
              (baseline_metric baseline "total_remote_accesses")),
      )
      ∷ (
        "total_remote_accesses_delta_pct",
        of_option (
            ratio_delta (metric row "total_remote_accesses")
              (baseline_metric baseline "total_remote_accesses")),
      )
      ∷ ("total_queue_wait", of_option (metric row "total_queue_wait"))
      ∷ ("total_remote_service_time", of_option (metric row "total_remote_service_time"))
      ∷ ("max_observed_queue_depth", of_option (metric row "max_observed_queue_depth"))
      ∷ (
        "estimated_avoided_remote_accesses",
        of_option (metric row "estimated_avoided_remote_accesses"),
      )
      ∷ ("estimated_avoided_queue_wait", of_option (metric row "estimated_avoided_queue_wait"))
      ∷ (
        "estimated_avoided_remote_service_time",
        of_option (metric row "estimated_avoided_remote_service_time"),
      )
      ∷ (
        "estimated_avoided_contention_cost",
        of_option (
            sum_optional (metric row "estimated_avoided_queue_wait")
              (metric row "estimated_avoided_remote_service_time")),
      )
      ∷ ("admission_yield", of_option (metric row "admission_yield"))
      ∷ ("reuse_after_admit_rate", of_option (metric row "reuse_after_admit_rate"))
      ∷ ("stale_telemetry_rate", of_option (metric row "stale_telemetry_rate"))
      ∷ ("average_top_object_overlap", of_option (metric row "average_top_object_overlap"))
      ∷ ("eviction_regret_count", of_option (metric row "eviction_regret_count"))
      ∷ ("remote_eviction_regret_count", of_option (metric row "remote_eviction_regret_count"))
      ∷ ("jain_inverse_latency_fairness", of_option (metric row "jain_inverse_latency_fairness"))
      ∷ (
        "baseline_jain_inverse_latency_fairness",
        of_option (baseline_metric baseline "jain_inverse_latency_fairness"),
      )
      ∷ (
        "jain_inverse_latency_fairness_delta",
        of_option (
            absolute_delta (metric row "jain_inverse_latency_fairness")
              (baseline_metric baseline "jain_inverse_latency_fairness")),
      )
      ∷ ("per_node_mean_latency_spread", of_option (metric row "per_node_mean_latency_spread"))
      ∷ ("per_node_p99_latency_max", of_option (metric row "per_node_p99_latency_max"))
      ∷ []

  -- The row of a run, from its baseline.
  unfoldable pub comparison_row : String → F → Row F → Option (Row F) → Row F
  comparison_row baseline_policy tie_threshold row baseline =
      update (update (group_cells row) (label_cells baseline_policy row baseline))
        (metric_cells tie_threshold row baseline)

  unfoldable pub build_policy_comparison : List (Row F) → String → F → List (Row F)
  build_policy_comparison rows baseline_policy tie_threshold =
      let baselines = baseline_by_group baseline_policy [] rows in
      map
        (λ row.
          comparison_row baseline_policy tie_threshold row (find_key (group_key row) baselines))
        rows
