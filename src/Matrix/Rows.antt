-- ===== src/Matrix/Rows.antt =====
-- The rows of the aggregate CSV: `AGGREGATE_COLUMNS`, `base_row`, and the row that
-- `write_aggregate_csv` writes (scripts/run_matrix.py).
pub mod Columns
use dm_simulator.Base.{ℕ, String, Option, none, some, List, [], ◌∷◌, map, Result, ok, ◌>>=◌}
use dm_simulator.Base.Int.{ℤ}
use dm_simulator.Base.Float.{Floats}
use dm_simulator.Base.Dict.{Dict, get}
use dm_simulator.Base.FilePath.{FilePath}
use dm_simulator.Json.{Json}
use dm_simulator.Matrix.Preset.{MatrixRun}
use dm_simulator.Matrix.Run.{
  or_default, hot_set_churn_label, memory_bandwidth_bytes_per_time, memory_base_latency,
  one_way_link_latency, cache_capacity_bytes,
}

-- What a cell of a row holds.
pub data Cell (F : Type 0) : Type 0 where
  text : String → Cell F
  count : ℕ → Cell F
  whole : ℤ → Cell F
  real : F → Cell F
  path : FilePath → Cell F
  json : Json F → Cell F

abbrev pub aggregate_columns : List String
aggregate_columns =
    "status" ∷ "error" ∷ "preset" ∷ "experiment_name" ∷ "policy" ∷ "contention_weight_profile"
    ∷ "contention_weight_name" ∷ "contention_weight_value" ∷ "seed" ∷ "node_count"
    ∷ "compute_node_count" ∷ "epoch_count" ∷ "requests_per_node_per_epoch" ∷ "workload_issue_mode"
    ∷ "burst_size" ∷ "burst_interval" ∷ "intra_burst_gap" ∷ "node_phase_jitter" ∷ "hot_set_mode"
    ∷ "hot_set_churn_label" ∷ "hot_set_churn_fraction" ∷ "cross_node_overlap" ∷ "object_count"
    ∷ "hot_set_size" ∷ "hot_access_probability" ∷ "object_size_mode" ∷ "object_size_bytes"
    ∷ "object_size_small_bytes" ∷ "object_size_large_bytes" ∷ "large_object_probability"
    ∷ "cache_capacity_hotset_multiplier" ∷ "cache_capacity_bytes" ∷ "memory_channel_count"
    ∷ "hot_object_channel_count" ∷ "memory_bandwidth_level" ∷ "memory_bandwidth_bytes_per_time"
    ∷ "memory_base_latency_level" ∷ "memory_base_latency" ∷ "link_latency_level"
    ∷ "one_way_link_latency" ∷ "completed_requests" ∷ "mean_latency" ∷ "median_latency"
    ∷ "p95_latency" ∷ "p99_latency" ∷ "local_hit_rate" ∷ "local_hits" ∷ "local_misses"
    ∷ "average_memory_wait" ∷ "max_memory_wait" ∷ "peak_memory_queue_depth"
    ∷ "peak_memory_channel_queue_depth" ∷ "max_channel_total_queue_wait" ∷ "channel_queue_imbalance"
    ∷ "total_remote_accesses" ∷ "total_queue_wait" ∷ "total_remote_service_time"
    ∷ "max_observed_queue_depth" ∷ "per_node_mean_latency_min" ∷ "per_node_mean_latency_max"
    ∷ "per_node_mean_latency_spread" ∷ "per_node_p99_latency_max" ∷ "per_node_hit_rate_min"
    ∷ "per_node_hit_rate_max" ∷ "policy_admitted" ∷ "policy_rejected" ∷ "admission_yield"
    ∷ "reuse_after_admit_rate" ∷ "stale_telemetry_rate" ∷ "average_top_object_overlap"
    ∷ "estimated_avoided_remote_accesses" ∷ "estimated_avoided_queue_wait"
    ∷ "estimated_avoided_remote_service_time" ∷ "eviction_regret_count"
    ∷ "remote_eviction_regret_count" ∷ "jain_inverse_latency_fairness" ∷ "config_path"
    ∷ "output_dir" ∷ []

-- A weight that a profile does not have is blank.
abbrev pub weight_cell : {F : Type 0} → Option F → Cell F
weight_cell none = text ""
weight_cell (some value) = real value

-- The dict that `base_row` returns, from the four values that are looked up or computed.
abbrev pub base_cells :
    {F : Type 0} ⦃fl : Floats F⦄ → MatrixRun F → String → String → ℕ → ℕ → ℕ → ℕ → Dict (Cell F)
base_cells run status error capacity bandwidth base link =
    ("status", text status)
    ∷ ("error", text error)
    ∷ ("preset", text run.preset.name)
    ∷ ("experiment_name", text run.run_name)
    ∷ ("policy", text run.policy)
    ∷ ("contention_weight_profile", text run.contention_weight_profile.profile)
    ∷ ("contention_weight_name", text run.contention_weight_profile.weight_name)
    ∷ ("contention_weight_value", weight_cell run.contention_weight_profile.weight_value)
    ∷ ("seed", whole run.seed)
    ∷ ("node_count", count run.compute_node_count)
    ∷ ("compute_node_count", count run.compute_node_count)
    ∷ ("epoch_count", count run.epoch_count)
    ∷ ("requests_per_node_per_epoch", count run.requests_per_node_per_epoch)
    ∷ ("workload_issue_mode", text run.workload_issue_mode)
    ∷ ("burst_size", count run.burst_size)
    ∷ ("burst_interval", count run.burst_interval)
    ∷ ("intra_burst_gap", count run.intra_burst_gap)
    ∷ ("node_phase_jitter", count run.node_phase_jitter)
    ∷ ("hot_set_mode", text run.preset.hot_set_mode)
    ∷ (
      "hot_set_churn_label",
      text (hot_set_churn_label run.preset.hot_set_mode run.hot_set_churn_fraction),
    )
    ∷ ("hot_set_churn_fraction", real run.hot_set_churn_fraction)
    ∷ ("cross_node_overlap", text run.cross_node_overlap)
    ∷ ("object_count", count run.object_count)
    ∷ ("hot_set_size", count run.hot_set_size)
    ∷ ("hot_access_probability", real run.hot_access_probability)
    ∷ ("object_size_mode", text run.object_size_mode)
    ∷ ("object_size_bytes", count run.preset.object_size_bytes)
    ∷ ("object_size_small_bytes", count run.preset.object_size_small_bytes)
    ∷ ("object_size_large_bytes", count run.preset.object_size_large_bytes)
    ∷ ("large_object_probability", real run.large_object_probability)
    ∷ ("cache_capacity_hotset_multiplier", real run.cache_capacity_hotset_multiplier)
    ∷ ("cache_capacity_bytes", count capacity)
    ∷ ("memory_channel_count", count run.memory_channel_count)
    ∷ ("hot_object_channel_count", count run.hot_object_channel_count)
    ∷ ("memory_bandwidth_level", text run.memory_bandwidth_level)
    ∷ ("memory_bandwidth_bytes_per_time", count bandwidth)
    ∷ ("memory_base_latency_level", text run.memory_base_latency_level)
    ∷ ("memory_base_latency", count base)
    ∷ ("link_latency_level", text run.link_latency_level)
    ∷ ("one_way_link_latency", count link)
    ∷ ("config_path", path run.config_path)
    ∷ ("output_dir", path run.output_dir)
    ∷ []

module _ {F : Type 0} ⦃fl : Floats F⦄ where
  unfoldable pub base_row : MatrixRun F → String → String → Result (Dict (Cell F))
  base_row run status error = do
    capacity ← cache_capacity_bytes run
    bandwidth ← memory_bandwidth_bytes_per_time run
    base ← memory_base_latency run
    link ← one_way_link_latency run
    ok (base_cells run status error capacity bandwidth base link)

-- `{column: row.get(column, "") for column in AGGREGATE_COLUMNS}`
unfoldable pub csv_row : {F : Type 0} → Dict (Cell F) → Dict (Cell F)
csv_row row = map (λ column. (column, or_default (text "") (get row column))) aggregate_columns
