-- ===== src/Plots/Columns.antt =====
-- The tables of column names of the plots and reports (scripts/plot_results.py).
use dm_simulator.Base.{String, List, [], ◌∷◌, ◌++◌}

abbrev pub preferred_policy_order : List String
preferred_policy_order =
    "always_remote" ∷ "lru" ∷ "hotness_only" ∷ "hotness_only_cumulative" ∷ "hotness_only_windowed"
    ∷ "global_hottest_replication" ∷ "contention_aware" ∷ "contention_aware_v1"
    ∷ "contention_aware_smoothed" ∷ "contention_aware_smoothed_reuse_gated"
    ∷ "contention_aware_smoothed_reuse_gated_hysteresis" ∷ "contention_aware_size_value"
    ∷ "contention_aware_reuse_gated" ∷ "contention_aware_hysteresis" ∷ []

abbrev pub group_columns : List String
group_columns =
    "preset" ∷ "seed" ∷ "node_count" ∷ "epoch_count" ∷ "requests_per_node_per_epoch"
    ∷ "workload_issue_mode" ∷ "burst_size" ∷ "burst_interval" ∷ "intra_burst_gap"
    ∷ "node_phase_jitter" ∷ "hot_set_mode" ∷ "hot_set_churn_fraction" ∷ "cross_node_overlap"
    ∷ "object_count" ∷ "hot_set_size" ∷ "hot_access_probability" ∷ "object_size_mode"
    ∷ "object_size_bytes" ∷ "object_size_small_bytes" ∷ "object_size_large_bytes"
    ∷ "large_object_probability" ∷ "cache_capacity_hotset_multiplier" ∷ "cache_capacity_bytes"
    ∷ "memory_channel_count" ∷ "hot_object_channel_count" ∷ "memory_bandwidth_level"
    ∷ "memory_bandwidth_bytes_per_time" ∷ "memory_base_latency_level" ∷ "memory_base_latency"
    ∷ "link_latency_level" ∷ "one_way_link_latency" ∷ []

abbrev pub comparison_columns : List String
comparison_columns =
    group_columns
    ++ ("contention_weight_profile" ∷ "contention_weight_name" ∷ "contention_weight_value"
        ∷ "policy" ∷ "baseline_policy" ∷ "baseline_available" ∷ "classification" ∷ "mean_latency"
        ∷ "baseline_mean_latency" ∷ "mean_latency_delta" ∷ "mean_latency_delta_pct" ∷ "p99_latency"
        ∷ "baseline_p99_latency" ∷ "p99_latency_delta" ∷ "p99_latency_delta_pct" ∷ "local_hit_rate"
        ∷ "baseline_local_hit_rate" ∷ "local_hit_rate_delta" ∷ "average_memory_wait"
        ∷ "baseline_average_memory_wait" ∷ "average_memory_wait_delta"
        ∷ "average_memory_wait_delta_pct" ∷ "max_memory_wait" ∷ "peak_memory_queue_depth"
        ∷ "peak_memory_channel_queue_depth" ∷ "max_channel_total_queue_wait"
        ∷ "channel_queue_imbalance" ∷ "total_remote_accesses" ∷ "baseline_total_remote_accesses"
        ∷ "total_remote_accesses_delta" ∷ "total_remote_accesses_delta_pct" ∷ "total_queue_wait"
        ∷ "total_remote_service_time" ∷ "max_observed_queue_depth"
        ∷ "estimated_avoided_remote_accesses" ∷ "estimated_avoided_queue_wait"
        ∷ "estimated_avoided_remote_service_time" ∷ "estimated_avoided_contention_cost"
        ∷ "admission_yield" ∷ "reuse_after_admit_rate" ∷ "stale_telemetry_rate"
        ∷ "average_top_object_overlap" ∷ "eviction_regret_count" ∷ "remote_eviction_regret_count"
        ∷ "jain_inverse_latency_fairness" ∷ "baseline_jain_inverse_latency_fairness"
        ∷ "jain_inverse_latency_fairness_delta" ∷ "per_node_mean_latency_spread"
        ∷ "per_node_p99_latency_max" ∷ "source_aggregate" ∷ "experiment_name" ∷ "output_dir" ∷ [])

abbrev pub policy_summary_columns : List String
policy_summary_columns =
    "policy" ∷ "run_count" ∷ "comparable_run_count" ∷ "win_count" ∷ "tie_count" ∷ "loss_count"
    ∷ "avg_mean_latency" ∷ "avg_p99_latency" ∷ "avg_local_hit_rate" ∷ "avg_average_memory_wait"
    ∷ "avg_total_remote_accesses" ∷ "avg_mean_latency_delta_pct" ∷ "best_mean_latency_delta_pct"
    ∷ "worst_mean_latency_delta_pct" ∷ "avg_p99_latency_delta_pct" ∷ "avg_local_hit_rate_delta"
    ∷ "avg_average_memory_wait_delta_pct" ∷ "avg_total_remote_accesses_delta_pct"
    ∷ "avg_admission_yield" ∷ "avg_reuse_after_admit_rate" ∷ "avg_stale_telemetry_rate"
    ∷ "avg_average_top_object_overlap" ∷ "avg_estimated_avoided_remote_accesses"
    ∷ "avg_estimated_avoided_contention_cost" ∷ "avg_eviction_regret_count"
    ∷ "avg_jain_inverse_latency_fairness" ∷ "avg_jain_inverse_latency_fairness_delta" ∷ []

abbrev pub final_policy_table_columns : List String
final_policy_table_columns =
    "policy" ∷ "seed_count" ∷ "comparable_run_count" ∷ "win_rate" ∷ "mean_latency_improvement_pct"
    ∷ "seed_std_latency_improvement_pct" ∷ "mean_p99_improvement_pct"
    ∷ "seed_std_p99_improvement_pct" ∷ "mean_memory_wait_reduction_pct"
    ∷ "seed_std_memory_wait_reduction_pct" ∷ "mean_local_hit_rate" ∷ "seed_std_local_hit_rate" ∷ []

abbrev pub final_report_presets : List String
final_report_presets =
    "eval_final_contention_scaling" ∷ "eval_final_node_bandwidth" ∷ "eval_final_policy_iteration"
    ∷ []

abbrev pub final_report_policy_order : List String
final_report_policy_order =
    "lru" ∷ "hotness_only_windowed" ∷ "contention_aware_smoothed"
    ∷ "contention_aware_smoothed_reuse_gated" ∷ "contention_aware_smoothed_reuse_gated_hysteresis"
    ∷ "contention_aware_size_value" ∷ []

abbrev pub condition_columns : List String
condition_columns =
    "dimension" ∷ "value" ∷ "policy" ∷ "run_count" ∷ "win_count" ∷ "tie_count" ∷ "loss_count"
    ∷ "avg_mean_latency" ∷ "avg_mean_latency_delta_pct" ∷ "avg_p99_latency_delta_pct"
    ∷ "avg_local_hit_rate" ∷ "avg_average_memory_wait" ∷ "avg_stale_telemetry_rate"
    ∷ "avg_estimated_avoided_contention_cost" ∷ []

abbrev pub best_run_baseline_policies : List String
best_run_baseline_policies = "always_remote" ∷ "lru" ∷ "global_hottest_replication" ∷ []

abbrev pub best_run_columns : List String
best_run_columns =
    "target_policy" ∷ "latency_improvement_pct" ∷ "mean_latency_delta_pct" ∷ "p99_latency_delta_pct"
    ∷ "local_hit_rate" ∷ "local_hit_rate_delta" ∷ "average_memory_wait_delta_pct"
    ∷ "total_remote_accesses_delta_pct" ∷ "admission_yield" ∷ "reuse_after_admit_rate"
    ∷ "stale_telemetry_rate" ∷ "average_top_object_overlap" ∷ "best_experiment_name"
    ∷ "best_output_dir" ∷ "preset" ∷ "seed" ∷ "node_count" ∷ "epoch_count"
    ∷ "requests_per_node_per_epoch" ∷ "hot_set_churn_fraction" ∷ "cache_capacity_hotset_multiplier"
    ∷ "cache_capacity_bytes" ∷ "hot_set_size" ∷ "hot_access_probability" ∷ "cross_node_overlap"
    ∷ "object_count" ∷ "object_size_mode" ∷ "object_size_bytes" ∷ "object_size_small_bytes"
    ∷ "object_size_large_bytes" ∷ "large_object_probability" ∷ "memory_channel_count"
    ∷ "hot_object_channel_count" ∷ "memory_bandwidth_level" ∷ "memory_bandwidth_bytes_per_time"
    ∷ "memory_base_latency_level" ∷ "memory_base_latency" ∷ "link_latency_level"
    ∷ "one_way_link_latency" ∷ []

abbrev pub best_run_context_columns : List String
best_run_context_columns =
    "target_policy" ∷ "comparison_policy" ∷ "is_target_policy" ∷ "latency_improvement_pct"
    ∷ "mean_latency_delta_pct" ∷ "p99_latency_delta_pct" ∷ "local_hit_rate" ∷ "local_hit_rate_delta"
    ∷ "average_memory_wait" ∷ "average_memory_wait_delta_pct" ∷ "total_remote_accesses"
    ∷ "total_remote_accesses_delta_pct" ∷ "admission_yield" ∷ "reuse_after_admit_rate"
    ∷ "stale_telemetry_rate" ∷ "average_top_object_overlap" ∷ "experiment_name" ∷ "output_dir"
    ∷ group_columns
