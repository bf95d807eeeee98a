-- ===== src/Plots/Dimensions.antt =====
-- The dimensions of the reports, their modes and the orders of their categories
-- (scripts/plot_results.py).
use dm_simulator.Base.{String, List, [], ◌∷◌, ◌++◌}
use dm_simulator.Base.Dict.{Dict}

abbrev pub condition_dimensions : List String
condition_dimensions =
    "hot_set_churn_fraction" ∷ "requests_per_node_per_epoch" ∷ "epoch_count" ∷ "cross_node_overlap"
    ∷ "object_count" ∷ "hot_set_size" ∷ "hot_access_probability" ∷ "large_object_probability"
    ∷ "workload_issue_mode" ∷ "burst_size" ∷ "burst_interval" ∷ "intra_burst_gap"
    ∷ "node_phase_jitter" ∷ "cache_capacity_hotset_multiplier" ∷ "contention_weight_profile"
    ∷ "contention_weight_name" ∷ "contention_weight_value" ∷ "memory_channel_count"
    ∷ "hot_object_channel_count" ∷ "memory_bandwidth_level" ∷ "node_count" ∷ []

abbrev pub report_dimensions : List String
report_dimensions =
    condition_dimensions
    ++ ("memory_base_latency_level" ∷ "link_latency_level" ∷ "object_size_mode" ∷ [])

abbrev pub report_modes : List String
report_modes =
    "auto" ∷ "generic" ∷ "contention_calibration" ∷ "policy_viability" ∷ "interaction"
    ∷ "parameter_demo" ∷ "weight_sensitivity" ∷ "final_report" ∷ []

abbrev pub categorical_order : Dict (List String)
categorical_order =
    ("memory_bandwidth_level", "mild" ∷ "moderate" ∷ "severe" ∷ [])
    ∷ ("memory_base_latency_level", "low" ∷ "medium" ∷ "high" ∷ [])
    ∷ ("link_latency_level", "low" ∷ "medium" ∷ "high" ∷ [])
    ∷ ("cross_node_overlap", "low" ∷ "medium" ∷ "high" ∷ [])
    ∷ ("workload_issue_mode", "completion_driven" ∷ "scheduled_bursty" ∷ [])
    ∷ (
      "contention_weight_name",
      "local_hotness_weight" ∷ "remote_access_weight" ∷ "distinct_requester_weight"
          ∷ "queue_wait_weight" ∷ "remote_service_time_weight" ∷ "size_penalty_weight" ∷ [],
    )
    ∷ []
