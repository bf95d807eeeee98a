-- ===== src/Matrix/Policies.antt =====
-- The policy lists, the named levels and the aliases of run names (scripts/run_matrix.py).
use dm_simulator.Base.{ℕ, String, List, [], ◌∷◌, ◌++◌}
use dm_simulator.Base.Dict.{Dict}

abbrev pub base_policies : List String
base_policies =
    "always_remote" ∷ "lru" ∷ "hotness_only" ∷ "global_hottest_replication" ∷ "contention_aware"
    ∷ []

abbrev pub contention_variant_policies : List String
contention_variant_policies =
    "contention_aware_v1" ∷ "contention_aware_smoothed" ∷ "contention_aware_reuse_gated"
    ∷ "contention_aware_hysteresis" ∷ []

abbrev pub phase_e_default_policies : List String
phase_e_default_policies =
    "lru" ∷ "hotness_only" ∷ "hotness_only_cumulative" ∷ "hotness_only_windowed"
    ∷ "global_hottest_replication" ∷ contention_variant_policies

abbrev pub eval_contention_calibration_policies : List String
eval_contention_calibration_policies = "always_remote" ∷ "lru" ∷ []

abbrev pub eval_policy_viability_policies : List String
eval_policy_viability_policies =
    "lru" ∷ "hotness_only_windowed" ∷ "global_hottest_replication" ∷ contention_variant_policies

abbrev pub eval_policy_iteration_policies : List String
eval_policy_iteration_policies =
    "lru" ∷ "hotness_only_windowed" ∷ "contention_aware_smoothed"
    ∷ "contention_aware_smoothed_reuse_gated" ∷ "contention_aware_smoothed_reuse_gated_hysteresis"
    ∷ "contention_aware_size_value" ∷ []

abbrev pub eval_final_node_bandwidth_policies : List String
eval_final_node_bandwidth_policies =
    "lru" ∷ "hotness_only_windowed" ∷ "contention_aware_smoothed"
    ∷ "contention_aware_smoothed_reuse_gated_hysteresis" ∷ "contention_aware_size_value" ∷ []

abbrev pub eval_interaction_policies : List String
eval_interaction_policies =
    "lru" ∷ "hotness_only_windowed" ∷ "contention_aware_smoothed" ∷ "contention_aware_reuse_gated"
    ∷ "contention_aware_hysteresis" ∷ []

abbrev pub eval_knob_policies : List String
eval_knob_policies = "lru" ∷ "hotness_only_windowed" ∷ "contention_aware_smoothed" ∷ []

abbrev pub eval_contention_weight_policies : List String
eval_contention_weight_policies = "lru" ∷ "contention_aware_smoothed" ∷ []

abbrev pub eval_channel_calibration_policies : List String
eval_channel_calibration_policies = "always_remote" ∷ "lru" ∷ []

abbrev pub eval_channel_hotspot_policies : List String
eval_channel_hotspot_policies = "lru" ∷ "hotness_only_windowed" ∷ "contention_aware_smoothed" ∷ []

abbrev pub eval_bursty_calibration_policies : List String
eval_bursty_calibration_policies = "always_remote" ∷ "lru" ∷ []

abbrev pub policies : List String
policies =
    base_policies
    ++ "hotness_only_cumulative" ∷ "hotness_only_windowed" ∷ contention_variant_policies
    ++ "contention_aware_smoothed_reuse_gated" ∷ "contention_aware_smoothed_reuse_gated_hysteresis"
      ∷ "contention_aware_size_value" ∷ []

abbrev pub memory_bandwidth_bytes_per_time_by_level : Dict ℕ
memory_bandwidth_bytes_per_time_by_level = ("mild", 64) ∷ ("moderate", 16) ∷ ("severe", 4) ∷ []

abbrev pub memory_base_latency_by_level : Dict ℕ
memory_base_latency_by_level = ("low", 10) ∷ ("medium", 25) ∷ ("high", 75) ∷ []

abbrev pub link_latency_by_level : Dict ℕ
link_latency_by_level = ("low", 2) ∷ ("medium", 6) ∷ ("high", 20) ∷ []

abbrev pub run_name_aliases : Dict String
run_name_aliases =
    ("eval_final_contention_scaling", "final_scale")
    ∷ ("eval_final_node_bandwidth", "final_node_bw")
    ∷ ("eval_final_policy_iteration", "final_policy")
    ∷ ("eval_policy_iteration", "policy_iter")
    ∷ ("eval_interactions_churn_epoch", "int_churn_epoch")
    ∷ ("eval_interactions_cache_hotset", "int_cache_hotset")
    ∷ ("eval_interactions_node_bandwidth", "int_node_bw")
    ∷ ("contention_aware_smoothed", "ca_smoothed")
    ∷ ("contention_aware_smoothed_reuse_gated", "ca_srg")
    ∷ ("contention_aware_smoothed_reuse_gated_hysteresis", "ca_srg_hyst")
    ∷ ("contention_aware_size_value", "ca_size_value")
    ∷ ("contention_aware_reuse_gated", "ca_reuse_gated")
    ∷ ("contention_aware_hysteresis", "ca_hysteresis")
    ∷ ("eval_knob_cache_pressure", "knob_cache")
    ∷ ("eval_knob_epoch_reuse", "knob_epoch")
    ∷ ("eval_knob_object_size_mix", "knob_size_mix")
    ∷ ("eval_knob_hot_concentration", "knob_hotp")
    ∷ ("eval_contention_weight_sensitivity", "weight_sensitivity")
    ∷ ("eval_channel_calibration", "chcal")
    ∷ ("eval_channel_hotspots", "chhot")
    ∷ ("eval_bursty_calibration", "burstcal")
    ∷ ("completion_driven", "comp")
    ∷ ("scheduled_bursty", "burst")
    ∷ []
