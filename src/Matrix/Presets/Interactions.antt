-- ===== src/Matrix/Presets/Interactions.antt =====
-- Entries of `PRESETS` (scripts/run_matrix.py); a field left out there has its default here.
use dm_simulator.Base.{[], ◌∷◌}
use dm_simulator.Base.Float.{Floats}
use dm_simulator.Matrix.Preset.{MatrixPreset, numbers_from}

module _ {F : Type 0} ⦃fl : Floats F⦄ where
  abbrev pub eval_interactions_churn_epoch : MatrixPreset F
  eval_interactions_churn_epoch = record {
    name = "eval_interactions_churn_epoch";
    memory_node_id = 99;
    cache_hit_latency = 1;
    compute_node_ids = numbers_from 1 16;
    compute_node_count_values = 8 ∷ [];
    object_count_values = 256 ∷ [];
    object_size_bytes = 64;
    object_size_small_bytes = 64;
    object_size_large_bytes = 256;
    large_object_probabilities = (fl.lit 1 1) ∷ [];
    cache_capacity_hotset_multipliers = (fl.lit 5 1) ∷ [];
    memory_bandwidth_levels = "severe" ∷ [];
    memory_base_latency_levels = "medium" ∷ [];
    link_latency_levels = "medium" ∷ [];
    requests_per_node_per_epoch_values = 8 ∷ 16 ∷ 32 ∷ 64 ∷ [];
    epoch_count_values = 32 ∷ [];
    hot_set_size_values = 16 ∷ [];
    hot_access_probabilities = (fl.lit 8 1) ∷ [];
    hot_set_mode = "epoch_shift";
    hot_set_churn_fractions =
        (fl.lit 0 0) ∷ (fl.lit 25 2) ∷ (fl.lit 5 1) ∷ (fl.lit 75 2) ∷ (fl.lit 1 0) ∷ [];
    cross_node_overlaps = "high" ∷ [];
    object_size_modes = "bimodal" ∷ [];
    workload_issue_modes = "completion_driven" ∷ [];
    burst_sizes = 4 ∷ [];
    burst_intervals = 100 ∷ [];
    intra_burst_gaps = 1 ∷ [];
    node_phase_jitters = 0 ∷ [];
    memory_channel_counts = 1 ∷ [];
    hot_object_channel_counts = 0 ∷ [];
  }

  abbrev pub eval_interactions_cache_hotset : MatrixPreset F
  eval_interactions_cache_hotset = record {
    name = "eval_interactions_cache_hotset";
    memory_node_id = 99;
    cache_hit_latency = 1;
    compute_node_ids = numbers_from 1 16;
    compute_node_count_values = 8 ∷ [];
    object_count_values = 256 ∷ [];
    object_size_bytes = 64;
    object_size_small_bytes = 64;
    object_size_large_bytes = 256;
    large_object_probabilities = (fl.lit 1 1) ∷ [];
    cache_capacity_hotset_multipliers =
        (fl.lit 2 1) ∷ (fl.lit 4 1) ∷ (fl.lit 6 1) ∷ (fl.lit 8 1) ∷ [];
    memory_bandwidth_levels = "severe" ∷ [];
    memory_base_latency_levels = "medium" ∷ [];
    link_latency_levels = "medium" ∷ [];
    requests_per_node_per_epoch_values = 4 ∷ [];
    epoch_count_values = 32 ∷ [];
    hot_set_size_values = 8 ∷ 16 ∷ 32 ∷ [];
    hot_access_probabilities = (fl.lit 8 1) ∷ [];
    hot_set_mode = "epoch_shift";
    hot_set_churn_fractions = (fl.lit 3 1) ∷ [];
    cross_node_overlaps = "high" ∷ [];
    object_size_modes = "bimodal" ∷ [];
    workload_issue_modes = "completion_driven" ∷ [];
    burst_sizes = 4 ∷ [];
    burst_intervals = 100 ∷ [];
    intra_burst_gaps = 1 ∷ [];
    node_phase_jitters = 0 ∷ [];
    memory_channel_counts = 4 ∷ [];
    hot_object_channel_counts = 2 ∷ [];
  }

  abbrev pub eval_interactions_node_bandwidth : MatrixPreset F
  eval_interactions_node_bandwidth = record {
    name = "eval_interactions_node_bandwidth";
    memory_node_id = 99;
    cache_hit_latency = 1;
    compute_node_ids = numbers_from 1 16;
    compute_node_count_values = 4 ∷ 8 ∷ 16 ∷ [];
    object_count_values = 256 ∷ [];
    object_size_bytes = 64;
    object_size_small_bytes = 64;
    object_size_large_bytes = 256;
    large_object_probabilities = (fl.lit 1 1) ∷ [];
    cache_capacity_hotset_multipliers = (fl.lit 5 1) ∷ [];
    memory_bandwidth_levels = "mild" ∷ "moderate" ∷ "severe" ∷ [];
    memory_base_latency_levels = "medium" ∷ [];
    link_latency_levels = "medium" ∷ [];
    requests_per_node_per_epoch_values = 4 ∷ [];
    epoch_count_values = 32 ∷ [];
    hot_set_size_values = 16 ∷ [];
    hot_access_probabilities = (fl.lit 8 1) ∷ [];
    hot_set_mode = "epoch_shift";
    hot_set_churn_fractions = (fl.lit 3 1) ∷ [];
    cross_node_overlaps = "high" ∷ [];
    object_size_modes = "bimodal" ∷ [];
    workload_issue_modes = "completion_driven" ∷ [];
    burst_sizes = 4 ∷ [];
    burst_intervals = 100 ∷ [];
    intra_burst_gaps = 1 ∷ [];
    node_phase_jitters = 0 ∷ [];
    memory_channel_counts = 4 ∷ [];
    hot_object_channel_counts = 2 ∷ [];
  }

  abbrev pub eval_final_node_bandwidth : MatrixPreset F
  eval_final_node_bandwidth = record {
    name = "eval_final_node_bandwidth";
    memory_node_id = 99;
    cache_hit_latency = 1;
    compute_node_ids = numbers_from 1 16;
    compute_node_count_values = 4 ∷ 8 ∷ 16 ∷ [];
    object_count_values = 256 ∷ [];
    object_size_bytes = 64;
    object_size_small_bytes = 64;
    object_size_large_bytes = 256;
    large_object_probabilities = (fl.lit 1 1) ∷ [];
    cache_capacity_hotset_multipliers = (fl.lit 5 1) ∷ [];
    memory_bandwidth_levels = "mild" ∷ "severe" ∷ [];
    memory_base_latency_levels = "medium" ∷ [];
    link_latency_levels = "medium" ∷ [];
    requests_per_node_per_epoch_values = 4 ∷ [];
    epoch_count_values = 32 ∷ [];
    hot_set_size_values = 16 ∷ [];
    hot_access_probabilities = (fl.lit 8 1) ∷ [];
    hot_set_mode = "epoch_shift";
    hot_set_churn_fractions = (fl.lit 3 1) ∷ [];
    cross_node_overlaps = "high" ∷ [];
    object_size_modes = "bimodal" ∷ [];
    workload_issue_modes = "scheduled_bursty" ∷ [];
    burst_sizes = 4 ∷ [];
    burst_intervals = 20 ∷ [];
    intra_burst_gaps = 1 ∷ [];
    node_phase_jitters = 5 ∷ [];
    memory_channel_counts = 4 ∷ [];
    hot_object_channel_counts = 2 ∷ [];
  }
