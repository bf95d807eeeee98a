-- ===== src/Matrix/Presets/Contention.antt =====
-- Entries of `PRESETS` (scripts/run_matrix.py); a field left out there has its default here.
use dm_simulator.Base.{[], ◌∷◌}
use dm_simulator.Base.Float.{Floats}
use dm_simulator.Matrix.Preset.{MatrixPreset, numbers_from}

module _ {F : Type 0} ⦃fl : Floats F⦄ where
  abbrev pub eval_contention_calibration : MatrixPreset F
  eval_contention_calibration = record {
    name = "eval_contention_calibration";
    memory_node_id = 99;
    cache_hit_latency = 1;
    compute_node_ids = numbers_from 1 16;
    compute_node_count_values = 2 ∷ 4 ∷ 8 ∷ 16 ∷ [];
    object_count_values = 1024 ∷ [];
    object_size_bytes = 64;
    object_size_small_bytes = 64;
    object_size_large_bytes = 256;
    large_object_probabilities = (fl.lit 1 1) ∷ [];
    cache_capacity_hotset_multipliers = (fl.lit 2 1) ∷ (fl.lit 5 1) ∷ (fl.lit 8 1) ∷ [];
    memory_bandwidth_levels = "mild" ∷ "moderate" ∷ "severe" ∷ [];
    memory_base_latency_levels = "medium" ∷ [];
    link_latency_levels = "medium" ∷ [];
    requests_per_node_per_epoch_values = 8 ∷ [];
    epoch_count_values = 32 ∷ [];
    hot_set_size_values = 16 ∷ [];
    hot_access_probabilities = (fl.lit 6 1) ∷ (fl.lit 8 1) ∷ (fl.lit 95 2) ∷ [];
    hot_set_mode = "epoch_shift";
    hot_set_churn_fractions = (fl.lit 3 1) ∷ [];
    cross_node_overlaps = "low" ∷ "medium" ∷ "high" ∷ [];
    object_size_modes = "bimodal" ∷ [];
    workload_issue_modes = "scheduled_bursty" ∷ [];
    burst_sizes = 4 ∷ [];
    burst_intervals = 20 ∷ [];
    intra_burst_gaps = 1 ∷ [];
    node_phase_jitters = 5 ∷ [];
    memory_channel_counts = 4 ∷ [];
    hot_object_channel_counts = 2 ∷ [];
  }

  abbrev pub eval_final_contention_scaling : MatrixPreset F
  eval_final_contention_scaling = record {
    name = "eval_final_contention_scaling";
    memory_node_id = 99;
    cache_hit_latency = 1;
    compute_node_ids = numbers_from 1 16;
    compute_node_count_values = 2 ∷ 4 ∷ 8 ∷ 16 ∷ [];
    object_count_values = 1024 ∷ [];
    object_size_bytes = 64;
    object_size_small_bytes = 64;
    object_size_large_bytes = 256;
    large_object_probabilities = (fl.lit 1 1) ∷ [];
    cache_capacity_hotset_multipliers = (fl.lit 5 1) ∷ [];
    memory_bandwidth_levels = "mild" ∷ "moderate" ∷ "severe" ∷ [];
    memory_base_latency_levels = "medium" ∷ [];
    link_latency_levels = "medium" ∷ [];
    requests_per_node_per_epoch_values = 8 ∷ [];
    epoch_count_values = 32 ∷ [];
    hot_set_size_values = 16 ∷ [];
    hot_access_probabilities = (fl.lit 8 1) ∷ [];
    hot_set_mode = "epoch_shift";
    hot_set_churn_fractions = (fl.lit 3 1) ∷ [];
    cross_node_overlaps = "high" ∷ [];
    object_size_modes = "bimodal" ∷ [];
    workload_issue_modes = "scheduled_bursty" ∷ [];
    burst_sizes = 4 ∷ [];
    burst_intervals = 20 ∷ [];
    intra_burst_gaps = 1 ∷ [];
    node_phase_jitters = 5 ∷ [];
    memory_channel_counts = 4 ∷ [];
    hot_object_channel_counts = 2 ∷ [];
  }

  abbrev pub eval_channel_calibration : MatrixPreset F
  eval_channel_calibration = record {
    name = "eval_channel_calibration";
    memory_node_id = 99;
    cache_hit_latency = 1;
    compute_node_ids = numbers_from 1 16;
    compute_node_count_values = 8 ∷ [];
    object_count_values = 256 ∷ [];
    object_size_bytes = 64;
    object_size_small_bytes = 64;
    object_size_large_bytes = 256;
    large_object_probabilities = (fl.lit 1 1) ∷ [];
    cache_capacity_hotset_multipliers = (fl.lit 5 1) ∷ [];
    memory_bandwidth_levels = "severe" ∷ [];
    memory_base_latency_levels = "medium" ∷ [];
    link_latency_levels = "medium" ∷ [];
    requests_per_node_per_epoch_values = 128 ∷ [];
    epoch_count_values = 16 ∷ [];
    hot_set_size_values = 16 ∷ [];
    hot_access_probabilities = (fl.lit 8 1) ∷ [];
    hot_set_mode = "epoch_shift";
    hot_set_churn_fractions = (fl.lit 2 1) ∷ [];
    cross_node_overlaps = "high" ∷ [];
    object_size_modes = "fixed" ∷ [];
    workload_issue_modes = "completion_driven" ∷ [];
    burst_sizes = 4 ∷ [];
    burst_intervals = 100 ∷ [];
    intra_burst_gaps = 1 ∷ [];
    node_phase_jitters = 0 ∷ [];
    memory_channel_counts = 1 ∷ 2 ∷ 4 ∷ 8 ∷ [];
    hot_object_channel_counts = 0 ∷ [];
  }

  abbrev pub eval_channel_hotspots : MatrixPreset F
  eval_channel_hotspots = record {
    name = "eval_channel_hotspots";
    memory_node_id = 99;
    cache_hit_latency = 1;
    compute_node_ids = numbers_from 1 16;
    compute_node_count_values = 8 ∷ [];
    object_count_values = 256 ∷ [];
    object_size_bytes = 64;
    object_size_small_bytes = 64;
    object_size_large_bytes = 256;
    large_object_probabilities = (fl.lit 1 1) ∷ [];
    cache_capacity_hotset_multipliers = (fl.lit 5 1) ∷ [];
    memory_bandwidth_levels = "severe" ∷ [];
    memory_base_latency_levels = "medium" ∷ [];
    link_latency_levels = "medium" ∷ [];
    requests_per_node_per_epoch_values = 128 ∷ [];
    epoch_count_values = 16 ∷ [];
    hot_set_size_values = 16 ∷ [];
    hot_access_probabilities = (fl.lit 8 1) ∷ [];
    hot_set_mode = "epoch_shift";
    hot_set_churn_fractions = (fl.lit 2 1) ∷ [];
    cross_node_overlaps = "high" ∷ [];
    object_size_modes = "bimodal" ∷ [];
    workload_issue_modes = "completion_driven" ∷ [];
    burst_sizes = 4 ∷ [];
    burst_intervals = 100 ∷ [];
    intra_burst_gaps = 1 ∷ [];
    node_phase_jitters = 0 ∷ [];
    memory_channel_counts = 4 ∷ [];
    hot_object_channel_counts = 1 ∷ 2 ∷ 4 ∷ [];
  }

  abbrev pub eval_bursty_calibration : MatrixPreset F
  eval_bursty_calibration = record {
    name = "eval_bursty_calibration";
    memory_node_id = 99;
    cache_hit_latency = 1;
    compute_node_ids = numbers_from 1 16;
    compute_node_count_values = 8 ∷ [];
    object_count_values = 256 ∷ [];
    object_size_bytes = 64;
    object_size_small_bytes = 64;
    object_size_large_bytes = 256;
    large_object_probabilities = (fl.lit 1 1) ∷ [];
    cache_capacity_hotset_multipliers = (fl.lit 5 1) ∷ [];
    memory_bandwidth_levels = "severe" ∷ [];
    memory_base_latency_levels = "medium" ∷ [];
    link_latency_levels = "medium" ∷ [];
    requests_per_node_per_epoch_values = 8 ∷ [];
    epoch_count_values = 16 ∷ [];
    hot_set_size_values = 16 ∷ [];
    hot_access_probabilities = (fl.lit 8 1) ∷ [];
    hot_set_mode = "epoch_shift";
    hot_set_churn_fractions = (fl.lit 2 1) ∷ [];
    cross_node_overlaps = "high" ∷ [];
    object_size_modes = "bimodal" ∷ [];
    workload_issue_modes = "completion_driven" ∷ "scheduled_bursty" ∷ [];
    burst_sizes = 4 ∷ [];
    burst_intervals = 20 ∷ [];
    intra_burst_gaps = 1 ∷ [];
    node_phase_jitters = 0 ∷ [];
    memory_channel_counts = 4 ∷ [];
    hot_object_channel_counts = 2 ∷ [];
  }
