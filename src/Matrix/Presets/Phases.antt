-- ===== src/Matrix/Presets/Phases.antt =====
-- Entries of `PRESETS` (scripts/run_matrix.py); a field left out there has its default here.
use dm_simulator.Base.{[], ◌∷◌}
use dm_simulator.Base.Float.{Floats}
use dm_simulator.Matrix.Preset.{MatrixPreset, numbers_from}

module _ {F : Type 0} ⦃fl : Floats F⦄ where
  abbrev pub quick : MatrixPreset F
  quick = record {
    name = "quick";
    memory_node_id = 99;
    cache_hit_latency = 1;
    compute_node_ids = 1 ∷ 2 ∷ 3 ∷ 4 ∷ [];
    compute_node_count_values = 4 ∷ [];
    object_count_values = 128 ∷ [];
    object_size_bytes = 64;
    object_size_small_bytes = 64;
    object_size_large_bytes = 256;
    large_object_probabilities = (fl.lit 1 1) ∷ [];
    cache_capacity_hotset_multipliers = (fl.lit 5 1) ∷ [];
    memory_bandwidth_levels = "moderate" ∷ [];
    memory_base_latency_levels = "medium" ∷ [];
    link_latency_levels = "medium" ∷ [];
    requests_per_node_per_epoch_values = 16 ∷ [];
    epoch_count_values = 3 ∷ [];
    hot_set_size_values = 8 ∷ [];
    hot_access_probabilities = (fl.lit 8 1) ∷ [];
    hot_set_mode = "epoch_shift";
    hot_set_churn_fractions = (fl.lit 1 0) ∷ [];
    cross_node_overlaps = "medium" ∷ [];
    object_size_modes = "fixed" ∷ [];
    workload_issue_modes = "completion_driven" ∷ [];
    burst_sizes = 4 ∷ [];
    burst_intervals = 100 ∷ [];
    intra_burst_gaps = 1 ∷ [];
    node_phase_jitters = 0 ∷ [];
    memory_channel_counts = 1 ∷ [];
    hot_object_channel_counts = 0 ∷ [];
  }

  abbrev pub phase8 : MatrixPreset F
  phase8 = record {
    name = "phase8";
    memory_node_id = 99;
    cache_hit_latency = 1;
    compute_node_ids = 1 ∷ 2 ∷ 3 ∷ 4 ∷ 5 ∷ 6 ∷ 7 ∷ 8 ∷ [];
    compute_node_count_values = 8 ∷ [];
    object_count_values = 128 ∷ [];
    object_size_bytes = 64;
    object_size_small_bytes = 64;
    object_size_large_bytes = 256;
    large_object_probabilities = (fl.lit 1 1) ∷ [];
    cache_capacity_hotset_multipliers = (fl.lit 5 1) ∷ [];
    memory_bandwidth_levels = "moderate" ∷ [];
    memory_base_latency_levels = "medium" ∷ [];
    link_latency_levels = "medium" ∷ [];
    requests_per_node_per_epoch_values = 512 ∷ [];
    epoch_count_values = 10 ∷ [];
    hot_set_size_values = 8 ∷ [];
    hot_access_probabilities = (fl.lit 8 1) ∷ [];
    hot_set_mode = "epoch_shift";
    hot_set_churn_fractions = (fl.lit 1 0) ∷ [];
    cross_node_overlaps = "medium" ∷ [];
    object_size_modes = "fixed" ∷ [];
    workload_issue_modes = "completion_driven" ∷ [];
    burst_sizes = 4 ∷ [];
    burst_intervals = 100 ∷ [];
    intra_burst_gaps = 1 ∷ [];
    node_phase_jitters = 0 ∷ [];
    memory_channel_counts = 1 ∷ [];
    hot_object_channel_counts = 0 ∷ [];
  }

  abbrev pub phase_b : MatrixPreset F
  phase_b = record {
    name = "phase_b";
    memory_node_id = 99;
    cache_hit_latency = 1;
    compute_node_ids = 1 ∷ 2 ∷ 3 ∷ 4 ∷ 5 ∷ 6 ∷ 7 ∷ 8 ∷ [];
    compute_node_count_values = 8 ∷ [];
    object_count_values = 256 ∷ [];
    object_size_bytes = 64;
    object_size_small_bytes = 64;
    object_size_large_bytes = 256;
    large_object_probabilities = (fl.lit 2 1) ∷ [];
    cache_capacity_hotset_multipliers = (fl.lit 1 0) ∷ [];
    memory_bandwidth_levels = "moderate" ∷ [];
    memory_base_latency_levels = "medium" ∷ [];
    link_latency_levels = "medium" ∷ [];
    requests_per_node_per_epoch_values = 16 ∷ 64 ∷ 256 ∷ 1024 ∷ [];
    epoch_count_values = 8 ∷ [];
    hot_set_size_values = 8 ∷ [];
    hot_access_probabilities = (fl.lit 8 1) ∷ [];
    hot_set_mode = "epoch_shift";
    hot_set_churn_fractions =
        (fl.lit 0 0) ∷ (fl.lit 25 2) ∷ (fl.lit 5 1) ∷ (fl.lit 75 2) ∷ (fl.lit 1 0) ∷ [];
    cross_node_overlaps = "low" ∷ "medium" ∷ "high" ∷ [];
    object_size_modes = "fixed" ∷ "bimodal" ∷ [];
    workload_issue_modes = "completion_driven" ∷ [];
    burst_sizes = 4 ∷ [];
    burst_intervals = 100 ∷ [];
    intra_burst_gaps = 1 ∷ [];
    node_phase_jitters = 0 ∷ [];
    memory_channel_counts = 1 ∷ [];
    hot_object_channel_counts = 0 ∷ [];
  }

  abbrev pub phase_c : MatrixPreset F
  phase_c = record {
    name = "phase_c";
    memory_node_id = 99;
    cache_hit_latency = 1;
    compute_node_ids = numbers_from 1 16;
    compute_node_count_values = 4 ∷ 8 ∷ [];
    object_count_values = 256 ∷ [];
    object_size_bytes = 64;
    object_size_small_bytes = 64;
    object_size_large_bytes = 256;
    large_object_probabilities = (fl.lit 2 1) ∷ [];
    cache_capacity_hotset_multipliers = (fl.lit 5 1) ∷ (fl.lit 1 0) ∷ (fl.lit 2 0) ∷ [];
    memory_bandwidth_levels = "moderate" ∷ "severe" ∷ [];
    memory_base_latency_levels = "medium" ∷ [];
    link_latency_levels = "medium" ∷ [];
    requests_per_node_per_epoch_values = 256 ∷ [];
    epoch_count_values = 8 ∷ [];
    hot_set_size_values = 8 ∷ [];
    hot_access_probabilities = (fl.lit 8 1) ∷ [];
    hot_set_mode = "epoch_shift";
    hot_set_churn_fractions = (fl.lit 5 1) ∷ [];
    cross_node_overlaps = "medium" ∷ [];
    object_size_modes = "fixed" ∷ [];
    workload_issue_modes = "completion_driven" ∷ [];
    burst_sizes = 4 ∷ [];
    burst_intervals = 100 ∷ [];
    intra_burst_gaps = 1 ∷ [];
    node_phase_jitters = 0 ∷ [];
    memory_channel_counts = 1 ∷ [];
    hot_object_channel_counts = 0 ∷ [];
  }

  abbrev pub phase_e : MatrixPreset F
  phase_e = record {
    name = "phase_e";
    memory_node_id = 99;
    cache_hit_latency = 1;
    compute_node_ids = numbers_from 1 16;
    compute_node_count_values = 8 ∷ [];
    object_count_values = 256 ∷ [];
    object_size_bytes = 64;
    object_size_small_bytes = 64;
    object_size_large_bytes = 256;
    large_object_probabilities = (fl.lit 2 1) ∷ [];
    cache_capacity_hotset_multipliers = (fl.lit 5 1) ∷ [];
    memory_bandwidth_levels = "severe" ∷ [];
    memory_base_latency_levels = "medium" ∷ [];
    link_latency_levels = "medium" ∷ [];
    requests_per_node_per_epoch_values = 16 ∷ 64 ∷ [];
    epoch_count_values = 8 ∷ [];
    hot_set_size_values = 8 ∷ [];
    hot_access_probabilities = (fl.lit 8 1) ∷ [];
    hot_set_mode = "epoch_shift";
    hot_set_churn_fractions = (fl.lit 25 2) ∷ (fl.lit 5 1) ∷ [];
    cross_node_overlaps = "medium" ∷ [];
    object_size_modes = "fixed" ∷ [];
    workload_issue_modes = "completion_driven" ∷ [];
    burst_sizes = 4 ∷ [];
    burst_intervals = 100 ∷ [];
    intra_burst_gaps = 1 ∷ [];
    node_phase_jitters = 0 ∷ [];
    memory_channel_counts = 1 ∷ [];
    hot_object_channel_counts = 0 ∷ [];
  }
