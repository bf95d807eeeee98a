-- ===== src/Matrix/Preset.antt =====
-- `MatrixPreset`, `ContentionWeightProfile` and `MatrixRun` (scripts/run_matrix.py). `F` is the
-- type of floats.
use dm_simulator.Base.{ℕ, zero, suc, String, Option, List, [], ◌∷◌}
use dm_simulator.Base.Int.{ℤ}
use dm_simulator.Base.FilePath.{FilePath}

pub record MatrixPreset (F : Type 0) : Type 0 where
  pub name : String
  pub memory_node_id : ℕ
  pub cache_hit_latency : ℕ
  pub compute_node_ids : List ℕ
  pub compute_node_count_values : List ℕ
  pub object_count_values : List ℕ
  pub object_size_bytes : ℕ
  pub object_size_small_bytes : ℕ
  pub object_size_large_bytes : ℕ
  pub large_object_probabilities : List F
  pub cache_capacity_hotset_multipliers : List F
  pub memory_bandwidth_levels : List String
  pub memory_base_latency_levels : List String
  pub link_latency_levels : List String
  pub requests_per_node_per_epoch_values : List ℕ
  pub epoch_count_values : List ℕ
  pub hot_set_size_values : List ℕ
  pub hot_access_probabilities : List F
  pub hot_set_mode : String
  pub hot_set_churn_fractions : List F
  pub cross_node_overlaps : List String
  pub object_size_modes : List String
  pub workload_issue_modes : List String
  pub burst_sizes : List ℕ
  pub burst_intervals : List ℕ
  pub intra_burst_gaps : List ℕ
  pub node_phase_jitters : List ℕ
  pub memory_channel_counts : List ℕ
  pub hot_object_channel_counts : List ℕ

pub record ContentionWeightProfile (F : Type 0) : Type 0 where
  pub profile : String
  pub weight_name : String
  pub weight_value : Option F

pub record MatrixRun (F : Type 0) : Type 0 where
  pub preset : MatrixPreset F
  pub policy : String
  pub contention_weight_profile : ContentionWeightProfile F
  pub seed : ℤ
  pub compute_node_count : ℕ
  pub object_count : ℕ
  pub epoch_count : ℕ
  pub requests_per_node_per_epoch : ℕ
  pub workload_issue_mode : String
  pub burst_size : ℕ
  pub burst_interval : ℕ
  pub intra_burst_gap : ℕ
  pub node_phase_jitter : ℕ
  pub hot_set_size : ℕ
  pub hot_access_probability : F
  pub hot_set_churn_fraction : F
  pub cross_node_overlap : String
  pub object_size_mode : String
  pub large_object_probability : F
  pub cache_capacity_hotset_multiplier : F
  pub memory_channel_count : ℕ
  pub hot_object_channel_count : ℕ
  pub memory_bandwidth_level : String
  pub memory_base_latency_level : String
  pub link_latency_level : String
  pub run_name : String
  pub config_path : FilePath
  pub output_dir : FilePath

-- `tuple(range(first, first + n))`
abbrev pub numbers_from : ℕ → ℕ → List ℕ
numbers_from first zero = []
numbers_from first (suc n) = first ∷ numbers_from (suc first) n
