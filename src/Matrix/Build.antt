-- ===== src/Matrix/Build.antt =====
-- `build_runs` (scripts/run_matrix.py): the product of the dimensions, the checks, the records.
pub mod Product
pub mod Runs
use dm_simulator.Base.{
  ℕ, ◌-◌, ◌*◌, String, ◌<>◌, Bool, ◌&&◌, List, [], ◌∷◌, ◌++◌, map, ◌⊛◌, concat, Result, ok, err,
  system_exit, ◌>>=◌, ◌>>◌, raise_if, each, ltb, str_eq, if◌then◌else◌,
}
use dm_simulator.Base.Int.{ℤ}
use dm_simulator.Base.Float.{Floats}
use dm_simulator.Base.FilePath.{FilePath, join}
use dm_simulator.Matrix.Preset.{MatrixPreset, MatrixRun, ContentionWeightProfile}
use dm_simulator.Matrix.Weights.{contention_weight_profiles_for_policy}
use dm_simulator.Matrix.Run.{Point, run_slug}
use dm_simulator.Matrix.Capacity.{validate_hot_object_capacity}

-- The selected sweep dimensions, in the order of the parameters of `build_runs`' product.
pub record Dimensions (F : Type 0) : Type 0 where
  pub seeds : List ℤ
  pub policies : List String
  pub node_counts : List ℕ
  pub object_counts : List ℕ
  pub epoch_counts : List ℕ
  pub epoch_lengths : List ℕ
  pub workload_issue_modes : List String
  pub burst_sizes : List ℕ
  pub burst_intervals : List ℕ
  pub intra_burst_gaps : List ℕ
  pub node_phase_jitters : List ℕ
  pub hot_set_sizes : List ℕ
  pub hot_access_probabilities : List F
  pub churn_fractions : List F
  pub overlaps : List String
  pub object_size_modes : List String
  pub large_object_probabilities : List F
  pub cache_multipliers : List F
  pub memory_channel_counts : List ℕ
  pub hot_object_channel_counts : List ℕ
  pub memory_bandwidth_levels : List String
  pub memory_base_latency_levels : List String
  pub link_latency_levels : List String

abbrev pub point :
    {F : Type 0}
    → ℤ
    → String
    → ℕ
    → ℕ
    → ℕ
    → ℕ
    → String
    → ℕ
    → ℕ
    → ℕ
    → ℕ
    → ℕ
    → F
    → F
    → String
    → String
    → F
    → F
    → ℕ
    → ℕ
    → String
    → String
    → String
    → Point F
point x0 x1 x2 x3 x4 x5 x6 x7 x8 x9 x10 x11 x12 x13 x14 x15 x16 x17 x18 x19 x20 x21 x22 = record {
  seed = x0;
  policy = x1;
  node_count = x2;
  object_count = x3;
  epoch_count = x4;
  epoch_length = x5;
  workload_issue_mode = x6;
  burst_size = x7;
  burst_interval = x8;
  intra_burst_gap = x9;
  node_phase_jitter = x10;
  hot_set_size = x11;
  hot_access_probability = x12;
  churn_fraction = x13;
  overlap = x14;
  object_size_mode = x15;
  large_probability = x16;
  cache_multiplier = x17;
  memory_channel_count = x18;
  hot_object_channel_count = x19;
  bandwidth_level = x20;
  base_level = x21;
  link_level = x22;
}

-- `itertools.product(...)`: the last dimension varies fastest.
unfoldable pub product : {F : Type 0} → Dimensions F → List (Point F)
product d =
    point ∷ []
    ⊛ d.seeds
    ⊛ d.policies
    ⊛ d.node_counts
    ⊛ d.object_counts
    ⊛ d.epoch_counts
    ⊛ d.epoch_lengths
    ⊛ d.workload_issue_modes
    ⊛ d.burst_sizes
    ⊛ d.burst_intervals
    ⊛ d.intra_burst_gaps
    ⊛ d.node_phase_jitters
    ⊛ d.hot_set_sizes
    ⊛ d.hot_access_probabilities
    ⊛ d.churn_fractions
    ⊛ d.overlaps
    ⊛ d.object_size_modes
    ⊛ d.large_object_probabilities
    ⊛ d.cache_multipliers
    ⊛ d.memory_channel_counts
    ⊛ d.hot_object_channel_counts
    ⊛ d.memory_bandwidth_levels
    ⊛ d.memory_base_latency_levels
    ⊛ d.link_latency_levels

module _ {F : Type 0} ⦃fl : Floats F⦄ where
  -- The checks before a point's runs are made.
  unfoldable pub check_point : MatrixPreset F → Point F → Result (Unit {0})
  check_point preset p = do
    validate_hot_object_capacity p.object_count p.node_count p.hot_set_size p.overlap
        preset.hot_set_mode p.churn_fraction p.memory_channel_count p.hot_object_channel_count
    raise_if
        (str_eq p.workload_issue_mode "scheduled_bursty"
          && ltb 1 p.burst_size
          && ltb p.burst_interval ((p.burst_size - 1) * p.intra_burst_gap))
        (system_exit (
          "Invalid scheduled_bursty timing: burst_interval must be at "
          <> "least (burst_size - 1) * intra_burst_gap"))

  unfoldable pub matrix_run :
      (String → String)
      → MatrixPreset F
      → FilePath
      → Point F
      → ContentionWeightProfile F
      → MatrixRun F
  matrix_run sha1 preset results_dir p weight_profile =
      let name = run_slug sha1 preset weight_profile p in
      record {
        preset = preset;
        policy = p.policy;
        contention_weight_profile = weight_profile;
        seed = p.seed;
        compute_node_count = p.node_count;
        object_count = p.object_count;
        epoch_count = p.epoch_count;
        requests_per_node_per_epoch = p.epoch_length;
        workload_issue_mode = p.workload_issue_mode;
        burst_size = p.burst_size;
        burst_interval = p.burst_interval;
        intra_burst_gap = p.intra_burst_gap;
        node_phase_jitter = p.node_phase_jitter;
        hot_set_size = p.hot_set_size;
        hot_access_probability = p.hot_access_probability;
        hot_set_churn_fraction = p.churn_fraction;
        cross_node_overlap = p.overlap;
        object_size_mode = p.object_size_mode;
        large_object_probability = p.large_probability;
        cache_capacity_hotset_multiplier = p.cache_multiplier;
        memory_channel_count = p.memory_channel_count;
        hot_object_channel_count = p.hot_object_channel_count;
        memory_bandwidth_level = p.bandwidth_level;
        memory_base_latency_level = p.base_level;
        link_latency_level = p.link_level;
        run_name = name;
        config_path = join (join results_dir "generated_configs") (name <> ".yaml");
        output_dir = join (join results_dir "runs") name;
      }

  -- One round of the loop: no run where the hot objects have more channels than the memory.
  unfoldable pub runs_at :
      (String → String) → MatrixPreset F → FilePath → Point F → Result (List (MatrixRun F))
  runs_at sha1 preset results_dir p =
      if ltb p.memory_channel_count p.hot_object_channel_count then ok [] else (do
        check_point preset p
        ok (
            map (matrix_run sha1 preset results_dir p)
              (contention_weight_profiles_for_policy preset p.policy)))

  unfoldable pub build_runs :
      (String → String) → MatrixPreset F → Dimensions F → FilePath → Result (List (MatrixRun F))
  build_runs sha1 preset d results_dir = do
    rounds ← each (runs_at sha1 preset results_dir) (product d)
    ok (concat rounds)
