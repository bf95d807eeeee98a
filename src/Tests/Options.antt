-- ===== src/Tests/Options.antt =====
-- The quick preset from its options to its run's checked config.
use mathlib.Core.List.Memᴰ
use dm_simulator.Base.{String, ◌≡◌, refl, none, some, [], ◌∷◌, ok, ◌&◌, ◌⊛◌}
use dm_simulator.Base.Int.{pos, int}
use dm_simulator.Base.FilePath.{given}
use dm_simulator.Text.{split_comma, strip, join}
use dm_simulator.Matrix.Preset.{MatrixRun}
use dm_simulator.Matrix.Presets.{quick}
use dm_simulator.Matrix.Weights.{
  no_contention_weight_profile, contention_weight_profiles_for_policy,
}
use dm_simulator.Matrix.Run.{Point}
use dm_simulator.Matrix.Capacity.{
  channel_limit, eligible_count, churn_count, effective_churn, required_count,
  validate_hot_object_capacity,
}
use dm_simulator.Matrix.Parse.{
  parse_csv_list, parse_seeds, parse_policies, parse_workload_issue_modes,
}
use dm_simulator.Matrix.Build.{Dimensions, product, check_point, matrix_run, runs_at, build_runs}
use dm_simulator.Matrix.Yaml.{config_text}
use dm_simulator.Matrix.DryRun.{check_config}
use dm_simulator.Matrix.Options.{Arguments, select, options}
use dm_simulator.Matrix.Options.Pipeline.{options-check_config}
use dm_simulator.Matrix.Options.Levels.{HasLevels, HasSettings, options-HasSettings}
use dm_simulator.Tests.Decimal.{Decimal, decimal_floats}

abbrev args : Arguments
args = record {
  seeds = "7";
  policies = some "lru";
  node_counts = none;
  epoch_lengths = none;
  object_counts = none;
  epoch_counts = none;
  workload_issue_modes = none;
  burst_sizes = none;
  burst_intervals = none;
  intra_burst_gaps = none;
  node_phase_jitters = none;
  hot_set_sizes = none;
  hot_access_probabilities = none;
  churn_fractions = none;
  overlaps = none;
  object_size_modes = none;
  large_object_probabilities = none;
  memory_channel_counts = none;
  hot_object_channel_counts = none;
  cache_hotset_multipliers = none;
  memory_bandwidth_levels = none;
  memory_base_latency_levels = none;
  link_latency_levels = none;
}

abbrev dims : Dimensions Decimal
dims = record {
  seeds = pos 7 ∷ [];
  policies = "lru" ∷ [];
  node_counts = 4 ∷ [];
  object_counts = 128 ∷ [];
  epoch_counts = 3 ∷ [];
  epoch_lengths = 16 ∷ [];
  workload_issue_modes = "completion_driven" ∷ [];
  burst_sizes = 4 ∷ [];
  burst_intervals = 100 ∷ [];
  intra_burst_gaps = 1 ∷ [];
  node_phase_jitters = 0 ∷ [];
  hot_set_sizes = 8 ∷ [];
  hot_access_probabilities = record { millionths = 800000 } ∷ [];
  churn_fractions = record { millionths = 1000000 } ∷ [];
  overlaps = "medium" ∷ [];
  object_size_modes = "fixed" ∷ [];
  large_object_probabilities = record { millionths = 100000 } ∷ [];
  cache_multipliers = record { millionths = 500000 } ∷ [];
  memory_channel_counts = 1 ∷ [];
  hot_object_channel_counts = 0 ∷ [];
  memory_bandwidth_levels = "moderate" ∷ [];
  memory_base_latency_levels = "medium" ∷ [];
  link_latency_levels = "medium" ∷ [];
}

passed : options args quick ≡ ok dims
unfolding options select parse_seeds parse_policies parse_csv_list parse_workload_issue_modes
    split_comma strip join int
passed = refl

abbrev sha1 : String → String
sha1 name = "da39a3ee5e6b4b0d3255bfef95601890afd80709"

abbrev corner : Point Decimal
corner = record {
  seed = pos 7;
  policy = "lru";
  node_count = 4;
  object_count = 128;
  epoch_count = 3;
  epoch_length = 16;
  workload_issue_mode = "completion_driven";
  burst_size = 4;
  burst_interval = 100;
  intra_burst_gap = 1;
  node_phase_jitter = 0;
  hot_set_size = 8;
  hot_access_probability = record { millionths = 800000 };
  churn_fraction = record { millionths = 1000000 };
  overlap = "medium";
  object_size_mode = "fixed";
  large_probability = record { millionths = 100000 };
  cache_multiplier = record { millionths = 500000 };
  memory_channel_count = 1;
  hot_object_channel_count = 0;
  bandwidth_level = "moderate";
  base_level = "medium";
  link_level = "medium";
}

abbrev run : MatrixRun Decimal
run = matrix_run sha1 quick (given "results") corner no_contention_weight_profile

built : build_runs sha1 quick dims (given "results") ≡ ok (run ∷ [])
unfolding build_runs runs_at check_point product ◌⊛◌ validate_hot_object_capacity required_count
    channel_limit eligible_count churn_count effective_churn contention_weight_profiles_for_policy
built = refl

quick-HasLevels : HasLevels {F = Decimal} quick
quick-HasLevels = record { bandwidths = refl & tt; bases = refl & tt; links = refl & tt }

options-HasSettings_example : HasSettings quick dims
options-HasSettings_example = options-HasSettings args quick quick-HasLevels dims passed

options-check_config_example :
    (text : String) × (config_text run ≡ ok text) × (check_config run text ≡ ok tt)
options-check_config_example =
    options-check_config sha1 "quick" quick args dims (given "results") (run ∷ []) run
      (Memᴰ.head refl) passed (((_, refl) & tt) & tt) built (Memᴰ.head refl)
