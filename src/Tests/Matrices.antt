-- ===== src/Tests/Matrices.antt =====
-- A small matrix: its runs, one of its configs, and the theorems about them.
use mathlib.Core.Bool.{true≢false}
use dm_simulator.Base.{
  ◌&◌, ℕ, String, ◌≡◌, ◌↔◌, refl, List, [], ◌∷◌, Memᴰ, ◌⊛◌, length, ok, All, arith, sym,
}
use dm_simulator.Base.Int.{pos, show_ℕ, show_ℤ}
use dm_simulator.Base.FilePath.{FilePath, given}
use dm_simulator.Text.{replace, prefix}
use dm_simulator.Matrix.Preset.{MatrixPreset, MatrixRun}
use dm_simulator.Matrix.Presets.{quick}
use dm_simulator.Matrix.Weights.{
  contention_weight_profiles, no_contention_weight_profile, contention_weight_profiles_for_policy,
}
use dm_simulator.Matrix.Weights.Override.{OverridesOne, contention_weight_profiles-OverridesOne}
use dm_simulator.Matrix.Run.{Point, run_slug, run_name_token, slug_float, bounded_run_name}
use dm_simulator.Matrix.Capacity.{
  channel_limit, eligible_count, churn_count, effective_churn, required_count,
  validate_hot_object_capacity,
}
use dm_simulator.Matrix.Build.{Dimensions, product, check_point, matrix_run, runs_at, build_runs}
use dm_simulator.Matrix.Build.Product.{IsSelected, product_lem}
use dm_simulator.Matrix.Build.Runs.{
  IsRunOf, IsFeasible, build_runs-mem, build_runs-succeeds, build_runs-IsFeasible,
}
use dm_simulator.Matrix.Yaml.{config_text}
use dm_simulator.Matrix.DryRun.{check_config}
use dm_simulator.Matrix.DryRun.Total.{IsReady, config_text-check_config}
use dm_simulator.Matrix.DryRun.Runs.{IsWritable, build_runs-check_config}
use dm_simulator.Tests.Decimal.{Decimal, decimal_floats}

abbrev half : Decimal
half = record { millionths = 500000 }

abbrev pub preset : MatrixPreset Decimal
preset = quick

abbrev pub dims : Dimensions Decimal
dims = record {
  seeds = pos 7 ∷ [];
  policies = "lru" ∷ "contention_aware_smoothed" ∷ [];
  node_counts = 2 ∷ 4 ∷ [];
  object_counts = 128 ∷ [];
  epoch_counts = 3 ∷ [];
  epoch_lengths = 16 ∷ [];
  workload_issue_modes = "scheduled_bursty" ∷ [];
  burst_sizes = 4 ∷ [];
  burst_intervals = 20 ∷ [];
  intra_burst_gaps = 1 ∷ [];
  node_phase_jitters = 5 ∷ [];
  hot_set_sizes = 8 ∷ [];
  hot_access_probabilities = half ∷ [];
  churn_fractions = half ∷ [];
  overlaps = "medium" ∷ [];
  object_size_modes = "fixed" ∷ [];
  large_object_probabilities = half ∷ [];
  cache_multipliers = half ∷ [];
  memory_channel_counts = 1 ∷ 4 ∷ [];
  hot_object_channel_counts = 2 ∷ [];
  memory_bandwidth_levels = "severe" ∷ [];
  memory_base_latency_levels = "medium" ∷ [];
  link_latency_levels = "low" ∷ [];
}

abbrev pub sha1 : String → String
sha1 name = "da39a3ee5e6b4b0d3255bfef95601890afd80709"

abbrev pub dir : FilePath
dir = given "results"

-- The points with one channel are skipped, since the hot objects have two.
abbrev pub corner : String → ℕ → Point Decimal
corner policy nodes = record {
  seed = pos 7;
  policy = policy;
  node_count = nodes;
  object_count = 128;
  epoch_count = 3;
  epoch_length = 16;
  workload_issue_mode = "scheduled_bursty";
  burst_size = 4;
  burst_interval = 20;
  intra_burst_gap = 1;
  node_phase_jitter = 5;
  hot_set_size = 8;
  hot_access_probability = half;
  churn_fraction = half;
  overlap = "medium";
  object_size_mode = "fixed";
  large_probability = half;
  cache_multiplier = half;
  memory_channel_count = 4;
  hot_object_channel_count = 2;
  bandwidth_level = "severe";
  base_level = "medium";
  link_level = "low";
}

abbrev pub run_of : Point Decimal → MatrixRun Decimal
run_of p = matrix_run sha1 preset dir p no_contention_weight_profile

abbrev pub runs : List (MatrixRun Decimal)
runs =
    run_of (corner "lru" 2)
    ∷ run_of (corner "lru" 4)
    ∷ run_of (corner "contention_aware_smoothed" 2)
    ∷ run_of (corner "contention_aware_smoothed" 4)
    ∷ []

pub built : build_runs sha1 preset dims dir ≡ ok runs
unfolding build_runs runs_at check_point product ◌⊛◌ validate_hot_object_capacity required_count
    channel_limit eligible_count churn_count effective_churn contention_weight_profiles_for_policy
built = refl

slug :
    run_slug sha1 preset no_contention_weight_profile (corner "contention_aware_smoothed" 2)
    ≡ "quick__policy-ca_smoothed__seed-7__nodes-2__objects-128__epochs-3__rpe-16__issue-burst__burst-4-20-1-5__hotset-8__hotp-0p5__mode-epoch_shift__churn-0p5__overlap-medium___da39a3ee5e"
unfolding run_slug run_name_token slug_float bounded_run_name show_ℕ show_ℤ replace prefix
slug = refl

abbrev selected : IsSelected dims (corner "lru" 2)
selected = record {
  in_seeds = Memᴰ.head refl;
  in_policies = Memᴰ.head refl;
  in_node_counts = Memᴰ.head refl;
  in_object_counts = Memᴰ.head refl;
  in_epoch_counts = Memᴰ.head refl;
  in_epoch_lengths = Memᴰ.head refl;
  in_workload_issue_modes = Memᴰ.head refl;
  in_burst_sizes = Memᴰ.head refl;
  in_burst_intervals = Memᴰ.head refl;
  in_intra_burst_gaps = Memᴰ.head refl;
  in_node_phase_jitters = Memᴰ.head refl;
  in_hot_set_sizes = Memᴰ.head refl;
  in_hot_access_probabilities = Memᴰ.head refl;
  in_churn_fractions = Memᴰ.head refl;
  in_overlaps = Memᴰ.head refl;
  in_object_size_modes = Memᴰ.head refl;
  in_large_object_probabilities = Memᴰ.head refl;
  in_cache_multipliers = Memᴰ.head refl;
  in_memory_channel_counts = Memᴰ.tail (Memᴰ.head refl);
  in_hot_object_channel_counts = Memᴰ.head refl;
  in_memory_bandwidth_levels = Memᴰ.head refl;
  in_memory_base_latency_levels = Memᴰ.head refl;
  in_link_latency_levels = Memᴰ.head refl;
}

product_lem_example :
    ((p : Point Decimal) → Memᴰ p (product dims) ↔ IsSelected dims p) × (length (product dims) ≡ 8)
product_lem_example = product_lem dims

build_runs-mem_example :
    Memᴰ (run_of (corner "lru" 4)) runs
    ↔ ((p : Point Decimal) × (w : _) × IsRunOf sha1 preset dims dir (run_of (corner "lru" 4)) p w)
build_runs-mem_example = build_runs-mem sha1 preset dims dir runs (run_of (corner "lru" 4)) built

build_runs-succeeds_example : check_point preset (corner "lru" 2) ≡ ok tt
build_runs-succeeds_example =
    (build_runs-succeeds sha1 preset dims dir).0 (runs, built) (corner "lru" 2)
      (selected, omega arith)

build_runs-IsFeasible_example : IsFeasible sha1 preset dims dir (run_of (corner "lru" 4))
build_runs-IsFeasible_example =
    build_runs-IsFeasible sha1 preset dims dir runs (run_of (corner "lru" 4)) built
      (Memᴰ.tail (Memᴰ.head refl))

contention_weight_profiles-OverridesOne_example :
    (length (contention_weight_profiles {F = Decimal}) ≡ 24)
    × All OverridesOne (contention_weight_profiles {F = Decimal})
contention_weight_profiles-OverridesOne_example = contention_weight_profiles-OverridesOne Decimal

abbrev pub composite : MatrixRun Decimal
composite = run_of (corner "contention_aware_smoothed_reuse_gated_hysteresis" 2)

pub composite-IsReady : IsReady composite
unfolding matrix_run
composite-IsReady = record {
  nodes = omega arith;
  bandwidth = refl;
  base = refl;
  link = refl;
  known = λ named. cc;
  valued = λ named. absurd (true≢false (sym named));
  sized = (_, refl);
}

config_text-check_config_example :
    (text : String) × (config_text composite ≡ ok text) × (check_config composite text ≡ ok tt)
config_text-check_config_example = config_text-check_config composite composite-IsReady

pub writable : IsWritable preset dims
writable = record {
  nodes = omega arith & omega arith & tt;
  bandwidths = refl & tt;
  bases = refl & tt;
  links = refl & tt;
  sizes = ((_, refl) & tt) & tt;
}

build_runs-check_config_example :
    (text : String) × (config_text (run_of (corner "lru" 4)) ≡ ok text)
    × (check_config (run_of (corner "lru" 4)) text ≡ ok tt)
build_runs-check_config_example =
    build_runs-check_config sha1 preset dims dir writable runs (run_of (corner "lru" 4)) built
      (Memᴰ.tail (Memᴰ.head refl))
