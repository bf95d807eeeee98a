-- ===== src/Matrix/Options.antt =====
-- `main` up to the call of `build_runs` (scripts/run_matrix.py): an option's value, or the
-- preset's.
pub mod Levels
pub mod Pipeline
use dm_simulator.Base.{
  ℕ, String, ◌<>◌, Bool, ◌||◌, Option, none, some, List, [], ◌∷◌, map, length, Result, ok, err,
  system_exit, ◌>>=◌, ◌>>◌, keep, ltb, str_eq, starts_with, if◌then◌else◌,
}
use dm_simulator.Base.Int.{show_ℕ}
use dm_simulator.Base.Float.{Floats}
use dm_simulator.Text.{join}
use dm_simulator.Matrix.Policies.{
  base_policies, phase_e_default_policies, eval_contention_calibration_policies,
  eval_policy_viability_policies, eval_policy_iteration_policies,
  eval_final_node_bandwidth_policies, eval_interaction_policies, eval_knob_policies,
  eval_contention_weight_policies, eval_channel_calibration_policies, eval_channel_hotspot_policies,
  eval_bursty_calibration_policies, memory_bandwidth_bytes_per_time_by_level,
  memory_base_latency_by_level, link_latency_by_level,
}
use dm_simulator.Matrix.Preset.{MatrixPreset}
use dm_simulator.Matrix.Run.{or_default}
use dm_simulator.Matrix.Build.{Dimensions}
use dm_simulator.Matrix.Parse.{
  parse_seeds, parse_policies, parse_positive_ints, parse_nonnegative_ints, parse_positive_floats,
  parse_probabilities, parse_levels, parse_overlaps, parse_object_size_modes,
  parse_workload_issue_modes,
}

-- The values that `argparse` returns for the sweep; `none` is an option that was not given.
pub record Arguments : Type 0 where
  pub seeds : String
  pub policies : Option String
  pub node_counts : Option String
  pub epoch_lengths : Option String
  pub object_counts : Option String
  pub epoch_counts : Option String
  pub workload_issue_modes : Option String
  pub burst_sizes : Option String
  pub burst_intervals : Option String
  pub intra_burst_gaps : Option String
  pub node_phase_jitters : Option String
  pub hot_set_sizes : Option String
  pub hot_access_probabilities : Option String
  pub churn_fractions : Option String
  pub overlaps : Option String
  pub object_size_modes : Option String
  pub large_object_probabilities : Option String
  pub memory_channel_counts : Option String
  pub hot_object_channel_counts : Option String
  pub cache_hotset_multipliers : Option String
  pub memory_bandwidth_levels : Option String
  pub memory_base_latency_levels : Option String
  pub link_latency_levels : Option String

unfoldable pub default_policies : String → List String
default_policies name =
    if str_eq name "phase_e"
    then phase_e_default_policies
    else if str_eq name "eval_contention_calibration"
    then eval_contention_calibration_policies
    else if str_eq name "eval_channel_calibration"
    then eval_channel_calibration_policies
    else if str_eq name "eval_channel_hotspots"
    then eval_channel_hotspot_policies
    else if str_eq name "eval_bursty_calibration"
    then eval_bursty_calibration_policies
    else if str_eq name "eval_policy_viability"
    then eval_policy_viability_policies
    else if str_eq name "eval_policy_iteration" || str_eq name "eval_final_policy_iteration"
    then eval_policy_iteration_policies
    else if str_eq name "eval_final_node_bandwidth"
    then eval_final_node_bandwidth_policies
    else if str_eq name "eval_final_contention_scaling"
    then eval_contention_calibration_policies
    else if starts_with name "eval_interactions_"
    then eval_interaction_policies
    else if starts_with name "eval_knob_"
    then eval_knob_policies
    else if str_eq name "eval_contention_weight_sensitivity"
    then eval_contention_weight_policies
    else base_policies

-- `parse(value) if value is not None else list(default)`
unfoldable pub select :
    {A : Type 0} → Option String → (String → Result (List A)) → List A → Result (List A)
select none parse default = ok default
select (some value) parse default = parse value

-- The counts that are above the number of the preset's ids.
abbrev pub oversized : ℕ → List ℕ → List ℕ
oversized limit = keep (λ node_count. ltb limit node_count)

abbrev pub reject_oversized : String → ℕ → List ℕ → Result (Unit {0})
reject_oversized name limit [] = ok tt
reject_oversized name limit (n ∷ ns) = err (
    system_exit (
      "Preset "
      <> name
      <> " supports at most "
      <> show_ℕ limit
      <> " compute nodes; invalid counts: "
      <> join ", " (map show_ℕ (n ∷ ns))))

module _ {F : Type 0} ⦃fl : Floats F⦄ where
  unfoldable pub options : Arguments → MatrixPreset F → Result (Dimensions F)
  options args preset = do
    seeds ← parse_seeds args.seeds
    policies ← select args.policies parse_policies (default_policies preset.name)
    node_counts ← select args.node_counts parse_positive_ints preset.compute_node_count_values
    epoch_lengths ←
        select args.epoch_lengths parse_positive_ints preset.requests_per_node_per_epoch_values
    object_counts ← select args.object_counts parse_positive_ints preset.object_count_values
    epoch_counts ← select args.epoch_counts parse_positive_ints preset.epoch_count_values
    workload_issue_modes ←
        parse_workload_issue_modes
          (or_default (join "," preset.workload_issue_modes) args.workload_issue_modes)
    burst_sizes ← select args.burst_sizes parse_positive_ints preset.burst_sizes
    burst_intervals ← select args.burst_intervals parse_positive_ints preset.burst_intervals
    intra_burst_gaps ← select args.intra_burst_gaps parse_nonnegative_ints preset.intra_burst_gaps
    node_phase_jitters ←
        select args.node_phase_jitters parse_nonnegative_ints preset.node_phase_jitters
    hot_set_sizes ← select args.hot_set_sizes parse_positive_ints preset.hot_set_size_values
    hot_access_probabilities ←
        select args.hot_access_probabilities
          (λ value. parse_probabilities value "hot-access probability")
          preset.hot_access_probabilities
    churn_fractions ←
        select args.churn_fractions (λ value. parse_probabilities value "churn fraction")
          preset.hot_set_churn_fractions
    overlaps ← select args.overlaps parse_overlaps preset.cross_node_overlaps
    object_size_modes ←
        select args.object_size_modes parse_object_size_modes preset.object_size_modes
    large_object_probabilities ←
        select args.large_object_probabilities
          (λ value. parse_probabilities value "large-object probability")
          preset.large_object_probabilities
    memory_channel_counts ←
        select args.memory_channel_counts parse_positive_ints preset.memory_channel_counts
    hot_object_channel_counts ←
        select args.hot_object_channel_counts parse_nonnegative_ints
          preset.hot_object_channel_counts
    cache_multipliers ←
        select args.cache_hotset_multipliers
          (λ value. parse_positive_floats value "cache hot-set multiplier")
          preset.cache_capacity_hotset_multipliers
    memory_bandwidth_levels ←
        select args.memory_bandwidth_levels
          (λ value.
            parse_levels value memory_bandwidth_bytes_per_time_by_level "memory bandwidth level")
          preset.memory_bandwidth_levels
    memory_base_latency_levels ←
        select args.memory_base_latency_levels
          (λ value. parse_levels value memory_base_latency_by_level "memory base-latency level")
          preset.memory_base_latency_levels
    link_latency_levels ←
        select args.link_latency_levels
          (λ value. parse_levels value link_latency_by_level "link latency level")
          preset.link_latency_levels
    reject_oversized preset.name (length preset.compute_node_ids)
        (oversized (length preset.compute_node_ids) node_counts)
    ok (record {
      seeds = seeds;
      policies = policies;
      node_counts = node_counts;
      object_counts = object_counts;
      epoch_counts = epoch_counts;
      epoch_lengths = epoch_lengths;
      workload_issue_modes = workload_issue_modes;
      burst_sizes = burst_sizes;
      burst_intervals = burst_intervals;
      intra_burst_gaps = intra_burst_gaps;
      node_phase_jitters = node_phase_jitters;
      hot_set_sizes = hot_set_sizes;
      hot_access_probabilities = hot_access_probabilities;
      churn_fractions = churn_fractions;
      overlaps = overlaps;
      object_size_modes = object_size_modes;
      large_object_probabilities = large_object_probabilities;
      cache_multipliers = cache_multipliers;
      memory_channel_counts = memory_channel_counts;
      hot_object_channel_counts = hot_object_channel_counts;
      memory_bandwidth_levels = memory_bandwidth_levels;
      memory_base_latency_levels = memory_base_latency_levels;
      link_latency_levels = link_latency_levels;
    })
