-- ===== src/Matrix/DryRun.antt =====
-- `verify_dry_run` (scripts/run_matrix.py).
pub mod Fields
pub mod Config
pub mod Total
pub mod Runs
pub mod Verify
pub mod Verified
use dm_simulator.Base.{
  ℕ, String, ◌<>◌, Bool, true, false, not, ◌||◌, Option, none, some, List, [], ◌∷◌, ◌++◌, map,
  Result, ok, err, runtime_error, ◌>>=◌, ◌>>◌, raise_if, str_eq, if◌then◌else◌,
}
use dm_simulator.Base.Int.{show_ℕ}
use dm_simulator.Base.Float.{Floats}
use dm_simulator.Base.Dict.{Dict}
use dm_simulator.Base.FilePath.{FilePath, show_path}
use dm_simulator.Text.{join, has}
use dm_simulator.Matrix.Preset.{MatrixRun}
use dm_simulator.Matrix.Run.{
  node_ids_for_run, memory_base_latency, memory_bandwidth_bytes_per_time, one_way_link_latency,
  cache_capacity_bytes,
}
use dm_simulator.Matrix.Yaml.{
  yaml_policy_name, contention_variant_for_policy, hotness_history_mode, run_weights, margin_of,
}

-- `for field in fields: if field not in config_text: raise RuntimeError(...)`
unfoldable pub check_fields : FilePath → String → List String → Result (Unit {0})
check_fields path text [] = ok tt
check_fields path text (field ∷ fields) =
    let rest = check_fields path text fields in
    if has text field
    then rest
    else err (runtime_error ("Dry run config " <> (show_path path <> (" is missing " <> field))))

abbrev pub composite_fields : String → List String
composite_fields policy =
    "telemetry_history_epochs: 4"
    ∷ "telemetry_decay: 0.5"
    ∷ "local_reuse_gate_threshold: 2"
    ∷ "local_confirmation_window_epochs: 2"
    ∷ "local_confirmation_bypass_score_margin: 1.0"
    ∷ margin_of policy
    ∷ []

abbrev pub hotness_fields : String → List String
hotness_fields policy =
    "policy: hotness_only"
    ∷ ("history_mode: " <> hotness_history_mode policy)
    ∷ (if str_eq policy "hotness_only_windowed" then "history_window_epochs: 4" ∷ [] else [])

module _ {F : Type 0} ⦃fl : Floats F⦄ where
  abbrev pub required_fields : MatrixRun F → String → ℕ → ℕ → ℕ → ℕ → List String
  required_fields run node_ids base bandwidth link capacity =
      ("compute_node_ids: [" <> (node_ids <> "]"))
      ∷ ("base_latency: " <> show_ℕ base)
      ∷ ("bandwidth_bytes_per_time: " <> show_ℕ bandwidth)
      ∷ ("channel_count: " <> show_ℕ run.memory_channel_count)
      ∷ ("one_way_latency: " <> show_ℕ link)
      ∷ ("capacity_bytes: " <> show_ℕ capacity)
      ∷ ("object_count: " <> show_ℕ run.object_count)
      ∷ ("epoch_count: " <> show_ℕ run.epoch_count)
      ∷ ("issue_mode: " <> run.workload_issue_mode)
      ∷ ("burst_size: " <> show_ℕ run.burst_size)
      ∷ ("burst_interval: " <> show_ℕ run.burst_interval)
      ∷ ("intra_burst_gap: " <> show_ℕ run.intra_burst_gap)
      ∷ ("node_phase_jitter: " <> show_ℕ run.node_phase_jitter)
      ∷ ("hot_set_size: " <> show_ℕ run.hot_set_size)
      ∷ ("hot_access_probability: " <> fl.show_g run.hot_access_probability)
      ∷ ("hot_object_channel_count: " <> show_ℕ run.hot_object_channel_count)
      ∷ "hot_set_churn_fraction:"
      ∷ "object_size_mode:"
      ∷ "object_size_small_bytes:"
      ∷ "object_size_large_bytes:"
      ∷ ("large_object_probability: " <> fl.show_g run.large_object_probability)
      ∷ []

  abbrev pub weight_fields : Dict F → List String
  weight_fields = map λ (name, weight). name <> (": " <> fl.show_g weight)

  unfoldable pub check_variant : MatrixRun F → String → Option String → Result (Unit {0})
  check_variant run text none = ok tt
  check_variant run text (some variant) = do
    check_fields run.config_path text ("policy: contention_aware" ∷ ("variant: " <> variant) ∷ [])
    expected_weights ← run_weights run
    check_fields run.config_path text (weight_fields expected_weights)
    (if str_eq variant "smoothed_reuse_gated"
        then check_fields run.config_path text (composite_fields run.policy)
        else ok tt)

  -- The checks of one run's config.
  unfoldable pub check_config : MatrixRun F → String → Result (Unit {0})
  check_config run text = do
    ids ← node_ids_for_run run
    base ← memory_base_latency run
    bandwidth ← memory_bandwidth_bytes_per_time run
    link ← one_way_link_latency run
    capacity ← cache_capacity_bytes run
    check_fields run.config_path text
        (required_fields run (join ", " (map show_ℕ ids)) base bandwidth link capacity)
    raise_if (not (has text ("policy: " <> yaml_policy_name run.policy))) (
        runtime_error
          ("Dry run config " <> (show_path run.config_path <> " has wrong YAML policy")))
    check_variant run text (contention_variant_for_policy run.policy)
    (if str_eq run.policy "hotness_only_cumulative" || str_eq run.policy "hotness_only_windowed"
        then check_fields run.config_path text (hotness_fields run.policy)
        else ok tt)
