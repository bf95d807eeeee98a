-- ===== src/Matrix/Yaml.antt =====
-- The simulator's YAML config of one run: `write_yaml_config` and what it calls
-- (scripts/run_matrix.py).
pub mod Lines
pub mod Blocks
pub mod Quoting
use dm_simulator.Base.{
  ℕ, String, ◌<>◌, Bool, true, false, ◌||◌, Option, none, some, List, [], ◌∷◌, ◌++◌, map, Result,
  ok, err, ◌>>=◌, each, str_eq, starts_with, if◌then◌else◌,
}
use dm_simulator.Base.Int.{show_ℕ, show_ℤ}
use dm_simulator.Base.Float.{Floats}
use dm_simulator.Base.Dict.{Dict, get, insert}
use dm_simulator.Base.FilePath.{FilePath, show_path}
use dm_simulator.Text.{replace, join, nonempty}
use dm_simulator.Matrix.Preset.{MatrixPreset, MatrixRun, ContentionWeightProfile}
use dm_simulator.Matrix.Weights.{contention_weights_for_profile}
use dm_simulator.Matrix.Run.{
  at_key, node_ids_for_run, memory_base_latency, memory_bandwidth_bytes_per_time,
  one_way_link_latency, cache_capacity_bytes,
}

-- 39 is the apostrophe.
unfoldable pub yaml_string : String → String
yaml_string value = "'" <> (replace 39 "''" value <> "'")

unfoldable pub yaml_bool : Bool → String
yaml_bool value = if value then "true" else "false"

unfoldable pub yaml_policy_name : String → String
yaml_policy_name policy =
    if str_eq policy "hotness_only_cumulative" || str_eq policy "hotness_only_windowed"
    then "hotness_only"
    else if starts_with policy "contention_aware_"
    then "contention_aware"
    else policy

abbrev pub contention_variants : Dict String
contention_variants =
    ("contention_aware", "v1")
    ∷ ("contention_aware_v1", "v1")
    ∷ ("contention_aware_smoothed", "smoothed")
    ∷ ("contention_aware_size_value", "smoothed")
    ∷ ("contention_aware_reuse_gated", "reuse_gated")
    ∷ ("contention_aware_hysteresis", "hysteresis")
    ∷ ("contention_aware_smoothed_reuse_gated", "smoothed_reuse_gated")
    ∷ ("contention_aware_smoothed_reuse_gated_hysteresis", "smoothed_reuse_gated")
    ∷ []

unfoldable pub contention_variant_for_policy : String → Option String
unfolding get
contention_variant_for_policy policy = get contention_variants policy

unfoldable pub hotness_history_mode : String → String
hotness_history_mode policy =
    if str_eq policy "hotness_only_cumulative"
    then "cumulative"
    else if str_eq policy "hotness_only_windowed"
    then "windowed"
    else "epoch"

-- `None` in an f-string.
abbrev pub show_variant : Option String → String
show_variant none = "None"
show_variant (some variant) = variant

abbrev pub is_variant : Option String → String → Bool
is_variant none name = false
is_variant (some variant) name = str_eq variant name

abbrev pub when : Bool → List String → List String
when test lines = if test then lines else []

abbrev pub weight_names : List String
weight_names =
    "local_hotness_weight" ∷ "remote_access_weight" ∷ "distinct_requester_weight"
    ∷ "queue_wait_weight" ∷ "remote_service_time_weight" ∷ "size_penalty_weight"
    ∷ "cost_density_weight" ∷ []

abbrev pub margin_of : String → String
margin_of policy =
    if str_eq policy "contention_aware_smoothed_reuse_gated_hysteresis"
    then "eviction_score_margin: 0.1"
    else "eviction_score_margin: 0.0"

abbrev pub score_lines : List String
score_lines =
    "    min_admit_score: 1.0"
    ∷ "    local_hotness_threshold: 2"
    ∷ ("    reset_on_epoch_change: " <> yaml_bool false)
    ∷ []

abbrev pub hotness_lines : String → List String
hotness_lines policy =
    let history_mode = hotness_history_mode policy in
    "  hotness:"
    ∷ "    min_admit_count: 2"
    ∷ "    # Hotness baselines use explicit history modes so bounded"
    ∷ "    # memory can be compared against epoch and cumulative modes."
    ∷ ("    history_mode: " <> history_mode)
    ∷ when (str_eq history_mode "windowed") ("    history_window_epochs: 4" ∷ [])

abbrev pub variant_lines : String → Option String → List String
variant_lines policy variant =
    if is_variant variant "smoothed"
    then ("    # Smoothed telemetry blends the last few prior epochs"
        ∷ "    # so one unlucky epoch does not dominate admissions."
        ∷ "    telemetry_history_epochs: 4" ∷ "    telemetry_decay: 0.25" ∷ [])
    else if is_variant variant "reuse_gated"
    then ("    # Reuse gating requires local evidence before a"
        ∷ "    # globally contended object can occupy a private cache."
        ∷ "    local_reuse_gate_threshold: 2" ∷ [])
    else if is_variant variant "hysteresis"
    then ("    # Hysteresis avoids evicting a resident for a nearly"
        ∷ "    # equal-scored incoming object." ∷ "    eviction_score_margin: 0.25" ∷ [])
    else if is_variant variant "smoothed_reuse_gated"
    then ("    # Composite policy smooths global telemetry while"
        ∷ "    # retaining bounded local confirmation across epochs."
        ∷ "    telemetry_history_epochs: 4"
        ∷ "    telemetry_decay: 0.5"
        ∷ "    local_reuse_gate_threshold: 2"
        ∷ "    local_confirmation_window_epochs: 2"
        ∷ "    # Strong remote-pressure scores may bypass pending"
        ∷ "    # confirmation to avoid repeating hard-gate under-admission."
        ∷ "    local_confirmation_bypass_score_margin: 1.0"
        ∷ ("    " <> margin_of policy)
        ∷ [])
    else []

module _ {F : Type 0} ⦃fl : Floats F⦄ where
  abbrev pub memory_lines : MatrixRun F → ℕ → ℕ → ℕ → ℕ → List String
  memory_lines run base bandwidth link capacity =
      "experiment:"
      ∷ ("  name: " <> yaml_string run.run_name)
      ∷ ("  output_dir: " <> yaml_string (show_path run.output_dir))
      ∷ ""
      ∷ "memory:"
      ∷ ("  node_id: " <> show_ℕ run.preset.memory_node_id)
      ∷ ("  base_latency: " <> show_ℕ base)
      ∷ ("  bandwidth_bytes_per_time: " <> show_ℕ bandwidth)
      ∷ "  # Each channel is an independent FIFO service resource; bandwidth"
      ∷ "  # is interpreted per channel when channel_count is greater than one."
      ∷ ("  channel_count: " <> show_ℕ run.memory_channel_count)
      ∷ ""
      ∷ "link:"
      ∷ ("  one_way_latency: " <> show_ℕ link)
      ∷ ""
      ∷ "local_cache:"
      ∷ ("  capacity_bytes: " <> show_ℕ capacity)
      ∷ ("  hit_latency: " <> show_ℕ run.preset.cache_hit_latency)
      ∷ ("  policy: " <> yaml_policy_name run.policy)
      ∷ []

  -- The weights of a run: those of its profile, and the cost density of the size-value policy.
  unfoldable pub run_weights : MatrixRun F → Result (Dict F)
  run_weights run = do
    weights ← contention_weights_for_profile run.contention_weight_profile
    ok (
        if str_eq run.policy "contention_aware_size_value"
        then insert weights "cost_density_weight" (fl.lit 1 0)
        else weights)

  abbrev pub weight_line : Dict F → String → Result String
  weight_line weights name = do
    weight ← at_key name (get weights name)
    ok ("    " <> (name <> (": " <> fl.show_g weight)))

  abbrev pub contention_lines : MatrixRun F → Option String → List String → List String
  contention_lines run variant weights =
      "  contention:"
      ∷ ("    variant: " <> show_variant variant)
      ∷ (when (str_eq run.policy "contention_aware_size_value") (
            "    # Size-value uses smoothed telemetry plus cost density"
            ∷ "    # to reward high remote pain per cache byte." ∷ [])
          ++ (when (nonempty run.contention_weight_profile.weight_name) (
                "    # Weight-sensitivity profiles override exactly one"
                ∷ "    # scoring weight while preserving all other defaults." ∷ [])
              ++ (weights ++ (score_lines ++ variant_lines run.policy variant))))

  unfoldable pub policy_lines : MatrixRun F → Result (List String)
  policy_lines run =
      if str_eq (yaml_policy_name run.policy) "hotness_only"
      then ok (hotness_lines run.policy)
      else if str_eq (yaml_policy_name run.policy) "contention_aware"
      then (do
        weights ← run_weights run
        lines ← each (weight_line weights) weight_names
        ok (contention_lines run (contention_variant_for_policy run.policy) lines))
      else ok []

  abbrev pub workload_lines : MatrixRun F → String → List String
  workload_lines run node_ids =
      ""
      ∷ "workload:"
      ∷ ("  seed: " <> show_ℤ run.seed)
      ∷ ("  compute_node_ids: [" <> (node_ids <> "]"))
      ∷ ("  object_count: " <> show_ℕ run.object_count)
      ∷ ("  object_size_bytes: " <> show_ℕ run.preset.object_size_bytes)
      ∷ ("  hot_set_churn_fraction: " <> fl.show_g run.hot_set_churn_fraction)
      ∷ "  # Zero leaves hot objects unrestricted. Positive values create"
      ∷ "  # controlled channel-local hot spots for memory-channel studies."
      ∷ ("  hot_object_channel_count: " <> show_ℕ run.hot_object_channel_count)
      ∷ ("  object_size_mode: " <> run.object_size_mode)
      ∷ ("  object_size_small_bytes: " <> show_ℕ run.preset.object_size_small_bytes)
      ∷ ("  object_size_large_bytes: " <> show_ℕ run.preset.object_size_large_bytes)
      ∷ ("  large_object_probability: " <> fl.show_g run.large_object_probability)
      ∷ ("  requests_per_node_per_epoch: " <> show_ℕ run.requests_per_node_per_epoch)
      ∷ "  # completion_driven preserves response-paced issue. scheduled_bursty"
      ∷ "  # lets compute nodes issue by planned arrival time within an epoch."
      ∷ ("  issue_mode: " <> run.workload_issue_mode)
      ∷ ("  burst_size: " <> show_ℕ run.burst_size)
      ∷ ("  burst_interval: " <> show_ℕ run.burst_interval)
      ∷ ("  intra_burst_gap: " <> show_ℕ run.intra_burst_gap)
      ∷ ("  node_phase_jitter: " <> show_ℕ run.node_phase_jitter)
      ∷ ("  epoch_count: " <> show_ℕ run.epoch_count)
      ∷ ("  hot_set_size: " <> show_ℕ run.hot_set_size)
      ∷ ("  hot_access_probability: " <> fl.show_g run.hot_access_probability)
      ∷ ("  hot_set_mode: " <> run.preset.hot_set_mode)
      ∷ ("  cross_node_overlap: " <> run.cross_node_overlap)
      ∷ ""
      ∷ []

  unfoldable pub yaml_lines : MatrixRun F → Result (List String)
  yaml_lines run = do
    ids ← node_ids_for_run run
    let node_ids = join ", " (map show_ℕ ids)
    base ← memory_base_latency run
    bandwidth ← memory_bandwidth_bytes_per_time run
    link ← one_way_link_latency run
    capacity ← cache_capacity_bytes run
    policy ← policy_lines run
    ok (memory_lines run base bandwidth link capacity ++ (policy ++ workload_lines run node_ids))

  -- The config's text; it is written to `run.config_path`. 10 is the line feed.
  unfoldable pub config_text : MatrixRun F → Result String
  config_text run = do lines ← yaml_lines run; ok (join "\n" lines)
