-- ===== src/Matrix/Run.antt =====
-- What a run's named settings resolve to, and its name (scripts/run_matrix.py).
pub mod Names
use dm_simulator.Base.{
  ℕ, ◌+◌, ◌-◌, ◌*◌, max, String, ◌<>◌, count, Bool, ◌||◌, Option, none, some, List, length, take,
  Result, ok, err, system_exit, key_error, ◌>>=◌, ◌>>◌, raise_if, ltb, leb, str_eq, if◌then◌else◌,
}
use dm_simulator.Base.Int.{ℤ, show_ℕ, show_ℤ}
use dm_simulator.Base.Float.{Floats, nought, one}
use dm_simulator.Base.Dict.{Dict, get}
use dm_simulator.Base.FilePath.{FilePath, join}
use dm_simulator.Text.{replace, nonempty, prefix}
use dm_simulator.Matrix.Policies.{
  memory_bandwidth_bytes_per_time_by_level, memory_base_latency_by_level, link_latency_by_level,
  run_name_aliases,
}
use dm_simulator.Matrix.Preset.{MatrixPreset, MatrixRun, ContentionWeightProfile}

-- `table[key]`
abbrev pub at_key {ℓ} : {V : Type ℓ} → String → Option V → Result V
at_key key none = err (key_error key)
at_key key (some v) = ok v

-- `table.get(key, default)`
abbrev pub or_default {ℓ} : {V : Type ℓ} → V → Option V → V
or_default v none = v
or_default v (some w) = w

unfoldable pub run_name_token : String → String
unfolding get
run_name_token value = or_default value (get run_name_aliases value)

-- `name[:max_length - n]`: a negative bound counts from the end.
abbrev cut : String → ℕ → ℕ → String
cut name max_length n =
    if leb n max_length
    then prefix (max_length - n) name
    else prefix (count name - (n - max_length)) name

-- `hashlib.sha1(...).hexdigest()` is the argument `sha1`.
unfoldable pub bounded_run_name : (String → String) → String → ℕ → String
bounded_run_name sha1 name max_length =
    if leb (count name) max_length
    then name
    else (let digest = prefix 10 (sha1 name) in
        cut name max_length (count digest + 2) <> ("__" <> digest))

-- One element of the product of the sweep dimensions, in the order of `build_runs`.
pub record Point (F : Type 0) : Type 0 where
  pub seed : ℤ
  pub policy : String
  pub node_count : ℕ
  pub object_count : ℕ
  pub epoch_count : ℕ
  pub epoch_length : ℕ
  pub workload_issue_mode : String
  pub burst_size : ℕ
  pub burst_interval : ℕ
  pub intra_burst_gap : ℕ
  pub node_phase_jitter : ℕ
  pub hot_set_size : ℕ
  pub hot_access_probability : F
  pub churn_fraction : F
  pub overlap : String
  pub object_size_mode : String
  pub large_probability : F
  pub cache_multiplier : F
  pub memory_channel_count : ℕ
  pub hot_object_channel_count : ℕ
  pub bandwidth_level : String
  pub base_level : String
  pub link_level : String

module _ {F : Type 0} ⦃fl : Floats F⦄ where
  unfoldable pub slug_float : F → String
  slug_float value = replace b'.' "p" (fl.show_g value)

  unfoldable pub hot_set_churn_label : String → F → String
  hot_set_churn_label hot_set_mode churn_fraction =
      if str_eq hot_set_mode "static" || fl.eq churn_fraction nought
      then "none"
      else if fl.eq churn_fraction one
      then "full"
      else "partial"

  unfoldable pub node_ids_for_run : MatrixRun F → Result (List ℕ)
  node_ids_for_run run = do
    let ids = run.preset.compute_node_ids
    raise_if (ltb (length ids) run.compute_node_count) (
        system_exit (
          "Preset "
          <> run.preset.name
          <> " only defines "
          <> show_ℕ (length ids)
          <> " compute node IDs"))
    ok (take run.compute_node_count ids)

  unfoldable pub memory_bandwidth_bytes_per_time : MatrixRun F → Result ℕ
  unfolding get
  memory_bandwidth_bytes_per_time run =
      at_key run.memory_bandwidth_level
        (get memory_bandwidth_bytes_per_time_by_level run.memory_bandwidth_level)

  unfoldable pub memory_base_latency : MatrixRun F → Result ℕ
  unfolding get
  memory_base_latency run =
      at_key run.memory_base_latency_level
        (get memory_base_latency_by_level run.memory_base_latency_level)

  unfoldable pub one_way_link_latency : MatrixRun F → Result ℕ
  unfolding get
  one_way_link_latency run =
      at_key run.link_latency_level (get link_latency_by_level run.link_latency_level)

  unfoldable pub cache_capacity_bytes : MatrixRun F → Result ℕ
  cache_capacity_bytes run = do
    let representative_object_size = run.preset.object_size_bytes
    let hot_set_bytes = run.hot_set_size * representative_object_size
    product ← fl.scale hot_set_bytes run.cache_capacity_hotset_multiplier
    rounded ← fl.round product
    ok (max 1 rounded)

  unfoldable pub run_slug :
      (String → String) → MatrixPreset F → ContentionWeightProfile F → Point F → String
  run_slug sha1 preset profile p =
      let weight_part : String =
        if nonempty profile.profile then "__weight-" <> run_name_token profile.profile else "" in
      let full_name =
        run_name_token preset.name
        <> "__policy-"
        <> run_name_token p.policy
        <> weight_part
        <> "__seed-"
        <> show_ℤ p.seed
        <> "__nodes-"
        <> show_ℕ p.node_count
        <> "__objects-"
        <> show_ℕ p.object_count
        <> "__epochs-"
        <> show_ℕ p.epoch_count
        <> "__rpe-"
        <> show_ℕ p.epoch_length
        <> "__issue-"
        <> run_name_token p.workload_issue_mode
        <> "__burst-"
        <> show_ℕ p.burst_size
        <> "-"
        <> show_ℕ p.burst_interval
        <> "-"
        <> show_ℕ p.intra_burst_gap
        <> "-"
        <> show_ℕ p.node_phase_jitter
        <> "__hotset-"
        <> show_ℕ p.hot_set_size
        <> "__hotp-"
        <> slug_float p.hot_access_probability
        <> "__mode-"
        <> preset.hot_set_mode
        <> "__churn-"
        <> slug_float p.churn_fraction
        <> "__overlap-"
        <> p.overlap
        <> "__size-"
        <> p.object_size_mode
        <> "__largep-"
        <> slug_float p.large_probability
        <> "__cachex-"
        <> slug_float p.cache_multiplier
        <> "__memch-"
        <> show_ℕ p.memory_channel_count
        <> "__hotch-"
        <> show_ℕ p.hot_object_channel_count
        <> "__bw-"
        <> p.bandwidth_level
        <> "__base-"
        <> p.base_level
        <> "__link-"
        <> p.link_level in
      bounded_run_name sha1 full_name 180
