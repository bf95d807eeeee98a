-- ===== src/Matrix/DryRun/Fields.antt =====
-- The fields that `verify_dry_run` looks for, and the lines of a config (scripts/run_matrix.py).
use dm_simulator.Base.{◌&◌, String, ◌<>◌, ◌≡◌, refl, sym, subst, List, [], ◌∷◌, map, All, ok}
use dm_simulator.Base.Int.{show_ℕ}
use dm_simulator.Base.Float.{Floats}
use dm_simulator.Base.FilePath.{FilePath}
use dm_simulator.Text.{join}
use dm_simulator.Text.Laws.{Within, has_of_Within}
use dm_simulator.Matrix.Preset.{MatrixRun}
use dm_simulator.Matrix.Yaml.{yaml_policy_name, memory_lines, workload_lines}
use dm_simulator.Matrix.Yaml.Lines.{
  OnLine, value_at, label_at, OnLine-left, OnLine-right, OnLine-join, Parts,
}
use dm_simulator.Matrix.DryRun.{check_fields, required_fields}

pub check_fields-Within :
    (path : FilePath) (text : String) (fields : List String)
    → All (λ field. Within field text) fields
    → check_fields path text fields ≡ ok tt
unfolding check_fields
check_fields-Within path text [] h = refl
check_fields-Within path text (field ∷ fields) (w, ws) =
    rw (has_of_Within field text w, check_fields-Within path text fields ws)

module _ {F : Type 0} ⦃fl : Floats F⦄ (run : MatrixRun F) (text : String)
    (parts : Parts run text) where
  open parts use {ids, base, bandwidth, link, capacity, policy}

  abbrev memory : List String
  memory = memory_lines run base bandwidth link capacity

  abbrev node_ids : String
  node_ids = join ", " (map show_ℕ ids)

  abbrev workload : List String
  workload = workload_lines run node_ids

  in_memory : {needle : String} → OnLine needle memory → Within needle text
  in_memory {needle} o = subst (Within needle) (sym parts.text_eq) (OnLine-join _ (OnLine-left _ o))

  pub in_policy : {needle : String} → OnLine needle policy → Within needle text
  in_policy {needle} o =
      subst (Within needle) (sym parts.text_eq)
        (OnLine-join _ (OnLine-right memory (OnLine-left _ o)))

  in_workload : {needle : String} → OnLine needle workload → Within needle text
  in_workload {needle} o =
      subst (Within needle) (sym parts.text_eq)
        (OnLine-join _ (OnLine-right memory (OnLine-right policy o)))

  pub required-Within :
      All (λ field. Within field text) (required_fields run node_ids base bandwidth link capacity)
  required-Within =
      in_workload (value_at workload 3 "  " "compute_node_ids: [" (node_ids <> "]") refl)
      & in_memory (value_at memory 6 "  " "base_latency: " (show_ℕ base) refl)
      & in_memory (value_at memory 7 "  " "bandwidth_bytes_per_time: " (show_ℕ bandwidth) refl)
      & in_memory (value_at memory 10 "  " "channel_count: " (show_ℕ run.memory_channel_count) refl)
      & in_memory (value_at memory 13 "  " "one_way_latency: " (show_ℕ link) refl)
      & in_memory (value_at memory 16 "  " "capacity_bytes: " (show_ℕ capacity) refl)
      & in_workload (value_at workload 4 "  " "object_count: " (show_ℕ run.object_count) refl)
      & in_workload (value_at workload 22 "  " "epoch_count: " (show_ℕ run.epoch_count) refl)
      & in_workload (value_at workload 17 "  " "issue_mode: " run.workload_issue_mode refl)
      & in_workload (value_at workload 18 "  " "burst_size: " (show_ℕ run.burst_size) refl)
      & in_workload (value_at workload 19 "  " "burst_interval: " (show_ℕ run.burst_interval) refl)
      & in_workload
          (value_at workload 20 "  " "intra_burst_gap: " (show_ℕ run.intra_burst_gap) refl)
      & in_workload
          (value_at workload 21 "  " "node_phase_jitter: " (show_ℕ run.node_phase_jitter) refl)
      & in_workload (value_at workload 23 "  " "hot_set_size: " (show_ℕ run.hot_set_size) refl)
      & in_workload (
          value_at workload 24 "  " "hot_access_probability: "
            (fl.show_g run.hot_access_probability) refl)
      & in_workload (
          value_at workload 9 "  " "hot_object_channel_count: "
            (show_ℕ run.hot_object_channel_count) refl)
      & in_workload (
          label_at workload 6 "  " "hot_set_churn_fraction:" " "
            (fl.show_g run.hot_set_churn_fraction) refl)
      & in_workload (label_at workload 10 "  " "object_size_mode:" " " run.object_size_mode refl)
      & in_workload (
          label_at workload 11 "  " "object_size_small_bytes:" " "
            (show_ℕ run.preset.object_size_small_bytes) refl)
      & in_workload (
          label_at workload 12 "  " "object_size_large_bytes:" " "
            (show_ℕ run.preset.object_size_large_bytes) refl)
      & in_workload (
          value_at workload 13 "  " "large_object_probability: "
            (fl.show_g run.large_object_probability) refl)
      & tt

  pub policy-Within : Within ("policy: " <> yaml_policy_name run.policy) text
  policy-Within = in_memory (value_at memory 18 "  " "policy: " (yaml_policy_name run.policy) refl)
