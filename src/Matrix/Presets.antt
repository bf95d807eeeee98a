-- ===== src/Matrix/Presets.antt =====
-- The table `PRESETS` (scripts/run_matrix.py), in its order.
mod Phases
mod Contention
mod Policy
mod Interactions
mod Knobs
pub use Phases.{quick, phase8, phase_b, phase_c, phase_e}
pub use Contention.{
  eval_contention_calibration, eval_final_contention_scaling, eval_channel_calibration,
  eval_channel_hotspots, eval_bursty_calibration,
}
pub use Policy.{eval_policy_viability, eval_policy_iteration, eval_final_policy_iteration}
pub use Interactions.{
  eval_interactions_churn_epoch, eval_interactions_cache_hotset, eval_interactions_node_bandwidth,
  eval_final_node_bandwidth,
}
pub use Knobs.{
  eval_knob_cache_pressure, eval_knob_epoch_reuse, eval_knob_object_size_mix,
  eval_knob_hot_concentration, eval_contention_weight_sensitivity,
}
use dm_simulator.Base.{[], ◌∷◌}
use dm_simulator.Base.Float.{Floats}
use dm_simulator.Base.Dict.{Dict}
use dm_simulator.Matrix.Preset.{MatrixPreset}

abbrev pub presets : {F : Type 0} ⦃fl : Floats F⦄ → Dict (MatrixPreset F)
presets =
    ("quick", quick)
    ∷ ("phase8", phase8)
    ∷ ("phase_b", phase_b)
    ∷ ("phase_c", phase_c)
    ∷ ("eval_contention_calibration", eval_contention_calibration)
    ∷ ("eval_final_contention_scaling", eval_final_contention_scaling)
    ∷ ("eval_policy_viability", eval_policy_viability)
    ∷ ("eval_policy_iteration", eval_policy_iteration)
    ∷ ("eval_final_policy_iteration", eval_final_policy_iteration)
    ∷ ("eval_channel_calibration", eval_channel_calibration)
    ∷ ("eval_channel_hotspots", eval_channel_hotspots)
    ∷ ("eval_bursty_calibration", eval_bursty_calibration)
    ∷ ("eval_interactions_churn_epoch", eval_interactions_churn_epoch)
    ∷ ("eval_interactions_cache_hotset", eval_interactions_cache_hotset)
    ∷ ("eval_interactions_node_bandwidth", eval_interactions_node_bandwidth)
    ∷ ("eval_final_node_bandwidth", eval_final_node_bandwidth)
    ∷ ("eval_knob_cache_pressure", eval_knob_cache_pressure)
    ∷ ("eval_knob_epoch_reuse", eval_knob_epoch_reuse)
    ∷ ("eval_knob_object_size_mix", eval_knob_object_size_mix)
    ∷ ("eval_knob_hot_concentration", eval_knob_hot_concentration)
    ∷ ("eval_contention_weight_sensitivity", eval_contention_weight_sensitivity)
    ∷ ("phase_e", phase_e)
    ∷ []
