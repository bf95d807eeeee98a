-- ===== src/Matrix/Weights.antt =====
-- The contention weights, their sweeps and the profiles built from them (scripts/run_matrix.py).
pub mod Override
use dm_simulator.Base.{
  String, ◌<>◌, Bool, ◌&&◌, Option, none, some, List, [], ◌∷◌, map, flat_map, Result, ok, err,
  type_error, str_eq, if◌then◌else◌,
}
use dm_simulator.Base.Float.{Floats}
use dm_simulator.Base.Dict.{Dict, get, insert}
use dm_simulator.Text.{replace, nonempty}
use dm_simulator.Matrix.Preset.{ContentionWeightProfile, MatrixPreset}

abbrev pub contention_weight_name_tokens : Dict String
contention_weight_name_tokens =
    ("local_hotness_weight", "lh")
    ∷ ("remote_access_weight", "ra")
    ∷ ("distinct_requester_weight", "dr")
    ∷ ("queue_wait_weight", "qw")
    ∷ ("remote_service_time_weight", "rs")
    ∷ ("size_penalty_weight", "sp")
    ∷ ("cost_density_weight", "cd")
    ∷ []

-- The name itself stands for the `KeyError` of a name without a token; no sweep has one.
abbrev token_or : String → Option String → String
token_or name none = name
token_or name (some token) = token

module _ {F : Type 0} ⦃fl : Floats F⦄ where
  abbrev pub no_contention_weight_profile : ContentionWeightProfile F
  no_contention_weight_profile = record { profile = ""; weight_name = ""; weight_value = none }

  abbrev pub default_contention_weights : Dict F
  default_contention_weights =
      ("local_hotness_weight", fl.lit 1 0)
      ∷ ("remote_access_weight", fl.lit 1 0)
      ∷ ("distinct_requester_weight", fl.lit 15 1)
      ∷ ("queue_wait_weight", fl.lit 2 0)
      ∷ ("remote_service_time_weight", fl.lit 1 0)
      ∷ ("size_penalty_weight", fl.lit 5 1)
      ∷ ("cost_density_weight", fl.lit 0 0)
      ∷ []

  abbrev pub contention_weight_sweeps : List (String × List F)
  contention_weight_sweeps =
      ("local_hotness_weight", fl.lit 0 0 ∷ fl.lit 5 1 ∷ fl.lit 1 0 ∷ fl.lit 2 0 ∷ [])
      ∷ ("remote_access_weight", fl.lit 0 0 ∷ fl.lit 5 1 ∷ fl.lit 1 0 ∷ fl.lit 2 0 ∷ [])
      ∷ ("distinct_requester_weight", fl.lit 0 0 ∷ fl.lit 1 0 ∷ fl.lit 15 1 ∷ fl.lit 3 0 ∷ [])
      ∷ ("queue_wait_weight", fl.lit 0 0 ∷ fl.lit 1 0 ∷ fl.lit 2 0 ∷ fl.lit 4 0 ∷ [])
      ∷ ("remote_service_time_weight", fl.lit 0 0 ∷ fl.lit 5 1 ∷ fl.lit 1 0 ∷ fl.lit 2 0 ∷ [])
      ∷ ("size_penalty_weight", fl.lit 0 0 ∷ fl.lit 25 2 ∷ fl.lit 5 1 ∷ fl.lit 1 0 ∷ [])
      ∷ []

  unfoldable pub profile_value_token : F → String
  profile_value_token value = replace b'.' "p" (fl.show_g value)

  abbrev pub profile_of : String → F → ContentionWeightProfile F
  profile_of weight_name value = record {
    profile =
        token_or weight_name (get contention_weight_name_tokens weight_name)
        <> "-"
        <> profile_value_token value;
    weight_name = weight_name;
    weight_value = some value;
  }

  unfoldable pub contention_weight_profiles : List (ContentionWeightProfile F)
  contention_weight_profiles =
      flat_map (λ (weight_name, values). map (profile_of weight_name) values)
        contention_weight_sweeps

  unfoldable pub contention_weight_profiles_for_policy :
      MatrixPreset F → String → List (ContentionWeightProfile F)
  contention_weight_profiles_for_policy preset policy =
      if str_eq preset.name "eval_contention_weight_sensitivity"
      then (if str_eq policy "contention_aware_smoothed"
          then contention_weight_profiles
          else no_contention_weight_profile ∷ [])
      else no_contention_weight_profile ∷ []

  -- `float(None)` is a `TypeError`.
  abbrev pub override : Dict F → String → Option F → Result (Dict F)
  override weights name none = err type_error
  override weights name (some value) = ok (insert weights name value)

  unfoldable pub contention_weights_for_profile : ContentionWeightProfile F → Result (Dict F)
  contention_weights_for_profile profile =
      if nonempty profile.weight_name
      then override default_contention_weights profile.weight_name profile.weight_value
      else ok default_contention_weights
