-- ===== src/Plots/Modes.antt =====
-- The distinct values of a column, the mode of the report and its swept dimensions
-- (scripts/plot_results.py).
pub mod Alike
pub mod Resolved
use dm_simulator.Base.{
  ℕ, String, Bool, true, false, not, ◌&&◌, ◌||◌, Option, none, some, List, [], ◌∷◌, ◌++◌, length,
  contains, str_eq, starts_with, if◌then◌else◌, ltb, leb,
}
use dm_simulator.Base.Float.{Floats, Arithmetic}
use dm_simulator.Base.Dict.{Dict, get}
use dm_simulator.Base.Sets.{dedup, text_le}
use dm_simulator.Base.Sort.{sort_by}
use dm_simulator.Text.{strip, nonempty}
use dm_simulator.Plots.Columns.{final_report_presets}
use dm_simulator.Plots.Dimensions.{report_dimensions, categorical_order}
use dm_simulator.Plots.Policies.{index_of}
use dm_simulator.Plots.Values.{Row, text, cell_or_blank, show_value, float_or_none}

-- What `sort_value` returns: the pairs that start with 0, 1 and 2.
pub data SortKey (F : Type 0) : Type 0 where
  listed : ℕ → SortKey F
  numeric : F → SortKey F
  other : String → SortKey F

module _ {F : Type 0} ⦃fl : Floats F⦄ where
  -- `k <= l` of two of them, by `not l < k` on the numbers
  abbrev pub key_le : SortKey F → SortKey F → Bool
  key_le (listed i) (listed j) = leb i j
  key_le (listed i) _ = true
  key_le (numeric x) (listed j) = false
  key_le (numeric x) (numeric y) = not (fl.lt y x)
  key_le (numeric x) (other t) = true
  key_le (other s) (other t) = text_le s t
  key_le (other s) _ = false

abbrev pub any_of : (String → Bool) → List String → Bool
any_of test [] = false
any_of test (x ∷ xs) = test x || any_of test xs

abbrev pub all_of : (String → Bool) → List String → Bool
all_of test [] = true
all_of test (x ∷ xs) = test x && all_of test xs

-- The mode of a report on one preset.
unfoldable pub preset_mode : String → String
preset_mode preset =
    if (str_eq preset "eval_contention_calibration"
      || (str_eq preset "eval_bursty_calibration" || starts_with preset "eval_channel_"))
    then "contention_calibration"
    else (if contains ("eval_policy_viability" ∷ "eval_policy_iteration" ∷ []) preset
        then "policy_viability"
        else (if starts_with preset "eval_interactions_"
            then "interaction"
            else (if starts_with preset "eval_knob_"
                then "parameter_demo"
                else (if str_eq preset "eval_contention_weight_sensitivity"
                    then "weight_sensitivity"
                    else "generic"))))

abbrev pub single_mode : List String → String
single_mode (preset ∷ []) = preset_mode preset
single_mode _ = "generic"

-- The mode of a report on some presets.
unfoldable pub presets_mode : List String → String
presets_mode presets =
    if any_of (contains final_report_presets) presets
      && all_of (contains ("eval_bursty_calibration" ∷ final_report_presets)) presets
    then "final_report"
    else single_mode presets

abbrev pub number_or_text : {F : Type 0} → Option F → String → SortKey F
number_or_text (some x) t = numeric x
number_or_text none t = other t

abbrev pub described : String → List String → Dict (List String × Bool) → Dict (List String × Bool)
described column [] summary = summary
described column (v ∷ values) summary =
    (column, (v ∷ values, ltb 1 (length (v ∷ values)))) ∷ summary

module _ {F : Type 0} ⦃fl : Floats F⦄ ⦃ar : Arithmetic F⦄ where
  abbrev pub key_of : Option (List String) → String → SortKey F
  key_of (some order) t =
      if contains order t
      then listed (index_of order t)
      else number_or_text (float_or_none (text t)) t
  key_of none t = number_or_text (float_or_none (text t)) t

  unfoldable pub sort_value : String → String → SortKey F
  sort_value column t = key_of (get categorical_order column) t

  -- The texts of a column that are not blank, stripped.
  unfoldable pub column_texts : List (Row F) → String → List String
  column_texts [] column = []
  column_texts (row ∷ rows) column =
      let value = strip (show_value (cell_or_blank row column)) in
      let rest = column_texts rows column in if nonempty value then value ∷ rest else rest

-- `set_order` is the order in which Python iterates over a set.
module _ {F : Type 0} ⦃fl : Floats F⦄ ⦃ar : Arithmetic F⦄
    (set_order : List String → List String) where
  unfoldable pub distinct_values : List (Row F) → String → List String
  distinct_values rows column =
      sort_by (λ s t. key_le {F = F} (sort_value column s) (sort_value column t))
        (set_order (dedup (column_texts rows column)))

  unfoldable pub detect_report_mode : List (Row F) → String → String
  detect_report_mode rows requested =
      if not (str_eq requested "auto")
      then requested
      else presets_mode (distinct_values rows "preset")

  -- The values of each dimension that has any, and whether it is swept.
  unfoldable pub dimensions_of : List (Row F) → List String → Dict (List String × Bool)
  dimensions_of rows [] = []
  dimensions_of rows (column ∷ columns) =
      described column (distinct_values rows column) (dimensions_of rows columns)

  unfoldable pub dimension_summary : List (Row F) → Dict (List String × Bool)
  dimension_summary rows = dimensions_of rows report_dimensions

unfoldable pub swept_dimensions : Dict (List String × Bool) → List String
swept_dimensions [] = []
swept_dimensions ((column, (values, swept)) ∷ summary) =
    let rest = swept_dimensions summary in if swept then column ∷ rest else rest
