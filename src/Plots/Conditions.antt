-- ===== src/Plots/Conditions.antt =====
-- `build_condition_summary` (scripts/plot_results.py).
pub mod Groups
pub mod Summary
use dm_simulator.Base.{
  String, Bool, true, false, ◌||◌, Option, none, some, List, [], ◌∷◌, ◌++◌, length, map, Result, ok,
  err, type_error, ◌>>=◌, ◌>>◌, raise_if, each, if◌then◌else◌,
}
use dm_simulator.Base.Float.{Floats, Arithmetic}
use dm_simulator.Base.Sets.{text_le}
use dm_simulator.Base.Sort.{sort_by}
use dm_simulator.Plots.Dimensions.{condition_dimensions}
use dm_simulator.Plots.Values.{
  Value, missing, text, real, count, Row, cell_or_blank, of_option, average,
}
use dm_simulator.Plots.Comparison.{Key, same_value, find_key, insert_key}
use dm_simulator.Plots.Summary.{count_class}
use dm_simulator.Plots.Best.{rows_at}

-- A group: the value of the dimension, the policy, and the rows. Both are texts, or missing.
abbrev pub Group : Type 0 → Type 0
Group F = Key F × List (Row F)

-- `None` is not compared with a text.
abbrev pub mixed : {F : Type 0} → Value F → Value F → Bool
mixed missing (text t) = true
mixed (text s) missing = true
mixed _ _ = false

abbrev pub value_le : {F : Type 0} → Value F → Value F → Bool
value_le (text s) (text t) = text_le s t
value_le missing missing = true
value_le _ _ = false

module _ {F : Type 0} ⦃fl : Floats F⦄ ⦃ar : Arithmetic F⦄ where
  unfoldable pub grouped : String → List (Group F) → List (Row F) → List (Group F)
  grouped dimension d [] = d
  grouped dimension d (row ∷ rows) =
      let key = cell_or_blank row dimension ∷ cell_or_blank row "policy" ∷ [] in
      grouped dimension (insert_key d key (rows_at (find_key key d) ++ (row ∷ []))) rows

  -- Two keys, by the first of their values that are not equal.
  unfoldable pub mixed_keys : Key F → Key F → Bool
  mixed_keys [] k = false
  mixed_keys (v ∷ vs) [] = false
  mixed_keys (v ∷ vs) (w ∷ ws) =
      let rest = mixed_keys vs ws in if same_value v w then rest else mixed v w

  unfoldable pub keys_le : Key F → Key F → Bool
  keys_le [] k = true
  keys_le (v ∷ vs) [] = false
  keys_le (v ∷ vs) (w ∷ ws) =
      let rest = keys_le vs ws in if same_value v w then rest else value_le v w

  abbrev pub mixed_with : Key F → List (Group F) → Bool
  mixed_with k [] = false
  mixed_with k ((j, rows) ∷ groups) = mixed_keys k j || mixed_with k groups

  unfoldable pub any_mixed : List (Group F) → Bool
  any_mixed [] = false
  any_mixed ((k, rows) ∷ groups) = mixed_with k groups || any_mixed groups

  -- `sorted(grouped.items())`: a `TypeError` where some keys cannot be compared.
  unfoldable pub sorted_groups : List (Group F) → Result (List (Group F))
  sorted_groups groups = do
    raise_if (any_mixed groups) type_error
    ok (sort_by (λ (k, _) (j, _). keys_le k j) groups)

  abbrev pub key_cells : String → Key F → Row F
  key_cells dimension (value ∷ policy ∷ []) =
      ("dimension", text dimension) ∷ ("value", value) ∷ ("policy", policy) ∷ []
  key_cells dimension _ = []

  unfoldable pub condition_row : String → Group F → Row F
  condition_row dimension (key, rows) =
      key_cells dimension key
      ++ (("run_count", count (length rows))
          ∷ ("win_count", count (count_class rows "win"))
          ∷ ("tie_count", count (count_class rows "tie"))
          ∷ ("loss_count", count (count_class rows "loss"))
          ∷ ("avg_mean_latency", of_option (average rows "mean_latency"))
          ∷ ("avg_mean_latency_delta_pct", of_option (average rows "mean_latency_delta_pct"))
          ∷ ("avg_p99_latency_delta_pct", of_option (average rows "p99_latency_delta_pct"))
          ∷ ("avg_local_hit_rate", of_option (average rows "local_hit_rate"))
          ∷ ("avg_average_memory_wait", of_option (average rows "average_memory_wait"))
          ∷ ("avg_stale_telemetry_rate", of_option (average rows "stale_telemetry_rate"))
          ∷ (
            "avg_estimated_avoided_contention_cost",
            of_option (average rows "estimated_avoided_contention_cost"),
          )
          ∷ [])

  unfoldable pub condition_rows : List (Row F) → List String → Result (List (Row F))
  condition_rows rows [] = ok []
  condition_rows rows (dimension ∷ dimensions) = do
    groups ← sorted_groups (grouped dimension [] rows)
    rest ← condition_rows rows dimensions
    ok (map (condition_row dimension) groups ++ rest)

  unfoldable pub build_condition_summary : List (Row F) → Result (List (Row F))
  build_condition_summary rows = condition_rows rows condition_dimensions
