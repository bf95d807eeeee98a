-- ===== src/Matrix/DryRun/Verify.antt =====
-- `verify_dry_run` (scripts/run_matrix.py): the checks over all the runs of a dry run.
use dm_simulator.Base.{
  String, ◌<>◌, Bool, true, false, not, ◌&&◌, ◌||◌, Option, none, some, List, [], ◌∷◌, map, length,
  keep, Result, ok, err, runtime_error, key_error, type_error, file_not_found_error, stop_iteration,
  ◌>>=◌, ◌>>◌, raise_if, each, str_eq, if◌then◌else◌, ◌==◌,
}
use dm_simulator.Base.Int.{show_ℕ}
use dm_simulator.Base.Float.{Floats}
use dm_simulator.Base.Dict.{Dict, get}
use dm_simulator.Base.FilePath.{FilePath, show_path}
use dm_simulator.Base.Sets.{dedup, same_set, text_le}
use dm_simulator.Base.Sort.{sort_by}
use dm_simulator.Text.{join, nonempty}
use dm_simulator.Matrix.Policies.{eval_contention_weight_policies}
use dm_simulator.Matrix.Preset.{MatrixRun}
use dm_simulator.Matrix.Weights.{contention_weight_profiles}
use dm_simulator.Matrix.Rows.{Cell, text, aggregate_columns}
use dm_simulator.Matrix.DryRun.{check_config}

-- The rows that `csv.reader` reads from a file: the first is the header.
abbrev pub Table : Type 0
Table = List (List String)

abbrev pub same_texts : List String → List String → Bool
same_texts [] [] = true
same_texts [] (t ∷ ts) = false
same_texts (s ∷ ss) [] = false
same_texts (s ∷ ss) (t ∷ ts) = str_eq s t && same_texts ss ts

abbrev pub any : {A : Type 0} → (A → Bool) → List A → Bool
any test [] = false
any test (x ∷ xs) = test x || any test xs

-- `row["policy"]`, a text in every row of `summarize_run`.
abbrev pub policy_text : {F : Type 0} → Option (Cell F) → Result String
policy_text none = err (key_error "policy")
policy_text (some (text s)) = ok s
policy_text (some _) = err type_error

abbrev pub row_policy : {F : Type 0} → Dict (Cell F) → Result String
row_policy row = policy_text (get row "policy")

abbrev pub missing_path : Option String → FilePath → List FilePath → List FilePath
missing_path none p ps = p ∷ ps
missing_path (some _) p ps = ps

-- The paths of a list that are no files.
abbrev pub missing_paths : Dict String → List FilePath → List FilePath
missing_paths files [] = []
missing_paths files (p ∷ ps) = missing_path (get files (show_path p)) p (missing_paths files ps)

abbrev pub check_missing : List FilePath → Result (Unit {0})
check_missing [] = ok tt
check_missing (p ∷ ps) = err (
    runtime_error ("Dry run did not generate config files: " <> join ", " (map show_path (p ∷ ps))))

-- `read_text()`
abbrev pub read_text : Option String → Result String
read_text none = err file_not_found_error
read_text (some t) = ok t

-- The header, by `next(reader)`, and the rows after it.
abbrev pub read_table : Option Table → Result (List String × Table)
read_table none = err file_not_found_error
read_table (some []) = err stop_iteration
read_table (some (header ∷ body_rows)) = ok (header, body_rows)

module _ {F : Type 0} ⦃fl : Floats F⦄ where
  unfoldable pub check_configs : Dict String → List (MatrixRun F) → Result (Unit {0})
  check_configs files [] = ok tt
  check_configs files (run ∷ runs) = do
    config_text ← read_text (get files (show_path run.config_path))
    check_config run config_text
    check_configs files runs

  abbrev pub has_profile : MatrixRun F → Bool
  has_profile run = nonempty run.contention_weight_profile.profile

  abbrev pub lru_runs : List (MatrixRun F) → List (MatrixRun F)
  lru_runs = keep λ run. str_eq run.policy "lru"

  abbrev pub profiled_runs : List (MatrixRun F) → List (MatrixRun F)
  profiled_runs = keep λ run. str_eq run.policy "contention_aware_smoothed"

  unfoldable pub check_profiles : List (MatrixRun F) → List String → Result (Unit {0})
  check_profiles runs selected = do
    raise_if (any has_profile (lru_runs runs))
        (runtime_error "LRU baseline should not receive a weight profile")
    raise_if (any (λ run. not (has_profile run)) (profiled_runs runs))
        (runtime_error "Contention weight runs must all carry profiles")
    raise_if
        ((same_set selected eval_contention_weight_policies && length runs == 25)
          && (not (length (lru_runs runs) == 1)
              || not (length (profiled_runs runs) == length (contention_weight_profiles {F = F}))))
        (runtime_error (
          "Weight sensitivity dry run should produce one LRU baseline and "
          <> (show_ℕ (length (contention_weight_profiles {F = F})) <> " profiled contention runs")))

  unfoldable pub check_weights : List (MatrixRun F) → List String → Result (Unit {0})
  check_weights [] selected = ok tt
  check_weights (run ∷ runs) selected =
      if str_eq run.preset.name "eval_contention_weight_sensitivity"
      then check_profiles (run ∷ runs) selected
      else ok tt

  -- `show_names` is `str` of a list of texts.
  unfoldable pub verify_dry_run :
      (List String → String)
      → Dict String
      → Dict Table
      → List (MatrixRun F)
      → List (Dict (Cell F))
      → List String
      → FilePath
      → Result (Unit {0})
  verify_dry_run show_names files tables runs rows selected_policies aggregate_path = do
    raise_if
        (not (
          length (map (λ run. run.run_name) runs)
          == length (dedup (map (λ run. run.run_name) runs))))
        (runtime_error "Dry run generated duplicate run names")
    generated_policies ← each row_policy rows
    raise_if (not (same_set generated_policies selected_policies)) (
        runtime_error (
          "Dry run policy coverage mismatch: expected "
          <> (show_names selected_policies
              <> (", got " <> show_names (sort_by text_le (dedup generated_policies))))))
    check_missing (missing_paths files (map (λ run. run.config_path) runs))
    check_configs files runs
    (header, body_rows) ← read_table (get tables (show_path aggregate_path))
    raise_if (not (same_texts header aggregate_columns))
        (runtime_error "Dry run aggregate header does not match schema")
    raise_if (not (length body_rows == length runs))
        (runtime_error "Dry run aggregate row count does not match runs")
    check_weights runs selected_policies
