-- ===== src/Matrix/Parse.antt =====
-- The parsers of comma-separated command-line values (scripts/run_matrix.py).
pub mod Items
pub mod Numbers
pub mod Names
use dm_simulator.Base.{
  ℕ, zero, suc, String, ◌<>◌, Bool, true, false, not, ◌||◌, Option, none, some, List, [], ◌∷◌, map,
  Result, ok, err, system_exit, ◌>>=◌, ◌>>◌, raise_if, each, keep, contains, if◌then◌else◌,
}
use dm_simulator.Base.Int.{ℤ, pos, negsuc, int}
use dm_simulator.Base.Float.{Floats, nought, one}
use dm_simulator.Base.Dict.{Dict, keys}
use dm_simulator.Text.{strip, split_comma, join, nonempty}
use dm_simulator.Matrix.Policies.{policies}

unfoldable pub parse_csv_list : String → List String
parse_csv_list value = keep nonempty (map strip (split_comma value))

-- `if not values: raise SystemExit(message)`
abbrev pub at_least_one {ℓ} : {A : Type ℓ} → List A → String → Result (List A)
at_least_one [] message = err (system_exit message)
at_least_one (x ∷ xs) message = ok (x ∷ xs)

abbrev seed_of : String → Option ℤ → Result ℤ
seed_of item none = err (system_exit ("Invalid seed '" <> item <> "': expected integer"))
seed_of item (some n) = ok n

unfoldable pub parse_seeds : String → Result (List ℤ)
parse_seeds value = do
  seeds ← each (λ item. seed_of item (int item)) (parse_csv_list value)
  at_least_one seeds "At least one seed is required"

abbrev positive_of : String → Option ℤ → Result ℕ
positive_of item none = err (system_exit ("Invalid integer '" <> item <> "'"))
positive_of item (some (pos zero)) = err (system_exit ("Invalid positive integer '" <> item <> "'"))
positive_of item (some (pos (suc n))) = ok (suc n)
positive_of item (some (negsuc n)) = err (system_exit ("Invalid positive integer '" <> item <> "'"))

unfoldable pub parse_positive_ints : String → Result (List ℕ)
parse_positive_ints value = do
  values ← each (λ item. positive_of item (int item)) (parse_csv_list value)
  at_least_one values "At least one integer value is required"

abbrev nonnegative_of : String → Option ℤ → Result ℕ
nonnegative_of item none = err (system_exit ("Invalid integer '" <> item <> "'"))
nonnegative_of item (some (pos n)) = ok n
nonnegative_of item (some (negsuc n)) =
    err (system_exit ("Invalid nonnegative integer '" <> item <> "'"))

unfoldable pub parse_nonnegative_ints : String → Result (List ℕ)
parse_nonnegative_ints value = do
  values ← each (λ item. nonnegative_of item (int item)) (parse_csv_list value)
  at_least_one values "At least one integer value is required"

module _ {F : Type 0} ⦃fl : Floats F⦄ where
  abbrev positive_float_of : String → String → Option F → Result F
  positive_float_of label item none = err (system_exit ("Invalid " <> label <> " '" <> item <> "'"))
  positive_float_of label item (some x) = do
    raise_if (not (fl.is_finite x) || fl.le x nought)
        (system_exit ("Invalid " <> label <> " '" <> item <> "': expected > 0"))
    ok x

  unfoldable pub parse_positive_floats : String → String → Result (List F)
  parse_positive_floats value label = do
    values ← each (λ item. positive_float_of label item (fl.of_text item)) (parse_csv_list value)
    at_least_one values ("At least one " <> label <> " value is required")

  abbrev probability_of : String → String → Option F → Result F
  probability_of label item none = err (system_exit ("Invalid " <> label <> " '" <> item <> "'"))
  probability_of label item (some x) = do
    raise_if (not (fl.is_finite x) || fl.lt x nought || fl.lt one x)
        (system_exit ("Invalid " <> label <> " '" <> item <> "': expected [0, 1]"))
    ok x

  unfoldable pub parse_probabilities : String → String → Result (List F)
  parse_probabilities value label = do
    values ← each (λ item. probability_of label item (fl.of_text item)) (parse_csv_list value)
    at_least_one values ("At least one " <> label <> " value is required")

-- `[item for item in items if item not in allowed]`
abbrev pub invalid_of : List String → List String → List String
invalid_of allowed items = keep (λ item. not (contains allowed item)) items

abbrev reject : List String → String → String → Result (Unit {0})
reject [] before after = ok tt
reject (x ∷ xs) before after =
    err (system_exit (before <> join ", " (x ∷ xs) <> ". Expected " <> after))

unfoldable pub parse_policies : String → Result (List String)
parse_policies value = do
  selected ← at_least_one (parse_csv_list value) "At least one policy is required"
  reject (invalid_of policies selected) "Invalid policy value(s): "
      ("one of: " <> join ", " policies)
  ok selected

unfoldable pub parse_levels : String → Dict ℕ → String → Result (List String)
parse_levels value allowed_levels label = do
  let levels = parse_csv_list value
  reject (invalid_of (keys allowed_levels) levels) ("Invalid " <> label <> " value(s): ")
      ("one of: " <> join ", " (keys allowed_levels))
  at_least_one levels ("At least one " <> label <> " value is required")

abbrev pub overlap_names : List String
overlap_names = "low" ∷ "medium" ∷ "high" ∷ []

unfoldable pub parse_overlaps : String → Result (List String)
parse_overlaps value = do
  let overlaps = parse_csv_list value
  reject (invalid_of overlap_names overlaps) "Invalid overlap value(s): " "low, medium, or high"
  at_least_one overlaps "At least one overlap value is required"

abbrev pub object_size_mode_names : List String
object_size_mode_names = "fixed" ∷ "bimodal" ∷ []

unfoldable pub parse_object_size_modes : String → Result (List String)
parse_object_size_modes value = do
  let modes = parse_csv_list value
  reject (invalid_of object_size_mode_names modes) "Invalid object size mode(s): "
      "fixed or bimodal"
  at_least_one modes "At least one object size mode is required"

abbrev pub workload_issue_mode_names : List String
workload_issue_mode_names = "completion_driven" ∷ "scheduled_bursty" ∷ []

unfoldable pub parse_workload_issue_modes : String → Result (List String)
parse_workload_issue_modes value = do
  let modes = parse_csv_list value
  reject (invalid_of workload_issue_mode_names modes) "Invalid workload issue mode(s): "
      "completion_driven or scheduled_bursty"
  at_least_one modes "At least one workload issue mode is required"
