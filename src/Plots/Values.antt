-- ===== src/Plots/Values.antt =====
-- The values of the rows, and the metrics and deltas that are made of them
-- (scripts/plot_results.py).
use dm_simulator.Base.{
  ℕ, ◌+◌, String, Bool, true, false, Option, none, some, List, [], ◌∷◌, map, length, Result, ok,
  ◌>>=◌, each, str_eq, if◌then◌else◌,
}
use dm_simulator.Base.Int.{show_ℕ}
use dm_simulator.Base.Float.{Floats, Arithmetic, nought}
use dm_simulator.Base.Dict.{Dict, get}
use dm_simulator.Text.{strip, nonempty}

-- A value of a row: `None`, a text of a CSV file, or a value that the script computes.
pub data Value (F : Type 0) : Type 0 where
  missing : Value F
  text : String → Value F
  real : F → Value F
  count : ℕ → Value F
  flag : Bool → Value F

abbrev pub Row : Type 0 → Type 0
Row F = Dict (Value F)

-- `row.get(column)`, and `row.get(column, "")`
abbrev pub or_missing : {F : Type 0} → Option (Value F) → Value F
or_missing none = missing
or_missing (some v) = v

abbrev pub or_blank : {F : Type 0} → Option (Value F) → Value F
or_blank none = text ""
or_blank (some v) = v

abbrev pub cell : {F : Type 0} → Row F → String → Value F
cell row column = or_missing (get row column)

abbrev pub cell_or_blank : {F : Type 0} → Row F → String → Value F
cell_or_blank row column = or_blank (get row column)

-- `value == s`, for a text `s`
abbrev pub is_text : {F : Type 0} → Value F → String → Bool
is_text (text t) s = str_eq t s
is_text _ s = false

abbrev pub of_option : {F : Type 0} → Option F → Value F
of_option none = missing
of_option (some x) = real x

module _ {F : Type 0} ⦃fl : Floats F⦄ ⦃ar : Arithmetic F⦄ where
  -- `str(value)`
  abbrev pub show_value : Value F → String
  show_value missing = "None"
  show_value (text s) = s
  show_value (real x) = ar.show x
  show_value (count n) = show_ℕ n
  show_value (flag true) = "True"
  show_value (flag false) = "False"

  abbrev pub if_finite : Option F → Option F
  if_finite none = none
  if_finite (some x) = if fl.is_finite x then some x else none

  abbrev pub parse_number : String → Option F
  parse_number s = if nonempty s then if_finite (fl.of_text s) else none

  unfoldable pub float_or_none : Value F → Option F
  float_or_none missing = none
  float_or_none (text s) = parse_number (strip s)
  float_or_none (real x) = parse_number (strip (ar.show x))
  float_or_none (count n) = parse_number (strip (show_ℕ n))
  float_or_none (flag b) = parse_number (strip (if b then "True" else "False"))

  unfoldable pub metric : Row F → String → Option F
  metric row column = float_or_none (cell row column)

  unfoldable pub ratio_delta : Option F → Option F → Option F
  ratio_delta none baseline = none
  ratio_delta (some value) none = none
  ratio_delta (some value) (some baseline) =
      if fl.eq baseline nought then none else some (ar.over (ar.minus value baseline) baseline)

  unfoldable pub absolute_delta : Option F → Option F → Option F
  absolute_delta none baseline = none
  absolute_delta (some value) none = none
  absolute_delta (some value) (some baseline) = some (ar.minus value baseline)

  unfoldable pub classify_delta : Option F → F → String
  classify_delta none tie_threshold = "no_baseline"
  classify_delta (some delta_pct) tie_threshold =
      if fl.lt delta_pct (ar.negate tie_threshold)
      then "win"
      else (if fl.lt tie_threshold delta_pct then "loss" else "tie")

  -- `value or 0.0`
  abbrev pub or_nought : Option F → F
  or_nought none = nought
  or_nought (some x) = if fl.eq x nought then nought else x

  unfoldable pub sum_optional : Option F → Option F → Option F
  sum_optional none none = none
  sum_optional none (some y) = some (ar.add (or_nought none) (or_nought (some y)))
  sum_optional (some x) rhs = some (ar.add (or_nought (some x)) (or_nought rhs))

  unfoldable pub format_value : Value F → String
  format_value missing = ""
  format_value (real x) = if fl.is_finite x then ar.show_6f x else ""
  format_value (text s) = s
  format_value (count n) = show_ℕ n
  format_value (flag b) = if b then "True" else "False"

  -- The row that `write_csv` writes, as the texts of its fields.
  abbrev pub formatted_row : List String → Row F → List String
  formatted_row fieldnames row = map (λ column. format_value (cell row column)) fieldnames

  abbrev pub cons_some : Option F → List F → List F
  cons_some none xs = xs
  cons_some (some x) xs = x ∷ xs

  unfoldable pub numeric_values : List (Row F) → String → List F
  numeric_values [] column = []
  numeric_values (row ∷ rows) column = cons_some (metric row column) (numeric_values rows column)

  -- `sum(values) / len(values)`, of a list that is not empty
  abbrev pub mean : List F → F
  mean values = ar.over (ar.sum values) (ar.of_ℕ (length values))

  abbrev pub mean_or_none : List F → Option F
  mean_or_none [] = none
  mean_or_none (x ∷ xs) = some (mean (x ∷ xs))

  unfoldable pub average : List (Row F) → String → Option F
  average rows column = mean_or_none (numeric_values rows column)

  unfoldable pub sample_standard_deviation : List F → Result (Option F)
  sample_standard_deviation [] = ok none
  sample_standard_deviation (x ∷ []) = ok none
  sample_standard_deviation (x ∷ y ∷ values) = do
    let centre = mean (x ∷ y ∷ values)
    squares ← each (λ value. ar.square (ar.minus value centre)) (x ∷ y ∷ values)
    ok (some (ar.sqrt (ar.over (ar.sum squares) (ar.of_ℕ (1 + length values)))))
