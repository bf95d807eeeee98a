-- ===== src/Matrix/Totals.antt =====
-- `aggregate_contention` (scripts/run_matrix.py): the totals over the objects of one run.
pub mod Columns
use dm_simulator.Base.{
  String, Option, none, some, List, [], ◌∷◌, Result, ok, err, key_error, type_error, value_error,
  ◌>>=◌,
}
use dm_simulator.Base.Int.{ℤ, pos, int, ◌+ℤ◌, max_ℤ}
use dm_simulator.Base.Dict.{Dict, get}
use dm_simulator.Text.{strip}
use dm_simulator.Matrix.Rows.{Cell, text, whole}

-- A row of `csv.DictReader`: a line that is too short has `None` in its last columns.
abbrev pub CsvRow : Type 0
CsvRow = Dict (Option String)

abbrev pub int_of : Option ℤ → Result ℤ
int_of none = err value_error
int_of (some n) = ok n

-- `int(row[column])`
abbrev pub int_cell : String → Option (Option String) → Result ℤ
int_cell column none = err (key_error column)
int_cell column (some none) = err type_error
int_cell column (some (some value)) = int_of (int (strip value))

unfoldable pub column_int : String → CsvRow → Result ℤ
column_int column row = int_cell column (get row column)

-- The dict `totals`.
pub record ContentionTotals : Type 0 where
  pub total_remote_accesses : ℤ
  pub total_queue_wait : ℤ
  pub total_remote_service_time : ℤ
  pub max_observed_queue_depth : ℤ

abbrev pub no_totals : ContentionTotals
no_totals = record {
  total_remote_accesses = pos 0;
  total_queue_wait = pos 0;
  total_remote_service_time = pos 0;
  max_observed_queue_depth = pos 0;
}

-- One round of the loop.
unfoldable pub add_row : ContentionTotals → CsvRow → Result ContentionTotals
add_row totals row = do
  accesses ← column_int "remote_accesses" row
  wait ← column_int "total_queue_wait" row
  service ← column_int "total_remote_service_time" row
  depth ← column_int "max_observed_queue_depth" row
  ok (record {
    total_remote_accesses = totals.total_remote_accesses +ℤ accesses;
    total_queue_wait = totals.total_queue_wait +ℤ wait;
    total_remote_service_time = totals.total_remote_service_time +ℤ service;
    max_observed_queue_depth = max_ℤ totals.max_observed_queue_depth depth;
  })

unfoldable pub add_rows : ContentionTotals → List CsvRow → Result ContentionTotals
add_rows totals [] = ok totals
add_rows totals (row ∷ rows) = do next ← add_row totals row; add_rows next rows

abbrev pub totals_cells : {F : Type 0} → ContentionTotals → Dict (Cell F)
totals_cells totals =
    ("total_remote_accesses", whole totals.total_remote_accesses)
    ∷ ("total_queue_wait", whole totals.total_queue_wait)
    ∷ ("total_remote_service_time", whole totals.total_remote_service_time)
    ∷ ("max_observed_queue_depth", whole totals.max_observed_queue_depth)
    ∷ []

abbrev pub blank_cells : {F : Type 0} → Dict (Cell F)
blank_cells =
    ("total_remote_accesses", text "")
    ∷ ("total_queue_wait", text "")
    ∷ ("total_remote_service_time", text "")
    ∷ ("max_observed_queue_depth", text "")
    ∷ []

-- The argument holds the rows of contention_by_object.csv, or `none` where there is no such file.
unfoldable pub aggregate_contention : {F : Type 0} → Option (List CsvRow) → Result (Dict (Cell F))
aggregate_contention none = ok blank_cells
aggregate_contention (some rows) = do totals ← add_rows no_totals rows; ok (totals_cells totals)
