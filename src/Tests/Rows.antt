-- ===== src/Tests/Rows.antt =====
-- The base row of a run, its row of the aggregate CSV, and the totals of a contention table.
use dm_simulator.Base.{String, ◌≡◌, ◌↔◌, refl, some, List, [], ◌∷◌, ok, All}
use dm_simulator.Base.Int.{pos, int, max_ℤ, ◌+ℤ◌}
use dm_simulator.Base.Dict.{Dict, get, keys, NodupKeys}
use dm_simulator.Text.{strip}
use dm_simulator.Matrix.Run.{
  cache_capacity_bytes, memory_bandwidth_bytes_per_time, memory_base_latency, one_way_link_latency,
}
use dm_simulator.Matrix.Build.{matrix_run}
use dm_simulator.Matrix.Rows.{Cell, base_cells, base_row, csv_row, aggregate_columns}
use dm_simulator.Matrix.Rows.Columns.{csv_row-base_row}
use dm_simulator.Matrix.Totals.{
  CsvRow, ContentionTotals, no_totals, column_int, add_row, add_rows, totals_cells,
  aggregate_contention,
}
use dm_simulator.Matrix.Totals.Columns.{HasTotals, aggregate_contention_iff}
use dm_simulator.Tests.Decimal.{Decimal, decimal_floats}
use dm_simulator.Tests.Matrices.{composite}

abbrev pub row : Dict (Cell Decimal)
row = base_cells composite "success" "" 256 4 25 2

base_row-composite : base_row composite "success" "" ≡ ok row
unfolding base_row matrix_run cache_capacity_bytes memory_bandwidth_bytes_per_time
    memory_base_latency one_way_link_latency
base_row-composite = refl

csv_row-base_row_example :
    (keys (csv_row row) ≡ aggregate_columns)
    × NodupKeys aggregate_columns
    × All (λ (column, cell). get (csv_row row) column ≡ some cell) row
csv_row-base_row_example = csv_row-base_row composite "success" "" row base_row-composite

abbrev object : String → String → String → String → CsvRow
object accesses wait service depth =
    ("object_id", some "1")
    ∷ ("remote_accesses", some accesses)
    ∷ ("total_queue_wait", some wait)
    ∷ ("total_remote_service_time", some service)
    ∷ ("max_observed_queue_depth", some depth)
    ∷ []

abbrev pub objects : List CsvRow
objects = object "3" "10" "7" "2" ∷ object "4" "0" "9" "1" ∷ []

abbrev totals : ContentionTotals
totals = record {
  total_remote_accesses = pos 7;
  total_queue_wait = pos 10;
  total_remote_service_time = pos 16;
  max_observed_queue_depth = pos 2;
}

two_objects : aggregate_contention (some objects) ≡ ok (totals_cells {F = Decimal} totals)
unfolding aggregate_contention add_rows add_row column_int get strip int max_ℤ ◌+ℤ◌
two_objects = refl

aggregate_contention_iff_example :
    (aggregate_contention (some objects) ≡ ok (totals_cells {F = Decimal} totals)) ↔ (
      (t : ContentionTotals) × HasTotals no_totals objects t
      × (totals_cells {F = Decimal} totals ≡ totals_cells t))
aggregate_contention_iff_example = aggregate_contention_iff Decimal objects (totals_cells totals)
