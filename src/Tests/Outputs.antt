-- ===== src/Tests/Outputs.antt =====
-- A run's row from what the simulator wrote.
use dm_simulator.Base.{ℕ, ◌≡◌, refl, true, some, [], ◌∷◌, All, ok, Succeeds, contains}
use dm_simulator.Base.Int.{pos, int, max_ℤ, ◌+ℤ◌}
use dm_simulator.Base.Float.{least, greatest}
use dm_simulator.Base.Dict.{get, keys, insert, update}
use dm_simulator.Text.{strip}
use dm_simulator.Json.{
  Json, integer, float, array, object, element, no_element, member, no_member, find_member,
  get_member, elements, member_names, items, any_text, has_key, index,
}
use dm_simulator.Matrix.Run.{
  cache_capacity_bytes, memory_bandwidth_bytes_per_time, memory_base_latency, one_way_link_latency,
}
use dm_simulator.Matrix.Build.{matrix_run}
use dm_simulator.Matrix.Rows.{base_row, csv_row, aggregate_columns}
use dm_simulator.Matrix.Totals.{column_int, add_row, add_rows, aggregate_contention}
use dm_simulator.Matrix.Channels.{
  divide, column_float, max_wait, add_channel, add_channels, imbalance,
  aggregate_channel_contention,
}
use dm_simulator.Matrix.Summary.{
  Outputs, fill_blanks, json_float, node_values, least_cell, greatest_cell, spread, summary_cells,
  summarize_success, summarize_run,
}
use dm_simulator.Matrix.Summary.Columns.{summarize_run-columns}
use dm_simulator.Tests.Decimal.{Decimal, decimal_floats, decimal_arithmetic}
use dm_simulator.Tests.Matrices.{composite}
use dm_simulator.Tests.Rows.{objects}

abbrev decimal : ℕ → Json Decimal
decimal n = float (record { millionths = n })

abbrev node : ℕ → ℕ → Json Decimal
node mean rate =
    object (
      member "mean_latency" (decimal mean) (member "local_cache_hit_rate" (decimal rate) no_member))

abbrev pub outputs : Outputs Decimal
outputs = record {
  summary = ok (
      object (
        member "completed_requests" (integer (pos 96)) (
          member "latency" (object (member "mean" (decimal 2500000) no_member)) (
            member "per_node"
              (array (element (node 2000000 500000) (element (node 3000000 250000) no_element)))
              no_member))));
  contention_by_object = some objects;
  contention_by_channel =
      some ((("total_queue_wait", some "4") ∷ ("max_queue_depth", some "2") ∷ []) ∷ []);
}

pub summarize_run-composite : Succeeds (summarize_run composite outputs "success" "")
unfolding summarize_run base_row matrix_run cache_capacity_bytes memory_bandwidth_bytes_per_time
    memory_base_latency one_way_link_latency summarize_success summary_cells get_member find_member
    items elements member_names any_text has_key index node_values json_float least_cell
    greatest_cell spread least greatest aggregate_contention add_rows add_row column_int get strip
    int max_ℤ ◌+ℤ◌ aggregate_channel_contention add_channels add_channel column_float max_wait
    imbalance divide fill_blanks insert update
summarize_run-composite = (_, refl)

summarize_run-columns_example :
    All (λ column. contains (keys summarize_run-composite.0) column ≡ true) aggregate_columns
    × All
        (λ (column, cell). get (csv_row summarize_run-composite.0) column ≡ some cell)
        summarize_run-composite.0
summarize_run-columns_example =
    summarize_run-columns composite outputs "" summarize_run-composite.0 summarize_run-composite.1
