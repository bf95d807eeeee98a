-- ===== src/Matrix/Summary.antt =====
-- `summarize_run` (scripts/run_matrix.py): a run's row of the aggregate CSV, with what the
-- simulator wrote.
pub mod Columns
use dm_simulator.Base.{
  String, Bool, true, false, Option, none, some, List, [], ◌∷◌, ◌++◌, keep, Result, ok, err,
  type_error, value_error, ◌>>=◌, each, str_eq, if◌then◌else◌,
}
use dm_simulator.Base.Float.{Floats, Arithmetic, nought, one, least, greatest}
use dm_simulator.Base.Dict.{Dict, get, insert, update}
use dm_simulator.Json.{
  Json, null, flag, integer, float, string, array, object, no_member, get_member, or_empty,
  no_element, items, has_key, index,
}
use dm_simulator.Matrix.Preset.{MatrixRun}
use dm_simulator.Matrix.Run.{or_default}
use dm_simulator.Matrix.Rows.{Cell, text, real, json, base_row}
use dm_simulator.Matrix.Totals.{CsvRow, aggregate_contention}
use dm_simulator.Matrix.Channels.{float_of, aggregate_channel_contention}

-- What a run of the simulator leaves in its output directory: summary.json, or the exception of
-- reading it, and the two tables, if they are there.
pub record Outputs (F : Type 0) : Type 0 where
  pub summary : Result (Json F)
  pub contention_by_object : Option (List CsvRow)
  pub contention_by_channel : Option (List CsvRow)

-- A JSON value in a cell.
abbrev pub json_cell : {F : Type 0} → Json F → Cell F
json_cell (string s) = text s
json_cell v = json v

-- `number_or_blank(section.get(key))`
abbrev pub number_or_blank : {F : Type 0} → Option (Json F) → Cell F
number_or_blank none = text ""
number_or_blank (some null) = text ""
number_or_blank (some v) = json_cell v

-- `summary.get(key, "")`
abbrev pub value_or_blank : {F : Type 0} → Option (Json F) → Cell F
value_or_blank none = text ""
value_or_blank (some v) = json_cell v

-- `cell == ""`
abbrev pub is_blank : {F : Type 0} → Cell F → Bool
is_blank (text s) = str_eq s ""
is_blank _ = false

-- `if row.get(key, "") == "": row[key] = value`, for the items of a dict.
unfoldable pub fill_blanks : {F : Type 0} → Dict (Cell F) → Dict (Cell F) → Dict (Cell F)
fill_blanks row [] = row
fill_blanks row ((key, value) ∷ cells) =
    fill_blanks
      (if is_blank (or_default (text "") (get row key)) then insert row key value else row) cells

module _ {F : Type 0} ⦃fl : Floats F⦄ ⦃ar : Arithmetic F⦄ where
  -- `float(value)`
  unfoldable pub json_float : Json F → Result F
  json_float (integer n) = ar.of_ℤ n
  json_float (float x) = ok x
  json_float (string s) = float_of (fl.of_text s)
  json_float (flag b) = ok (if b then one else nought)
  json_float _ = err type_error

  abbrev when_present : Bool → Result F → Result (List F) → Result (List F)
  when_present false value rest = rest
  when_present true value rest = do x ← value; xs ← rest; ok (x ∷ xs)

  -- `[float(node[key]) for node in nodes if key in node]`
  unfoldable pub node_values : String → List (Json F) → Result (List F)
  node_values key [] = ok []
  node_values key (node ∷ nodes) = do
    present ← has_key key node
    when_present present (do value ← index node key; json_float value) (node_values key nodes)

  -- The blank of an empty list, or its least, greatest or spread.
  unfoldable pub least_cell : List F → Cell F
  least_cell [] = text ""
  least_cell (x ∷ xs) = real (least x xs)

  unfoldable pub greatest_cell : List F → Cell F
  greatest_cell [] = text ""
  greatest_cell (x ∷ xs) = real (greatest x xs)

  unfoldable pub spread : List F → Cell F
  spread [] = text ""
  spread (x ∷ xs) = real (ar.minus (greatest x xs) (least x xs))

  abbrev pub field : String × (Json F × String) → Result (String × Cell F)
  field (column, (section, key)) = do
    value ← get_member section key
    ok (column, number_or_blank value)

  -- The columns of the summary's sections, before those of the nodes and after them.
  abbrev pub latency_fields : Json F → Json F → Json F → List (String × (Json F × String))
  latency_fields latency cache memory =
      ("mean_latency", (latency, "mean"))
      ∷ ("median_latency", (latency, "median"))
      ∷ ("p95_latency", (latency, "p95"))
      ∷ ("p99_latency", (latency, "p99"))
      ∷ ("local_hit_rate", (cache, "local_hit_rate"))
      ∷ ("local_hits", (cache, "local_hits"))
      ∷ ("local_misses", (cache, "local_misses"))
      ∷ ("average_memory_wait", (memory, "average_wait"))
      ∷ ("max_memory_wait", (memory, "max_wait"))
      ∷ ("peak_memory_queue_depth", (memory, "peak_queue_depth"))
      ∷ []

  abbrev pub policy_fields : Json F → Json F → List (String × (Json F × String))
  policy_fields policy viability =
      ("policy_admitted", (policy, "admitted"))
      ∷ ("policy_rejected", (policy, "rejected"))
      ∷ ("admission_yield", (viability, "admission_yield"))
      ∷ ("reuse_after_admit_rate", (viability, "reuse_after_admit_rate"))
      ∷ ("stale_telemetry_rate", (viability, "stale_telemetry_rate"))
      ∷ ("average_top_object_overlap", (viability, "average_top_object_overlap"))
      ∷ ("estimated_avoided_remote_accesses", (viability, "estimated_avoided_remote_accesses"))
      ∷ ("estimated_avoided_queue_wait", (viability, "estimated_avoided_queue_wait"))
      ∷ (
        "estimated_avoided_remote_service_time",
        (viability, "estimated_avoided_remote_service_time"),
      )
      ∷ ("eviction_regret_count", (viability, "eviction_regret_count"))
      ∷ ("remote_eviction_regret_count", (viability, "remote_eviction_regret_count"))
      ∷ ("jain_inverse_latency_fairness", (viability, "jain_inverse_latency_fairness"))
      ∷ []

  abbrev pub node_cells : List F → List F → List F → Dict (Cell F)
  node_cells means p99s rates =
      ("per_node_mean_latency_min", least_cell means)
      ∷ ("per_node_mean_latency_max", greatest_cell means)
      ∷ ("per_node_mean_latency_spread", spread means)
      ∷ ("per_node_p99_latency_max", greatest_cell p99s)
      ∷ ("per_node_hit_rate_min", least_cell rates)
      ∷ ("per_node_hit_rate_max", greatest_cell rates)
      ∷ []

  abbrev pub channel_fields : Json F → List (String × (Json F × String))
  channel_fields channels =
      ("peak_memory_channel_queue_depth", (channels, "peak_queue_depth"))
      ∷ ("max_channel_total_queue_wait", (channels, "max_total_queue_wait"))
      ∷ ("channel_queue_imbalance", (channels, "queue_imbalance"))
      ∷ []

  abbrev pub section : Json F → String → Result (Json F)
  section summary key = do value ← get_member summary key; ok (or_empty value)

  abbrev pub no_nodes : Option (Json F) → Json F
  no_nodes none = array no_element
  no_nodes (some nodes) = nodes

  -- The dict of the first `row.update`.
  unfoldable pub summary_cells : Json F → Json F → Result (Dict (Cell F))
  summary_cells summary memory = do
    latency ← section summary "latency"
    cache ← section summary "cache"
    policy ← section summary "policy"
    viability ← section summary "viability"
    per_node ← get_member summary "per_node"
    nodes ← items (no_nodes per_node)
    means ← node_values "mean_latency" nodes
    p99s ← node_values "p99_latency" nodes
    rates ← node_values "local_cache_hit_rate" nodes
    completed ← get_member summary "completed_requests"
    before ← each field (latency_fields latency cache memory)
    after ← each field (policy_fields policy viability)
    ok (
        ("completed_requests", value_or_blank completed) ∷ before
        ++ (node_cells means p99s rates ++ after))

  unfoldable pub summarize_success : Dict (Cell F) → Outputs F → Result (Dict (Cell F))
  summarize_success row outputs = do
    summary ← outputs.summary
    memory ← section summary "memory"
    cells ← summary_cells summary memory
    totals ← aggregate_contention outputs.contention_by_object
    channels ← section memory "channels"
    channel_row ← each field (channel_fields channels)
    fallback ← aggregate_channel_contention outputs.contention_by_channel
    ok (fill_blanks (update (update (update row cells) totals) channel_row) fallback)

  unfoldable pub summarize_run : MatrixRun F → Outputs F → String → String → Result (Dict (Cell F))
  summarize_run run outputs status error = do
    row ← base_row run status error
    (if str_eq status "success" then summarize_success row outputs else ok row)
