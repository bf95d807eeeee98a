-- ===== src/Tests/Plots.antt =====
-- The analysis of a small aggregate.
use dm_simulator.Base.{
  arith, ◌>>=◌, ◌&◌, String, ◌≡◌, ◌≢◌, ◌↔◌, refl, sym, subst, true, false, Option, none, some, List,
  [], ◌∷◌, ◌++◌, map, flat_map, keep, Memᴰ, ok, All, Succeeds, contains,
}
use dm_simulator.Base.Int.{int}
use dm_simulator.Base.Dict.{get, insert, update, NodupKeys, keys}
use dm_simulator.Base.FilePath.{FilePath, given}
use dm_simulator.Base.Sets.{dedup, text_le}
use dm_simulator.Base.Sort.{insert_by, sort_by, Sorted}
use dm_simulator.Text.{strip}
use dm_simulator.Plots.Columns.{
  preferred_policy_order, comparison_columns, policy_summary_columns, condition_columns,
  best_run_baseline_policies, best_run_columns, best_run_context_columns,
  final_policy_table_columns,
}
use dm_simulator.Plots.Values.{text, Row, float_or_none, metric}
use dm_simulator.Plots.Dimensions.{condition_dimensions}
use dm_simulator.Plots.Policies.{row_policies, order_present, ordered_policies}
use dm_simulator.Plots.Policies.Order.{
  ordered_policies-present, contains-sort_by, NodupKeys-sort_by,
}
use dm_simulator.Plots.Comparison.{
  group_key, comparison_row, build_policy_comparison, same_key, find_key, insert_key,
}
use dm_simulator.Plots.Comparison.Baseline.{last_match, build_policy_comparison-last_match}
use dm_simulator.Plots.Summary.{by_policy, policy_summary, build_policy_summary}
use dm_simulator.Plots.Summary.Groups.{rows_of, build_policy_summary-groups}
use dm_simulator.Plots.Summary.Counts.{IsCounted, build_policy_summary-IsCounted}
use dm_simulator.Plots.Modes.{detect_report_mode}
use dm_simulator.Plots.Modes.Resolved.{IsSetOrder, IsMode, detect_report_mode-resolved}
use dm_simulator.Plots.Reading.{read_aggregate_rows}
use dm_simulator.Plots.Reading.Successful.{IsRead, read_aggregate_rows_iff}
use dm_simulator.Plots.Best.{
  is_best_run_policy, best_run_sort_key, key_lt, best_row, best_by_policy, best_rows, is_some,
  value_for_plot, build_best_run_examples,
}
use dm_simulator.Plots.Final.{
  rows_for_preferred_presets, rows_by, final_rows, build_final_policy_table, final_row,
}
use dm_simulator.Plots.Conditions.{
  grouped, mixed_keys, keys_le, any_mixed, sorted_groups, condition_row, condition_rows,
  build_condition_summary,
}
use dm_simulator.Plots.Conditions.Groups.{HasTexts, IsConditionRow, IsCovered}
use dm_simulator.Plots.Conditions.Summary.{build_condition_summary-groups}
use dm_simulator.Plots.Best.Least.{candidate, best_rows-least}
use dm_simulator.Plots.Schema.{HasColumns, rows-HasColumns}
use dm_simulator.Tests.Decimal.{Decimal, decimal_floats, decimal_arithmetic, decimal-IsStrictOrder}

abbrev csv_line : String → String → String → Row Decimal
csv_line policy latency name =
    ("status", text "success")
    ∷ ("preset", text "eval_knob_cache")
    ∷ ("policy", text policy)
    ∷ ("mean_latency", text latency)
    ∷ ("experiment_name", text name)
    ∷ []

abbrev rows : List (Row Decimal)
rows =
    csv_line "hotness_only" "150" "b"
    ∷ csv_line "lru" "100" "a"
    ∷ csv_line "hotness_only" "200" "c"
    ∷ []

abbrev threshold : Decimal
threshold = record { millionths = 10000 }

build_policy_comparison-last_match_example :
    build_policy_comparison rows "lru" threshold
    ≡ map
        (λ row. comparison_row "lru" threshold row (last_match "lru" (group_key row) none rows))
        rows
unfolding group_key get
build_policy_comparison-last_match_example =
    build_policy_comparison-last_match rows "lru" threshold (
      (refl & refl & refl & refl & refl & refl & refl & refl & refl & refl & refl & refl & refl
        & refl & refl & refl & refl & refl & refl & refl & refl & refl & refl & refl & refl & refl
        & refl & refl & refl & refl & refl & tt)
      & (refl & refl & refl & refl & refl & refl & refl & refl & refl & refl & refl & refl & refl
          & refl & refl & refl & refl & refl & refl & refl & refl & refl & refl & refl & refl & refl
          & refl & refl & refl & refl & refl & tt)
      & (refl & refl & refl & refl & refl & refl & refl & refl & refl & refl & refl & refl & refl
          & refl & refl & refl & refl & refl & refl & refl & refl & refl & refl & refl & refl & refl
          & refl & refl & refl & refl & refl & tt)
      & tt)

abbrev compared : List (Row Decimal)
compared = build_policy_comparison rows "lru" threshold

summarized : Succeeds (build_policy_summary compared)
unfolding build_policy_summary by_policy build_policy_comparison comparison_row update insert get
summarized = (_, refl)

build_policy_summary-groups_example :
    summarized.0
    ≡ map (λ policy. policy_summary policy (rows_of policy compared)) (ordered_policies compared)
build_policy_summary-groups_example = build_policy_summary-groups compared summarized.0 summarized.1

build_policy_summary-IsCounted_example : All IsCounted summarized.0
build_policy_summary-IsCounted_example =
    build_policy_summary-IsCounted rows "lru" threshold summarized.0 summarized.1

ordered_policies-present_example :
    NodupKeys (ordered_policies rows)
    × ((policy : String)
        → contains (ordered_policies rows) policy ≡ contains (row_policies rows) policy)
    × ((others : List String) × (ordered_policies rows
          ≡ keep (contains (dedup (row_policies rows))) preferred_policy_order ++ others)
        × Sorted text_le others)
ordered_policies-present_example = ordered_policies-present rows

abbrev as_made : List String → List String
as_made xs = xs

as_made-IsSetOrder : IsSetOrder as_made
as_made-IsSetOrder = record { same_members = λ xs x. refl; no_repetition = λ xs h. h }

sorted-IsSetOrder : IsSetOrder (sort_by text_le)
sorted-IsSetOrder = record {
  same_members = contains-sort_by text_le;
  no_repetition = NodupKeys-sort_by text_le;
}

detect_report_mode-resolved_example :
    IsMode (detect_report_mode as_made rows "auto")
    × (detect_report_mode as_made rows "auto" ≡ detect_report_mode (sort_by text_le) rows "auto")
detect_report_mode-resolved_example =
    detect_report_mode-resolved as_made (sort_by text_le) rows "auto" as_made-IsSetOrder
      sorted-IsSetOrder refl

abbrev crashed : Row Decimal
crashed = ("status", text "failed") ∷ ("policy", text "lru") ∷ []

abbrev read : FilePath → Option (List (Row Decimal))
read path = some (crashed ∷ rows)

abbrev kept : List (Row Decimal)
kept = map (λ row. row ++ (("_source_aggregate", text "a.csv") ∷ [])) rows

read_aggregate_rows_iff_example :
    (read_aggregate_rows read (given "a.csv" ∷ []) ≡ ok kept)
    ↔ (IsRead read (given "a.csv" ∷ []) kept × (kept ≢ []))
read_aggregate_rows_iff_example = read_aggregate_rows_iff read (given "a.csv" ∷ []) kept

abbrev delta_line : String → String → String → Row Decimal
delta_line policy delta name =
    ("policy", text policy)
    ∷ ("mean_latency_delta_pct", text delta)
    ∷ ("experiment_name", text name)
    ∷ []

-- The row of the baseline has the least delta.
abbrev deltas : List (Row Decimal)
deltas =
    delta_line "hotness_only" "2" "b"
    ∷ delta_line "lru" "0" "c"
    ∷ delta_line "hotness_only" "1" "a"
    ∷ []

best_rows-deltas : best_rows deltas ≡ delta_line "hotness_only" "1" "a" ∷ []
unfolding best_rows best_by_policy best_row key_lt best_run_sort_key is_best_run_policy
    value_for_plot metric float_or_none strip int get insert flat_map ordered_policies order_present
    row_policies dedup sort_by insert_by text_le
best_rows-deltas = refl

best_rows-least_example :
    Memᴰ (delta_line "hotness_only" "1" "a") deltas
    × (contains best_run_baseline_policies "hotness_only" ≡ false)
    × (is_some (value_for_plot (delta_line "hotness_only" "1" "a") "mean_latency_delta_pct") ≡ true)
    × All
        (λ row.
          key_lt (best_run_sort_key row) (best_run_sort_key (delta_line "hotness_only" "1" "a"))
          ≡ false)
        (keep (candidate "hotness_only") deltas)
unfolding get
best_rows-least_example =
    best_rows-least decimal-IsStrictOrder deltas (delta_line "hotness_only" "1" "a")
      (subst (Memᴰ (delta_line "hotness_only" "1" "a")) (sym best_rows-deltas) (Memᴰ.head refl))

abbrev condition_line : String → String → String → Row Decimal
condition_line policy burst_size classification =
    ("policy", text policy)
    ∷ ("burst_size", text burst_size)
    ∷ ("classification", text classification)
    ∷ []

abbrev condition_lines : List (Row Decimal)
condition_lines = condition_line "hotness_only" "4" "win" ∷ condition_line "lru" "8" "tie" ∷ []

have_texts : All (HasTexts condition_lines) condition_dimensions
unfolding get
have_texts = ground arith

conditions : Succeeds (build_condition_summary condition_lines)
unfolding build_condition_summary condition_rows sorted_groups grouped insert_key find_key same_key
    any_mixed mixed_keys keys_le sort_by insert_by text_le get
conditions = (_, refl)

build_condition_summary-groups_example :
    All (IsConditionRow condition_lines condition_dimensions) conditions.0
    × All (IsCovered condition_lines conditions.0) condition_dimensions
build_condition_summary-groups_example =
    build_condition_summary-groups condition_lines conditions.0 have_texts conditions.1

final_table : build_final_policy_table compared ≡ ok []
unfolding build_final_policy_table final_rows rows_for_preferred_presets rows_by get
    build_policy_comparison comparison_row update insert group_key
final_table = refl

rows-HasColumns_example :
    All (HasColumns comparison_columns) (build_policy_comparison rows "lru" threshold)
    × All (HasColumns best_run_columns) (build_best_run_examples rows).0
    × All (HasColumns best_run_context_columns) (build_best_run_examples rows).1
    × (keys (policy_summary "lru" rows) ≡ policy_summary_columns)
    × (keys (condition_row "hot_set_size" (text "8" ∷ text "lru" ∷ [], rows)) ≡ condition_columns)
    × ((final_row "lru" rows >>= λ row. ok (keys row))
        ≡ (final_row "lru" rows >>= λ row. ok final_policy_table_columns))
rows-HasColumns_example =
    rows-HasColumns rows "lru" "lru" "hot_set_size" threshold (text "8") (text "lru")
