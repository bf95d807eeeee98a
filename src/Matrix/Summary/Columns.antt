-- ===== src/Matrix/Summary/Columns.antt =====
-- The columns of a row of `summarize_run` (scripts/run_matrix.py).
use dm_simulator.Base.{
  String, ◌≡◌, ◌∙◌, refl, sym, ap, subst, true, Option, none, some, List, [], ◌∷◌, ◌++◌, map, All,
  All-of_Memᴰ, ok, >>=-eq-ok, >>=-Ensures, ok-Ensures, each, cons-eq-ok, contains, Bool-cases, inl,
  inr,
}
use dm_simulator.Base.Float.{Floats, Arithmetic}
use dm_simulator.Base.Dict.{Dict, get, insert, update, keys, keys-insert, add_keys, keys-update}
use dm_simulator.Json.{Json, get_member, items}
use dm_simulator.Matrix.Preset.{MatrixRun}
use dm_simulator.Matrix.Run.{
  or_default, memory_bandwidth_bytes_per_time, memory_base_latency, one_way_link_latency,
  cache_capacity_bytes,
}
use dm_simulator.Matrix.Rows.{Cell, text, aggregate_columns, base_row, csv_row}
use dm_simulator.Matrix.Rows.Columns.{distinct, among, among-All, csv_row-keeps}
use dm_simulator.Matrix.Totals.{CsvRow, no_totals, add_rows, aggregate_contention}
use dm_simulator.Matrix.Channels.{
  no_channels, add_channels, imbalance, aggregate_channel_contention,
}
use dm_simulator.Matrix.Summary.{
  Outputs, is_blank, node_values, field, latency_fields, policy_fields, channel_fields, node_cells,
  section, no_nodes, summary_cells, fill_blanks, summarize_success, summarize_run,
}

abbrev base_columns : List String
base_columns =
    "status" ∷ "error" ∷ "preset" ∷ "experiment_name" ∷ "policy" ∷ "contention_weight_profile"
    ∷ "contention_weight_name" ∷ "contention_weight_value" ∷ "seed" ∷ "node_count"
    ∷ "compute_node_count" ∷ "epoch_count" ∷ "requests_per_node_per_epoch" ∷ "workload_issue_mode"
    ∷ "burst_size" ∷ "burst_interval" ∷ "intra_burst_gap" ∷ "node_phase_jitter" ∷ "hot_set_mode"
    ∷ "hot_set_churn_label" ∷ "hot_set_churn_fraction" ∷ "cross_node_overlap" ∷ "object_count"
    ∷ "hot_set_size" ∷ "hot_access_probability" ∷ "object_size_mode" ∷ "object_size_bytes"
    ∷ "object_size_small_bytes" ∷ "object_size_large_bytes" ∷ "large_object_probability"
    ∷ "cache_capacity_hotset_multiplier" ∷ "cache_capacity_bytes" ∷ "memory_channel_count"
    ∷ "hot_object_channel_count" ∷ "memory_bandwidth_level" ∷ "memory_bandwidth_bytes_per_time"
    ∷ "memory_base_latency_level" ∷ "memory_base_latency" ∷ "link_latency_level"
    ∷ "one_way_link_latency" ∷ "config_path" ∷ "output_dir" ∷ []

abbrev summary_columns : List String
summary_columns =
    "completed_requests" ∷ "mean_latency" ∷ "median_latency" ∷ "p95_latency" ∷ "p99_latency"
    ∷ "local_hit_rate" ∷ "local_hits" ∷ "local_misses" ∷ "average_memory_wait" ∷ "max_memory_wait"
    ∷ "peak_memory_queue_depth" ∷ "per_node_mean_latency_min" ∷ "per_node_mean_latency_max"
    ∷ "per_node_mean_latency_spread" ∷ "per_node_p99_latency_max" ∷ "per_node_hit_rate_min"
    ∷ "per_node_hit_rate_max" ∷ "policy_admitted" ∷ "policy_rejected" ∷ "admission_yield"
    ∷ "reuse_after_admit_rate" ∷ "stale_telemetry_rate" ∷ "average_top_object_overlap"
    ∷ "estimated_avoided_remote_accesses" ∷ "estimated_avoided_queue_wait"
    ∷ "estimated_avoided_remote_service_time" ∷ "eviction_regret_count"
    ∷ "remote_eviction_regret_count" ∷ "jain_inverse_latency_fairness" ∷ []

abbrev node_columns : List String
node_columns =
    "per_node_mean_latency_min" ∷ "per_node_mean_latency_max" ∷ "per_node_mean_latency_spread"
    ∷ "per_node_p99_latency_max" ∷ "per_node_hit_rate_min" ∷ "per_node_hit_rate_max" ∷ []

abbrev total_columns : List String
total_columns =
    "total_remote_accesses" ∷ "total_queue_wait" ∷ "total_remote_service_time"
    ∷ "max_observed_queue_depth" ∷ []

abbrev channel_columns : List String
channel_columns =
    "peak_memory_channel_queue_depth" ∷ "max_channel_total_queue_wait" ∷ "channel_queue_imbalance"
    ∷ []

-- The keys of a success row, in the order in which they are written.
abbrev success_columns : List String
success_columns = base_columns ++ (summary_columns ++ (total_columns ++ channel_columns))

keys-append : {V : Type 0} (d e : Dict V) → keys (d ++ e) ≡ keys d ++ keys e
keys-append [] e = refl
keys-append ((k, v) ∷ d) e = ap (λ ks. k ∷ ks) (keys-append d e)

module _ {F : Type 0} where
  -- Both kinds of totals have the same keys.
  aggregate_contention-keys :
      (table : Option (List CsvRow)) (cells : Dict (Cell F))
      → aggregate_contention table ≡ ok cells
      → keys cells ≡ total_columns
  unfolding aggregate_contention
  aggregate_contention-keys none cells h = ok-Ensures (λ c. keys c ≡ total_columns) refl cells h
  aggregate_contention-keys (some rows) cells h =
      >>=-Ensures (λ c. keys c ≡ total_columns) (add_rows no_totals rows) _
        (λ totals e. ok-Ensures (λ c. keys c ≡ total_columns) refl) cells h

  -- Filling blanks leaves the keys, if all of the cells' keys are there.
  fill_blanks-keys :
      (row cells : Dict (Cell F))
      → All (λ k. contains (keys row) k ≡ true) (keys cells)
      → keys (fill_blanks row cells) ≡ keys row
  unfolding fill_blanks
  fill_blanks-keys row [] h = refl
  fill_blanks-keys row ((key, value) ∷ cells) (c, h) =
      elim (Bool-cases (is_blank (or_default (text "") (get row key)))) [
        | inr e ↦ rw e (fill_blanks-keys row cells h)
        | inl e ↦
            let same = keys-insert row key value c in
            rw e (
              fill_blanks-keys (insert row key value) cells
                (subst (λ ks. All (λ k. contains ks k ≡ true) (keys cells)) (sym same) h)
              ∙ same)
      ]

module _ {F : Type 0} ⦃fl : Floats F⦄ ⦃ar : Arithmetic F⦄ where
  abbrev names : List (String × (Json F × String)) → List String
  names = map λ (column, _). column

  each-field-keys :
      (fields : List (String × (Json F × String))) (cells : Dict (Cell F))
      → each field fields ≡ ok cells
      → keys cells ≡ names fields
  each-field-keys [] cells h = ok-Ensures (λ c. keys c ≡ []) refl cells h
  each-field-keys ((column, (section, key)) ∷ fields) cells h =
      let (cell, rest, e, es, whole) =
        cons-eq-ok (field (column, (section, key))) (each field fields) cells h in
      let (value, _, made) = >>=-eq-ok (get_member section key) _ e in
      let first : column ≡ cell.0 = cc made in
      ap keys whole
      ∙ ap (λ k. k ∷ keys rest) (sym first)
      ∙ ap (λ ks. column ∷ ks) (each-field-keys fields rest es)

  aggregate_channel_contention-keys :
      (table : Option (List CsvRow)) (cells : Dict (Cell F))
      → aggregate_channel_contention table ≡ ok cells
      → keys cells ≡ channel_columns
  unfolding aggregate_channel_contention
  aggregate_channel_contention-keys none cells h =
      ok-Ensures (λ c. keys c ≡ channel_columns) refl cells h
  aggregate_channel_contention-keys (some rows) cells h =
      >>=-Ensures (λ c. keys c ≡ channel_columns) (add_channels no_channels rows) _
        (λ totals e.
          >>=-Ensures (λ c. keys c ≡ channel_columns) (imbalance totals.waits) _
            (λ share e'. ok-Ensures (λ c. keys c ≡ channel_columns) refl))
        cells h

  base_row-keys :
      (run : MatrixRun F) (status error : String) (row : Dict (Cell F))
      → base_row run status error ≡ ok row
      → keys row ≡ base_columns
  unfolding base_row
  base_row-keys run status error =
      let P = λ (r : Dict (Cell F)). keys r ≡ base_columns in
      >>=-Ensures P (cache_capacity_bytes run) _ λ capacity e1.
        >>=-Ensures P (memory_bandwidth_bytes_per_time run) _ λ bandwidth e2.
          >>=-Ensures P (memory_base_latency run) _
            λ base e3. >>=-Ensures P (one_way_link_latency run) _ λ link e4. ok-Ensures P refl

  summary_cells-keys :
      (summary memory : Json F) (cells : Dict (Cell F))
      → summary_cells summary memory ≡ ok cells
      → keys cells ≡ summary_columns
  unfolding summary_cells
  summary_cells-keys summary memory =
      let P = λ (r : Dict (Cell F)). keys r ≡ summary_columns in
      >>=-Ensures P (section summary "latency") _ λ latency e1.
        >>=-Ensures P (section summary "cache") _ λ cache e2.
          >>=-Ensures P (section summary "policy") _ λ policy e3.
            >>=-Ensures P (section summary "viability") _ λ viability e4.
              >>=-Ensures P (get_member summary "per_node") _ λ per_node e5.
                >>=-Ensures P (items (no_nodes per_node)) _ λ nodes e6.
                  >>=-Ensures P (node_values "mean_latency" nodes) _ λ means e7.
                    >>=-Ensures P (node_values "p99_latency" nodes) _ λ p99s e8.
                      >>=-Ensures P (node_values "local_cache_hit_rate" nodes) _ λ rates e9.
                        >>=-Ensures P (get_member summary "completed_requests") _ λ completed e10.
                          >>=-Ensures P (each field (latency_fields latency cache memory)) _
                            λ before e11.
                              >>=-Ensures P (each field (policy_fields policy viability)) _
                                λ after e12. ok-Ensures P (
                                  ap (λ ks. "completed_requests" ∷ ks)
                                    (keys-append before (node_cells means p99s rates ++ after)
                                      ∙ ap (λ ks. ks ++ (node_columns ++ keys after))
                                          (each-field-keys (latency_fields latency cache memory)
                                            before e11)
                                      ∙ ap
                                          (λ ks.
                                            names (latency_fields latency cache memory)
                                            ++ (node_columns ++ ks))
                                          (each-field-keys (policy_fields policy viability) after
                                            e12)))

  summarize_success-keys :
      (base : Dict (Cell F)) (outputs : Outputs F) (row : Dict (Cell F))
      → keys base ≡ base_columns
      → summarize_success base outputs ≡ ok row
      → keys row ≡ success_columns
  unfolding summarize_success
  summarize_success-keys base outputs row start h =
      let P = λ (r : Dict (Cell F)). keys r ≡ success_columns in
      (>>=-Ensures P outputs.summary _ λ summary e1.
          >>=-Ensures P (section summary "memory") _ λ memory e2.
            >>=-Ensures P (summary_cells summary memory) _ λ cells e3.
              >>=-Ensures P (aggregate_contention outputs.contention_by_object) _ λ totals e4.
                >>=-Ensures P (section memory "channels") _ λ channels e5.
                  >>=-Ensures P (each field (channel_fields channels)) _ λ channel_row e6.
                    >>=-Ensures P (aggregate_channel_contention outputs.contention_by_channel) _
                      λ fallback e7. ok-Ensures P (
                        filled base cells totals channel_row fallback start
                          (summary_cells-keys summary memory cells e3)
                          (aggregate_contention-keys _ totals e4)
                          (each-field-keys (channel_fields channels) channel_row e6)
                          (aggregate_channel_contention-keys _ fallback e7)))
        row h
    where
      filled :
          (base cells totals channel_row fallback : Dict (Cell F))
          → keys base ≡ base_columns
          → keys cells ≡ summary_columns
          → keys totals ≡ total_columns
          → keys channel_row ≡ channel_columns
          → keys fallback ≡ channel_columns
          → keys (fill_blanks (update (update (update base cells) totals) channel_row) fallback)
            ≡ success_columns
      filled base cells totals channel_row fallback b c t r f =
          let written : keys (update (update (update base cells) totals) channel_row)
              ≡ success_columns =
            keys-update _ channel_row
            ∙ ap (λ ks. add_keys ks (keys channel_row))
                (keys-update _ totals
                  ∙ ap (λ ks. add_keys ks (keys totals)) (keys-update base cells))
            ∙ rw (b, c, t, r) refl in
          fill_blanks-keys _ fallback (rw (written, f) (refl, (refl, (refl, tt)))) ∙ written

  -- A row of a successful run has a cell for every aggregate column, and each of its cells stands
  -- in the column of its key in the CSV.
  pub summarize_run-columns :
      (run : MatrixRun F) (outputs : Outputs F) (error : String) (row : Dict (Cell F))
      → summarize_run run outputs "success" error ≡ ok row
      → All (λ column. contains (keys row) column ≡ true) aggregate_columns
        × All (λ (column, cell). get (csv_row row) column ≡ some cell) row
  unfolding summarize_run
  summarize_run-columns run outputs error row h =
      let (base, e, h') = >>=-eq-ok (base_row run "success" error) _ h in
      let same =
        summarize_success-keys base outputs row (base_row-keys run "success" error base e) h' in
      (
        subst (λ ks. All (λ column. contains ks column ≡ true) aggregate_columns) (sym same)
            (among-All success_columns aggregate_columns refl),
        All-of_Memᴰ _ row λ (column, cell) m.
            csv_row-keeps row (subst (λ ks. distinct ks ≡ true) (sym same) refl)
              (subst (λ ks. among aggregate_columns ks ≡ true) (sym same) refl) m,
      )
