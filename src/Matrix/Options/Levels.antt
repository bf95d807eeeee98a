-- ===== src/Matrix/Options/Levels.antt =====
-- The levels and node counts among the options of `main` (scripts/run_matrix.py).
use dm_simulator.Base.{
  ℕ, ◌≤◌, String, ◌≡◌, refl, subst, Option, none, some, List, [], ◌∷◌, length, All, ok, >>=-Ensures,
  >>-Ensures, ok-Ensures, ltb, ltb→le, Bool-cases, inl, inr,
}
use dm_simulator.Base.Float.{Floats}
use dm_simulator.Base.Dict.{Dict, keys}
use dm_simulator.Text.{join}
use dm_simulator.Matrix.Policies.{
  memory_bandwidth_bytes_per_time_by_level, memory_base_latency_by_level, link_latency_by_level,
}
use dm_simulator.Matrix.Preset.{MatrixPreset}
use dm_simulator.Matrix.Run.{or_default}
use dm_simulator.Matrix.Build.{Dimensions}
use dm_simulator.Matrix.Parse.{
  parse_seeds, parse_policies, parse_positive_ints, parse_nonnegative_ints, parse_positive_floats,
  parse_probabilities, parse_levels, parse_overlaps, parse_object_size_modes,
  parse_workload_issue_modes,
}
use dm_simulator.Matrix.Parse.Names.{AllIn, parse_levels_iff}
use dm_simulator.Matrix.Options.{
  Arguments, default_policies, select, oversized, reject_oversized, options,
}

select-levels :
    (given : Option String) (table : Dict ℕ) (label : String) (default levels : List String)
    → AllIn (keys table) default
    → select given (λ value. parse_levels value table label) default ≡ ok levels
    → AllIn (keys table) levels
unfolding select
select-levels none table label default levels h e =
    let same : default ≡ levels = cc in subst (AllIn (keys table)) same h
select-levels (some value) table label default levels h e =
    let (same, known, some_level) = (parse_levels_iff value table label levels).0 e in known

oversized-nil : (limit : ℕ) (ns : List ℕ) → oversized limit ns ≡ [] → All (λ n. n ≤ limit) ns
oversized-nil limit [] h = tt
oversized-nil limit (n ∷ ns) h = elim (Bool-cases (ltb limit n)) [
  | inl e ↦ cc (rw e at h)
  | inr e ↦ (ltb→le _ _ e, oversized-nil limit ns (rw e at h))
]

reject_oversized-nil :
    (name : String) (limit : ℕ) (ns : List ℕ) → reject_oversized name limit ns ≡ ok tt → ns ≡ []
reject_oversized-nil name limit [] h = refl
reject_oversized-nil name limit (n ∷ ns) h = cc

module _ {F : Type 0} ⦃fl : Floats F⦄ where
  -- The levels of a preset are levels of the tables.
  pub record HasLevels (preset : MatrixPreset F) : Type 0 where
    pub bandwidths :
        AllIn (keys memory_bandwidth_bytes_per_time_by_level) preset.memory_bandwidth_levels
    pub bases : AllIn (keys memory_base_latency_by_level) preset.memory_base_latency_levels
    pub links : AllIn (keys link_latency_by_level) preset.link_latency_levels

  -- What `main` passes on for a preset.
  pub record HasSettings (preset : MatrixPreset F) (d : Dimensions F) : Type 0 where
    pub nodes : All (λ n. n ≤ length preset.compute_node_ids) d.node_counts
    pub bandwidths : AllIn (keys memory_bandwidth_bytes_per_time_by_level) d.memory_bandwidth_levels
    pub bases : AllIn (keys memory_base_latency_by_level) d.memory_base_latency_levels
    pub links : AllIn (keys link_latency_by_level) d.link_latency_levels

  -- Options that pass, for a preset whose levels are levels of the tables, have node counts that
  -- the preset has ids for and levels of the tables.
  pub options-HasSettings :
      (args : Arguments) (preset : MatrixPreset F) (has : HasLevels preset) (d : Dimensions F)
      → options args preset ≡ ok d
      → HasSettings preset d
  unfolding options
  options-HasSettings args preset has =
      >>=-Ensures (HasSettings preset) (parse_seeds args.seeds) _ λ seeds e0.
        >>=-Ensures (HasSettings preset)
          (select args.policies parse_policies (default_policies preset.name)) _
          λ policies e1.
            >>=-Ensures (HasSettings preset)
              (select args.node_counts parse_positive_ints preset.compute_node_count_values) _
              λ node_counts e2.
                >>=-Ensures (HasSettings preset)
                  (select args.epoch_lengths parse_positive_ints
                    preset.requests_per_node_per_epoch_values)
                  _
                  λ epoch_lengths e3.
                    >>=-Ensures (HasSettings preset)
                      (select args.object_counts parse_positive_ints preset.object_count_values) _
                      λ object_counts e4.
                        >>=-Ensures (HasSettings preset)
                          (select args.epoch_counts parse_positive_ints preset.epoch_count_values) _
                          λ epoch_counts e5.
                            >>=-Ensures (HasSettings preset)
                              (parse_workload_issue_modes (
                                or_default (join "," preset.workload_issue_modes)
                                  args.workload_issue_modes))
                              _
                              λ workload_issue_modes e6.
                                >>=-Ensures (HasSettings preset)
                                  (select args.burst_sizes parse_positive_ints preset.burst_sizes) _
                                  λ burst_sizes e7.
                                    >>=-Ensures (HasSettings preset)
                                      (select args.burst_intervals parse_positive_ints
                                        preset.burst_intervals)
                                      _
                                      λ burst_intervals e8.
                                        >>=-Ensures (HasSettings preset)
                                          (select args.intra_burst_gaps parse_nonnegative_ints
                                            preset.intra_burst_gaps)
                                          _
                                          λ intra_burst_gaps e9.
                                            >>=-Ensures (HasSettings preset)
                                              (select args.node_phase_jitters parse_nonnegative_ints
                                                preset.node_phase_jitters)
                                              _
                                              λ node_phase_jitters e10.
                                                >>=-Ensures (HasSettings preset)
                                                  (select args.hot_set_sizes parse_positive_ints
                                                    preset.hot_set_size_values)
                                                  _
                                                  λ hot_set_sizes e11.
                                                    >>=-Ensures (HasSettings preset)
                                                      (select args.hot_access_probabilities
                                                        (λ value.
                                                          parse_probabilities value
                                                            "hot-access probability")
                                                        preset.hot_access_probabilities)
                                                      _
                                                      λ hot_access_probabilities e12.
                                                        >>=-Ensures (HasSettings preset)
                                                          (select args.churn_fractions
                                                            (λ value.
                                                            parse_probabilities value
                                                            "churn fraction")
                                                            preset.hot_set_churn_fractions)
                                                          _
                                                          λ churn_fractions e13.
                                                            >>=-Ensures (HasSettings preset)
                                                            (select args.overlaps parse_overlaps
                                                            preset.cross_node_overlaps)
                                                            _
                                                            λ overlaps e14.
                                                            >>=-Ensures (HasSettings preset)
                                                            (select args.object_size_modes
                                                            parse_object_size_modes
                                                            preset.object_size_modes)
                                                            _
                                                            λ object_size_modes e15.
                                                            >>=-Ensures (HasSettings preset)
                                                            (select args.large_object_probabilities
                                                            (λ value.
                                                            parse_probabilities value
                                                            "large-object probability")
                                                            preset.large_object_probabilities)
                                                            _
                                                            λ large_object_probabilities e16.
                                                            >>=-Ensures (HasSettings preset)
                                                            (select args.memory_channel_counts
                                                            parse_positive_ints
                                                            preset.memory_channel_counts)
                                                            _
                                                            λ memory_channel_counts e17.
                                                            >>=-Ensures (HasSettings preset)
                                                            (select args.hot_object_channel_counts
                                                            parse_nonnegative_ints
                                                            preset.hot_object_channel_counts)
                                                            _
                                                            λ hot_object_channel_counts e18.
                                                            >>=-Ensures (HasSettings preset)
                                                            (select args.cache_hotset_multipliers
                                                            (λ value.
                                                            parse_positive_floats value
                                                            "cache hot-set multiplier")
                                                            preset.cache_capacity_hotset_multipliers)
                                                            _
                                                            λ cache_multipliers e19.
                                                            >>=-Ensures (HasSettings preset)
                                                            (select args.memory_bandwidth_levels
                                                            (λ value.
                                                            parse_levels value
                                                            memory_bandwidth_bytes_per_time_by_level
                                                            "memory bandwidth level")
                                                            preset.memory_bandwidth_levels)
                                                            _
                                                            λ memory_bandwidth_levels e20.
                                                            >>=-Ensures (HasSettings preset)
                                                            (select args.memory_base_latency_levels
                                                            (λ value.
                                                            parse_levels value
                                                            memory_base_latency_by_level
                                                            "memory base-latency level")
                                                            preset.memory_base_latency_levels)
                                                            _
                                                            λ memory_base_latency_levels e21.
                                                            >>=-Ensures (HasSettings preset)
                                                            (select args.link_latency_levels
                                                            (λ value.
                                                            parse_levels value link_latency_by_level
                                                            "link latency level")
                                                            preset.link_latency_levels)
                                                            _
                                                            λ link_latency_levels e22.
                                                            >>-Ensures (HasSettings preset)
                                                            (reject_oversized preset.name
                                                            (length preset.compute_node_ids)
                                                            (oversized
                                                            (length preset.compute_node_ids)
                                                            node_counts))
                                                            _
                                                            λ fits.
                                                            ok-Ensures (HasSettings preset)
                                                            (record {
                                                            nodes = oversized-nil _ _ (
                                                            reject_oversized-nil preset.name _ _
                                                            fits);
                                                            bandwidths =
                                                            select-levels
                                                            args.memory_bandwidth_levels
                                                            memory_bandwidth_bytes_per_time_by_level
                                                            _ _ _ has.bandwidths e20;
                                                            bases =
                                                            select-levels
                                                            args.memory_base_latency_levels
                                                            memory_base_latency_by_level _ _ _
                                                            has.bases e21;
                                                            links =
                                                            select-levels args.link_latency_levels
                                                            link_latency_by_level _ _ _ has.links
                                                            e22;
                                                            })
