-- ===== src/Matrix/DryRun/Runs.antt =====
-- The configs of all the runs of a sweep (scripts/run_matrix.py).
use mathlib.Core.List.{Memᴰ}
use mathlib.Core.Bool.{true≢false}
use dm_simulator.Base.{
  ◌*◌, ◌≤◌, String, ◌≡◌, refl, sym, subst, true, some, List, [], ◌∷◌, map, flat_map, length, All,
  All-append, All-at, ok, ◌>>=◌, Succeeds, contains, str_eq, Bool-cases, inl, inr,
}
use dm_simulator.Base.Float.{Floats}
use dm_simulator.Base.FilePath.{FilePath}
use dm_simulator.Base.Dict.{keys}
use dm_simulator.Text.{nonempty}
use dm_simulator.Matrix.Policies.{
  memory_bandwidth_bytes_per_time_by_level, memory_base_latency_by_level, link_latency_by_level,
}
use dm_simulator.Matrix.Preset.{MatrixPreset, MatrixRun, ContentionWeightProfile}
use dm_simulator.Matrix.Weights.{
  no_contention_weight_profile, contention_weight_profiles, contention_weight_profiles_for_policy,
  contention_weight_sweeps, profile_of,
}
use dm_simulator.Matrix.Run.{Point}
use dm_simulator.Matrix.Build.{Dimensions, matrix_run, build_runs}
use dm_simulator.Matrix.Build.Runs.{IsRunOf, build_runs-mem}
use dm_simulator.Matrix.Yaml.{weight_names, config_text}
use dm_simulator.Matrix.Yaml.Blocks.{IsKnown}
use dm_simulator.Matrix.DryRun.{check_config}
use dm_simulator.Matrix.DryRun.Total.{IsReady, config_text-check_config}

module _ {F : Type 0} ⦃fl : Floats F⦄ where
  -- A weight profile that a config can be written with.
  record IsUsable (profile : ContentionWeightProfile F) : Type 0 where
    pub known : IsKnown profile
    pub valued : nonempty profile.weight_name ≡ true → (v : F) × (profile.weight_value ≡ some v)

  map-IsUsable :
      (name : String) (values : List F)
      → contains weight_names name ≡ true
      → All IsUsable (map (profile_of name) values)
  map-IsUsable name [] h = tt
  map-IsUsable name (v ∷ values) h =
      (record { known = λ _. h; valued = λ _. (v, refl) }, map-IsUsable name values h)

  sweeps-IsUsable :
      (sweeps : List (String × List F))
      → All (λ (name, _). contains weight_names name ≡ true) sweeps
      → All IsUsable (flat_map (λ (name, values). map (profile_of name) values) sweeps)
  unfolding flat_map
  sweeps-IsUsable [] h = tt
  sweeps-IsUsable ((name, values) ∷ sweeps) (c, h) =
      All-append IsUsable (map (profile_of name) values) _ (map-IsUsable name values c)
        (sweeps-IsUsable sweeps h)

  none-IsUsable : IsUsable no_contention_weight_profile
  none-IsUsable = record {
    known = λ named. absurd (true≢false (sym named));
    valued = λ named. absurd (true≢false (sym named));
  }

  policy-IsUsable :
      (preset : MatrixPreset F) (policy : String)
      → All IsUsable (contention_weight_profiles_for_policy preset policy)
  unfolding contention_weight_profiles_for_policy contention_weight_profiles
  policy-IsUsable preset policy =
      elim (Bool-cases (str_eq preset.name "eval_contention_weight_sensitivity")) [
        | inr e ↦ rw e (none-IsUsable, tt)
        | inl e ↦ elim (Bool-cases (str_eq policy "contention_aware_smoothed")) [
          | inl t ↦
              rw (e, t)
                (sweeps-IsUsable contention_weight_sweeps
                  (refl, (refl, (refl, (refl, (refl, (refl, tt)))))))
          | inr t ↦ rw (e, t) (none-IsUsable, tt)
        ]
      ]

  -- What the options must be for their configs: node counts that the preset has ids for, levels
  -- of the tables, and cache sizes that the floats can compute.
  pub record IsWritable (preset : MatrixPreset F) (d : Dimensions F) : Type 0 where
    pub nodes : All (λ n. n ≤ length preset.compute_node_ids) d.node_counts
    pub bandwidths :
        All
          (λ level. contains (keys memory_bandwidth_bytes_per_time_by_level) level ≡ true)
          d.memory_bandwidth_levels
    pub bases :
        All
          (λ level. contains (keys memory_base_latency_by_level) level ≡ true)
          d.memory_base_latency_levels
    pub links :
        All (λ level. contains (keys link_latency_by_level) level ≡ true) d.link_latency_levels
    pub sizes :
        All
          (λ h.
            All
              (λ x. Succeeds (fl.scale (h * preset.object_size_bytes) x >>= fl.round))
              d.cache_multipliers)
          d.hot_set_sizes

  module _ (sha1 : String → String) (preset : MatrixPreset F) (d : Dimensions F) (dir : FilePath)
      (writable : IsWritable preset d) where
    run-IsReady :
        (p : Point F) (w : ContentionWeightProfile F)
        → IsRunOf sha1 preset d dir (matrix_run sha1 preset dir p w) p w
        → IsReady (matrix_run sha1 preset dir p w)
    unfolding matrix_run
    run-IsReady p w ((selected, _), listed, _) =
        let usable = All-at _ _ (policy-IsUsable preset p.policy) listed in
        record {
          nodes = All-at _ _ writable.nodes selected.in_node_counts;
          bandwidth = All-at _ _ writable.bandwidths selected.in_memory_bandwidth_levels;
          base = All-at _ _ writable.bases selected.in_memory_base_latency_levels;
          link = All-at _ _ writable.links selected.in_link_latency_levels;
          known = usable.known;
          valued = usable.valued;
          sized =
              All-at _ _ (All-at _ _ writable.sizes selected.in_hot_set_sizes)
                selected.in_cache_multipliers;
        }

    -- With such options, the config of every run of a successful `build_runs` is made, and passes
    -- all of the dry run's checks on it.
    pub build_runs-check_config :
        (runs : List (MatrixRun F)) (run : MatrixRun F)
        → build_runs sha1 preset d dir ≡ ok runs
        → Memᴰ run runs
        → (text : String) × (config_text run ≡ ok text) × (check_config run text ≡ ok tt)
    build_runs-check_config runs run h m =
        let (p, w, r) = (build_runs-mem sha1 preset d dir runs run h).0 m in
        let ready = run-IsReady p w (subst (λ x. IsRunOf sha1 preset d dir x p w) r.2 r) in
        subst (λ x. (text : String) × (config_text x ≡ ok text) × (check_config x text ≡ ok tt))
          (sym r.2) (config_text-check_config (matrix_run sha1 preset dir p w) ready)
