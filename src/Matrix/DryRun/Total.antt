-- ===== src/Matrix/DryRun/Total.antt =====
-- `write_yaml_config` and the checks of one config, for one run (scripts/run_matrix.py).
use dm_simulator.Base.{
  ℕ, ◌*◌, ◌≤◌, String, ◌≡◌, refl, sym, subst, true, false, some, [], Memᴰ, length, max, take,
  >>=-eq-ok, ok, ◌>>=◌, each, each_total, Succeeds, >>=-Succeeds, contains, contains_of_mem, str_eq,
  arith, Bool-cases, inl, inr, ltb,
}
use dm_simulator.Base.Float.{Floats}
use dm_simulator.Base.Dict.{Dict, get, insert, keys, contains-get}
use dm_simulator.Text.{nonempty}
use dm_simulator.Matrix.Policies.{
  memory_bandwidth_bytes_per_time_by_level, memory_base_latency_by_level, link_latency_by_level,
}
use dm_simulator.Matrix.Preset.{MatrixRun, ContentionWeightProfile}
use dm_simulator.Matrix.Run.{
  at_key, node_ids_for_run, memory_base_latency, memory_bandwidth_bytes_per_time,
  one_way_link_latency, cache_capacity_bytes,
}
use dm_simulator.Matrix.Weights.{default_contention_weights, contention_weights_for_profile}
use dm_simulator.Matrix.Yaml.{
  yaml_policy_name, policy_lines, hotness_lines, run_weights, weight_line, weight_names, yaml_lines,
  config_text,
}
use dm_simulator.Matrix.DryRun.{check_config}
use dm_simulator.Matrix.DryRun.Config.{check_config-config_text}
use dm_simulator.Matrix.Yaml.Blocks.{IsKnown, run_weights-keys}

at_key-total :
    {V : Type 0} (d : Dict V) (key : String)
    → contains (keys d) key ≡ true
    → Succeeds (at_key key (get d key))
at_key-total d key h = let (v, e) = contains-get d key h in (v, rw e)

module _ {F : Type 0} ⦃fl : Floats F⦄ where
  -- What a config needs of its run: node ids for its nodes, levels that the tables hold, a value
  -- for a weight that its profile names, which is one of the defaults, and a cache size that the
  -- floats can compute.
  pub record IsReady (run : MatrixRun F) : Type 0 where
    pub nodes : run.compute_node_count ≤ length run.preset.compute_node_ids
    pub bandwidth :
        contains (keys memory_bandwidth_bytes_per_time_by_level) run.memory_bandwidth_level ≡ true
    pub base : contains (keys memory_base_latency_by_level) run.memory_base_latency_level ≡ true
    pub link : contains (keys link_latency_by_level) run.link_latency_level ≡ true
    pub known : IsKnown run.contention_weight_profile
    pub valued :
        nonempty run.contention_weight_profile.weight_name ≡ true
        → (v : F) × (run.contention_weight_profile.weight_value ≡ some v)
    pub sized :
        (n : ℕ) × ((fl.scale
              (run.hot_set_size * run.preset.object_size_bytes)
              run.cache_capacity_hotset_multiplier
            >>= fl.round)
          ≡ ok n)

  profile-total :
      (profile : ContentionWeightProfile F)
      → (nonempty profile.weight_name ≡ true → (v : F) × (profile.weight_value ≡ some v))
      → Succeeds (contention_weights_for_profile profile)
  unfolding contention_weights_for_profile
  profile-total profile valued = elim (Bool-cases (nonempty profile.weight_name)) [
    | inl e ↦
        let (v, s) = valued e in
        (insert default_contention_weights profile.weight_name v, rw (e, s))
    | inr e ↦ (default_contention_weights, rw e)
  ]

  module _ (run : MatrixRun F) (ready : IsReady run) where
    run_weights-total : Succeeds (run_weights run)
    unfolding run_weights
    run_weights-total =
        >>=-Succeeds (contention_weights_for_profile run.contention_weight_profile) _
          (profile-total run.contention_weight_profile ready.valued) (λ weights e. (_, refl))

    weight_line-total :
        (weights : Dict F) (name : String)
        → run_weights run ≡ ok weights
        → Memᴰ name weight_names
        → Succeeds (weight_line weights name)
    weight_line-total weights name e m =
        let same = run_weights-keys run weights ready.known e in
        >>=-Succeeds (at_key name (get weights name)) _
          (at_key-total weights name
            (subst (λ ks. contains ks name ≡ true) (sym same) (contains_of_mem weight_names m)))
          (λ v found. (_, refl))

    policy_lines-total : Succeeds (policy_lines run)
    unfolding policy_lines
    policy_lines-total = elim (Bool-cases (str_eq (yaml_policy_name run.policy) "hotness_only")) [
      | inl h ↦ (hotness_lines run.policy, rw h)
      | inr h ↦ elim (Bool-cases (str_eq (yaml_policy_name run.policy) "contention_aware")) [
        | inl c ↦
            rw (h, c)
              (>>=-Succeeds (run_weights run) _ run_weights-total λ weights e.
                >>=-Succeeds (each (weight_line weights) weight_names) _
                  (each_total (weight_line weights) weight_names
                    (λ name m. weight_line-total weights name e m))
                  (λ lines es. (_, refl)))
        | inr c ↦ ([], rw (h, c))
      ]
    ]

    enough : ltb (length run.preset.compute_node_ids) run.compute_node_count ≡ false
    enough = ground (arith, ready.nodes)

    node_ids-total : Succeeds (node_ids_for_run run)
    unfolding node_ids_for_run
    node_ids-total = (take run.compute_node_count run.preset.compute_node_ids, rw enough)

    capacity-total : Succeeds (cache_capacity_bytes run)
    unfolding cache_capacity_bytes
    capacity-total =
        let (n, e) = ready.sized in
        let (x, scaled, rounded) =
          >>=-eq-ok
            (fl.scale (run.hot_set_size * run.preset.object_size_bytes)
              run.cache_capacity_hotset_multiplier)
            _ e in
        (max 1 n, rw (scaled, rounded))

    config_text-total : Succeeds (config_text run)
    unfolding config_text yaml_lines node_ids_for_run memory_base_latency
        memory_bandwidth_bytes_per_time one_way_link_latency cache_capacity_bytes
    config_text-total =
        >>=-Succeeds (yaml_lines run) _
          (>>=-Succeeds (node_ids_for_run run) _ node_ids-total λ ids e0.
            >>=-Succeeds (memory_base_latency run) _
              (at_key-total memory_base_latency_by_level run.memory_base_latency_level ready.base)
              λ base e1.
                >>=-Succeeds (memory_bandwidth_bytes_per_time run) _
                  (at_key-total memory_bandwidth_bytes_per_time_by_level run.memory_bandwidth_level
                    ready.bandwidth)
                  λ bandwidth e2.
                    >>=-Succeeds (one_way_link_latency run) _
                      (at_key-total link_latency_by_level run.link_latency_level ready.link)
                      λ link e3.
                        >>=-Succeeds (cache_capacity_bytes run) _ capacity-total λ capacity e4.
                          >>=-Succeeds (policy_lines run) _ policy_lines-total
                            λ policy e5. (_, refl))
          (λ lines e. (_, refl))

    -- The config of such a run is made, and passes all of the dry run's checks on it.
    pub config_text-check_config :
        (text : String) × (config_text run ≡ ok text) × (check_config run text ≡ ok tt)
    config_text-check_config =
        let (text, e) = config_text-total in
        (text, e, check_config-config_text run text ready.known e)
