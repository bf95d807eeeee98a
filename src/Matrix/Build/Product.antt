-- ===== src/Matrix/Build/Product.antt =====
-- The product of the dimensions in `build_runs` (scripts/run_matrix.py).
use dm_simulator.Base.{
  List, ◌⊛◌, String, ℕ, ◌*◌, ◌≡◌, refl, ap, ◌↔◌, [], ◌∷◌, Memᴰ, length, length-⊛, ⊛-mem, ⊛-all,
  arith,
}
use mathlib.Core.List.Memᴰ
use dm_simulator.Base.Int.{ℤ}
use dm_simulator.Matrix.Run.{Point}
use dm_simulator.Matrix.Build.{Dimensions, point, product}

-- Membership in a product of lists, one list after the other.
infixl 5 ◌⊛∈◌
◌⊛∈◌ :
    {A B : Type 0} {fs : List (A → B)} {xs : List A} {f : A → B} {x : A}
    → Memᴰ f fs
    → Memᴰ x xs
    → Memᴰ (f x) (fs ⊛ xs)
m ⊛∈ n = ⊛-mem m n

module _ {F : Type 0} (d : Dimensions F) where
  -- Every coordinate of the point is one of its dimension's values.
  pub record IsSelected (p : Point F) : Type 0 where
    pub in_seeds : Memᴰ p.seed d.seeds
    pub in_policies : Memᴰ p.policy d.policies
    pub in_node_counts : Memᴰ p.node_count d.node_counts
    pub in_object_counts : Memᴰ p.object_count d.object_counts
    pub in_epoch_counts : Memᴰ p.epoch_count d.epoch_counts
    pub in_epoch_lengths : Memᴰ p.epoch_length d.epoch_lengths
    pub in_workload_issue_modes : Memᴰ p.workload_issue_mode d.workload_issue_modes
    pub in_burst_sizes : Memᴰ p.burst_size d.burst_sizes
    pub in_burst_intervals : Memᴰ p.burst_interval d.burst_intervals
    pub in_intra_burst_gaps : Memᴰ p.intra_burst_gap d.intra_burst_gaps
    pub in_node_phase_jitters : Memᴰ p.node_phase_jitter d.node_phase_jitters
    pub in_hot_set_sizes : Memᴰ p.hot_set_size d.hot_set_sizes
    pub in_hot_access_probabilities : Memᴰ p.hot_access_probability d.hot_access_probabilities
    pub in_churn_fractions : Memᴰ p.churn_fraction d.churn_fractions
    pub in_overlaps : Memᴰ p.overlap d.overlaps
    pub in_object_size_modes : Memᴰ p.object_size_mode d.object_size_modes
    pub in_large_object_probabilities : Memᴰ p.large_probability d.large_object_probabilities
    pub in_cache_multipliers : Memᴰ p.cache_multiplier d.cache_multipliers
    pub in_memory_channel_counts : Memᴰ p.memory_channel_count d.memory_channel_counts
    pub in_hot_object_channel_counts : Memᴰ p.hot_object_channel_count d.hot_object_channel_counts
    pub in_memory_bandwidth_levels : Memᴰ p.bandwidth_level d.memory_bandwidth_levels
    pub in_memory_base_latency_levels : Memᴰ p.base_level d.memory_base_latency_levels
    pub in_link_latency_levels : Memᴰ p.link_level d.link_latency_levels

  product-mem : (p : Point F) → IsSelected p → Memᴰ p (product d)
  unfolding product
  product-mem p s =
      Memᴰ.head refl
      ⊛∈ s.in_seeds
      ⊛∈ s.in_policies
      ⊛∈ s.in_node_counts
      ⊛∈ s.in_object_counts
      ⊛∈ s.in_epoch_counts
      ⊛∈ s.in_epoch_lengths
      ⊛∈ s.in_workload_issue_modes
      ⊛∈ s.in_burst_sizes
      ⊛∈ s.in_burst_intervals
      ⊛∈ s.in_intra_burst_gaps
      ⊛∈ s.in_node_phase_jitters
      ⊛∈ s.in_hot_set_sizes
      ⊛∈ s.in_hot_access_probabilities
      ⊛∈ s.in_churn_fractions
      ⊛∈ s.in_overlaps
      ⊛∈ s.in_object_size_modes
      ⊛∈ s.in_large_object_probabilities
      ⊛∈ s.in_cache_multipliers
      ⊛∈ s.in_memory_channel_counts
      ⊛∈ s.in_hot_object_channel_counts
      ⊛∈ s.in_memory_bandwidth_levels
      ⊛∈ s.in_memory_base_latency_levels
      ⊛∈ s.in_link_latency_levels

  selected_point :
      (f : ℤ
        → String
        → ℕ
        → ℕ
        → ℕ
        → ℕ
        → String
        → ℕ
        → ℕ
        → ℕ
        → ℕ
        → ℕ
        → F
        → F
        → String
        → String
        → F
        → F
        → ℕ
        → ℕ
        → String
        → String
        → String
        → Point F)
      → Memᴰ f (point ∷ [])
      → (x0 : ℤ) → Memᴰ x0 d.seeds
      → (x1 : String) → Memᴰ x1 d.policies
      → (x2 : ℕ) → Memᴰ x2 d.node_counts
      → (x3 : ℕ) → Memᴰ x3 d.object_counts
      → (x4 : ℕ) → Memᴰ x4 d.epoch_counts
      → (x5 : ℕ) → Memᴰ x5 d.epoch_lengths
      → (x6 : String) → Memᴰ x6 d.workload_issue_modes
      → (x7 : ℕ) → Memᴰ x7 d.burst_sizes
      → (x8 : ℕ) → Memᴰ x8 d.burst_intervals
      → (x9 : ℕ) → Memᴰ x9 d.intra_burst_gaps
      → (x10 : ℕ) → Memᴰ x10 d.node_phase_jitters
      → (x11 : ℕ) → Memᴰ x11 d.hot_set_sizes
      → (x12 : F) → Memᴰ x12 d.hot_access_probabilities
      → (x13 : F) → Memᴰ x13 d.churn_fractions
      → (x14 : String) → Memᴰ x14 d.overlaps
      → (x15 : String) → Memᴰ x15 d.object_size_modes
      → (x16 : F) → Memᴰ x16 d.large_object_probabilities
      → (x17 : F) → Memᴰ x17 d.cache_multipliers
      → (x18 : ℕ) → Memᴰ x18 d.memory_channel_counts
      → (x19 : ℕ) → Memᴰ x19 d.hot_object_channel_counts
      → (x20 : String) → Memᴰ x20 d.memory_bandwidth_levels
      → (x21 : String) → Memᴰ x21 d.memory_base_latency_levels
      → (x22 : String) → Memᴰ x22 d.link_latency_levels
      → IsSelected
          (f x0 x1 x2 x3 x4 x5 x6 x7 x8 x9 x10 x11 x12 x13 x14 x15 x16 x17 x18 x19 x20 x21 x22)
  selected_point f m x0 m0 x1 m1 x2 m2 x3 m3 x4 m4 x5 m5 x6 m6 x7 m7 x8 m8 x9 m9 x10 m10 x11 m11 x12
        m12 x13 m13 x14 m14 x15 m15 x16 m16 x17 m17 x18 m18 x19 m19 x20 m20 x21 m21 x22 m22 =
      rw (Memᴰ.eq_of_singleton m) (record {
        in_seeds = m0;
        in_policies = m1;
        in_node_counts = m2;
        in_object_counts = m3;
        in_epoch_counts = m4;
        in_epoch_lengths = m5;
        in_workload_issue_modes = m6;
        in_burst_sizes = m7;
        in_burst_intervals = m8;
        in_intra_burst_gaps = m9;
        in_node_phase_jitters = m10;
        in_hot_set_sizes = m11;
        in_hot_access_probabilities = m12;
        in_churn_fractions = m13;
        in_overlaps = m14;
        in_object_size_modes = m15;
        in_large_object_probabilities = m16;
        in_cache_multipliers = m17;
        in_memory_channel_counts = m18;
        in_hot_object_channel_counts = m19;
        in_memory_bandwidth_levels = m20;
        in_memory_base_latency_levels = m21;
        in_link_latency_levels = m22;
      })

  mem-product : (p : Point F) → Memᴰ p (product d) → IsSelected p
  unfolding product
  mem-product = ⊛-all _ _ _ (
      ⊛-all _ _ _ (
        ⊛-all _ _ _ (
          ⊛-all _ _ _ (
            ⊛-all _ _ _ (
              ⊛-all _ _ _ (
                ⊛-all _ _ _ (
                  ⊛-all _ _ _ (
                    ⊛-all _ _ _ (
                      ⊛-all _ _ _ (
                        ⊛-all _ _ _ (
                          ⊛-all _ _ _ (
                            ⊛-all _ _ _ (
                              ⊛-all _ _ _ (
                                ⊛-all _ _ _ (
                                  ⊛-all _ _ _ (
                                    ⊛-all _ _ _ (
                                      ⊛-all _ _ _ (
                                        ⊛-all _ _ _ (
                                          ⊛-all _ _ _ (
                                            ⊛-all _ _ _ (
                                              ⊛-all _ _ _
                                                (⊛-all _ _ _ (selected_point)))))))))))))))))))))))

  -- A point is in the product just when each of its coordinates is selected, and the product has as
  -- many points, repeated ones counted, as the dimensions' lengths multiply to.
  pub product_lem :
      ((p : Point F) → Memᴰ p (product d) ↔ IsSelected p)
      × (length (product d)
          ≡ length d.seeds
            * length d.policies
            * length d.node_counts
            * length d.object_counts
            * length d.epoch_counts
            * length d.epoch_lengths
            * length d.workload_issue_modes
            * length d.burst_sizes
            * length d.burst_intervals
            * length d.intra_burst_gaps
            * length d.node_phase_jitters
            * length d.hot_set_sizes
            * length d.hot_access_probabilities
            * length d.churn_fractions
            * length d.overlaps
            * length d.object_size_modes
            * length d.large_object_probabilities
            * length d.cache_multipliers
            * length d.memory_channel_counts
            * length d.hot_object_channel_counts
            * length d.memory_bandwidth_levels
            * length d.memory_base_latency_levels
            * length d.link_latency_levels)
  product_lem = (
    λ p. (mem-product p, product-mem p),
    unfold product in
        simp length-⊛ (
          ap
            (λ n.
              n
              * length d.policies
              * length d.node_counts
              * length d.object_counts
              * length d.epoch_counts
              * length d.epoch_lengths
              * length d.workload_issue_modes
              * length d.burst_sizes
              * length d.burst_intervals
              * length d.intra_burst_gaps
              * length d.node_phase_jitters
              * length d.hot_set_sizes
              * length d.hot_access_probabilities
              * length d.churn_fractions
              * length d.overlaps
              * length d.object_size_modes
              * length d.large_object_probabilities
              * length d.cache_multipliers
              * length d.memory_channel_counts
              * length d.hot_object_channel_counts
              * length d.memory_bandwidth_levels
              * length d.memory_base_latency_levels
              * length d.link_latency_levels)
            (omega arith)),
  )
