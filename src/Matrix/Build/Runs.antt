-- ===== src/Matrix/Build/Runs.antt =====
-- The runs of `build_runs` and its errors (scripts/run_matrix.py).
use mathlib.Core.List.Memᴰ
use dm_simulator.Base.{
  ℕ, ◌-◌, ◌*◌, ◌≤◌, ◌<◌, String, Bool, true, false, ◌≡◌, ◌↔◌, refl, sym, subst, List, [], ◌∷◌, map,
  Memᴰ, concat, Result, ok, err, ◌>>◌, >>=-eq-ok, >>-eq-ok, each, ltb, ltb→le, arith, eq_iff,
  if◌then◌else◌, concat-mem, mem-concat, each-round, round-each, each_total,
}
use dm_simulator.Base.Float.{Floats}
use dm_simulator.Base.FilePath.{FilePath}
use dm_simulator.Matrix.Preset.{MatrixPreset, MatrixRun, ContentionWeightProfile}
use dm_simulator.Matrix.Weights.{contention_weight_profiles_for_policy}
use dm_simulator.Matrix.Run.{Point}
use dm_simulator.Matrix.Capacity.{channel_limit, validate_hot_object_capacity}
use dm_simulator.Matrix.Capacity.Channels.{objects_below}
use dm_simulator.Matrix.Capacity.Laws.{NeedsAtMost, validate_hot_object_capacity_iff, raise_if-ok}
use dm_simulator.Matrix.Build.{Dimensions, product, check_point, matrix_run, runs_at, build_runs}
use dm_simulator.Matrix.Build.Product.{IsSelected, product_lem}

-- A round that contributed a run was not skipped and passed its check.
kept_round :
    {A : Type 0} (skip : Bool) (check : Result (Unit {0})) (rs chunk : List A) {a : A}
    → (if skip then ok [] else (check >> ok rs)) ≡ ok chunk
    → Memᴰ a chunk
    → (skip ≡ false) × (check ≡ ok tt) × (chunk ≡ rs)
kept_round true check rs [] h m = absurd (Memᴰ.not-nil m)
kept_round true check rs (x ∷ xs) h m = cc
kept_round false (ok u) rs chunk h m = (refl, refl, cc)
kept_round false (err e) rs chunk h m = cc

total_round :
    {A : Type 0} (skip : Bool) (check : Result (Unit {0})) (rs : List A)
    → (skip ≡ false → check ≡ ok tt)
    → (chunk : List A) × ((if skip then ok [] else (check >> ok rs)) ≡ ok chunk)
total_round true check rs h = ([], refl)
total_round false check rs h = (rs, rw (h refl))

kept_check :
    {A : Type 0} (skip : Bool) (check : Result (Unit {0})) (rs chunk : List A)
    → (if skip then ok [] else (check >> ok rs)) ≡ ok chunk
    → skip ≡ false
    → (check ≡ ok tt) × (chunk ≡ rs)
kept_check true check rs chunk h e = cc
kept_check false (ok u) rs chunk h e = (refl, cc)
kept_check false (err x) rs chunk h e = cc

module _ {F : Type 0} ⦃fl : Floats F⦄ (sha1 : String → String) (preset : MatrixPreset F)
    (d : Dimensions F) (dir : FilePath) where
  -- A point that is not skipped: the hot objects have no more channels than the memory.
  abbrev pub Kept : Point F → Type 0
  Kept p = IsSelected d p × (p.hot_object_channel_count ≤ p.memory_channel_count)

  -- The run of a kept point under one of its policy's weight profiles.
  abbrev pub IsRunOf : MatrixRun F → Point F → ContentionWeightProfile F → Type 0
  IsRunOf run p w =
      Kept p
      × Memᴰ w (contention_weight_profiles_for_policy preset p.policy)
      × (run ≡ matrix_run sha1 preset dir p w)

  -- Whether the runs of the point are skipped, and what they are.
  abbrev skipped : Point F → Bool
  skipped p = ltb p.memory_channel_count p.hot_object_channel_count

  abbrev runs_of : Point F → List (MatrixRun F)
  runs_of p =
      map (matrix_run sha1 preset dir p) (contention_weight_profiles_for_policy preset p.policy)

  build_runs-rounds :
      (runs : List (MatrixRun F))
      → build_runs sha1 preset d dir ≡ ok runs
      → (rounds : List (List (MatrixRun F))) × (each (runs_at sha1 preset dir) (product d)
          ≡ ok rounds)
        × (concat rounds ≡ runs)
  unfolding build_runs
  build_runs-rounds runs h =
      let (rounds, e, h') = >>=-eq-ok (each (runs_at sha1 preset dir) (product d)) _ h in
      (rounds, e, cc)

  runs-from :
      (runs : List (MatrixRun F)) (run : MatrixRun F)
      → build_runs sha1 preset d dir ≡ ok runs
      → Memᴰ run runs
      → (p : Point F) × (w : ContentionWeightProfile F) × (check_point preset p ≡ ok tt)
        × IsRunOf run p w
  unfolding runs_at
  runs-from runs run h m =
      let (rounds, e, same) = build_runs-rounds runs h in
      let (chunk, mc, mr) = mem-concat rounds (subst (Memᴰ run) (sym same) m) in
      let (p, mp, ep) = round-each (runs_at sha1 preset dir) (product d) rounds e mc in
      let (kept, checked, whole) =
        kept_round (skipped p) (check_point preset p) (runs_of p) chunk ep mr in
      let (w, mw, ew) = Memᴰ.of_map (matrix_run sha1 preset dir p) _ (subst (Memᴰ run) whole mr) in
      (p, w, checked, ((((product_lem d).0 p).0 mp, ltb→le _ _ kept), mw, sym ew))

  runs-to :
      (runs : List (MatrixRun F)) (p : Point F) (w : ContentionWeightProfile F)
      → build_runs sha1 preset d dir ≡ ok runs
      → Kept p
      → Memᴰ w (contention_weight_profiles_for_policy preset p.policy)
      → Memᴰ (matrix_run sha1 preset dir p w) runs
  unfolding runs_at
  runs-to runs p w h (selected, fits) mw =
      let (rounds, e, same) = build_runs-rounds runs h in
      let (chunk, ep, mc) =
        each-round (runs_at sha1 preset dir) (product d) rounds e
          (((product_lem d).0 p).1 selected) in
      let (checked, whole) =
        kept_check (skipped p) (check_point preset p) (runs_of p) chunk ep (ground arith) in
      subst (Memᴰ _) same (
        concat-mem rounds mc
          (subst (Memᴰ _) (sym whole) (Memᴰ.map (matrix_run sha1 preset dir p) mw)))

  -- A successful call returns exactly the runs of the kept points under their profiles.
  pub build_runs-mem :
      (runs : List (MatrixRun F)) (run : MatrixRun F)
      → build_runs sha1 preset d dir ≡ ok runs
      → Memᴰ run runs ↔ ((p : Point F) × (w : ContentionWeightProfile F) × IsRunOf run p w)
  build_runs-mem runs run h = (
    λ m. let (p, w, checked, r) = runs-from runs run h m in (p, w, r),
    λ (p, w, r). subst (λ x. Memᴰ x runs) (sym r.2) (runs-to runs p w h r.0 r.1),
  )

  -- The call succeeds just when every kept point passes the checks; one that fails fails it all.
  pub build_runs-succeeds :
      ((runs : List (MatrixRun F)) × (build_runs sha1 preset d dir ≡ ok runs))
      ↔ ((p : Point F) → Kept p → check_point preset p ≡ ok tt)
  build_runs-succeeds = (checks-of_runs, runs-of_checks)
    where
      checks-of_runs :
          (runs : List (MatrixRun F)) × (build_runs sha1 preset d dir ≡ ok runs)
          → (p : Point F) → Kept p
          → check_point preset p ≡ ok tt
      checks-of_runs (runs, h) p (selected, fits) =
          let (rounds, e, same) = build_runs-rounds runs h in
          let (chunk, ep, mc) =
            each-round (runs_at sha1 preset dir) (product d) rounds e
              (((product_lem d).0 p).1 selected) in
          (kept_check (skipped p) (check_point preset p) (runs_of p) chunk (unfold runs_at in ep)
            (ground arith)).0

      runs-of_checks :
          ((p : Point F) → Kept p → check_point preset p ≡ ok tt)
          → (runs : List (MatrixRun F)) × (build_runs sha1 preset d dir ≡ ok runs)
      runs-of_checks h =
          let (rounds, e) = each_total (runs_at sha1 preset dir) (product d) (λ p m.
            unfold runs_at in
            total_round (skipped p) (check_point preset p) (runs_of p)
              (λ k. h p (((product_lem d).0 p).0 m, ltb→le _ _ k))) in
          (concat rounds, unfold build_runs in rw e)

  -- What the simulator's workload generator needs of a run: a memory channel, no more hot channels
  -- than there are, as many objects in the eligible channels as the hot sets and their churn ask
  -- for, and in bursty mode a burst that ends before the next one starts.
  pub record IsFeasible (run : MatrixRun F) : Type 0 where
    pub channels : 0 < run.memory_channel_count
    pub hot_channels : run.hot_object_channel_count ≤ run.memory_channel_count
    pub objects :
        NeedsAtMost run.compute_node_count run.hot_set_size run.cross_node_overlap
          run.preset.hot_set_mode run.hot_set_churn_fraction
          (objects_below run.object_count run.memory_channel_count
            (channel_limit run.memory_channel_count run.hot_object_channel_count))
    pub timing : ¬ (
        (run.workload_issue_mode ≡ "scheduled_bursty")
        × (1 < run.burst_size)
        × (run.burst_interval < (run.burst_size - 1) * run.intra_burst_gap))

  channel_limit-le : (channels hot : ℕ) → hot ≤ channels → channel_limit channels hot ≤ channels
  unfolding channel_limit
  channel_limit-le channels hot h = ground arith

  checked-IsFeasible :
      (p : Point F) (w : ContentionWeightProfile F)
      → p.hot_object_channel_count ≤ p.memory_channel_count
      → check_point preset p ≡ ok tt
      → IsFeasible (matrix_run sha1 preset dir p w)
  unfolding check_point matrix_run
  checked-IsFeasible p w fits h =
      let (e, t) =
        >>-eq-ok
          (validate_hot_object_capacity p.object_count p.node_count p.hot_set_size p.overlap
            preset.hot_set_mode p.churn_fraction p.memory_channel_count p.hot_object_channel_count)
          _ h in
      let (c, n) =
        (validate_hot_object_capacity_iff p.node_count p.hot_set_size p.overlap preset.hot_set_mode
            p.churn_fraction p.object_count p.memory_channel_count p.hot_object_channel_count
            (channel_limit-le p.memory_channel_count p.hot_object_channel_count fits)).0
          e in
      record {
        channels = c;
        hot_channels = fits;
        objects = n;
        timing = λ (mode, big, late).
            ground (arith, eq_iff p.workload_issue_mode "scheduled_bursty", raise_if-ok _ _ t);
      }

  -- Every run of a successful call is feasible.
  pub build_runs-IsFeasible :
      (runs : List (MatrixRun F)) (run : MatrixRun F)
      → build_runs sha1 preset d dir ≡ ok runs
      → Memᴰ run runs
      → IsFeasible run
  build_runs-IsFeasible runs run h m =
      let (p, w, checked, r) = runs-from runs run h m in
      subst IsFeasible (sym r.2) (checked-IsFeasible p w r.0.1 checked)
