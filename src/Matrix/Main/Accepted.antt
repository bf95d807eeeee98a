-- ===== src/Matrix/Main/Accepted.antt =====
-- The check at the end of a dry run of `main`, for runs of `build_runs` (scripts/run_matrix.py).
use dm_simulator.Base.{
  ℕ, String, ◌<>◌, ◌≡◌, ◌∙◌, refl, sym, ap, suc, subst, Bool, true, false, some, List, [], ◌∷◌, map,
  length, length-map, All, All-of_Memᴰ, Memᴰ, Result, ok, >>=-eq-ok, contains, contains_of_mem,
  str_eq, eq_iff, Bool-cases, inl, inr, if◌then◌else◌,
}
use mathlib.Core.List.Memᴰ
use dm_simulator.Base.Float.{Floats, Arithmetic}
use dm_simulator.Base.Dict.{Dict, get, get-insert, NodupKeys}
use dm_simulator.Base.Process.{Exit}
use dm_simulator.Base.FilePath.{FilePath, join, show_path}
use dm_simulator.Matrix.Preset.{MatrixPreset, MatrixRun}
use dm_simulator.Matrix.Run.{
  node_ids_for_run, memory_bandwidth_bytes_per_time, memory_base_latency, one_way_link_latency,
  cache_capacity_bytes,
}
use dm_simulator.Matrix.Rows.{Cell, aggregate_columns, base_cells, base_row, csv_row}
use dm_simulator.Matrix.Summary.{Outputs, summarize_run}
use dm_simulator.Matrix.Build.{Dimensions, matrix_run, build_runs}
use dm_simulator.Matrix.Build.Runs.{build_runs-mem}
use dm_simulator.Matrix.Yaml.{config_text}
use dm_simulator.Matrix.DryRun.{check_config}
use dm_simulator.Matrix.DryRun.Runs.{IsWritable, build_runs-check_config}
use dm_simulator.Matrix.DryRun.Verify.{row_policy, check_weights}
use dm_simulator.Matrix.DryRun.Verified.{IsChecked, verify_dry_run_iff}
use dm_simulator.Matrix.Main.{
  World, Modes, going, aggregate_path, write_aggregate_csv, check_expected, loop, main,
}
use dm_simulator.Matrix.Main.Files.{config_files, just_runs, get-write_all}
use dm_simulator.Matrix.Main.Loop.{write_all, IsDry, Pairwise, loop-dry}

when_true : (b : Bool) (x y : Result (Unit {0})) → b ≡ true → (if b then x else y) ≡ x
when_true true x y h = refl
when_true false x y h = cc

abbrev pub run_names : {F : Type 0} → List (MatrixRun F) → List String
run_names = map λ run. run.run_name

abbrev pub run_policies : {F : Type 0} → List (MatrixRun F) → List String
run_policies = map λ run. run.policy

module _ {F : Type 0} ⦃fl : Floats F⦄ ⦃ar : Arithmetic F⦄ (simulate : List String → Exit)
    (outputs : FilePath → Outputs F) (show_cell : Cell F → String) (modes : Modes) where
  -- A run whose config is made and passes its checks.
  abbrev IsGood : MatrixRun F → Type 0
  IsGood run = (t : String) × (config_text run ≡ ok t) × (check_config run t ≡ ok tt)

  dry_row_of :
      (run : MatrixRun F) {capacity bandwidth base link : ℕ}
      → cache_capacity_bytes run ≡ ok capacity
      → memory_bandwidth_bytes_per_time run ≡ ok bandwidth
      → memory_base_latency run ≡ ok base
      → one_way_link_latency run ≡ ok link
      → summarize_run run (outputs run.output_dir) "dry_run" ""
        ≡ ok (base_cells run "dry_run" "" capacity bandwidth base link)
  unfolding summarize_run base_row
  dry_row_of run e1 e2 e3 e4 = rw (e1, e2, e3, e4) refl

  -- Its dry row is made as well, and has its policy.
  dry_row :
      (run : MatrixRun F) (t : String)
      → check_config run t ≡ ok tt
      → (row : Dict (Cell F)) × (summarize_run run (outputs run.output_dir) "dry_run" "" ≡ ok row)
        × (row_policy row ≡ ok run.policy)
  unfolding check_config get
  dry_row run t h =
      let (ids, e0, h0) = >>=-eq-ok (node_ids_for_run run) _ h in
      let (base, e1, h1) = >>=-eq-ok (memory_base_latency run) _ h0 in
      let (bandwidth, e2, h2) = >>=-eq-ok (memory_bandwidth_bytes_per_time run) _ h1 in
      let (link, e3, h3) = >>=-eq-ok (one_way_link_latency run) _ h2 in
      let (capacity, e4, h4) = >>=-eq-ok (cache_capacity_bytes run) _ h3 in
      (base_cells run "dry_run" "" capacity bandwidth base link, dry_row_of run e4 e2 e1 e3, refl)

  abbrev Prepared : List (MatrixRun F) → Type 0
  Prepared runs =
      (pairs : List (MatrixRun F × String)) × (rows : List (Dict (Cell F))) × (just_runs simulate
          outputs show_cell modes pairs
        ≡ runs)
      × Pairwise simulate outputs show_cell modes (IsDry simulate outputs show_cell modes) pairs
          rows
      × All (λ (run, t). check_config run t ≡ ok tt) pairs
      × (map row_policy rows ≡ map ok (run_policies runs))
      × (length rows ≡ length runs)

  prepare : (runs : List (MatrixRun F)) → All IsGood runs → Prepared runs
  prepare [] h = ([], [], refl, tt, tt, refl, refl)
  prepare (run ∷ runs) ((t, e, good), h) =
      let (pairs, rows, same, dry, checked, policies, count) = prepare runs h in
      let (row, made, policy) = dry_row run t good in
      (
        (run, t) ∷ pairs,
        row ∷ rows,
        ap (λ rs. run ∷ rs) same,
        ((e, made), dry),
        (good, checked),
        rw (policy, policies) refl,
        ap suc count,
      )

  checked_files :
      (files : Dict String) (pairs : List (MatrixRun F × String))
      → All (λ (run, t). get files (show_path run.config_path) ≡ some t) pairs
      → All (λ (run, t). check_config run t ≡ ok tt) pairs
      → All (IsChecked files) (just_runs simulate outputs show_cell modes pairs)
  checked_files files [] f c = tt
  checked_files files ((run, t) ∷ pairs) (found, f) (good, c) =
      ((t, found, good), checked_files files pairs f c)

  -- Runs with distinct paths have distinct names, if a name gives the path.
  names-NodupKeys :
      (dir : String → FilePath) (runs : List (MatrixRun F))
      → All (λ run. run.config_path ≡ dir run.run_name) runs
      → NodupKeys (config_files runs)
      → NodupKeys (run_names runs)
  names-NodupKeys dir [] p h = tt
  names-NodupKeys dir (run ∷ runs) (e, p) (fresh, h) =
      (absent runs p fresh, names-NodupKeys dir runs p h)
    where
      absent :
          (others : List (MatrixRun F))
          → All (λ other. other.config_path ≡ dir other.run_name) others
          → contains (config_files others) (show_path run.config_path) ≡ false
          → contains (run_names others) run.run_name ≡ false
      absent [] q f = refl
      absent (other ∷ others) (e', q) f =
          elim (Bool-cases (str_eq (show_path other.config_path) (show_path run.config_path))) [
            | inl same ↦ cc (rw same at f)
            | inr differs ↦ elim (Bool-cases (str_eq other.run_name run.run_name)) [
              | inr apart ↦ rw apart (absent others q (rw differs at f))
              | inl named ↦
                  let path : other.config_path ≡ run.config_path =
                    e' ∙ ap dir ((eq_iff other.run_name run.run_name).0 named) ∙ sym e in
                  cc (
                    (eq_iff (show_path other.config_path) (show_path run.config_path)).1
                      (ap show_path path))
            ]
          ]

  -- Good runs with distinct names and files are accepted.
  dry_run-accepted :
      (show_names : List String → String) (runs : List (MatrixRun F)) (policies : List String)
      (w : World)
      → modes.dry_run ≡ true
      → check_expected modes.expect_runs (length runs) ≡ ok tt
      → All IsGood runs
      → NodupKeys (config_files runs)
      → NodupKeys (run_names runs)
      → All (λ p. contains policies p ≡ true) (run_policies runs)
      → All (λ p. contains (run_policies runs) p ≡ true) policies
      → check_weights runs policies ≡ ok tt
      → (main simulate outputs show_cell modes show_names runs policies w).1 ≡ ok tt
  unfolding main write_aggregate_csv
  dry_run-accepted show_names runs policies w dry expected good files names within covers weights =
      let (pairs, rows, same, drys, checked, made, count) = prepare runs good in
      let there = write_all simulate outputs show_cell modes w pairs in
      let looped : loop simulate outputs show_cell modes (going w []) runs ≡ going there rows =
        subst (λ rs. loop simulate outputs show_cell modes (going w []) rs ≡ going there rows) same
          (loop-dry simulate outputs show_cell modes dry w [] pairs rows drys) in
      let body = map (λ row. map (λ (_, cell). show_cell cell) (csv_row row)) rows in
      let accepted =
        (verify_dry_run_iff show_names there.files _ runs rows policies (aggregate_path modes)).1
          (record {
            names = names;
            policies = (run_policies runs, made, within, covers);
            configs = subst (All (IsChecked there.files)) same (
                checked_files there.files pairs
                  (get-write_all simulate outputs show_cell modes w pairs
                    (subst (λ rs. NodupKeys (config_files rs)) (sym same) files))
                  checked);
            table = (
              body,
              get-insert there.tables (show_path (aggregate_path modes))
                    (show_path (aggregate_path modes)) (aggregate_columns ∷ body)
                  ∙ ap
                      (λ b.
                        if b
                        then some (aggregate_columns ∷ body)
                        else get there.tables (show_path (aggregate_path modes)))
                      ((eq_iff (show_path (aggregate_path modes)) _).1 refl),
              length-map _ rows ∙ count,
            );
            weights = weights;
          }) in
      rw (expected, looped) (when_true modes.dry_run _ _ dry ∙ accepted)

  not_weights :
      (runs : List (MatrixRun F)) (selected : List String)
      → All (λ run. str_eq run.preset.name "eval_contention_weight_sensitivity" ≡ false) runs
      → check_weights runs selected ≡ ok tt
  unfolding check_weights
  not_weights [] selected h = refl
  not_weights (run ∷ runs) selected (other, h) = rw other

  -- A dry run of the runs that `build_runs` makes of writable options passes its own check, if the
  -- configs have distinct paths, every selected policy has a run, and the preset is not the one of
  -- the weight sweep.
  pub main-build_runs :
      (show_names : List String → String) (sha1 : String → String) (preset : MatrixPreset F)
      (d : Dimensions F) (runs : List (MatrixRun F)) (w : World)
      → modes.dry_run ≡ true
      → check_expected modes.expect_runs (length runs) ≡ ok tt
      → build_runs sha1 preset d modes.results_dir ≡ ok runs
      → IsWritable preset d
      → str_eq preset.name "eval_contention_weight_sensitivity" ≡ false
      → NodupKeys (config_files runs)
      → All (λ p. contains (run_policies runs) p ≡ true) d.policies
      → (main simulate outputs show_cell modes show_names runs d.policies w).1 ≡ ok tt
  unfolding matrix_run
  main-build_runs show_names sha1 preset d runs w dry expected built writable other files covers =
      let found =
        λ (run : MatrixRun F). (build_runs-mem sha1 preset d modes.results_dir runs run built).0 in
      dry_run-accepted show_names runs d.policies w dry expected
        (All-of_Memᴰ IsGood runs (λ run m.
          build_runs-check_config sha1 preset d modes.results_dir writable runs run built m))
        files
        (names-NodupKeys
          (λ name. join (join modes.results_dir "generated_configs") (name <> ".yaml")) runs
          (All-of_Memᴰ _ runs (λ run m.
            let (p, wt, r) = found run m in
            subst
              (λ x.
                x.config_path
                ≡ join (join modes.results_dir "generated_configs") (x.run_name <> ".yaml"))
              (sym r.2) refl))
          files)
        (All-of_Memᴰ _ (run_policies runs) (λ policy m.
          let (run, mr, e) = Memᴰ.of_map (λ (run : MatrixRun F). run.policy) runs m in
          let (p, wt, r) = found run mr in
          contains_of_mem d.policies
            (subst (λ x. Memᴰ x d.policies) (ap (λ x. x.policy) (sym r.2) ∙ e) r.0.0.in_policies)))
        covers
        (not_weights runs d.policies (
          All-of_Memᴰ _ runs (λ run m.
            let (p, wt, r) = found run m in
            subst (λ x. str_eq x.preset.name "eval_contention_weight_sensitivity" ≡ false) (sym r.2)
              other)))
