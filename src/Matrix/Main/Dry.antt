-- ===== src/Matrix/Main/Dry.antt =====
-- The dry run of `main` (scripts/run_matrix.py).
use dm_simulator.Base.{String, ◌≡◌, ◌∙◌, refl, true, List, [], ◌∷◌, length, Result, ok, err}
use dm_simulator.Base.Float.{Floats, Arithmetic}
use dm_simulator.Base.Dict.{Dict}
use dm_simulator.Base.Process.{Exit}
use dm_simulator.Base.FilePath.{FilePath}
use dm_simulator.Matrix.Preset.{MatrixRun}
use dm_simulator.Matrix.Rows.{Cell}
use dm_simulator.Matrix.Summary.{Outputs, summarize_run}
use dm_simulator.Matrix.Yaml.{config_text}
use dm_simulator.Matrix.Main.{
  World, Modes, Progress, going, ended, write_aggregate_csv, record_or_crash, check_expected,
  with_config, settle, round, loop, finish, run_all, main,
}

-- The world of a loop.
abbrev reached : {F : Type 0} → Progress F → World
reached (going w rows) = w
reached (ended w e) = w

module _ {F : Type 0} ⦃fl : Floats F⦄ ⦃ar : Arithmetic F⦄ (simulate : List String → Exit)
    (outputs : FilePath → Outputs F) (show_cell : Cell F → String) (modes : Modes)
    (dry : modes.dry_run ≡ true) where
  round-launched :
      (p : Progress F) (run : MatrixRun F)
      → (reached (round simulate outputs show_cell modes p run)).launched ≡ (reached p).launched
  unfolding round with_config write_aggregate_csv
  round-launched (ended w e) run = refl
  round-launched (going w rows) run = by_config (config_text run)
    where
      by_row :
          (written : World) (row : Result (Dict (Cell F)))
          → (reached (
              settle simulate outputs show_cell modes rows (written, record_or_crash row))).launched
            ≡ written.launched
      by_row written (ok row) = refl
      by_row written (err e) = refl

      by_config :
          (config : Result String)
          → (reached (
              settle simulate outputs show_cell modes rows
                (with_config simulate outputs show_cell modes w run config))).launched
            ≡ w.launched
      by_config (err e) = refl
      by_config (ok t) = rw dry (by_row _ (summarize_run run (outputs run.output_dir) "dry_run" ""))

  loop-launched :
      (p : Progress F) (runs : List (MatrixRun F))
      → (reached (loop simulate outputs show_cell modes p runs)).launched ≡ (reached p).launched
  unfolding loop
  loop-launched p [] = refl
  loop-launched p (run ∷ runs) =
      loop-launched (round simulate outputs show_cell modes p run) runs ∙ round-launched p run

  module _ (show_names : List String → String) where
    -- A dry run launches nothing, however it ends.
    pub main-launched :
        (runs : List (MatrixRun F)) (policies : List String) (w : World)
        → (main simulate outputs show_cell modes show_names runs policies w).0.launched ≡ w.launched
    unfolding main write_aggregate_csv
    main-launched runs policies w = by_check (check_expected modes.expect_runs (length runs))
      where
        by_check :
            (r : Result (Unit {0}))
            → (run_all simulate outputs show_cell modes show_names runs policies w r).0.launched
              ≡ w.launched
        by_check (err e) = refl
        by_check (ok u) =
            by_end (loop simulate outputs show_cell modes (going w []) runs)
            ∙ loop-launched (going w []) runs
          where
            by_end :
                (p : Progress F)
                → (finish simulate outputs show_cell modes show_names runs policies p).0.launched
                  ≡ (reached p).launched
            by_end (going w rows) = refl
            by_end (ended w e) = refl
