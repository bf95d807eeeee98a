-- ===== src/Matrix/Main.antt =====
-- `main` after the options are read (scripts/run_matrix.py): the configs, the runs of the simulator
-- and the aggregate CSV.
pub mod Loop
pub mod Dry
pub mod Files
pub mod Accepted
use dm_simulator.Base.{
  ℕ, String, ◌<>◌, Bool, true, false, not, Option, none, some, List, [], ◌∷◌, ◌++◌, map, length,
  Result, ok, err, Exception, system_exit, called_process_error, os_error, ◌>>=◌, ◌>>◌, raise_if,
  if◌then◌else◌, ◌==◌,
}
use dm_simulator.Base.Int.{show_ℕ}
use dm_simulator.Base.Float.{Floats, Arithmetic}
use dm_simulator.Base.Dict.{Dict, insert}
use dm_simulator.Base.Process.{Exit, exit_success, exit_failure, not_started}
use dm_simulator.Base.FilePath.{FilePath, join, show_path}
use dm_simulator.Matrix.Preset.{MatrixRun}
use dm_simulator.Matrix.Rows.{Cell, aggregate_columns, csv_row}
use dm_simulator.Matrix.Summary.{Outputs, summarize_run}
use dm_simulator.Matrix.Yaml.{config_text}
use dm_simulator.Matrix.DryRun.Verify.{Table, verify_dry_run}

-- The files that `main` writes, by their paths' texts, and the commands that it has given to
-- `subprocess.run`.
pub record World : Type 0 where
  pub files : Dict String
  pub tables : Dict Table
  pub launched : List (List String)

-- The modes of `main`.
pub record Modes : Type 0 where
  pub dry_run : Bool
  pub keep_going : Bool
  pub expect_runs : Option ℕ
  pub binary : FilePath
  pub results_dir : FilePath

-- How a round of the loop ends: with a row for the next round, with a row that is the last, or
-- with an exception of `write_yaml_config` or `summarize_run`, or an `OSError` of `subprocess.run`.
pub data Round (F : Type 0) : Type 0 where
  recorded : Dict (Cell F) → Round F
  halted : Dict (Cell F) → Exception → Round F
  crashed : Exception → Round F

-- The loop goes on with its rows, or an exception has left it.
pub data Progress (F : Type 0) : Type 0 where
  going : World → List (Dict (Cell F)) → Progress F
  ended : World → Exception → Progress F

abbrev pub aggregate_path : Modes → FilePath
aggregate_path modes = join modes.results_dir "aggregate_summary.csv"

abbrev pub write_file : World → FilePath → String → World
write_file w path text = record {
  files = insert w.files (show_path path) text;
  tables = w.tables;
  launched = w.launched;
}

abbrev pub launch : World → List String → World
launch w command = record {
  files = w.files;
  tables = w.tables;
  launched = w.launched ++ (command ∷ []);
}

-- `write_aggregate_csv`: `show_cell` is the text that the `csv` module writes for a cell.
unfoldable pub write_aggregate_csv :
    {F : Type 0} → (Cell F → String) → World → FilePath → List (Dict (Cell F)) → World
write_aggregate_csv show_cell w path rows = record {
  files = w.files;
  tables =
      insert w.tables (show_path path)
        (aggregate_columns ∷ map (λ row. map (λ (_, cell). show_cell cell) (csv_row row)) rows);
  launched = w.launched;
}

-- The command of `run_simulator`.
abbrev pub command : {F : Type 0} → FilePath → MatrixRun F → List String
command binary run =
    show_path binary
    ∷ "--config"
    ∷ show_path run.config_path
    ∷ "--output-dir"
    ∷ show_path run.output_dir
    ∷ []

abbrev pub record_or_crash : {F : Type 0} → Result (Dict (Cell F)) → Round F
record_or_crash (ok row) = recorded row
record_or_crash (err e) = crashed e

-- A failed run: `raise` again, unless `keep_going`.
abbrev pub after_failure : {F : Type 0} → Bool → String → Result (Dict (Cell F)) → Round F
after_failure keep_going message (err e) = crashed e
after_failure true message (ok row) = recorded row
after_failure false message (ok row) = halted row (called_process_error message)

-- `--expect-runs`
abbrev pub check_expected : Option ℕ → ℕ → Result (Unit {0})
check_expected none count = ok tt
check_expected (some expected) count =
    raise_if (not (count == expected))
      (system_exit ("Expected " <> (show_ℕ expected <> (" generated runs, got " <> show_ℕ count))))

module _ {F : Type 0} ⦃fl : Floats F⦄ ⦃ar : Arithmetic F⦄ (simulate : List String → Exit)
    (outputs : FilePath → Outputs F) (show_cell : Cell F → String) (modes : Modes) where
  -- The `try` statement: only a `CalledProcessError` is caught.
  unfoldable pub after_run : MatrixRun F → Exit → Round F
  after_run run exit_success =
      record_or_crash (summarize_run run (outputs run.output_dir) "success" "")
  after_run run (exit_failure message) =
      after_failure modes.keep_going message
        (summarize_run run (outputs run.output_dir) "failed" message)
  after_run run (not_started message) = crashed (os_error message)

  unfoldable pub with_config : World → MatrixRun F → Result String → World × Round F
  with_config w run (err e) = (w, crashed e)
  with_config w run (ok text) =
      let written = write_file w run.config_path text in
      if modes.dry_run
      then (written, record_or_crash (summarize_run run (outputs run.output_dir) "dry_run" ""))
      else (
        launch written (command modes.binary run),
        after_run run (simulate (command modes.binary run)),
      )

  abbrev pub settle : List (Dict (Cell F)) → World × Round F → Progress F
  settle rows (w, recorded row) = going w (rows ++ (row ∷ []))
  settle rows (w, halted row e) =
      ended (write_aggregate_csv show_cell w (aggregate_path modes) (rows ++ (row ∷ []))) e
  settle rows (w, crashed e) = ended w e

  -- One round of `for run in runs`.
  unfoldable pub round : Progress F → MatrixRun F → Progress F
  round (ended w e) run = ended w e
  round (going w rows) run = settle rows (with_config w run (config_text run))

  unfoldable pub loop : Progress F → List (MatrixRun F) → Progress F
  loop p [] = p
  loop p (run ∷ runs) = loop (round p run) runs

  module _ (show_names : List String → String) (runs : List (MatrixRun F))
      (policies : List String) where
    -- After the loop: the aggregate CSV, and the check of a dry run.
    abbrev pub finish : Progress F → World × Result (Unit {0})
    finish (ended w e) = (w, err e)
    finish (going w rows) =
        let written = write_aggregate_csv show_cell w (aggregate_path modes) rows in
        (
          written,
          if modes.dry_run
              then verify_dry_run show_names written.files written.tables runs rows policies
                  (aggregate_path modes)
              else ok tt,
        )

    abbrev pub run_all : World → Result (Unit {0}) → World × Result (Unit {0})
    run_all w (err e) = (w, err e)
    run_all w (ok _) = finish (loop (going w []) runs)

    -- `main`, with the runs of `build_runs`.
    unfoldable pub main : World → World × Result (Unit {0})
    main w = run_all w (check_expected modes.expect_runs (length runs))
