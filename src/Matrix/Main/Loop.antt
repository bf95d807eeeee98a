-- ===== src/Matrix/Main/Loop.antt =====
-- What the loop of `main` does in each of its modes (scripts/run_matrix.py).
use dm_simulator.Base.{
  append_nil, append_assoc, String, ◌≡◌, ◌∙◌, ◌⊎◌, refl, sym, ap, true, false, List, [], ◌∷◌, ◌++◌,
  map, length, All, Result, ok, err, Exception, called_process_error, os_error, inl, inr,
}
use dm_simulator.Base.Float.{Floats, Arithmetic}
use dm_simulator.Base.Dict.{Dict}
use dm_simulator.Base.Process.{Exit, exit_success, exit_failure, not_started}
use dm_simulator.Base.FilePath.{FilePath}
use dm_simulator.Matrix.Preset.{MatrixRun}
use dm_simulator.Matrix.Rows.{Cell}
use dm_simulator.Matrix.Summary.{Outputs, summarize_run}
use dm_simulator.Matrix.Yaml.{config_text}
use dm_simulator.Matrix.Main.{
  World, Modes, recorded, Progress, going, ended, aggregate_path, write_file, launch,
  write_aggregate_csv, command, after_run, with_config, round, loop, check_expected, main,
}

module _ {F : Type 0} ⦃fl : Floats F⦄ ⦃ar : Arithmetic F⦄ (simulate : List String → Exit)
    (outputs : FilePath → Outputs F) (show_cell : Cell F → String) (modes : Modes) where
  -- The configs of a list of runs, written in order.
  abbrev pub write_all : World → List (MatrixRun F × String) → World
  write_all w [] = w
  write_all w ((run, t) ∷ rest) = write_all (write_file w run.config_path t) rest

  -- The configs written and the simulators launched, run by run.
  abbrev pub launch_all : World → List (MatrixRun F × String) → World
  launch_all w [] = w
  launch_all w ((run, t) ∷ rest) =
      launch_all (launch (write_file w run.config_path t) (command modes.binary run)) rest

  -- The row of a run whose simulator has exited, with its status and its message.
  abbrev pub exit_row : MatrixRun F → Exit → Result (Dict (Cell F))
  exit_row run exit_success = summarize_run run (outputs run.output_dir) "success" ""
  exit_row run (exit_failure message) = summarize_run run (outputs run.output_dir) "failed" message
  exit_row run (not_started message) = err (os_error message)

  -- A run with its config, whose dry row is `row`.
  abbrev pub IsDry : (MatrixRun F × String) → Dict (Cell F) → Type 0
  IsDry (run, t) row =
      (config_text run ≡ ok t) × (summarize_run run (outputs run.output_dir) "dry_run" "" ≡ ok row)

  -- A run with its config, whose simulator can be started and whose row after its exit is `row`.
  abbrev pub IsRun : (MatrixRun F × String) → Dict (Cell F) → Type 0
  IsRun (run, t) row =
      (config_text run ≡ ok t) × (exit_row run (simulate (command modes.binary run)) ≡ ok row)

  abbrev pub Pairwise :
      ((MatrixRun F × String) → Dict (Cell F) → Type 0)
      → List (MatrixRun F × String)
      → List (Dict (Cell F))
      → Type 0
  Pairwise P [] [] = Unit
  Pairwise P [] (row ∷ rows) = ⊥
  Pairwise P (x ∷ xs) [] = ⊥
  Pairwise P (x ∷ xs) (row ∷ rows) = P x row × Pairwise P xs rows

  round-dry :
      modes.dry_run ≡ true
      → (w : World) (before : List (Dict (Cell F))) (run : MatrixRun F) (t : String)
        (row : Dict (Cell F))
      → IsDry (run, t) row
      → round simulate outputs show_cell modes (going w before) run
        ≡ going (write_file w run.config_path t) (before ++ (row ∷ []))
  unfolding round with_config
  round-dry dry w before run t row (e, made) = rw (e, dry, made)

  pub loop-dry :
      modes.dry_run ≡ true
      → (w : World) (before : List (Dict (Cell F))) (runs : List (MatrixRun F × String))
        (rows : List (Dict (Cell F)))
      → Pairwise IsDry runs rows
      → loop simulate outputs show_cell modes (going w before) (map (λ (run, _). run) runs)
        ≡ going (write_all w runs) (before ++ rows)
  unfolding loop
  loop-dry dry w before [] [] h = ap (going w) (sym (append_nil before))
  loop-dry dry w before [] (row ∷ rows) h = absurd h
  loop-dry dry w before (x ∷ runs) [] h = absurd h
  loop-dry dry w before ((run, t) ∷ runs) (row ∷ rows) ((e, made), h) =
      let written = write_file w run.config_path t in
      ap (λ p. loop simulate outputs show_cell modes p (map (λ (run, _). run) runs))
        (round-dry dry w before run t row (e, made))
      ∙ (loop-dry dry written (before ++ (row ∷ [])) runs rows h
          ∙ ap (going (write_all written runs)) (append_assoc before (row ∷ []) rows))

  loop-append :
      (p : Progress F) (xs ys : List (MatrixRun F))
      → loop simulate outputs show_cell modes p (xs ++ ys)
        ≡ loop simulate outputs show_cell modes (loop simulate outputs show_cell modes p xs) ys
  unfolding loop
  loop-append p [] ys = refl
  loop-append p (x ∷ xs) ys = loop-append (round simulate outputs show_cell modes p x) xs ys

  loop-ended :
      (w : World) (e : Exception) (runs : List (MatrixRun F))
      → loop simulate outputs show_cell modes (ended w e) runs ≡ ended w e
  unfolding loop round
  loop-ended w e [] = refl
  loop-ended w e (run ∷ runs) = loop-ended w e runs

  -- A round whose simulator's exit leaves the loop going.
  abbrev pub Goes : MatrixRun F × String → Type 0
  Goes (run, t) = (modes.keep_going ≡ true) ⊎ (simulate (command modes.binary run) ≡ exit_success)

  failed_on :
      (run : MatrixRun F) (message : String) (row : Dict (Cell F))
      → modes.keep_going ≡ true
      → summarize_run run (outputs run.output_dir) "failed" message ≡ ok row
      → after_run simulate outputs show_cell modes run (exit_failure message) ≡ recorded row
  unfolding after_run
  failed_on run message row keep made = rw (made, keep)

  after_run-going :
      (run : MatrixRun F) (exit : Exit) (row : Dict (Cell F))
      → (modes.keep_going ≡ true) ⊎ (exit ≡ exit_success)
      → exit_row run exit ≡ ok row
      → after_run simulate outputs show_cell modes run exit ≡ recorded row
  unfolding after_run
  after_run-going run exit_success row h made = rw made
  after_run-going run (exit_failure message) row (inl keep) made =
      failed_on run message row keep made
  after_run-going run (exit_failure message) row (inr h) made = cc
  after_run-going run (not_started message) row h made = cc

  round-run :
      modes.dry_run ≡ false
      → (w : World) (before : List (Dict (Cell F))) (run : MatrixRun F) (t : String)
        (row : Dict (Cell F))
      → Goes (run, t)
      → IsRun (run, t) row
      → round simulate outputs show_cell modes (going w before) run
        ≡ going
            (launch (write_file w run.config_path t) (command modes.binary run))
            (before ++ (row ∷ []))
  unfolding round with_config
  round-run wet w before run t row goes (e, made) =
      rw (e, after_run-going run (simulate (command modes.binary run)) row goes made, wet)

  loop-runs :
      modes.dry_run ≡ false
      → (w : World) (before : List (Dict (Cell F))) (runs : List (MatrixRun F × String))
        (rows : List (Dict (Cell F)))
      → All Goes runs
      → Pairwise IsRun runs rows
      → loop simulate outputs show_cell modes (going w before) (map (λ (run, _). run) runs)
        ≡ going (launch_all w runs) (before ++ rows)
  unfolding loop
  loop-runs wet w before [] [] g h = ap (going w) (sym (append_nil before))
  loop-runs wet w before [] (row ∷ rows) g h = absurd h
  loop-runs wet w before (x ∷ runs) [] g h = absurd h
  loop-runs wet w before ((run, t) ∷ runs) (row ∷ rows) (goes, g) ((e, made), h) =
      let next = launch (write_file w run.config_path t) (command modes.binary run) in
      ap (λ p. loop simulate outputs show_cell modes p (map (λ (run, _). run) runs))
        (round-run wet w before run t row goes (e, made))
      ∙ (loop-runs wet next (before ++ (row ∷ [])) runs rows g h
          ∙ ap (going (launch_all next runs)) (append_assoc before (row ∷ []) rows))

  module _ (show_names : List String → String) (policies : List String) (w : World) where
    -- In a run that is not dry, when every simulator can be started, and all of them succeed or
    -- `keep_going` is set: `main` writes every config, launches every run in order and returns, and
    -- the aggregate CSV has one row for each run, in order, if the configs and the rows can be made
    -- and the count agrees with `--expect-runs`.
    pub main-keep_going :
        (runs : List (MatrixRun F × String)) (rows : List (Dict (Cell F)))
        → modes.dry_run ≡ false
        → check_expected modes.expect_runs (length (map (λ (run, _). run) runs)) ≡ ok tt
        → All Goes runs
        → Pairwise IsRun runs rows
        → main simulate outputs show_cell modes show_names (map (λ (run, _). run) runs) policies w
          ≡ (write_aggregate_csv show_cell (launch_all w runs) (aggregate_path modes) rows, ok tt)
    unfolding main
    main-keep_going runs rows wet expected goes h =
        rw (expected, loop-runs wet w [] runs rows goes h, wet)

    -- Without `keep_going`, in a run that is not dry: after runs whose simulators succeed, the first
    -- run whose simulator exits with another code than 0 is the last to be launched, the aggregate
    -- CSV has the rows of the runs before it and its own, and the error is raised again.
    pub main-first_failure :
        (before : List (MatrixRun F × String)) (rows : List (Dict (Cell F))) (run : MatrixRun F)
        (config message : String) (row : Dict (Cell F)) (after : List (MatrixRun F))
        → modes.dry_run ≡ false
        → modes.keep_going ≡ false
        → check_expected modes.expect_runs (length (map (λ (run, _). run) before ++ (run ∷ after)))
          ≡ ok tt
        → All Goes before
        → Pairwise IsRun before rows
        → config_text run ≡ ok config
        → simulate (command modes.binary run) ≡ exit_failure message
        → summarize_run run (outputs run.output_dir) "failed" message ≡ ok row
        → main simulate outputs show_cell modes show_names
            (map (λ (run, _). run) before ++ (run ∷ after))
            policies
            w
          ≡ (
            write_aggregate_csv show_cell
                (launch
                  (write_file (launch_all w before) run.config_path config)
                  (command modes.binary run))
                (aggregate_path modes)
                (rows ++ (row ∷ [])),
            err (called_process_error message),
          )
    unfolding main loop round with_config after_run
    main-first_failure before rows run config message row after wet stop expected goes h made fails
          summarized =
        let runs = map (λ (run, _). run) before in
        rw (
          expected,
          loop-append (going w []) runs (run ∷ after),
          loop-runs wet w [] before rows goes h,
          made,
          wet,
          fails,
          summarized,
          stop,
          loop-ended _ _ after,
        )
