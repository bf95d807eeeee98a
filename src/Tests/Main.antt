-- ===== src/Tests/Main.antt =====
-- `main` on a small matrix, in each of its modes.
use dm_simulator.Base.{
  ◌&◌, String, ◌≡◌, ◌↔◌, refl, true, false, none, some, List, [], ◌∷◌, ok, err,
  called_process_error, inl, inr, contains, Succeeds, Memᴰ, if◌then◌else◌,
}
use dm_simulator.Base.Int.{show_ℕ, show_ℤ}
use dm_simulator.Base.Dict.{Dict, NodupKeys}
use dm_simulator.Base.Process.{Exit, exit_success, exit_failure}
use dm_simulator.Base.FilePath.{FilePath, given, show_path}
use dm_simulator.Text.{replace, prefix}
use dm_simulator.Matrix.Preset.{MatrixRun}
use dm_simulator.Matrix.Run.{
  run_slug, run_name_token, slug_float, bounded_run_name, cache_capacity_bytes,
  memory_bandwidth_bytes_per_time, memory_base_latency, one_way_link_latency,
}
use dm_simulator.Matrix.Build.{matrix_run}
use dm_simulator.Matrix.Yaml.{config_text}
use dm_simulator.Matrix.Rows.{Cell, base_row, base_cells, aggregate_columns}
use dm_simulator.Matrix.Summary.{Outputs, summarize_run}
use dm_simulator.Matrix.DryRun.Total.{config_text-check_config}
use dm_simulator.Matrix.DryRun.Runs.{build_runs-check_config}
use dm_simulator.Matrix.DryRun.Verify.{verify_dry_run}
use dm_simulator.Matrix.DryRun.Verified.{IsVerified, verify_dry_run_iff}
use dm_simulator.Matrix.Main.{
  World, Modes, command, main, launch, write_file, write_aggregate_csv, aggregate_path,
}
use dm_simulator.Matrix.Main.Loop.{launch_all, exit_row, main-keep_going, main-first_failure}
use dm_simulator.Matrix.Main.Dry.{main-launched}
use dm_simulator.Matrix.Main.Files.{config_files}
use dm_simulator.Matrix.Main.Accepted.{main-build_runs}
use dm_simulator.Tests.Decimal.{Decimal, decimal_floats, decimal_arithmetic}
use dm_simulator.Tests.Matrices.{
  preset, dims, sha1, dir, corner, run_of, runs, built, writable, composite, composite-IsReady,
}
use dm_simulator.Tests.Outputs.{outputs, summarize_run-composite}

abbrev show_cell : Cell Decimal → String
show_cell c = "cell"

abbrev show_names : List String → String
show_names names = "names"

abbrev all_fail : List String → Exit
all_fail c = exit_failure "exit status 1"

abbrev of_dir : FilePath → Outputs Decimal
of_dir path = outputs

abbrev empty : World
empty = record { files = []; tables = []; launched = [] }

abbrev dry : Modes
dry = record {
  dry_run = true;
  keep_going = false;
  expect_runs = some 4;
  binary = given "dm_simulator";
  results_dir = dir;
}

abbrev going_on : Modes
going_on = record {
  dry_run = false;
  keep_going = true;
  expect_runs = none;
  binary = given "dm_simulator";
  results_dir = dir;
}

abbrev stopping : Modes
stopping = record {
  dry_run = false;
  keep_going = false;
  expect_runs = none;
  binary = given "dm_simulator";
  results_dir = dir;
}

distinct : NodupKeys (config_files runs)
unfolding matrix_run run_slug run_name_token slug_float bounded_run_name show_ℕ show_ℤ replace
    prefix show_path
distinct = refl & refl & refl & refl & tt

main-build_runs_example :
    (main all_fail of_dir show_cell dry show_names runs dims.policies empty).1 ≡ ok tt
unfolding matrix_run
main-build_runs_example =
    main-build_runs all_fail of_dir show_cell dry show_names sha1 preset dims runs empty refl refl
      built writable refl distinct (refl & refl & tt)

main-launched_example :
    (main all_fail of_dir show_cell dry show_names runs dims.policies empty).0.launched ≡ []
main-launched_example =
    main-launched all_fail of_dir show_cell dry refl show_names runs dims.policies empty

verify_dry_run_iff_example :
    (verify_dry_run show_names
        (("results/a.yaml", "policy: lru") ∷ [])
        (("results/a.csv", aggregate_columns ∷ []) ∷ [])
        runs
        []
        ("lru" ∷ [])
        (given "results/a.csv")
      ≡ ok tt)
    ↔ IsVerified
        (("results/a.yaml", "policy: lru") ∷ [])
        (("results/a.csv", aggregate_columns ∷ []) ∷ [])
        runs
        []
        ("lru" ∷ [])
        (given "results/a.csv")
verify_dry_run_iff_example =
    verify_dry_run_iff show_names (("results/a.yaml", "policy: lru") ∷ [])
      (("results/a.csv", aggregate_columns ∷ []) ∷ []) runs [] ("lru" ∷ []) (given "results/a.csv")

config : (text : String) × (config_text composite ≡ ok text)
config = let (text, e, checked) = config_text-check_config composite composite-IsReady in (text, e)

abbrev failed : Dict (Cell Decimal)
failed = base_cells composite "failed" "exit status 1" 256 4 25 2

composite-failed : summarize_run composite outputs "failed" "exit status 1" ≡ ok failed
unfolding summarize_run base_row matrix_run cache_capacity_bytes memory_bandwidth_bytes_per_time
    memory_base_latency one_way_link_latency
composite-failed = refl

main-keep_going_example :
    main all_fail of_dir show_cell going_on show_names (composite ∷ []) ("lru" ∷ []) empty ≡ (
      write_aggregate_csv show_cell
          (launch_all all_fail of_dir show_cell going_on empty ((composite, config.0) ∷ []))
          (aggregate_path going_on)
          (failed ∷ []),
      ok tt,
    )
unfolding matrix_run
main-keep_going_example =
    main-keep_going all_fail of_dir show_cell going_on show_names ("lru" ∷ []) empty
      ((composite, config.0) ∷ []) (failed ∷ []) refl refl (inl refl & tt)
      ((config.1, composite-failed) & tt)

-- Of two runs, the second fails.
abbrev second : MatrixRun Decimal
second = run_of (corner "lru" 2)

abbrev second_fails : List String → Exit
second_fails c =
    if contains c (show_path second.config_path) then exit_failure "exit status 1" else exit_success

first_exit : second_fails (command (given "dm_simulator") composite) ≡ exit_success
unfolding matrix_run run_slug run_name_token slug_float bounded_run_name show_ℕ show_ℤ replace
    prefix show_path
first_exit = refl

second_exit : second_fails (command (given "dm_simulator") second) ≡ exit_failure "exit status 1"
unfolding matrix_run run_slug run_name_token slug_float bounded_run_name show_ℕ show_ℤ replace
    prefix show_path
second_exit = refl

first_row :
    exit_row second_fails of_dir show_cell stopping composite
      (second_fails (command (given "dm_simulator") composite))
    ≡ ok summarize_run-composite.0
first_row = rw first_exit summarize_run-composite.1

second_config : (text : String) × (config_text second ≡ ok text)
second_config =
    let (text, e, checked) =
      build_runs-check_config sha1 preset dims dir writable runs second built (Memᴰ.head refl) in
    (text, e)

second-failed : Succeeds (summarize_run second outputs "failed" "exit status 1")
unfolding summarize_run base_row matrix_run cache_capacity_bytes memory_bandwidth_bytes_per_time
    memory_base_latency one_way_link_latency
second-failed = (_, refl)

main-first_failure_example :
    main second_fails of_dir show_cell stopping show_names
      (composite ∷ second ∷ run_of (corner "lru" 4) ∷ [])
      ("lru" ∷ [])
      empty
    ≡ (
      write_aggregate_csv show_cell
          (launch
            (write_file
              (launch_all second_fails of_dir show_cell stopping empty ((composite, config.0) ∷ []))
              second.config_path
              second_config.0)
            (command (given "dm_simulator") second))
          (aggregate_path stopping)
          (summarize_run-composite.0 ∷ second-failed.0 ∷ []),
      err (called_process_error "exit status 1"),
    )
main-first_failure_example =
    main-first_failure second_fails of_dir show_cell stopping show_names ("lru" ∷ []) empty
      ((composite, config.0) ∷ []) (summarize_run-composite.0 ∷ []) second second_config.0
      "exit status 1" second-failed.0 (run_of (corner "lru" 4) ∷ []) refl refl refl
      (inr first_exit & tt) ((config.1, first_row) & tt) second_config.1 second_exit second-failed.1
