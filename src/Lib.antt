-- ===== src/Lib.antt =====
-- The experiment scripts of the disaggregated-memory simulator: scripts/run_matrix.py,
-- scripts/plot_results.py and scripts/run_experiments.py.
--
-- The matrix script turns comma-separated options and a preset into a list of runs (`build_runs`), writes
-- one YAML config a run (`write_yaml_config`), and in a dry run reads the configs back and checks
-- them (`verify_dry_run`). Else it launches the simulator, the C++ code under src/, on each config.
-- It writes one aggregate CSV, whose rows are made from what the simulator wrote
-- (`summarize_run`). The plot script reads such files (`read_aggregate_rows`), compares every run
-- with the baseline of its group (`build_policy_comparison`), sums up by policy, and finds the best
-- run of each policy. The launcher runs the simulator on given configs.
--
-- The parts and their files:
-- - Base, with its children: lists over the native numbers, Python's exceptions as values
--   (`Result`), loops that may raise (`each`), integers, dicts in insertion order, paths;
--   Process: how `subprocess.run(command, check=True)` ends (`Exit`).
-- - Text: `str.strip`, `str.split(",")`, `str.join`, `in`, slices, and `replace` of one character.
-- - Matrix/Policies: the tuples of policies, the level tables and the run-name aliases.
-- - Matrix/Preset: `MatrixPreset`, `ContentionWeightProfile` and `MatrixRun`.
-- - Matrix/Presets: the table `PRESETS`, in groups; Matrix/Weights: the weights and their profiles.
-- - Matrix/Parse: the `parse_*` functions of the options.
-- - Matrix/Run: what a run's settings resolve to, `run_slug` and `bounded_run_name`.
-- - Matrix/Capacity: `validate_hot_object_capacity`, a definition for each of its values.
-- - Matrix/Build: `build_runs`. Its loop is `each (runs_at ...)` over `product`, in the order of
--   `itertools.product`; a `continue` is a round with no runs.
-- - Matrix/Options: `main` up to its call of `build_runs`: each option's value or the preset's.
-- - Matrix/Yaml: `write_yaml_config` up to the text that it writes, and the helpers it calls.
-- - Json: the values that `json.load` returns, with `get`, `in`, iteration and indexing.
-- - Matrix/Rows: `AGGREGATE_COLUMNS`, `base_row`, and the row that `write_aggregate_csv` writes.
-- - Matrix/Totals and Matrix/Channels: `aggregate_contention` and `aggregate_channel_contention`,
--   from the rows of the simulator's tables. Matrix/Summary: `summarize_run`.
-- - Matrix/DryRun: the checks that `verify_dry_run` makes on each run's config; Matrix/DryRun/Verify:
--   its other checks, and the whole function.
-- - Matrix/Main: `main` after the options. Its loop is a fold over the runs: the state (`World`) has
--   the written configs, the written tables and the commands given to `subprocess.run`, and a round
--   goes on with the rows or ends the loop with an exception.
-- - Plots: the analysis of scripts/plot_results.py. Values: the cells of the rows and the metrics;
--   Reading: `read_aggregate_rows`; Comparison: `build_policy_comparison`; Policies:
--   `ordered_policies`; Summary: `build_policy_summary`; Modes: `detect_report_mode` and the
--   dimensions; Best: `build_best_run_examples`; Final and Conditions: `build_final_policy_table` and
--   `build_condition_summary`; Columns and Dimensions: the tables of names; Schema: the rows'
--   columns against the tables.
-- - Launcher: `main` of scripts/run_experiments.py.
-- - Tests: computed examples, and each theorem applied to one.
--
-- How Python is read. Every loop is structural recursion on a list, so no fuel is needed. An
-- exception is `err` with its class and its message. The records are immutable in the source
-- (frozen dataclasses), so they are passed as values. Counts and sizes are natural numbers, and
-- seeds are integers. Floats are the interface `Floats`; what a theorem needs of them is its
-- hypothesis: `CeilWithin`, `IsStrictOrder`, or that the cache sizes can be computed. `int(text)` reads ASCII
-- digits, signs and underscores. `hashlib.sha1` is an argument.
--
-- A launch of the simulator ends in one of three ways: it exits with 0, it exits with another code,
-- which raises `CalledProcessError`, or it cannot be started, which raises `OSError`. The matrix
-- script catches the first of these exceptions only.
--
-- Statistics use the interface `Arithmetic`. The order in which a set is iterated over is an
-- argument where the result may hang on it, and so are the simulator's exit and outputs, the rows
-- that the `csv` module reads and the texts that it writes, `Path.stem`, `str.lower` and `str` of a
-- list. A file that is written is read back as it was written.
--
-- Not modelled: `argparse`, `mkdir`, the printed lines and the layout of a CSV file on disk; of
-- scripts/plot_results.py the data of the single plots, their drawing and the texts of the reports;
-- the C++ simulator.
pub mod Base
pub mod Text
pub mod Json
pub mod Matrix
pub mod Plots
pub mod Launcher
mod Tests
