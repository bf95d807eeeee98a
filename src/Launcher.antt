-- ===== src/Launcher.antt =====
-- `main` (scripts/run_experiments.py): the simulator on each config, one after the other.
pub mod Order
use dm_simulator.Base.{
  String, Option, none, some, List, [], ◌∷◌, Result, ok, err, called_process_error, os_error,
}
use dm_simulator.Base.Process.{Exit, exit_success, exit_failure, not_started, raised_by}
use dm_simulator.Base.FilePath.{FilePath, join, show_path}

-- What a run of the launcher does: the commands that it gives to `subprocess.run`, in order, and
-- its end.
pub record Launches : Type 0 where
  pub commands : List (List String)
  pub end : Result (Unit {0})

-- `stem` is `Path.stem`, and `simulate` says how `subprocess.run` ends on a command.
module _ (stem : FilePath → String) (simulate : List String → Exit)
    (binary results_dir : FilePath) where
  abbrev pub output_dir : FilePath → FilePath
  output_dir config_path = join results_dir (stem config_path)

  abbrev pub command : FilePath → List String
  command config_path =
      show_path binary
      ∷ "--config"
      ∷ show_path config_path
      ∷ "--output-dir"
      ∷ show_path (output_dir config_path)
      ∷ []

  -- `subprocess.run(command, check=True)`, and then the rest of the loop.
  abbrev pub launch : List String → Exit → Launches → Launches
  launch c exit_success rest = record { commands = c ∷ rest.commands; end = rest.end }
  launch c (exit_failure message) rest = record {
    commands = c ∷ [];
    end = err (called_process_error message);
  }
  launch c (not_started message) rest = record { commands = c ∷ []; end = err (os_error message) }

  unfoldable pub main : List FilePath → Launches
  main [] = record { commands = []; end = ok tt }
  main (config_path ∷ configs) =
      launch (command config_path) (simulate (command config_path)) (main configs)
