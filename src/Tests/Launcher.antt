-- ===== src/Tests/Launcher.antt =====
-- The launcher on two configs, of which the first fails.
use dm_simulator.Base.{String, ◌⊎◌, List, [], ◌∷◌}
use dm_simulator.Base.Process.{Exit, exit_failure}
use dm_simulator.Base.FilePath.{FilePath, given}
use dm_simulator.Launcher.Order.{IsFinished, IsStopped, main-ends}

abbrev stem : FilePath → String
stem path = "baseline"

abbrev fails : List String → Exit
fails command = exit_failure "exit status 1"

abbrev configs : List FilePath
configs = given "baseline.yaml" ∷ given "hotness.yaml" ∷ []

main-ends_example :
    IsFinished stem fails (given "dm_simulator") (given "results") configs
    ⊎ IsStopped stem fails (given "dm_simulator") (given "results") configs
main-ends_example = main-ends stem fails (given "dm_simulator") (given "results") configs
