-- ===== src/Base/Process.antt =====
-- `subprocess.run(command, check=True)`, as the scripts use it.
use Prim.Native.String.{String}
use mathlib.Core.Option.{Option, none, some}
use dm_simulator.Base.Raises.{Exception, called_process_error, os_error}

-- How the call ends: the program exits with 0, it exits with another code and the call raises a
-- `CalledProcessError`, or the program cannot be started (it is missing, say) and the call raises
-- an `OSError`. An exception has its message.
pub data Exit : Type 0 where
  exit_success : Exit
  exit_failure not_started : String → Exit

-- The exception that the call raises, if it does.
abbrev pub raised_by : Exit → Option Exception
raised_by exit_success = none
raised_by (exit_failure message) = some (called_process_error message)
raised_by (not_started message) = some (os_error message)
