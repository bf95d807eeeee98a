-- ===== src/Launcher/Order.antt =====
-- How the launcher ends (scripts/run_experiments.py).
use dm_simulator.Base.{
  String, ◌≡◌, ◌⊎◌, refl, ap, some, List, [], ◌∷◌, ◌++◌, map, All, ok, err, Exception,
  called_process_error, os_error, inl, inr,
}
use dm_simulator.Base.Process.{Exit, exit_success, exit_failure, not_started, raised_by}
use dm_simulator.Base.FilePath.{FilePath}
use dm_simulator.Launcher.{Launches, command, main}

module _ (stem : FilePath → String) (simulate : List String → Exit)
    (binary results_dir : FilePath) where
  abbrev run : List FilePath → Launches
  run = main stem simulate binary results_dir

  abbrev command_of : FilePath → List String
  command_of = command stem simulate binary results_dir

  -- Every command has succeeded.
  pub record IsFinished (configs : List FilePath) : Type 0 where
    pub launched : (run configs).commands ≡ map command_of configs
    pub returned : (run configs).end ≡ ok tt
    pub succeeded : All (λ config. simulate (command_of config) ≡ exit_success) configs

  -- The first command that fails, or that cannot be started, is the last.
  pub record IsStopped (configs : List FilePath) : Type 0 where
    pub before : List FilePath
    pub after : List FilePath
    pub failing : FilePath
    pub error : Exception
    pub whole : configs ≡ before ++ (failing ∷ after)
    pub succeeded : All (λ config. simulate (command_of config) ≡ exit_success) before
    pub failed : raised_by (simulate (command_of failing)) ≡ some error
    pub launched : (run configs).commands ≡ map command_of (before ++ (failing ∷ []))
    pub raised : (run configs).end ≡ err error

  -- The launcher either launches every config in order and returns, or it stops at the first
  -- whose simulator fails or cannot be started and raises its error.
  pub main-ends : (configs : List FilePath) → IsFinished configs ⊎ IsStopped configs
  unfolding main
  main-ends [] = inl (record { launched = refl; returned = refl; succeeded = tt })
  main-ends (config ∷ configs) = by_exit (simulate (command_of config)) refl (main-ends configs)
    where
      by_exit :
          (exit : Exit)
          → simulate (command_of config) ≡ exit
          → IsFinished configs ⊎ IsStopped configs
          → IsFinished (config ∷ configs) ⊎ IsStopped (config ∷ configs)
      by_exit (exit_failure message) e rest = inr (record {
        before = [];
        after = configs;
        failing = config;
        error = called_process_error message;
        whole = refl;
        succeeded = tt;
        failed = rw e refl;
        launched = rw e refl;
        raised = rw e refl;
      })
      by_exit (not_started message) e rest = inr (record {
        before = [];
        after = configs;
        failing = config;
        error = os_error message;
        whole = refl;
        succeeded = tt;
        failed = rw e refl;
        launched = rw e refl;
        raised = rw e refl;
      })
      by_exit exit_success e (inl f) = inl (record {
        launched = rw e (ap (λ cs. command_of config ∷ cs) f.launched);
        returned = rw e f.returned;
        succeeded = (e, f.succeeded);
      })
      by_exit exit_success e (inr s) = inr (record {
        before = config ∷ s.before;
        after = s.after;
        failing = s.failing;
        error = s.error;
        whole = ap (λ cs. config ∷ cs) s.whole;
        succeeded = (e, s.succeeded);
        failed = s.failed;
        launched = rw e (ap (λ cs. command_of config ∷ cs) s.launched);
        raised = rw e s.raised;
      })
