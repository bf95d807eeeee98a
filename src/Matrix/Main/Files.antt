-- ===== src/Matrix/Main/Files.antt =====
-- The configs that a loop of `main` leaves (scripts/run_matrix.py).
use dm_simulator.Base.{
  String, ◌≡◌, ◌∙◌, refl, ap, false, some, List, [], ◌∷◌, map, All, contains, str_eq, eq_iff,
  Bool-cases, inl, inr, if◌then◌else◌,
}
use dm_simulator.Base.Float.{Floats, Arithmetic}
use dm_simulator.Base.Dict.{get, get-insert, NodupKeys}
use dm_simulator.Base.Process.{Exit}
use dm_simulator.Base.FilePath.{FilePath, show_path}
use dm_simulator.Matrix.Preset.{MatrixRun}
use dm_simulator.Matrix.Rows.{Cell}
use dm_simulator.Matrix.Summary.{Outputs}
use dm_simulator.Matrix.Main.{World, Modes, write_file}
use dm_simulator.Matrix.Main.Loop.{write_all}

-- The paths' texts of the configs of some runs.
abbrev pub config_files : {F : Type 0} → List (MatrixRun F) → List String
config_files = map λ run. show_path run.config_path

module _ {F : Type 0} ⦃fl : Floats F⦄ ⦃ar : Arithmetic F⦄ (simulate : List String → Exit)
    (outputs : FilePath → Outputs F) (show_cell : Cell F → String) (modes : Modes) where
  abbrev pub just_runs : List (MatrixRun F × String) → List (MatrixRun F)
  just_runs = map λ (run, _). run

  -- The configs that are written later leave a file of another path.
  get-write_all_other :
      (w : World) (k : String) (runs : List (MatrixRun F × String))
      → contains (config_files (just_runs runs)) k ≡ false
      → get (write_all simulate outputs show_cell modes w runs).files k ≡ get w.files k
  get-write_all_other w k [] h = refl
  get-write_all_other w k ((run, t) ∷ runs) h =
      elim (Bool-cases (str_eq (show_path run.config_path) k)) [
        | inl e ↦ cc (rw e at h)
        | inr e ↦
            get-write_all_other (write_file w run.config_path t) k runs (rw e at h)
            ∙ get-insert w.files (show_path run.config_path) k t
            ∙ ap (λ b. if b then some t else get w.files k) e
      ]

  -- With distinct paths, every config is there at the end.
  pub get-write_all :
      (w : World) (runs : List (MatrixRun F × String))
      → NodupKeys (config_files (just_runs runs))
      → All
          (λ (run, t).
            get
              (write_all simulate outputs show_cell modes w runs).files
              (show_path run.config_path)
            ≡ some t)
          runs
  get-write_all w [] h = tt
  get-write_all w ((run, t) ∷ runs) (fresh, h) =
      let key = show_path run.config_path in
      (
        get-write_all_other (write_file w run.config_path t) key runs fresh
            ∙ get-insert w.files key key t
            ∙ ap (λ b. if b then some t else get w.files key) ((eq_iff key key).1 refl),
        get-write_all (write_file w run.config_path t) runs h,
      )
