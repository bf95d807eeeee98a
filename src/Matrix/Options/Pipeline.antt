-- ===== src/Matrix/Options/Pipeline.antt =====
-- From the options of `main` to the checked configs, for the presets of the table
-- (scripts/run_matrix.py).
use mathlib.Core.List.{Memᴰ}
use dm_simulator.Base.{
  both, ◌*◌, String, ◌≡◌, refl, Bool, true, ◌&&◌, List, [], ◌∷◌, All, All-at, ok, ◌>>=◌, Succeeds,
  contains, str_eq, eq_iff,
}
use dm_simulator.Base.Float.{Floats}
use dm_simulator.Base.FilePath.{FilePath}
use dm_simulator.Base.Dict.{Dict, keys}
use dm_simulator.Matrix.Policies.{
  memory_bandwidth_bytes_per_time_by_level, memory_base_latency_by_level, link_latency_by_level,
}
use dm_simulator.Matrix.Preset.{MatrixPreset, MatrixRun}
use dm_simulator.Matrix.Presets.{presets}
use dm_simulator.Matrix.Build.{Dimensions, build_runs}
use dm_simulator.Matrix.Parse.Names.{AllIn}
use dm_simulator.Matrix.Yaml.{config_text}
use dm_simulator.Matrix.DryRun.{check_config}
use dm_simulator.Matrix.DryRun.Runs.{build_runs-check_config}
use dm_simulator.Matrix.Options.{Arguments, options}
use dm_simulator.Matrix.Options.Levels.{HasLevels, options-HasSettings}

-- The levels and the names of a table of presets, as a test.
abbrev among : List String → List String → Bool
among allowed [] = true
among allowed (item ∷ items) = contains allowed item && among allowed items

among-AllIn : (allowed items : List String) → among allowed items ≡ true → AllIn allowed items
among-AllIn allowed [] h = tt
among-AllIn allowed (item ∷ items) h =
    let (first, rest) = both (contains allowed item) _ h in (first, among-AllIn allowed items rest)

module _ {F : Type 0} ⦃fl : Floats F⦄ where
  abbrev has_levels : MatrixPreset F → Bool
  has_levels preset =
      among (keys memory_bandwidth_bytes_per_time_by_level) preset.memory_bandwidth_levels
      && (among (keys memory_base_latency_by_level) preset.memory_base_latency_levels
          && among (keys link_latency_by_level) preset.link_latency_levels)

  has_levels-HasLevels : (preset : MatrixPreset F) → has_levels preset ≡ true → HasLevels preset
  has_levels-HasLevels preset h =
      let bandwidth_keys = keys memory_bandwidth_bytes_per_time_by_level in
      let base_keys = keys memory_base_latency_by_level in
      let (bandwidths, h1) = both (among bandwidth_keys preset.memory_bandwidth_levels) _ h in
      let (bases, links) = both (among base_keys preset.memory_base_latency_levels) _ h1 in
      record {
        bandwidths = among-AllIn bandwidth_keys preset.memory_bandwidth_levels bandwidths;
        bases = among-AllIn base_keys preset.memory_base_latency_levels bases;
        links = among-AllIn (keys link_latency_by_level) preset.link_latency_levels links;
      }

  abbrev table_has_levels : Dict (MatrixPreset F) → Bool
  table_has_levels [] = true
  table_has_levels ((name, preset) ∷ table) =
      (str_eq preset.name name && has_levels preset) && table_has_levels table

  -- An entry of a table stands under its name, and its levels are levels of the tables.
  abbrev pub IsEntry : String × MatrixPreset F → Type 0
  IsEntry (name, preset) = (preset.name ≡ name) × HasLevels preset

  table-IsEntry :
      (table : Dict (MatrixPreset F)) → table_has_levels table ≡ true → All IsEntry table
  table-IsEntry [] h = tt
  table-IsEntry ((name, preset) ∷ table) h =
      let (here, rest) = both (str_eq preset.name name && has_levels preset) _ h in
      let (same, levels) = both (str_eq preset.name name) (has_levels preset) here in
      (
        ((eq_iff preset.name name).0 same, has_levels-HasLevels preset levels),
        table-IsEntry table rest,
      )

  presets-of_mem :
      {name : String} {preset : MatrixPreset F}
      → Memᴰ (name, preset) presets
      → IsEntry (name, preset)
  presets-of_mem m = All-at IsEntry presets (table-IsEntry presets refl) m

  -- The float products that the cache sizes need can be computed.
  abbrev pub Sized : MatrixPreset F → Dimensions F → Type 0
  Sized preset d =
      All
        (λ h.
          All (λ x. Succeeds (fl.scale (h * preset.object_size_bytes) x >>= fl.round))
            d.cache_multipliers)
        d.hot_set_sizes

  -- For a preset of the table, options that pass and runs that `build_runs` makes from them: the
  -- config of every run is made, and passes all of the dry run's checks on it, if the floats can
  -- compute the cache sizes.
  pub options-check_config :
      (sha1 : String → String) (name : String) (preset : MatrixPreset F) (args : Arguments)
      (d : Dimensions F) (dir : FilePath) (runs : List (MatrixRun F)) (run : MatrixRun F)
      → Memᴰ (name, preset) presets
      → options args preset ≡ ok d
      → Sized preset d
      → build_runs sha1 preset d dir ≡ ok runs
      → Memᴰ run runs
      → (text : String) × (config_text run ≡ ok text) × (check_config run text ≡ ok tt)
  options-check_config sha1 name preset args d dir runs run listed passed sized built m =
      let settings = options-HasSettings args preset (presets-of_mem listed).1 d passed in
      build_runs-check_config sha1 preset d dir
        (record {
          nodes = settings.nodes;
          bandwidths = settings.bandwidths;
          bases = settings.bases;
          links = settings.links;
          sizes = sized;
        })
        runs run built m
