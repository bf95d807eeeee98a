-- ===== src/Matrix.antt =====
-- scripts/run_matrix.py: the experiment matrix, from the command line's values to the generated
-- configs and the aggregate table.
pub mod Policies
pub mod Parse
pub mod Preset
pub mod Weights
pub mod Presets
pub mod Run
pub mod Capacity
pub mod Build
pub mod Yaml
pub mod DryRun
pub mod Rows
pub mod Totals
pub mod Options
pub mod Channels
pub mod Summary
pub mod Main
