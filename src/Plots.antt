-- ===== src/Plots.antt =====
-- The analysis of the aggregate CSV files (scripts/plot_results.py): the values of the rows, the
-- comparison with the baseline, the summaries, and the mode of the report.
pub mod Columns
pub mod Dimensions
pub mod Values
pub mod Comparison
pub mod Policies
pub mod Summary
pub mod Modes
pub mod Reading
pub mod Best
pub mod Final
pub mod Conditions
pub mod Schema
