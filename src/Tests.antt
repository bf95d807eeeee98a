-- ===== src/Tests.antt =====
-- Runs at concrete inputs, and the theorems at inputs that meet their hypotheses.
mod Decimal
mod Parsing
mod Capacity
mod Matrices
mod Rows
mod Options
mod Outputs
mod Main
mod Plots
mod Launcher
