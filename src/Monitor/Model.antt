-- ===== src/Monitor/Model.antt =====
-- monitor/pr-monitor/src/model.ts: the model behind the monitor's screen.
pub mod State
pub mod Sampling
pub mod Collect
pub mod Maps
pub mod Invariant
pub mod Preserved
pub mod Shape
pub mod Totals
pub mod Options
pub mod View
pub mod Listed
pub mod Processes
pub mod Counts
pub mod Begin
pub mod Stale
pub mod Runs
