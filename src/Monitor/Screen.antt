-- ===== src/Monitor/Screen.antt =====
-- monitor/pr-monitor/src/index.ts: the monitor's keys, frames and event loop.
pub mod Keys
pub mod World
pub mod Modes
pub mod Overlap
pub mod Paging
pub mod Editing
mod Tests
