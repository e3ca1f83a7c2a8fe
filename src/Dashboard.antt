-- ===== src/Dashboard.antt =====
-- The dashboard's router over the repository (dashboard/packages/api/src/routers/dashboard.ts).
pub mod Lines
pub mod Routes
pub mod Details
pub mod Blocks
pub mod Names
pub mod Paths
pub mod Joined
pub mod Formats
pub mod Interfaces
pub mod Transports
pub mod Values
pub mod Ros2
pub mod Walk
pub mod Snapshot
pub mod Operations
mod Tests
mod StateTests
