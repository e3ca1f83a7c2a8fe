-- ===== src/Monitor/Discovery.antt =====
-- monitor/pr-monitor/src/discovery.ts: the endpoints that the project's YAML files declare.
pub mod Draft
pub mod Merge
pub mod Absorb
pub mod Merged
pub mod Middleware
pub mod Interface
pub mod Communication
pub mod Collect
pub mod Addresses
pub mod Collected
pub mod Discover
mod Tests
