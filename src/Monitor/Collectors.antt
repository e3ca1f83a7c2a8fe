-- ===== src/Monitor/Collectors.antt =====
-- monitor/pr-monitor/src/collectors.ts: the commands and ROS contexts of the collectors.
pub mod Quote
pub mod Domains
pub mod Contexts
pub mod Rounds
mod Tests
