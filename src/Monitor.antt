-- ===== src/Monitor.antt =====
-- monitor/pr-monitor/src: the terminal monitor of routes, processes and traffic.
pub mod Types
pub mod Numbers
pub mod Format
pub mod Model
pub mod Screen
pub mod Yaml
pub mod Discovery
pub mod Collectors
mod Samples
mod Tests
