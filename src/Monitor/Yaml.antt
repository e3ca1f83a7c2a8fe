-- ===== src/Monitor/Yaml.antt =====
-- monitor/pr-monitor/src/yaml.ts: values of the YAML subset.
pub mod Value
pub mod Parse
pub mod Stack
pub mod Parsed
mod Tests
