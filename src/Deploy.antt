-- ===== src/Deploy.antt =====
-- dashboard/packages/api/src/routers/deploy.ts: deploying ROS packages to a robot.
pub mod Input
pub mod Command
pub mod Packages
pub mod Run
pub mod Plain
pub mod Safety
pub mod Names
pub mod Built
pub mod Words
pub mod Commands
pub mod Manifest
pub mod Redaction
pub mod Order
mod Tests
