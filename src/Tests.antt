-- ===== src/Tests.antt =====
-- The theorems at concrete inputs.
pub mod World
mod Output
mod Guards
mod Types
mod Commands
mod Startup
mod Scripts
mod Calls
mod Runs
