-- ===== src/Tests.antt =====
-- The theorems at concrete inputs.
pub mod Storage
pub mod Queries
pub mod Engines
pub mod Crashes
pub mod Requests
pub mod Tables
pub mod Reopened
pub mod Lives
