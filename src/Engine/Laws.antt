-- ===== src/Engine/Laws.antt =====
-- What the steps of internal/engine/engine.go mean for its readers and for the log.
pub mod Written
pub mod Moved
pub mod Logged
pub mod Sound
pub mod Steps
pub mod Scanned
pub mod Stalls
