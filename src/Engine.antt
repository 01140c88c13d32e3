-- ===== src/Engine.antt =====
-- internal/engine: the parts of the storage engine.
pub mod Codec
pub mod Scan
pub mod Startup
pub mod State
pub mod Write
pub mod Read
pub mod Flush
pub mod Table
pub mod Laws
pub mod Recovery
pub mod Replay
pub mod Open
pub mod Life
