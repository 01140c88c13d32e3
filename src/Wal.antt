-- ===== src/Wal.antt =====
-- internal/wal: records, segments and the manager of a directory of segments.
pub mod Record
pub mod Replay
pub mod Names
pub mod Manager
