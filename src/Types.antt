-- ===== src/Types.antt =====
-- internal/types: the record of one log line (types.go) and the allocator of document numbers
-- (allocator.go).
pub mod Allocator
pub mod Entries
pub mod Codec
use dist_log.Prelude.{ℕ, ◌+◌, String, List, ◌<◌, ◌^◌}
use dist_log.Prelude.Int.{ℤ}

-- A `DocID` is a uint64; 0 stands for "unassigned".
abbrev pub DocId : Type 0
DocId = ℕ

-- Unix nanoseconds, an int64.
abbrev pub Timestamp : Type 0
Timestamp = ℤ

-- A Go map is an association list; a nil map is the empty one.
pub record LogRecord : Type 0 where
  pub timestamp : Timestamp
  pub tenant_id : String
  pub source : String
  pub message : String
  pub fields : List (String × String)
