-- ===== src/Server/Ingest.antt =====
-- The ingest and health routes of internal/server/server.go, over the engine of internal/engine/engine.go.
pub mod Owned
pub mod Health
use Prim.Native.Char.{Char, code}
use dist_log.Prelude.{
  ℕ, String, List, Option, none, some, Bool, true, false, ◌||◌, ◌==◌, not, str_eq, if◌then◌else◌,
}
use dist_log.Prelude.Int.{ℤ, pos}
use dist_log.Prelude.Decimal.{parse_int}
use dist_log.Prelude.Text.{trim_space}
use dist_log.Types.{DocId, LogRecord, Timestamp}
use dist_log.Memtable.{SkipList}
use dist_log.Query.{ParseTime, rfc3339, rfc3339_nano}
use dist_log.Query.Plan.{is_zero}
use dist_log.Engine.State.{Engine}
use dist_log.Engine.Write.{
  Round, WriteFaults, WriteError, closed_error, fatal_error, backpressure, marshal_error,
  append_error, too_many_retries, WriteResult, written, failed, blocked, write,
}
use dist_log.Engine.Read.{Stats, stats}
use dist_log.Server.{ServerConfig, Reply, tenant_from_ctx, auth_middleware, Auth, tenant, denied}

-- `jsonTimestamp.UnmarshalJSON` of the text of a JSON value; `unquote` is json.Unmarshal at a string, and
-- `none` an error.
module _ (unquote : String → Option String) (parse_time : ParseTime) where
  abbrev or_rfc3339 : String → Option Timestamp → Option Timestamp
  or_rfc3339 s (some t) = some t
  or_rfc3339 s none = parse_time rfc3339 s

  abbrev time_of : Option String → Option Timestamp
  time_of none = none
  time_of (some s) = if str_eq s "" then some (pos 0) else or_rfc3339 s (parse_time rfc3339_nano s)

  abbrev is_quote : String → Bool
  is_quote String.[] = false
  is_quote (String.◌∷◌ c s) = code c == 34

  unfoldable pub unmarshal_timestamp : String → Option Timestamp
  unfolding trim_space parse_int
  unmarshal_timestamp b =
      if str_eq b "" || str_eq b "null"
      then some (pos 0)
      else if not (is_quote b)
      then parse_int (trim_space b)
      else time_of (unquote b)

-- The decoded body of POST /api/ingest.
pub record IngestRequest : Type 0 where
  pub timestamp : Timestamp
  pub tenant_id : String
  pub source : String
  pub message : String
  pub fields : List (String × String)

pub data IngestReply : Type 0 where
  unauthorized : Reply → IngestReply
  bad_body too_many_requests service_unavailable internal_error no_reply : IngestReply
  accepted : DocId → IngestReply

-- The status of the reply, or 0 while there is none.
unfoldable pub status : IngestReply → ℕ
status (unauthorized r) = 401
status bad_body = 400
status too_many_requests = 429
status service_unavailable = 503
status internal_error = 500
status no_reply = 0
status (accepted id) = 200

-- `writeEngineError`
unfoldable pub write_engine_error : WriteError → IngestReply
write_engine_error backpressure = too_many_requests
write_engine_error closed_error = service_unavailable
write_engine_error fatal_error = internal_error
write_engine_error marshal_error = internal_error
write_engine_error append_error = internal_error
write_engine_error too_many_retries = internal_error

-- The record that is written: the time of the body, or the current one, and the tenant of the request
-- in place of the body's.
unfoldable pub record_of : ServerConfig → String → Timestamp → IngestRequest → LogRecord
unfolding tenant_from_ctx
record_of c name now q = record {
  timestamp = if is_zero q.timestamp then now else q.timestamp;
  tenant_id = tenant_from_ctx c name;
  source = q.source;
  message = q.message;
  fields = q.fields;
}

unfoldable pub reply_to_write : WriteResult → IngestReply
unfolding write_engine_error
reply_to_write (written id) = accepted id
reply_to_write (failed e) = write_engine_error e
reply_to_write blocked = no_reply

-- The reply of GET /api/healthz: whether the status is 200, and the body.
pub record HealthReply : Type 0 where
  pub healthy : Bool
  pub quarantined : ℕ
  pub stats : Stats

module _ (S : SkipList) where
  abbrev pub answered : WriteResult × Engine S → IngestReply × Engine S
  answered (result, e) = (reply_to_write result, e)

  -- `handleIngest`; `none` is a body that does not decode.
  unfoldable pub handle_ingest :
      ServerConfig
      → String
      → Timestamp
      → Option IngestRequest
      → List Round
      → WriteFaults
      → Engine S
      → IngestReply × Engine S
  unfolding record_of reply_to_write write
  handle_ingest c name now none rounds faults e = (bad_body, e)
  handle_ingest c name now (some q) rounds faults e =
      answered (write S rounds faults (record_of c name now q) e)

  -- The route POST /api/ingest.
  unfoldable pub post_ingest :
      ServerConfig
      → String
      → Timestamp
      → Option IngestRequest
      → List Round
      → WriteFaults
      → Engine S
      → IngestReply × Engine S
  unfolding handle_ingest auth_middleware
  post_ingest c header now body rounds faults e = elim (auth_middleware c header) [
    | denied r ↦ (unauthorized r, e)
    | tenant name ↦ handle_ingest c name now body rounds faults e
  ]

  -- `handleHealth`, given the number of quarantined tables that recovery reported.
  unfoldable pub handle_health : ℕ → Engine S → HealthReply
  unfolding stats
  handle_health quarantined e =
      let s = stats S e in
      record { healthy = not (s.fatal || s.closed); quarantined = quarantined; stats = s }
