-- ===== src/Server/Queries.antt =====
-- The query route of internal/server/server.go. The grammar of `query.Parse` is an argument, as a
-- third-party parser runs it; so is the scanner, as in internal/query/executor.go.
pub mod Rows
use dist_log.Prelude.{String, Option, none, some}
use dist_log.Query.{Statement, Expr, ParseTime, QueryError}
use dist_log.Query.Scope.{and_tenant_filter}
use dist_log.Query.Execute.{
  FormatTime, Scanner, QueryResult, Outcome, done, query_error, scan_error, ScanFailure, closed,
  execute,
}
use dist_log.Query.Parse.{Parsed, empty_statement, syntax_error, refused, parsed, parse}
use dist_log.Server.{ServerConfig, Reply, tenant_from_ctx, auth_middleware, Auth, tenant, denied}

pub data QueryReply : Type 0 where
  unparsed : QueryReply
  bad_query : QueryError → QueryReply
  bad_scan : ScanFailure → QueryReply
  unavailable : QueryReply
  rows_found : QueryResult → QueryReply

unfoldable pub reply_to_query : Outcome → QueryReply
reply_to_query (done result) = rows_found result
reply_to_query (query_error e) = bad_query e
reply_to_query (scan_error closed) = unavailable
reply_to_query (scan_error f) = bad_scan f

-- `handleQuery`; `none` is a statement that does not parse.
unfoldable pub handle_query :
    ServerConfig → String → Option Statement → ParseTime → FormatTime → Scanner → QueryReply
unfolding tenant_from_ctx reply_to_query execute and_tenant_filter
handle_query c name none parse format scan = unparsed
handle_query c name (some stmt) parse format scan = reply_to_query (
    execute parse format scan
      (record stmt { filter = some (and_tenant_filter stmt.filter (tenant_from_ctx c name)) }))

abbrev pub statement_of : Parsed → Option Statement
statement_of empty_statement = none
statement_of syntax_error = none
statement_of (refused e) = none
statement_of (parsed stmt) = some stmt

pub data RouteReply : Type 0 where
  unauthorized : Reply → RouteReply
  bad_body : RouteReply
  answer : QueryReply → RouteReply

-- The route POST /api/query; `none` is a body that does not decode.
unfoldable pub post_query :
    ServerConfig
    → String
    → Option String
    → (String → Option Statement)
    → ParseTime
    → FormatTime
    → Scanner
    → RouteReply
unfolding auth_middleware handle_query parse
post_query c header body grammar parse_time format scan = elim (auth_middleware c header) [
  | denied r ↦ unauthorized r
  | tenant name ↦ elim body [
    | none ↦ bad_body
    | some sql ↦
        answer (handle_query c name (statement_of (parse grammar sql)) parse_time format scan)
  ]
]
