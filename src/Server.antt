-- ===== src/Server.antt =====
-- internal/server/server.go: authentication and the lookup of one log record. The engine is what its Get
-- answers for a number.
pub mod Isolation
pub mod Queries
pub mod Ingest
use dist_log.Prelude.{
  ℕ, String, List, [], ◌∷◌, Option, none, some, Bool, true, false, ◌==◌, str_eq, not, if◌then◌else◌,
}
use dist_log.Prelude.Decimal.{parse_uint}
use dist_log.Prelude.Text.{strip_prefix}
use dist_log.Types.{DocId, LogRecord}
use dist_log.Sstable.Reader.{GetResult, found, absent, load_error}

-- The tokens with their tenants; none turn authentication off.
pub record ServerConfig : Type 0 where
  pub tokens : List (String × String)
  pub anonymous_tenant : String

-- The replies, by their status and what their bodies depend on.
pub data Reply : Type 0 where
  missing_header invalid_token : Reply
  invalid_doc_id : String → Reply
  reserved_doc_id : Reply
  not_found : DocId → Reply
  internal_error : Reply
  log_record : DocId → LogRecord → Reply

pub data Auth : Type 0 where
  tenant : String → Auth
  denied : Reply → Auth

unfoldable pub token_tenant : String → List (String × String) → Option String
token_tenant token [] = none
token_tenant token ((t, name) ∷ ts) = if str_eq t token then some name else token_tenant token ts

abbrev known_token : Option String → Auth
known_token none = denied invalid_token
known_token (some name) = tenant name

abbrev bearer_token : List (String × String) → Option String → Auth
bearer_token ts none = denied missing_header
bearer_token ts (some token) = known_token (token_tenant token ts)

-- `authMiddleware` up to the call of the handler; `header` is the Authorization header, empty if missing.
unfoldable pub auth_middleware : ServerConfig → String → Auth
unfolding token_tenant strip_prefix
auth_middleware c header = elim c.tokens [
  | [] ↦ tenant c.anonymous_tenant
  | t ∷ ts ↦ bearer_token c.tokens (strip_prefix "Bearer " header)
]

-- The tenant that the handler takes from the request's context.
unfoldable pub tenant_from_ctx : ServerConfig → String → String
tenant_from_ctx c name = if not (str_eq name "") then name else c.anonymous_tenant

unfoldable pub reply_to_get : String → DocId → GetResult → Reply
reply_to_get name id load_error = internal_error
reply_to_get name id absent = not_found id
reply_to_get name id (found r) =
    if not (str_eq r.tenant_id name) then not_found id else log_record id r

-- `handleGet`, for the text of the number in the path.
unfoldable pub handle_get : ServerConfig → String → String → (DocId → GetResult) → Reply
unfolding tenant_from_ctx reply_to_get parse_uint
handle_get c name text get = elim (parse_uint text) [
  | none ↦ invalid_doc_id text
  | some id ↦ if id == 0 then reserved_doc_id else reply_to_get (tenant_from_ctx c name) id (get id)
]

-- The route GET /api/logs/{docID}.
unfoldable pub get_log : ServerConfig → String → String → (DocId → GetResult) → Reply
unfolding auth_middleware handle_get
get_log c header text get = elim (auth_middleware c header) [
  | denied r ↦ r
  | tenant name ↦ handle_get c name text get
]
