-- ===== src/Tests/Requests.antt =====
-- The theorems on the HTTP server at concrete inputs.
use dist_log.Prelude.{
  String, [], ◌∷◌, ◌≡◌, Option, some, true, false, refl, arith, str_eq, if◌then◌else◌,
}
use dist_log.Types.{DocId}
use dist_log.Sstable.Reader.{GetResult, found}
use dist_log.Query.Execute.{limit_of}
use dist_log.Query.Execute.Rows.{limited, rows_of, matching}
use dist_log.Server.{
  tenant_from_ctx, ServerConfig, auth_middleware, get_log, tenant, log_record, not_found,
}
use dist_log.Server.Isolation.{acting, visible, get_log-visible}
use dist_log.Server.Queries.{rows_found, post_query, answer}
use dist_log.Server.Queries.Rows.{owned, post_query-owned}
use dist_log.Server.Ingest.{IngestRequest, status, accepted, record_of, post_ingest}
use dist_log.Server.Ingest.Owned.{ingest-get_log}
use dist_log.Server.Ingest.Health.{unhealthy_refuses, close-unhealthy}
use dist_log.Query.{Statement}
use dist_log.Query.Parse.{parse, parsed, is_negative, parse_lem}
use dist_log.Prelude.Int.{pos}
use dist_log.Prelude.Decimal.{format_nat}
use dist_log.Prelude.Text.{trim_space, equal_fold}
use dist_log.Types.Allocator as Allocator
use dist_log.Memtable.SortedList.{sorted_list}
use dist_log.Engine.State.{Engine}
use dist_log.Engine.Write.{no_faults, wait_for_stall_clear, stall_predicate}
use dist_log.Engine.Read.{get}
use dist_log.Engine.Flush.{close}
use dist_log.Engine.Laws.Sound.{fresh}
use dist_log.Tests.Engines.{a_config}
use dist_log.Config.{Config, apply_defaults, load}
use dist_log.Config.Loads.{IsComplete, load-IsComplete}
use dist_log.Tests.Queries.{
  acme, one, no_time, late, late_statement, no_format, scan_one, late_holds, columns_resolve,
}

abbrev two_tenants : ServerConfig
two_tenants = record {
  tokens = ("s3cret", "acme") ∷ ("other", "globex") ∷ [];
  anonymous_tenant = "public";
}

abbrev always_acme : DocId → GetResult
always_acme k = found acme

get_log-visible_example :
    get_log two_tenants "Bearer other" "7" always_acme
    ≡ get_log two_tenants "Bearer other" "7" (λ k.
      visible (acting two_tenants (auth_middleware two_tenants "Bearer other")) (always_acme k))
get_log-visible_example = get_log-visible two_tenants "Bearer other" "7" always_acme

-- A grammar that makes the same statement of every text.
abbrev one_grammar : String → Option Statement
one_grammar text = some late_statement

abbrev query_text : String
query_text = " select message from logs where ts > 1 limit 1 "

query_text-parsed : parse one_grammar query_text ≡ parsed late_statement
unfolding parse
query_text-parsed = refl

parse_lem_example :
    (str_eq (trim_space query_text) "" ≡ false)
    × (one_grammar (trim_space query_text) ≡ some late_statement)
    × (equal_fold late_statement.from "logs" ≡ true)
    × (is_negative late_statement.limit ≡ false)
parse_lem_example = parse_lem one_grammar query_text late_statement query_text-parsed

post_query-owned_example :
    post_query two_tenants "Bearer s3cret" (some query_text) one_grammar no_time no_format scan_one
    ≡ answer (
        rows_found (record {
          columns = "message" ∷ [];
          rows = rows_of no_format ("message" ∷ []) (
              limited
                (limit_of late_statement.limit)
                (owned (tenant_from_ctx two_tenants "acme") (matching no_time (some late) one)));
        }))
post_query-owned_example =
    post_query-owned two_tenants "Bearer s3cret" "acme" query_text one_grammar late_statement
      no_time no_format scan_one ("message" ∷ []) one (unfold auth_middleware in refl)
      query_text-parsed (λ visit rows. refl) columns_resolve ((true, late_holds), tt)

-- The long s folds to s, as in package strings.
long_s : equal_fold "logſ" "LOGS" ≡ true
unfolding equal_fold
long_s = refl

abbrev a_body : IngestRequest
a_body = record {
  timestamp = pos 0;
  tenant_id = "globex";
  source = "web";
  message = "hello";
  fields = [];
}

abbrev empty_engine : Engine sorted_list
empty_engine = fresh sorted_list a_config

ingest-get_log_example :
    ((post_ingest sorted_list two_tenants "Bearer s3cret"
        (pos 8)
        (some a_body)
        []
        no_faults
        empty_engine).0
      ≡ accepted (Allocator.next empty_engine.alloc).0)
    × (get_log two_tenants "Bearer s3cret" (format_nat (Allocator.next empty_engine.alloc).0) (λ k.
          get sorted_list k
            (post_ingest sorted_list two_tenants "Bearer s3cret"
              (pos 8)
              (some a_body)
              []
              no_faults
              empty_engine).1)
        ≡ log_record
            (Allocator.next empty_engine.alloc).0
            (record_of two_tenants "acme" (pos 8) a_body))
    × ((header' name' : String)
        → auth_middleware two_tenants header' ≡ tenant name'
        → str_eq (tenant_from_ctx two_tenants "acme") (tenant_from_ctx two_tenants name') ≡ false
        → get_log two_tenants header' (format_nat (Allocator.next empty_engine.alloc).0) (λ k.
          get sorted_list k
            (post_ingest sorted_list two_tenants "Bearer s3cret"
              (pos 8)
              (some a_body)
              []
              no_faults
              empty_engine).1)
          ≡ not_found (Allocator.next empty_engine.alloc).0)
ingest-get_log_example =
    ingest-get_log sorted_list two_tenants "Bearer s3cret" "acme" (pos 8) a_body [] empty_engine
      (unfold auth_middleware in refl) (unfold fresh in refl) (unfold fresh in refl)
      (unfold fresh in refl) (unfold fresh wait_for_stall_clear stall_predicate in refl)
      (unfold fresh Allocator.next in refl) (unfold fresh Allocator.next in omega arith)

unhealthy_refuses_example :
    (status
        (post_ingest sorted_list two_tenants "Bearer s3cret"
          (pos 8)
          (some a_body)
          []
          no_faults
          (close sorted_list empty_engine)).0
      ≡ (if (close sorted_list empty_engine).closed then 503 else 500))
    × ((post_ingest sorted_list two_tenants "Bearer s3cret"
          (pos 8)
          (some a_body)
          []
          no_faults
          (close sorted_list empty_engine)).1
        ≡ close sorted_list empty_engine)
unhealthy_refuses_example =
    unhealthy_refuses sorted_list 0 two_tenants "Bearer s3cret" "acme" (pos 8) a_body [] no_faults
      (close sorted_list empty_engine) (close-unhealthy sorted_list 0 empty_engine)
      (unfold auth_middleware in refl)

-- A file that names the data directory only.
abbrev small_config : Config
small_config = record {
  server = record { listen_addr = ""; shutdown_timeout = pos 0; write_request_timeout = pos 0 };
  engine = record {
    data_dir = "/var/lib/distlog";
    mem_table_size_limit = pos 0;
    mem_table_hard_limit = pos 0;
    max_frozen_mem_tables = pos 0;
  };
  auth = record { tokens = [] };
}

load-IsComplete_example :
    (apply_defaults small_config ≡ apply_defaults small_config)
    × IsComplete (apply_defaults small_config)
load-IsComplete_example =
    load-IsComplete small_config (apply_defaults small_config) (unfold load in refl)
