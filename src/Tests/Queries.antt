-- ===== src/Tests/Queries.antt =====
-- The theorems on queries and table files at concrete inputs.
use dist_log.Prelude.{◌≡◌, ◌↔◌, refl, List, [], ◌∷◌, none, some, true, false, arith, replicate}
use dist_log.Prelude.Int.{pos}
use dist_log.Prelude.Decimal.{parse_int, format_int}
use dist_log.Types.{LogRecord}
use dist_log.Types.Entries.{Entry, lookup}
use dist_log.Query.{
  Expr, expr, or_expr, or_end, and_expr, and_end, cmp, Statement, ParseTime, ok, err, not_ordered,
}
use dist_log.Query.Eval.{eval}
use dist_log.Query.Scope.{and_tenant_filter, eval-and_tenant_filter, eval-and_tenant_filter_err}
use dist_log.Query.Plan.{plan, prune_sstable}
use dist_log.Query.Plan.Sound.{plan_keeps_matches}
use dist_log.Query.Execute.{
  execute, done, FormatTime, Scanner, visit_all, resolve_columns, limit_of,
}
use dist_log.Query.Execute.Rows.{execute_rows, rows_of, limited, matching}
use dist_log.Sstable.Format as Format
use dist_log.Sstable.Format.{
  IndexEntry, marshal_index_entry, unmarshal_index_entry, RecordHeader, encode_record_header,
  decode_record_header, MetaBlock, marshal_meta_block, unmarshal_meta_block,
}
use dist_log.Sstable.Reader.{Reader, get}
use dist_log.Sstable.Reader.Get.{of_lookup, get-readable}
use dist_log.Sstable.Reader.Iterator.{readable}

abbrev pub no_time : ParseTime
no_time layout s = none

abbrev pub acme : LogRecord
acme = record {
  timestamp = pos 5;
  tenant_id = "acme";
  source = "web";
  message = "hello";
  fields = [];
}

abbrev pub late : Expr
late = expr (
    or_expr
      (and_expr
        (cmp (record {
          field = record { name = "ts"; map = "" };
          op = ">=";
          value = record { str = none; int = some (pos 3) };
        }))
        and_end)
      or_end)

abbrev pub late_statement : Statement
late_statement = record {
  select = record { star = false; columns = record { name = "message"; map = "" } ∷ [] };
  from = "logs";
  filter = some late;
  limit = some (pos 1);
}

pub late_holds : eval no_time (some late) 4 acme ≡ ok true
unfolding eval parse_int format_int
late_holds = refl

eval-and_tenant_filter_example :
    (eval no_time (some (and_tenant_filter (some late) "acme")) 4 acme ≡ ok true)
    ↔ ((eval no_time (some late) 4 acme ≡ ok true) × (acme.tenant_id ≡ "acme"))
eval-and_tenant_filter_example = eval-and_tenant_filter no_time (some late) "acme" 4 acme

eval-and_tenant_filter_err_example :
    (eval no_time (some (and_tenant_filter (some late) "acme")) 4 acme ≡ err not_ordered)
    ↔ (eval no_time (some late) 4 acme ≡ err not_ordered)
eval-and_tenant_filter_err_example =
    eval-and_tenant_filter_err no_time (some late) "acme" 4 acme not_ordered

plan_keeps_matches_example : prune_sstable (plan no_time late_statement) (pos 1) (pos 9) ≡ false
plan_keeps_matches_example =
    plan_keeps_matches no_time late_statement 4 acme (pos 1) (pos 9) late_holds (omega arith)
      (omega arith)

abbrev pub no_format : FormatTime
no_format t = ""

abbrev pub one : List Entry
one = (4, acme) ∷ []

abbrev pub scan_one : Scanner
scan_one o visit rows = visit_all visit one rows

pub columns_resolve : resolve_columns late_statement.select ≡ ok ("message" ∷ [])
unfolding resolve_columns
columns_resolve = refl

execute_rows_example :
    execute no_time no_format scan_one late_statement
    ≡ done (record {
      columns = "message" ∷ [];
      rows =
          rows_of no_format
            ("message" ∷ [])
            (limited (limit_of late_statement.limit) (matching no_time (some late) one));
    })
execute_rows_example =
    execute_rows no_time no_format scan_one late_statement ("message" ∷ []) one (λ visit rows. refl)
      columns_resolve ((true, late_holds), tt)

abbrev a_meta : MetaBlock
a_meta = record {
  min_doc_id = 4;
  max_doc_id = 4;
  min_timestamp = pos 5;
  max_timestamp = pos 5;
  record_count = 1;
  data_block_count = 1;
  created_at_unix = pos 9;
  reserved = replicate 32 0;
}

abbrev a_footer : Format.Footer
a_footer = record {
  version = 1;
  flags = 0;
  index_block_offset = 100;
  index_block_size = 24;
  meta_block_offset = 124;
  meta_block_size = 88;
}

abbrev pub a_table : Reader
a_table = record { meta = a_meta; blocks = record { first_doc_id = 4; contents = some one } ∷ [] }

get-readable_example : get 4 a_table ≡ of_lookup (lookup 4 (readable a_table.blocks))
get-readable_example =
    get-readable 4 a_table (acme, [], 5, refl, omega arith, omega arith, omega arith)
