-- ===== src/Query/Execute.antt =====
-- internal/query/executor.go: scan, filter, project and LIMIT. The scanner is an argument, as the
-- `Scanner` interface is; so are `time.Parse` and the RFC3339 text of a time.
pub mod Rows
use Prim.Native.String.{◌++◌ as str_append}
use dist_log.Prelude.{
  ℕ, suc, ◌≤◌, String, List, [], ◌∷◌, ◌++◌, Option, none, some, Bool, true, false, ◌&&◌, ◌||◌, not,
  str_eq, if◌then◌else◌, leb, length,
}
use dist_log.Prelude.Int.{ℤ, pos, negsuc}
use dist_log.Prelude.Text.{strip_prefix}
use dist_log.Types.{DocId, LogRecord, Timestamp}
use dist_log.Types.Entries.{Entry}
use dist_log.Query.{
  Column, SelectClause, Statement, QueryError, nested_access, unknown_column, Result, ok, err,
  ◌>>=◌, ParseTime,
}
use dist_log.Query.Eval.{eval, map_get}
use dist_log.Query.Plan.{ScanOptions, plan}

-- What a scan reports beside the errors of its visitor.
pub data ScanFailure : Type 0 where
  closed ctx_done iterator_error : ScanFailure

pub data ScanError : Type 0 where
  limit_reached : ScanError
  eval_error : QueryError → ScanError
  scan_failure : ScanFailure → ScanError

-- A visitor, or a whole scan, leaves a state, and maybe an error.
pub data Visited (S : Type 0) : Type 0 where
  go_on : S → Visited S
  stop : ScanError → S → Visited S

abbrev pub Visitor : Type 0 → Type 0
Visitor S = DocId → LogRecord → S → Visited S

-- The first error of the visitor aborts the scan.
unfoldable pub visit_all : {S : Type 0} → Visitor S → List Entry → S → Visited S
visit_all visit [] s = go_on s
visit_all visit ((id, r) ∷ es) s = elim (visit id r s) [
  | go_on s' ↦ visit_all visit es s'
  | stop e s' ↦ stop e s'
]

-- A value of a result row.
pub data Value : Type 0 where
  number : ℕ → Value
  text : String → Value
  text_map : List (String × String) → Value

pub record Row : Type 0 where
  pub doc_id : DocId
  pub values : List (String × Value)

pub record QueryResult : Type 0 where
  pub columns : List String
  pub rows : List Row

abbrev pub Scanner : Type 0
Scanner = ScanOptions → Visitor (List Row) → List Row → Visited (List Row)

abbrev pub is_plain_column : String → Bool
is_plain_column c =
    str_eq c "doc_id"
    || str_eq c "ts"
    || str_eq c "tenant_id"
    || str_eq c "source"
    || str_eq c "message"
    || str_eq c "fields"

abbrev pub fields_dot : String → String
fields_dot key = str_append "fields." key

unfoldable pub resolve_column : Column → Result String
resolve_column c =
    if not (str_eq c.map "")
    then (if not (str_eq c.name "fields") then err nested_access else ok (fields_dot c.map))
    else if is_plain_column c.name
    then ok c.name
    else err unknown_column

unfoldable pub resolve_all : List Column → Result (List String)
unfolding resolve_column
resolve_all [] = ok []
resolve_all (c ∷ cs) = do n ← resolve_column c; ns ← resolve_all cs; ok (n ∷ ns)

unfoldable pub resolve_columns : SelectClause → Result (List String)
unfolding resolve_all
resolve_columns sel =
    if sel.star
    then ok ("doc_id" ∷ "ts" ∷ "tenant_id" ∷ "source" ∷ "message" ∷ "fields" ∷ [])
    else resolve_all sel.columns

-- `out[c] = v`.
unfoldable pub put_value : String → Value → List (String × Value) → List (String × Value)
put_value c v [] = (c, v) ∷ []
put_value c v ((d, w) ∷ m) = if str_eq d c then (c, v) ∷ m else (d, w) ∷ put_value c v m

abbrev pub FormatTime : Type 0
FormatTime = Timestamp → String

abbrev plain_value : FormatTime → String → DocId → LogRecord → Option Value
plain_value format c id r =
    if str_eq c "doc_id"
    then some (number id)
    else if str_eq c "ts"
    then some (text (format r.timestamp))
    else if str_eq c "tenant_id"
    then some (text r.tenant_id)
    else if str_eq c "source"
    then some (text r.source)
    else if str_eq c "message"
    then some (text r.message)
    else if str_eq c "fields"
    then some (text_map r.fields)
    else none

-- The key of a column `fields.<key>`; the bare "fields." is no such column.
abbrev field_key : Option String → Option String
field_key none = none
field_key (some key) = if str_eq key "" then none else some key

unfoldable pub column_value : FormatTime → String → DocId → LogRecord → Option Value
unfolding strip_prefix map_get
column_value format c id r = elim (field_key (strip_prefix "fields." c)) [
  | some key ↦ some (text (map_get r.fields key))
  | none ↦ plain_value format c id r
]

abbrev put_if : String → Option Value → List (String × Value) → List (String × Value)
put_if c none m = m
put_if c (some v) m = put_value c v m

abbrev project_onto :
    FormatTime → List String → DocId → LogRecord → List (String × Value) → List (String × Value)
project_onto format [] id r out = out
project_onto format (c ∷ cs) id r out =
    project_onto format cs id r (put_if c (column_value format c id r) out)

unfoldable pub project : FormatTime → List String → DocId → LogRecord → List (String × Value)
unfolding put_value column_value
project format cols id r = project_onto format cols id r []

-- -1 stands for "no limit".
unfoldable pub limit_of : Option ℤ → ℤ
limit_of none = negsuc 0
limit_of (some n) = n

unfoldable pub at_limit : ℤ → List Row → Bool
at_limit (negsuc n) rows = false
at_limit (pos n) rows = leb n (length rows)

abbrev pub row_of : FormatTime → List String → DocId → LogRecord → Row
row_of format cols id r = record { doc_id = id; values = project format cols id r }

-- The closure that `Execute` hands to the scanner.
unfoldable pub visit_row : ParseTime → FormatTime → Statement → List String → Visitor (List Row)
unfolding limit_of at_limit
visit_row parse format stmt cols id r rows = elim (eval parse stmt.filter id r) [
  | err e ↦ stop (eval_error e) rows
  | ok false ↦ go_on rows
  | ok true ↦
      let rows' = rows ++ (row_of format cols id r ∷ []) in
      if at_limit (limit_of stmt.limit) rows' then stop limit_reached rows' else go_on rows'
]

pub data Outcome : Type 0 where
  done : QueryResult → Outcome
  query_error : QueryError → Outcome
  scan_error : ScanFailure → Outcome

-- The sentinel of LIMIT is no error.
unfoldable pub finish : List String → Visited (List Row) → Outcome
finish cols (go_on rows) = done (record { columns = cols; rows = rows })
finish cols (stop limit_reached rows) = done (record { columns = cols; rows = rows })
finish cols (stop (eval_error e) rows) = query_error e
finish cols (stop (scan_failure f) rows) = scan_error f

unfoldable pub execute : ParseTime → FormatTime → Scanner → Statement → Outcome
unfolding resolve_columns visit_row finish
execute parse format scan stmt = elim (resolve_columns stmt.select) [
  | err e ↦ query_error e
  | ok cols ↦ finish cols (scan (plan parse stmt) (visit_row parse format stmt cols) [])
]
