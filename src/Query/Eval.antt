-- ===== src/Query/Eval.antt =====
-- internal/query/evaluator.go: a WHERE tree on one record. `time.Parse` is a parameter.
use dist_log.Prelude.{
  String, List, [], ◌∷◌, Option, none, some, Bool, true, false, ◌&&◌, ◌||◌, not, str_eq,
  if◌then◌else◌,
}
use dist_log.Prelude.Int.{ℤ, pos, ltb_ℤ}
use dist_log.Prelude.Decimal.{format_int, parse_int}
use dist_log.Types.{DocId, LogRecord}
use dist_log.Query.{
  FieldRef, Literal, Compare, Expr, expr, OrExpr, or_expr, OrRest, or_end, or_more, AndExpr,
  and_expr, AndRest, and_end, and_more, CmpExpr, sub, cmp, QueryError, nested_access, unknown_field,
  ts_literal_kind, ts_literal_format, doc_id_literal_kind, string_literal_kind, not_ordered,
  lhs_not_numeric, rhs_not_numeric, unknown_operator, Result, ok, err, ◌>>=◌, rfc3339_nano, rfc3339,
  ParseTime,
}

pub record EvalCtx : Type 0 where
  pub doc_id : DocId
  pub rec : LogRecord

-- Indexing a `map[string]string`: a missing key gives the empty string.
unfoldable pub map_get : List (String × String) → String → String
map_get [] k = ""
map_get ((j, v) ∷ m) k = if str_eq j k then v else map_get m k

unfoldable pub load_field : FieldRef → EvalCtx → Result String
unfolding map_get
load_field f ctx =
    if not (str_eq f.map "")
    then (if not (str_eq f.name "fields")
        then err nested_access
        else ok (map_get ctx.rec.fields f.map))
    else if str_eq f.name "ts"
    then ok (format_int ctx.rec.timestamp)
    else if str_eq f.name "tenant_id"
    then ok ctx.rec.tenant_id
    else if str_eq f.name "source"
    then ok ctx.rec.source
    else if str_eq f.name "message"
    then ok ctx.rec.message
    else if str_eq f.name "doc_id"
    then ok (format_int (pos ctx.doc_id))
    else err unknown_field

abbrev or_else : Option ℤ → Option ℤ → Option ℤ
or_else none o = o
or_else (some t) o = some t

-- The RFC3339 text with nanoseconds first, then without.
unfoldable pub time_of : ParseTime → String → Option ℤ
time_of parse s = or_else (parse rfc3339_nano s) (parse rfc3339 s)

abbrev time_text : Option ℤ → Result String
time_text none = err ts_literal_format
time_text (some t) = ok (format_int t)

abbrev ts_literal : ParseTime → Option ℤ → Option String → Result String
ts_literal parse (some n) s = ok (format_int n)
ts_literal parse none none = err ts_literal_kind
ts_literal parse none (some s) = time_text (time_of parse s)

abbrev doc_id_literal : Option ℤ → Result String
doc_id_literal none = err doc_id_literal_kind
doc_id_literal (some n) = ok (format_int n)

abbrev string_literal : Option String → Result String
string_literal none = err string_literal_kind
string_literal (some s) = ok s

unfoldable pub load_literal : ParseTime → FieldRef → Literal → Result String
unfolding time_of
load_literal parse f lit =
    if str_eq f.name "ts"
    then ts_literal parse lit.int lit.str
    else if str_eq f.name "doc_id"
    then doc_id_literal lit.int
    else string_literal lit.str

unfoldable pub is_ordered_field : FieldRef → Bool
is_ordered_field f = str_eq f.map "" && (str_eq f.name "ts" || str_eq f.name "doc_id")

abbrev number : QueryError → Option ℤ → Result ℤ
number e none = err e
number e (some z) = ok z

unfoldable pub ordered_test : String → ℤ → ℤ → Bool
ordered_test op l r =
    if str_eq op "<"
    then ltb_ℤ l r
    else if str_eq op "<="
    then not (ltb_ℤ r l)
    else if str_eq op ">"
    then ltb_ℤ r l
    else not (ltb_ℤ l r)

unfoldable pub is_ordered_op : String → Bool
is_ordered_op op = str_eq op "<" || str_eq op "<=" || str_eq op ">" || str_eq op ">="

unfoldable pub compare_ordered : Compare → String → String → Result Bool
unfolding is_ordered_field ordered_test
compare_ordered c got want = if not (is_ordered_field c.field) then err not_ordered else do
  l ← number lhs_not_numeric (parse_int got)
  r ← number rhs_not_numeric (parse_int want)
  ok (ordered_test c.op l r)

unfoldable pub compare_texts : Compare → String → String → Result Bool
unfolding is_ordered_op compare_ordered
compare_texts c got want =
    if str_eq c.op "="
    then ok (str_eq got want)
    else if str_eq c.op "!="
    then ok (not (str_eq got want))
    else if is_ordered_op c.op
    then compare_ordered c got want
    else err unknown_operator

unfoldable pub eval_compare : ParseTime → EvalCtx → Compare → Result Bool
unfolding load_field load_literal compare_texts
eval_compare parse ctx c = do
  got ← load_field c.field ctx
  want ← load_literal parse c.field c.value
  compare_texts c got want

-- The first error or true ends an OR; the first error or false ends an AND.
unfoldable mutual
  unfolding eval_compare

  pub eval_expr : ParseTime → EvalCtx → Expr → Result Bool
  eval_expr parse ctx (expr o) = eval_or parse ctx o

  pub eval_or : ParseTime → EvalCtx → OrExpr → Result Bool
  eval_or parse ctx (or_expr a rest) = elim (eval_and parse ctx a) [
    | err e ↦ err e
    | ok true ↦ ok true
    | ok false ↦ eval_or_rest parse ctx rest
  ]

  pub eval_or_rest : ParseTime → EvalCtx → OrRest → Result Bool
  eval_or_rest parse ctx or_end = ok false
  eval_or_rest parse ctx (or_more a rest) = elim (eval_and parse ctx a) [
    | err e ↦ err e
    | ok true ↦ ok true
    | ok false ↦ eval_or_rest parse ctx rest
  ]

  pub eval_and : ParseTime → EvalCtx → AndExpr → Result Bool
  eval_and parse ctx (and_expr c rest) = elim (eval_cmp parse ctx c) [
    | err e ↦ err e
    | ok false ↦ ok false
    | ok true ↦ eval_and_rest parse ctx rest
  ]

  pub eval_and_rest : ParseTime → EvalCtx → AndRest → Result Bool
  eval_and_rest parse ctx and_end = ok true
  eval_and_rest parse ctx (and_more c rest) = elim (eval_cmp parse ctx c) [
    | err e ↦ err e
    | ok false ↦ ok false
    | ok true ↦ eval_and_rest parse ctx rest
  ]

  pub eval_cmp : ParseTime → EvalCtx → CmpExpr → Result Bool
  eval_cmp parse ctx (sub e) = eval_expr parse ctx e
  eval_cmp parse ctx (cmp c) = eval_compare parse ctx c

-- A nil WHERE matches everything.
unfoldable pub eval : ParseTime → Option Expr → DocId → LogRecord → Result Bool
unfolding eval_expr eval_or eval_or_rest eval_and eval_and_rest eval_cmp
eval parse none id r = ok true
eval parse (some e) id r = eval_expr parse (record { doc_id = id; rec = r }) e
