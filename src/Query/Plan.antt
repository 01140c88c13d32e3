-- ===== src/Query/Plan.antt =====
-- internal/query/planner.go: the timestamp window that a WHERE tree implies, and the pruning test
-- of internal/engine/engine.go that reads it.
pub mod Sound
use dist_log.Prelude.{
  ℕ, zero, String, List, [], ◌∷◌, Option, none, some, Bool, true, false, ◌&&◌, ◌||◌, not, str_eq,
  if◌then◌else◌,
}
use dist_log.Prelude.Int.{ℤ, pos, negsuc, ltb_ℤ}
use dist_log.Types.{Timestamp}
use dist_log.Query.{
  FieldRef, Literal, Compare, Expr, expr, OrExpr, or_expr, OrRest, or_end, or_more, AndExpr,
  and_expr, AndRest, and_end, and_more, CmpExpr, sub, cmp, Statement, ParseTime,
}
use dist_log.Query.Eval.{time_of}

-- 0 stands for "no bound".
pub record ScanOptions : Type 0 where
  pub min_timestamp : Timestamp
  pub max_timestamp : Timestamp

abbrev pub no_options : ScanOptions
no_options = record { min_timestamp = pos 0; max_timestamp = pos 0 }

abbrev pub is_zero : ℤ → Bool
is_zero (pos zero) = true
is_zero _ = false

unfoldable pub literal_to_timestamp : ParseTime → Literal → Option Timestamp
unfolding time_of
literal_to_timestamp parse lit = elim lit.int [
  | some n ↦ some n
  | none ↦ elim lit.str [ none ↦ none | some s ↦ time_of parse s ]
]

unfoldable pub narrow_min : ScanOptions → Timestamp → ScanOptions
narrow_min opts ts =
    if is_zero opts.min_timestamp || ltb_ℤ opts.min_timestamp ts
    then record opts { min_timestamp = ts }
    else opts

unfoldable pub narrow_max : ScanOptions → Timestamp → ScanOptions
narrow_max opts ts =
    if is_zero opts.max_timestamp || ltb_ℤ ts opts.max_timestamp
    then record opts { max_timestamp = ts }
    else opts

unfoldable pub narrow_by : String → Timestamp → ScanOptions → ScanOptions
unfolding narrow_min narrow_max
narrow_by op ts opts =
    if str_eq op "="
    then narrow_max (narrow_min opts ts) ts
    else if str_eq op ">" || str_eq op ">="
    then narrow_min opts ts
    else if str_eq op "<" || str_eq op "<="
    then narrow_max opts ts
    else opts

abbrev narrow_if : String → Option Timestamp → ScanOptions → ScanOptions
narrow_if op none opts = opts
narrow_if op (some ts) opts = narrow_by op ts opts

unfoldable pub apply_compare : ParseTime → Compare → ScanOptions → ScanOptions
unfolding literal_to_timestamp narrow_by
apply_compare parse c opts =
    if not (str_eq c.field.map "") || not (str_eq c.field.name "ts")
    then opts
    else narrow_if c.op (literal_to_timestamp parse c.value) opts

unfoldable pub apply_cmp : ParseTime → CmpExpr → ScanOptions → ScanOptions
unfolding apply_compare
apply_cmp parse (sub e) opts = opts
apply_cmp parse (cmp c) opts = apply_compare parse c opts

unfoldable pub extract_rest : ParseTime → AndRest → ScanOptions → ScanOptions
unfolding apply_cmp
extract_rest parse and_end opts = opts
extract_rest parse (and_more c rest) opts = extract_rest parse rest (apply_cmp parse c opts)

unfoldable pub extract_from_and : ParseTime → AndExpr → ScanOptions → ScanOptions
unfolding extract_rest
extract_from_and parse (and_expr c rest) opts = extract_rest parse rest (apply_cmp parse c opts)

-- An OR at the top level stops the extraction.
unfoldable pub plan_expr : ParseTime → Expr → ScanOptions
unfolding extract_from_and
plan_expr parse (expr (or_expr a (or_more b rest))) = no_options
plan_expr parse (expr (or_expr a or_end)) = extract_from_and parse a no_options

unfoldable pub plan : ParseTime → Statement → ScanOptions
unfolding plan_expr
plan parse stmt = elim stmt.filter [ none ↦ no_options | some e ↦ plan_expr parse e ]

unfoldable pub has_time_range : ScanOptions → Bool
has_time_range o = not (is_zero o.min_timestamp) || not (is_zero o.max_timestamp)

-- `pruneSSTable`, given the table's lowest and highest timestamp.
unfoldable pub prune_sstable : ScanOptions → Timestamp → Timestamp → Bool
unfolding has_time_range
prune_sstable o lo hi =
    if not (has_time_range o)
    then false
    else if not (is_zero o.min_timestamp) && ltb_ℤ hi o.min_timestamp
    then true
    else if not (is_zero o.max_timestamp) && ltb_ℤ o.max_timestamp lo
    then true
    else false
