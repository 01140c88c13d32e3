-- ===== src/Query/Scope.antt =====
-- internal/query/scope.go: the tenant predicate put around a WHERE tree.
use Prim.Native.String.{String}
use dist_log.Prelude.{Option, none, some, true, ◌≡◌, ◌↔◌, arith, eq_iff}
use dist_log.Types.{DocId, LogRecord}
use dist_log.Query.{
  Expr, expr, or_expr, or_end, and_expr, and_end, and_more, CmpExpr, sub, cmp, QueryError, ok, err,
  ParseTime,
}
use dist_log.Query.Eval.{eval}

abbrev tenant_compare : String → CmpExpr
tenant_compare tenant = cmp (record {
  field = record { name = "tenant_id"; map = "" };
  op = "=";
  value = record { str = some tenant; int = none };
})

unfoldable pub and_tenant_filter : Option Expr → String → Expr
and_tenant_filter none tenant = expr (or_expr (and_expr (tenant_compare tenant) and_end) or_end)
and_tenant_filter (some orig) tenant =
    expr (or_expr (and_expr (sub orig) (and_more (tenant_compare tenant) and_end)) or_end)

-- Whatever WHERE a caller sends, hostile text included, the scoped tree accepts a record exactly if
-- the caller's tree accepts it and the record belongs to the tenant.
pub eval-and_tenant_filter :
    (parse : ParseTime) (orig : Option Expr) (tenant : String) (id : DocId) (r : LogRecord)
    → (eval parse (some (and_tenant_filter orig tenant)) id r ≡ ok true)
      ↔ ((eval parse orig id r ≡ ok true) × (r.tenant_id ≡ tenant))
unfolding eval and_tenant_filter
eval-and_tenant_filter parse none tenant id r = ground (arith, eq_iff r.tenant_id tenant)
eval-and_tenant_filter parse (some e) tenant id r = ground (arith, eq_iff r.tenant_id tenant)

-- The scoped tree fails exactly where the caller's tree fails, with the same error.
pub eval-and_tenant_filter_err :
    (parse : ParseTime) (orig : Option Expr) (tenant : String) (id : DocId) (r : LogRecord)
    (e : QueryError)
    → (eval parse (some (and_tenant_filter orig tenant)) id r ≡ err e)
      ↔ (eval parse orig id r ≡ err e)
unfolding eval and_tenant_filter
eval-and_tenant_filter_err parse none tenant id r e = ground (arith, eq_iff r.tenant_id tenant)
eval-and_tenant_filter_err parse (some o) tenant id r e = ground (arith, eq_iff r.tenant_id tenant)
