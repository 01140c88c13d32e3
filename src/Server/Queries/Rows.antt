-- ===== src/Server/Queries/Rows.antt =====
-- The rows that the query route of internal/server/server.go can return.
use dist_log.Prelude.{
  String, List, [], ◌∷◌, Option, some, Bool, true, false, ◌≡◌, refl, ap, sym, ◌∙◌, ◌⊎◌, ◌&&◌,
  str_eq, eq_iff, if◌then◌else◌, Bool-cases, inl, inr, arith,
}
use dist_log.Types.{DocId, LogRecord}
use dist_log.Types.Entries.{Entry}
use dist_log.Query.{Statement, Expr, ParseTime, QueryError, Result, ok, err}
use dist_log.Query.Eval.{eval}
use dist_log.Query.Scope.{and_tenant_filter, eval-and_tenant_filter, eval-and_tenant_filter_err}
use dist_log.Query.Plan.{plan}
use dist_log.Query.Execute.{FormatTime, Scanner, Visitor, Row, visit_all, resolve_columns, limit_of}
use dist_log.Query.Execute.Rows.{is_true, matching, AllEvaluate, limited, rows_of, execute_rows}
use dist_log.Query.Parse.{parsed, parse}
use dist_log.Server.{ServerConfig, tenant_from_ctx, auth_middleware, tenant}
use dist_log.Server.Queries.{
  rows_found, reply_to_query, handle_query, post_query, answer, statement_of,
}

-- The records of one tenant.
pub owned : String → List Entry → List Entry
owned name [] = []
owned name ((id, r) ∷ es) =
    let rest = owned name es in if str_eq r.tenant_id name then (id, r) ∷ rest else rest

result-cases : (x : Result Bool) → ((b : Bool) × (x ≡ ok b)) ⊎ ((e : QueryError) × (x ≡ err e))
result-cases (ok b) = inl (b, refl)
result-cases (err e) = inr (e, refl)

clash : (b : Bool) (q : QueryError) → ok b ≡ err q → ⊥
clash b q h = cc

is_true-ok : (x : Result Bool) → is_true x ≡ true → x ≡ ok true
is_true-ok (ok true) h = refl
is_true-ok (ok false) h = cc
is_true-ok (err e) h = cc

not_both :
    (a b c : Bool)
    → (a ≡ true → (b ≡ true) × (c ≡ true))
    → (b ≡ true → c ≡ true → a ≡ true)
    → a ≡ (b && c)
not_both a b c f g = ground (arith, f, g)

module _ (parse : ParseTime) (w : Option Expr) (name : String) where
  accepted :
      (id : DocId) (r : LogRecord)
      → is_true (eval parse (some (and_tenant_filter w name)) id r)
        ≡ (is_true (eval parse w id r) && str_eq r.tenant_id name)
  accepted id r =
      let iff = eval-and_tenant_filter parse w name id r in
      not_both (is_true (eval parse (some (and_tenant_filter w name)) id r))
        (is_true (eval parse w id r)) (str_eq r.tenant_id name)
        (λ h.
          let (a, b) = iff.0 (is_true-ok (eval parse (some (and_tenant_filter w name)) id r) h) in
          (ap is_true a, (eq_iff r.tenant_id name).1 b))
        (λ h t.
          ap is_true (iff.1 (is_true-ok (eval parse w id r) h, (eq_iff r.tenant_id name).0 t)))

  matching-owned :
      (es : List Entry)
      → matching parse (some (and_tenant_filter w name)) es ≡ owned name (matching parse w es)
  unfolding matching owned
  matching-owned [] = refl
  matching-owned ((id, r) ∷ es) = elim (Bool-cases (is_true (eval parse w id r))) [
    | inl e ↦ elim (Bool-cases (str_eq r.tenant_id name)) [
      | inl t ↦ rw (accepted id r, e, t, owned) (ap (λ l. (id, r) ∷ l) (matching-owned es))
      | inr t ↦ rw (accepted id r, e, t, owned) (matching-owned es)
    ]
    | inr e ↦ rw (accepted id r, e) (matching-owned es)
  ]

  evaluate-scoped :
      (es : List Entry)
      → AllEvaluate parse w es
      → AllEvaluate parse (some (and_tenant_filter w name)) es
  evaluate-scoped [] h = tt
  evaluate-scoped ((id, r) ∷ es) ((b, e), h) =
      elim (result-cases (eval parse (some (and_tenant_filter w name)) id r)) [
        | inl x ↦ (x, evaluate-scoped es h)
        | inr (q, x) ↦
            absurd (clash b q (sym e ∙ (eval-and_tenant_filter_err parse w name id r q).0 x))
      ]

-- The query route answers for the caller's tenant only: where the columns resolve and the WHERE that the caller
-- sent fails on no visited record, the reply's rows are those of the tenant's own records among the ones
-- which that WHERE accepts, in scan order and cut to the LIMIT.
pub handle_query-owned :
    (c : ServerConfig) (name : String) (stmt : Statement) (parse : ParseTime) (format : FormatTime)
    (scan : Scanner) (cols : List String) (es : List Entry)
    → ((visit : Visitor (List Row)) (rows : List Row)
        → scan
            (plan parse (record stmt {
              filter = some (and_tenant_filter stmt.filter (tenant_from_ctx c name));
            }))
            visit
            rows
          ≡ visit_all visit es rows)
    → resolve_columns stmt.select ≡ ok cols
    → AllEvaluate parse stmt.filter es
    → handle_query c name (some stmt) parse format scan
      ≡ rows_found (record {
        columns = cols;
        rows = rows_of format cols (
            limited
              (limit_of stmt.limit)
              (owned (tenant_from_ctx c name) (matching parse stmt.filter es)));
      })
unfolding handle_query reply_to_query
handle_query-owned c name stmt parse format scan cols es h k a =
    ap reply_to_query (
      execute_rows parse format scan
        (record stmt { filter = some (and_tenant_filter stmt.filter (tenant_from_ctx c name)) })
        cols es h k (evaluate-scoped parse stmt.filter (tenant_from_ctx c name) es a))
    ∙ ap
        (λ l.
          rows_found (record {
            columns = cols;
            rows = rows_of format cols (limited (limit_of stmt.limit) l);
          }))
        (matching-owned parse stmt.filter (tenant_from_ctx c name) es)

-- A query by a caller who is let through, with a text that Parse accepts, is answered for the caller's
-- tenant only: where the columns resolve and the WHERE of the text fails on no visited record, the rows
-- are those of the tenant's own records among the ones which that WHERE accepts, in scan order and cut
-- to the LIMIT.
pub post_query-owned :
    (c : ServerConfig) (header name sql : String) (grammar : String → Option Statement)
    (stmt : Statement) (parse_time : ParseTime) (format : FormatTime) (scan : Scanner)
    (cols : List String) (es : List Entry)
    → auth_middleware c header ≡ tenant name
    → parse grammar sql ≡ parsed stmt
    → ((visit : Visitor (List Row)) (rows : List Row)
        → scan
            (plan parse_time (record stmt {
              filter = some (and_tenant_filter stmt.filter (tenant_from_ctx c name));
            }))
            visit
            rows
          ≡ visit_all visit es rows)
    → resolve_columns stmt.select ≡ ok cols
    → AllEvaluate parse_time stmt.filter es
    → post_query c header (some sql) grammar parse_time format scan
      ≡ answer (
          rows_found (record {
            columns = cols;
            rows = rows_of format cols (
                limited
                  (limit_of stmt.limit)
                  (owned (tenant_from_ctx c name) (matching parse_time stmt.filter es)));
          }))
unfolding post_query
post_query-owned c header name sql grammar stmt parse_time format scan cols es a p h k v =
    rw (a, post_query)
      (ap (λ x. answer (handle_query c name (statement_of x) parse_time format scan)) p
        ∙ ap answer (handle_query-owned c name stmt parse_time format scan cols es h k v))
