-- ===== src/Query/Plan/Sound.antt =====
-- The window of planner.go never leaves out a record that the evaluator accepts.
use dist_log.Prelude.{
  String, Option, none, some, true, false, ◌≡◌, refl, sym, arith, str_eq, eq_iff, inl, inr,
  Bool-cases, Option-cases, subst,
}
use dist_log.Prelude.Int.{ℤ, ◌≤ℤ◌}
use dist_log.Prelude.Decimal.{
  format_int, parse_int, parse_int-format_int_only, format_int-injective,
}
use dist_log.Types.{DocId, LogRecord, Timestamp}
use dist_log.Query.{
  Compare, Expr, expr, or_expr, or_end, or_more, and_expr, AndRest, and_end, and_more, CmpExpr, sub,
  cmp, Statement, ParseTime, ok,
}
use dist_log.Query.Eval.{
  EvalCtx, load_field, load_literal, compare_texts, compare_ordered, is_ordered_op, ordered_test,
  eval_compare, eval_cmp, eval_and_rest, eval_and, eval_or, eval_or_rest, eval_expr, eval,
}
use dist_log.Query.Plan.{
  ScanOptions, no_options, is_zero, literal_to_timestamp, narrow_min, narrow_max, narrow_by,
  apply_compare, apply_cmp, extract_rest, extract_from_and, plan_expr, plan, prune_sstable,
}

pub record InWindow (o : ScanOptions) (t : Timestamp) : Type 0 where
  pub above : is_zero o.min_timestamp ≡ false → o.min_timestamp ≤ℤ t
  pub below : is_zero o.max_timestamp ≡ false → t ≤ℤ o.max_timestamp

no_options-InWindow : (t : Timestamp) → InWindow no_options t
no_options-InWindow t = record { above = λ h. cc; below = λ h. cc }

module _ {o : ScanOptions} {t : Timestamp} (ts : Timestamp) (w : InWindow o t) where
  narrow_min-InWindow : ts ≤ℤ t → InWindow (narrow_min o ts) t
  unfolding narrow_min
  narrow_min-InWindow h = record {
    above = λ z. ground (arith, w.above);
    below = λ z. ground (arith, w.below);
  }

  narrow_max-InWindow : t ≤ℤ ts → InWindow (narrow_max o ts) t
  unfolding narrow_max
  narrow_max-InWindow h = record {
    above = λ z. ground (arith, w.above);
    below = λ z. ground (arith, w.below);
  }

-- The meaning of the six operators between timestamps.
abbrev Holds : String → ℤ → ℤ → Type 0
Holds op t ts =
    (str_eq op "=" ≡ true → t ≡ ts)
    × (str_eq op ">" ≡ true → ts ≤ℤ t)
    × (str_eq op ">=" ≡ true → ts ≤ℤ t)
    × (str_eq op "<" ≡ true → t ≤ℤ ts)
    × (str_eq op "<=" ≡ true → t ≤ℤ ts)

≤ℤ_refl : (t : ℤ) → t ≤ℤ t
≤ℤ_refl t = omega arith

module _ (op : String) (ts : Timestamp) {o : ScanOptions} {t : Timestamp} (w : InWindow o t) where
  narrow_by-InWindow : Holds op t ts → InWindow (narrow_by op ts o) t
  unfolding narrow_by
  narrow_by-InWindow (eq, gt, ge, lt, le) = elim (Bool-cases (str_eq op "=")) [
    | inl e ↦ rw e (
        narrow_max-InWindow ts (narrow_min-InWindow ts w (rw (eq e) (≤ℤ_refl ts)))
          (rw (eq e) (≤ℤ_refl ts)))
    | inr e ↦ rw e (elim (Bool-cases (str_eq op ">")) [
      | inl f ↦ rw f (narrow_min-InWindow ts w (gt f))
      | inr f ↦ rw f (elim (Bool-cases (str_eq op ">=")) [
        | inl g ↦ rw g (narrow_min-InWindow ts w (ge g))
        | inr g ↦ rw g (elim (Bool-cases (str_eq op "<")) [
          | inl k ↦ rw k (narrow_max-InWindow ts w (lt k))
          | inr k ↦ rw k (elim (Bool-cases (str_eq op "<=")) [
            | inl m ↦ rw m (narrow_max-InWindow ts w (le m))
            | inr m ↦ rw m w
          ])
        ])
      ])
    ])
  ]

module _ (op : String) (l r : ℤ) (h : ordered_test op l r ≡ true) where
  test_at : (s : String) → str_eq op s ≡ true → ordered_test s l r ≡ true
  test_at s q = subst (λ o. ordered_test o l r ≡ true) ((eq_iff op s).0 q) h

  ordered-Holds : str_eq op "=" ≡ false → Holds op l r
  unfolding ordered_test
  ordered-Holds ne = (
    λ q. cc,
    λ q. let k = test_at ">" q in ground (arith, k),
    λ q. let k = test_at ">=" q in ground (arith, k),
    λ q. let k = test_at "<" q in ground (arith, k),
    λ q. let k = test_at "<=" q in ground (arith, k),
  )

-- The ordered operators read back the numbers that the texts stand for.
compare_ordered_holds :
    (c : Compare) (t ts : ℤ)
    → compare_ordered c (format_int t) (format_int ts) ≡ ok true
    → ordered_test c.op t ts ≡ true
unfolding compare_ordered
compare_ordered_holds c t ts h = elim (Option-cases (parse_int (format_int t))) [
  | inl e ↦ ground (arith, e)
  | inr (l, e) ↦ elim (Option-cases (parse_int (format_int ts))) [
    | inl f ↦ ground (arith, e, f)
    | inr (r, f) ↦
        rw (parse_int-format_int_only t l e, parse_int-format_int_only ts r f)
          (ground (arith, e, f))
  ]
]

equal_Holds : (op : String) (t ts : ℤ) → t ≡ ts → Holds op t ts
equal_Holds op t ts e =
    let at_least : ts ≤ℤ t = rw e (≤ℤ_refl ts) in
    let at_most : t ≤ℤ ts = rw e (≤ℤ_refl ts) in
    (λ q. e, λ q. at_least, λ q. at_least, λ q. at_most, λ q. at_most)

-- A comparison of two numbers' texts that comes out true holds of the numbers.
compare_texts-Holds :
    (c : Compare) (t ts : ℤ)
    → compare_texts c (format_int t) (format_int ts) ≡ ok true
    → Holds c.op t ts
compare_texts-Holds c t ts h = elim (Bool-cases (str_eq c.op "=")) [
  | inl e ↦ equal_Holds c.op t ts (
      format_int-injective t ts
        ((eq_iff (format_int t) (format_int ts)).0 (unfold compare_texts in ground (arith, e))))
  | inr e ↦ elim (Bool-cases (str_eq c.op "!=")) [
    | inl f ↦
        subst (λ o. Holds o t ts) (sym ((eq_iff c.op "!=").0 f))
          (λ q. cc, λ q. cc, λ q. cc, λ q. cc, λ q. cc)
    | inr f ↦ elim (Bool-cases (is_ordered_op c.op)) [
      | inl g ↦
          ordered-Holds c.op t ts
            (compare_ordered_holds c t ts (unfold compare_texts in ground (arith, e, f, g))) e
      | inr g ↦ absurd (unfold compare_texts in ground (arith, e, f, g))
    ]
  ]
]

module _ (parse : ParseTime) (c : Compare) (id : DocId) (r : LogRecord) where
  module _ (no_map : str_eq c.field.map "" ≡ true) (is_ts : str_eq c.field.name "ts" ≡ true) where
    load_ts : load_field c.field (record { doc_id = id; rec = r }) ≡ ok (format_int r.timestamp)
    unfolding load_field
    load_ts = rw (no_map, is_ts)

    load_ts_literal :
        (ts : Timestamp)
        → literal_to_timestamp parse c.value ≡ some ts
        → load_literal parse c.field c.value ≡ ok (format_int ts)
    unfolding load_literal literal_to_timestamp
    load_ts_literal ts h = rw is_ts (ground (arith, h))

    ts_compare-Holds :
        (ts : Timestamp)
        → literal_to_timestamp parse c.value ≡ some ts
        → eval_compare parse (record { doc_id = id; rec = r }) c ≡ ok true
        → Holds c.op r.timestamp ts
    ts_compare-Holds ts l h =
        compare_texts-Holds c r.timestamp ts
          (unfold eval_compare in rw (load_ts, load_ts_literal ts l) at h)

  -- A true comparison with a timestamp literal leaves the record's timestamp in the window.
  apply_compare-InWindow :
      {o : ScanOptions}
      → InWindow o r.timestamp
      → eval_compare parse (record { doc_id = id; rec = r }) c ≡ ok true
      → InWindow (apply_compare parse c o) r.timestamp
  unfolding apply_compare
  apply_compare-InWindow {o} w h = elim (Bool-cases (str_eq c.field.map "")) [
    | inr m ↦ rw m w
    | inl m ↦ elim (Bool-cases (str_eq c.field.name "ts")) [
      | inr n ↦ rw (m, n) w
      | inl n ↦ elim (Option-cases (literal_to_timestamp parse c.value)) [
        | inl z ↦ rw (m, n, z) w
        | inr (ts, l) ↦ rw (m, n, l) (narrow_by-InWindow c.op ts w (ts_compare-Holds m n ts l h))
      ]
    ]
  ]

module _ (parse : ParseTime) (id : DocId) (r : LogRecord) where
  abbrev ctx : EvalCtx
  ctx = record { doc_id = id; rec = r }

  apply_cmp-InWindow :
      (c : CmpExpr) (o : ScanOptions)
      → InWindow o r.timestamp
      → eval_cmp parse ctx c ≡ ok true
      → InWindow (apply_cmp parse c o) r.timestamp
  unfolding apply_cmp eval_cmp
  apply_cmp-InWindow (sub e) o w h = w
  apply_cmp-InWindow (cmp c) o w h = unfold apply_cmp in apply_compare-InWindow parse c id r w h

  extract_rest-InWindow :
      (rest : AndRest) (o : ScanOptions)
      → InWindow o r.timestamp
      → eval_and_rest parse ctx rest ≡ ok true
      → InWindow (extract_rest parse rest o) r.timestamp
  unfolding extract_rest eval_and_rest
  extract_rest-InWindow and_end o w h = w
  extract_rest-InWindow (and_more c rest) o w h =
      extract_rest-InWindow rest (apply_cmp parse c o) (apply_cmp-InWindow c o w (ground arith))
        (ground arith)

  plan_expr-InWindow :
      (e : Expr) → eval_expr parse ctx e ≡ ok true → InWindow (plan_expr parse e) r.timestamp
  unfolding plan_expr extract_from_and eval_expr eval_or eval_or_rest eval_and
  plan_expr-InWindow (expr (or_expr a (or_more b rest))) h = no_options-InWindow r.timestamp
  plan_expr-InWindow (expr (or_expr (and_expr c rest) or_end)) h =
      extract_rest-InWindow rest (apply_cmp parse c no_options)
        (apply_cmp-InWindow c no_options (no_options-InWindow r.timestamp) (ground arith))
        (ground arith)

-- A record that the WHERE accepts lies in the planned window.
pub plan-InWindow :
    (parse : ParseTime) (stmt : Statement) (id : DocId) (r : LogRecord)
    → eval parse stmt.filter id r ≡ ok true
    → InWindow (plan parse stmt) r.timestamp
plan-InWindow parse stmt id r h = go stmt.filter refl
  where
    go : (f : Option Expr) → stmt.filter ≡ f → InWindow (plan parse stmt) r.timestamp
    go none e = unfold plan in rw e (no_options-InWindow r.timestamp)
    go (some x) e = unfold plan in rw e (plan_expr-InWindow parse id r x (unfold eval in rw e at h))

InWindow-not-pruned :
    (o : ScanOptions) (t lo hi : Timestamp)
    → InWindow o t
    → lo ≤ℤ t
    → t ≤ℤ hi
    → prune_sstable o lo hi ≡ false
unfolding prune_sstable
InWindow-not-pruned o t lo hi w a b = ground (arith, w.above, w.below)

-- A table that holds a record which the WHERE accepts is never pruned, whatever `time.Parse` does:
-- with the table's timestamps between `lo` and `hi`, the record's among them, the planned options do
-- not skip it.
pub plan_keeps_matches :
    (parse : ParseTime) (stmt : Statement) (id : DocId) (r : LogRecord) (lo hi : Timestamp)
    → eval parse stmt.filter id r ≡ ok true
    → lo ≤ℤ r.timestamp
    → r.timestamp ≤ℤ hi
    → prune_sstable (plan parse stmt) lo hi ≡ false
plan_keeps_matches parse stmt id r lo hi h a b =
    InWindow-not-pruned (plan parse stmt) r.timestamp lo hi (plan-InWindow parse stmt id r h) a b
