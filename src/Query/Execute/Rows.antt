-- ===== src/Query/Execute/Rows.antt =====
-- What rows a query returns, when the scanner visits a given list of records.
use mathlib.Core.List.{append_assoc, append-nil}
use dist_log.Prelude.{
  ℕ, zero, suc, ◌+◌, ◌-◌, ◌<◌, String, List, [], ◌∷◌, ◌++◌, Option, Bool, true, false,
  if◌then◌else◌, leb, length, length-append, take, ◌≡◌, refl, arith, Bool-cases, inl, inr, ◌∙◌, ap,
}
use dist_log.Prelude.Int.{ℤ, pos, negsuc}
use dist_log.Types.{DocId, LogRecord}
use dist_log.Types.Entries.{Entry}
use dist_log.Query.{Statement, Result, ok, ParseTime, Expr}
use dist_log.Query.Eval.{eval}
use dist_log.Query.Plan.{plan}
use dist_log.Query.Execute.{
  Visitor, go_on, stop, limit_reached, visit_all, visit_row, Row, FormatTime, row_of, at_limit,
  limit_of, resolve_columns, execute, finish, Outcome, done, Scanner,
}

abbrev pub is_true : Result Bool → Bool
is_true (ok true) = true
is_true _ = false

-- The visited records that the WHERE accepts.
unfoldable pub matching : ParseTime → Option Expr → List Entry → List Entry
matching parse w [] = []
matching parse w ((id, r) ∷ es) =
    let rest = matching parse w es in if is_true (eval parse w id r) then (id, r) ∷ rest else rest

-- No visited record makes the evaluator fail.
abbrev pub AllEvaluate : ParseTime → Option Expr → List Entry → Type 0
AllEvaluate parse w [] = Unit
AllEvaluate parse w ((id, r) ∷ es) =
    ((b : Bool) × (eval parse w id r ≡ ok b)) × AllEvaluate parse w es

-- What LIMIT leaves: `LIMIT 0` leaves one row, as the length is tested after a row is added.
abbrev pub limited {ℓ} : {A : Type ℓ} → ℤ → List A → List A
limited (negsuc k) xs = xs
limited (pos n) xs = take (if leb n 1 then 1 else n) xs

abbrev pub rows_of : FormatTime → List String → List Entry → List Row
rows_of format cols [] = []
rows_of format cols ((id, r) ∷ es) = row_of format cols id r ∷ rows_of format cols es

take-nil {ℓ} : {A : Type ℓ} (n : ℕ) → take n (let e : List A = [] in e) ≡ []
take-nil zero = refl
take-nil (suc n) = refl

module _ (parse : ParseTime) (format : FormatTime) (stmt : Statement) (cols : List String) where
  abbrev visit : Visitor (List Row)
  visit = visit_row parse format stmt cols

  abbrev done_rows : List Row → Outcome
  done_rows rows = done (record { columns = cols; rows = rows })

  visit_miss :
      (id : DocId) (r : LogRecord) (rows : List Row)
      → eval parse stmt.filter id r ≡ ok false
      → visit id r rows ≡ go_on rows
  unfolding visit_row
  visit_miss id r rows e = rw (e, visit_row)

  visit_hit :
      (id : DocId) (r : LogRecord) (rows : List Row)
      → eval parse stmt.filter id r ≡ ok true
      → visit id r rows ≡ (
          let rows' = rows ++ (row_of format cols id r ∷ []) in
          if at_limit (limit_of stmt.limit) rows' then stop limit_reached rows' else go_on rows')
  unfolding visit_row
  visit_hit id r rows e = rw (e, visit_row)

  matching_miss :
      (id : DocId) (r : LogRecord) (es : List Entry)
      → eval parse stmt.filter id r ≡ ok false
      → matching parse stmt.filter ((id, r) ∷ es) ≡ matching parse stmt.filter es
  unfolding matching
  matching_miss id r es e = rw e

  matching_hit :
      (id : DocId) (r : LogRecord) (es : List Entry)
      → eval parse stmt.filter id r ≡ ok true
      → matching parse stmt.filter ((id, r) ∷ es) ≡ (id, r) ∷ matching parse stmt.filter es
  unfolding matching
  matching_hit id r es e = rw e

  visit_all_go :
      (id : DocId) (r : LogRecord) (es : List Entry) (rows rows' : List Row)
      → visit id r rows ≡ go_on rows'
      → visit_all visit ((id, r) ∷ es) rows ≡ visit_all visit es rows'
  unfolding visit_all
  visit_all_go id r es rows rows' e = rw (e, visit_all)

  visit_all_stop :
      (id : DocId) (r : LogRecord) (es : List Entry) (rows rows' : List Row)
      → visit id r rows ≡ stop limit_reached rows'
      → visit_all visit ((id, r) ∷ es) rows ≡ stop limit_reached rows'
  unfolding visit_all
  visit_all_stop id r es rows rows' e = rw (e, visit_all)

  unlimited_loop :
      (k : ℕ) (es : List Entry) (rows : List Row)
      → limit_of stmt.limit ≡ negsuc k
      → AllEvaluate parse stmt.filter es
      → finish cols (visit_all visit es rows)
        ≡ done_rows (rows ++ rows_of format cols (matching parse stmt.filter es))
  unlimited_loop k [] rows l h = unfold visit_all finish matching in rw append-nil
  unlimited_loop k ((id, r) ∷ es) rows l ((false, e), h) =
      rw (visit_all_go id r es rows rows (visit_miss id r rows e), matching_miss id r es e)
        (unlimited_loop k es rows l h)
  unlimited_loop k ((id, r) ∷ es) rows l ((true, e), h) =
      let rows' = rows ++ (row_of format cols id r ∷ []) in
      rw
        (
          visit_all_go id r es rows rows' (visit_hit id r rows e ∙ (unfold at_limit in rw l)),
          matching_hit id r es e,
        )
        (unlimited_loop k es rows' l h ∙ ap done_rows (append_assoc rows _ _))

  limited_loop :
      (n cap : ℕ) (es : List Entry) (rows : List Row)
      → limit_of stmt.limit ≡ pos n
      → cap ≡ (if leb n 1 then 1 else n)
      → length rows < cap
      → AllEvaluate parse stmt.filter es
      → finish cols (visit_all visit es rows)
        ≡ done_rows
            (rows ++ rows_of format cols (take (cap - length rows) (matching parse stmt.filter es)))
  limited_loop n cap [] rows l c lt h =
      unfold visit_all finish matching in rw (take-nil (cap - length rows), append-nil)
  limited_loop n cap ((id, r) ∷ es) rows l c lt ((false, e), h) =
      rw (visit_all_go id r es rows rows (visit_miss id r rows e), matching_miss id r es e)
        (limited_loop n cap es rows l c lt h)
  limited_loop n cap ((id, r) ∷ es) rows l c lt ((true, e), h) =
      let rows' = rows ++ (row_of format cols id r ∷ []) in
      let longer : length rows' ≡ length rows + 1 = length-append rows _ ∙ omega arith in
      let more : cap - length rows ≡ suc (cap - length rows') = omega (arith, longer) in
      elim (Bool-cases (leb n (length rows'))) [
        | inl full ↦
            let none_left : cap - length rows' ≡ 0 = ground (arith, longer) in
            rw
              (
                visit_all_stop id r es rows rows'
                    (visit_hit id r rows e ∙ (unfold at_limit in rw (l, full))),
                matching_hit id r es e,
                more,
                none_left,
              )
              (unfold finish in refl)
        | inr room ↦
            rw
              (
                visit_all_go id r es rows rows'
                    (visit_hit id r rows e ∙ (unfold at_limit in rw (l, room))),
                matching_hit id r es e,
                more,
              )
              (limited_loop n cap es rows' l c (ground (arith, longer)) h
                ∙ ap done_rows (append_assoc rows _ _))
      ]

  limited_rows :
      (es : List Entry) (z : ℤ)
      → limit_of stmt.limit ≡ z
      → AllEvaluate parse stmt.filter es
      → finish cols (visit_all visit es [])
        ≡ done_rows (rows_of format cols (limited z (matching parse stmt.filter es)))
  limited_rows es (negsuc k) l h = unlimited_loop k es [] l h
  limited_rows es (pos n) l h =
      limited_loop n (if leb n 1 then 1 else n) es [] l refl (ground arith) h
      ∙ ap (λ m. done_rows (rows_of format cols (take m (matching parse stmt.filter es))))
          (omega arith)

-- With a scanner that visits `es` whatever the options, where no record makes the evaluator fail
-- and the columns resolve, the result's rows are those of the accepted records in scan order, all of
-- them without LIMIT, the first n for LIMIT n, and the first one for LIMIT 0.
pub execute_rows :
    (parse : ParseTime) (format : FormatTime) (scan : Scanner) (stmt : Statement)
    (cols : List String) (es : List Entry)
    → ((visit : Visitor (List Row)) (rows : List Row)
        → scan (plan parse stmt) visit rows ≡ visit_all visit es rows)
    → resolve_columns stmt.select ≡ ok cols
    → AllEvaluate parse stmt.filter es
    → execute parse format scan stmt
      ≡ done (record {
        columns = cols;
        rows = rows_of format cols (limited (limit_of stmt.limit) (matching parse stmt.filter es));
      })
execute_rows parse format scan stmt cols es visits resolved total =
    unfold execute in
    rw (resolved, execute, visits (visit_row parse format stmt cols) [])
      (limited_rows parse format stmt cols es (limit_of stmt.limit) refl total)
