-- ===== src/Query/Parse.antt =====
-- `Parse` of internal/query/parser.go. The grammar is run by a third-party parser, which is an argument:
-- what it makes of a trimmed text; `none` is a syntax error.
use dist_log.Prelude.{
  String, ◌≡◌, ◌≢◌, refl, sym, ap, ◌∙◌, Option, none, some, Bool, true, false, not, str_eq,
  if◌then◌else◌,
}
use dist_log.Prelude.Int.{ℤ, pos, ltb_ℤ}
use dist_log.Prelude.Text.{trim_space, equal_fold}
use dist_log.Query.{Statement, QueryError, from_not_logs, negative_limit}

pub data Parsed : Type 0 where
  empty_statement syntax_error : Parsed
  refused : QueryError → Parsed
  parsed : Statement → Parsed

unfoldable pub is_negative : Option ℤ → Bool
is_negative none = false
is_negative (some n) = ltb_ℤ n (pos 0)

unfoldable pub check_statement : Statement → Parsed
unfolding is_negative equal_fold
check_statement stmt =
    if not (equal_fold stmt.from "logs")
    then refused from_not_logs
    else if is_negative stmt.limit
    then refused negative_limit
    else parsed stmt

abbrev check_parsed : Option Statement → Parsed
check_parsed none = syntax_error
check_parsed (some stmt) = check_statement stmt

unfoldable pub parse : (String → Option Statement) → String → Parsed
unfolding check_statement trim_space
parse grammar sql =
    let text = trim_space sql in
    if str_eq text "" then empty_statement else check_parsed (grammar text)

two_checks :
    (a b : Bool) (x y : Parsed) (s s' : Statement)
    → x ≢ parsed s'
    → y ≢ parsed s'
    → (if not a then x else if b then y else parsed s) ≡ parsed s'
    → (a ≡ true) × (b ≡ false) × (s ≡ s')
two_checks false b x y s s' p q h = absurd (p h)
two_checks true true x y s s' p q h = absurd (q h)
two_checks true false x y s s' p q h = (refl, refl, cc)

checked_statement :
    (o : Option Statement) (stmt : Statement)
    → check_parsed o ≡ parsed stmt
    → (o ≡ some stmt) × (equal_fold stmt.from "logs" ≡ true) × (is_negative stmt.limit ≡ false)
unfolding check_statement
checked_statement none stmt h = cc
checked_statement (some s) stmt h =
    let (f, l, e) =
      two_checks (equal_fold s.from "logs") (is_negative s.limit) _ _ s stmt (λ p. cc) (λ p. cc)
        h in
    (
      ap some e,
      ap (λ (s : Statement). equal_fold s.from "logs") (sym e) ∙ f,
      ap (λ (s : Statement). is_negative s.limit) (sym e) ∙ l,
    )

-- A text that Parse accepts is not blank, the grammar makes the statement of it, the statement selects
-- from the table of logs in any case of its letters, and its limit is not negative.
pub parse_lem :
    (grammar : String → Option Statement) (sql : String) (stmt : Statement)
    → parse grammar sql ≡ parsed stmt
    → (str_eq (trim_space sql) "" ≡ false)
      × (grammar (trim_space sql) ≡ some stmt)
      × (equal_fold stmt.from "logs" ≡ true)
      × (is_negative stmt.limit ≡ false)
unfolding parse
parse_lem grammar sql stmt h =
    let (blank, rest) =
      not_blank (str_eq (trim_space sql) "") (check_parsed (grammar (trim_space sql))) stmt h in
    let (g, f, l) = checked_statement (grammar (trim_space sql)) stmt rest in (blank, g, f, l)
  where
    not_blank :
        (b : Bool) (x : Parsed) (stmt : Statement)
        → (if b then empty_statement else x) ≡ parsed stmt
        → (b ≡ false) × (x ≡ parsed stmt)
    not_blank true x stmt h = cc
    not_blank false x stmt h = (refl, h)
