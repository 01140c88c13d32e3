-- ===== src/Query.antt =====
-- internal/query: the statement tree of parser.go. Lexing and parsing are done by a third-party
-- library from the struct tags.
pub mod Eval
pub mod Scope
pub mod Plan
pub mod Execute
pub mod Parse
use dist_log.Prelude.{ℕ, String, List, Option, none, some, Bool, str_eq, if◌then◌else◌}
use dist_log.Prelude.Int.{ℤ, pos, ltb_ℤ}

-- `map` is empty for a plain column.
pub record FieldRef : Type 0 where
  pub name : String
  pub map : String

-- A nil pointer is `none`.
pub record Literal : Type 0 where
  pub str : Option String
  pub int : Option ℤ

pub record Compare : Type 0 where
  pub field : FieldRef
  pub op : String
  pub value : Literal

mutual
  pub data Expr : Type 0 where
    expr : OrExpr → Expr

  pub data OrExpr : Type 0 where
    or_expr : AndExpr → OrRest → OrExpr

  pub data OrRest : Type 0 where
    or_end : OrRest
    or_more : AndExpr → OrRest → OrRest

  pub data AndExpr : Type 0 where
    and_expr : CmpExpr → AndRest → AndExpr

  pub data AndRest : Type 0 where
    and_end : AndRest
    and_more : CmpExpr → AndRest → AndRest

  pub data CmpExpr : Type 0 where
    sub : Expr → CmpExpr
    cmp : Compare → CmpExpr

pub record Column : Type 0 where
  pub name : String
  pub map : String

pub record SelectClause : Type 0 where
  pub star : Bool
  pub columns : List Column

pub record Statement : Type 0 where
  pub select : SelectClause
  pub from : String
  pub filter : Option Expr
  pub limit : Option ℤ

-- The errors that the package makes; the texts are left out.
pub data QueryError : Type 0 where
  nested_access unknown_field ts_literal_kind ts_literal_format doc_id_literal_kind : QueryError
  string_literal_kind not_ordered lhs_not_numeric rhs_not_numeric unknown_operator : QueryError
  unknown_column from_not_logs negative_limit : QueryError

pub data Result {ℓ} (A : Type ℓ) : Type ℓ where
  ok : A → Result A
  err : QueryError → Result A

infixl 5 ◌>>=◌
abbrev pub ◌>>=◌ {ℓ κ} : {A : Type ℓ} {B : Type κ} → Result A → (A → Result B) → Result B
ok a >>= f = f a
err e >>= f = err e

-- The layouts that `time.Parse` is called with.
pub data TimeLayout : Type 0 where
  rfc3339_nano rfc3339 : TimeLayout

-- `time.Parse`, then `UnixNano`.
abbrev pub ParseTime : Type 0
ParseTime = TimeLayout → String → Option ℤ
