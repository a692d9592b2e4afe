-- ===== src/Ast.antt =====
-- parser/ast.go: the syntax trees that the semantic pass reads. A nil pointer is a constructor of
-- its own, and the alternatives of a struct of which the grammar fills exactly one are the
-- constructors of one type.
use dux.Base.{ℕ, Bool, List, Text}

-- lexer.Position, as far as the program reads it
pub record Position : Type 0 where
  pub line : ℕ
  pub column : ℕ

-- `address` is the identity of the pointer, by which Refs is keyed; a reference that the program
-- makes itself has 0.
pub record ColRef : Type 0 where
  pub address : ℕ
  pub pos : Position
  pub table : Text
  pub column : Text

pub data Literal : Type 0 where
  string : Text → Literal
  number : Text → Literal
  boolean : Text → Literal

mutual
  pub data Expr : Type 0 where
    no_expr : Expr
    expr : Term → Ops → Expr

  -- The list `Right` of OpExpr.
  pub data Ops : Type 0 where
    no_ops : Ops
    op_expr : Text → Term → Ops → Ops

  pub data Term : Type 0 where
    no_term : Term
    term : Bool → Atom → Term

  pub data Atom : Type 0 where
    table_constructor : Rows → Atom
    func_call : FuncCall → Atom
    col_ref : ColRef → Atom
    literal : Literal → Atom
    sub_expr : Expr → Atom
    qualified_ident : Text → Atom
    quoted_ident : Text → Atom
    ident : Text → Atom

  -- The first number is the identity of the pointer, as in MeasureDefinition; a call that the
  -- program makes itself has 0.
  pub data FuncCall : Type 0 where
    call : ℕ → Position → Text → Args → FuncCall

  pub data Args : Type 0 where
    no_args : Args
    arg : Expr → Args → Args

  pub data Rows : Type 0 where
    no_rows : Rows
    row : Args → Rows → Rows

-- `address` is the identity of the pointer, by which measureState is keyed.
pub record MeasureDefinition : Type 0 where
  pub address : ℕ
  pub table : Text
  pub column : Text
  pub expr : Expr
  pub expression : Text

pub data TableExpr : Type 0 where
  func : Position → FuncCall → TableExpr
  qualified_table : Position → Text → TableExpr
  quoted_table : Position → Text → TableExpr
  table : Position → Text → TableExpr

pub record VarBinding : Type 0 where
  pub name : Text
  pub expr : Expr

pub record OrderByExpr : Type 0 where
  pub expr : Expr
  pub dir : Text

pub record EvaluateClause : Type 0 where
  pub vars : List VarBinding
  pub table : TableExpr
  pub order_by : List OrderByExpr
  pub start_at : List Expr

pub record Query : Type 0 where
  pub defines : List MeasureDefinition
  pub evaluate : EvaluateClause
