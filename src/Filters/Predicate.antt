-- ===== src/Filters/Predicate.antt =====
-- predicate and filterArg (executor/extfilter.go).
use mathlib.Core.Option
use dux.Base.{◌>>=◌, false, Option, none, some, List, [], ◌∷◌, Text, codes, map}
use dux.Ast.{
  Literal, number, Expr, expr, no_ops, op_expr, term, sub_expr, table_constructor, Rows, no_rows,
  row,
}
use dux.Filters.{
  FilterOp, op_in, op_between, op_contains, op_in_tuples, op_eq, op_ne, op_lt, op_le, op_gt, op_ge,
  ResolvedColumn, ResolvedFilter,
}
use dux.Filters.Build.{
  table_term, expr_of, col_ref_expr, lit_expr, args_of, func_expr, binary, conjoin, disjoin,
}

-- The operator that the default case writes.
unfoldable pub op_text : FilterOp → Text
op_text op_eq = codes "="
op_text op_ne = codes "<>"
op_text op_lt = codes "<"
op_text op_le = codes "<="
op_text op_gt = codes ">"
op_text op_ge = codes ">="
op_text op_in = codes "in"
op_text op_between = codes "between"
op_text op_contains = codes "contains"
op_text op_in_tuples = codes "in_tuples"

-- ands of one tuple: an index into the tuple for each column
unfoldable pub tuple_ands : List ResolvedColumn → List Literal → Option (List Expr)
tuple_ands [] tup = some []
tuple_ands (c ∷ columns) [] = none
tuple_ands (c ∷ columns) (l ∷ tup) =
    Option.map (λ ands. binary (col_ref_expr c.table c.column) (codes "=") (lit_expr l) ∷ ands)
      (tuple_ands columns tup)

unfoldable pub tuple_ors : List ResolvedColumn → List (List Literal) → Option (List Expr)
unfolding tuple_ands
tuple_ors columns [] = some []
tuple_ors columns (tup ∷ tuples) =
    let rest = tuple_ors columns tuples in
    tuple_ands columns tup >>= λ ands. conjoin ands >>= λ p. Option.map (λ ors. p ∷ ors) rest

unfoldable pub between_expr : Expr → Literal → Literal → Expr
between_expr col from to =
    expr (term false (sub_expr (binary col (codes ">=") (lit_expr from))))
      (op_expr (codes "&&") (term false (sub_expr (binary col (codes "<=") (lit_expr to)))) no_ops)

unfoldable pub contains_expr : Expr → Literal → Expr
contains_expr col value =
    binary (func_expr (codes "SEARCH") (lit_expr value ∷ col ∷ [])) (codes ">")
      (lit_expr (number (codes "0")))

-- The comparison of the default case.
unfoldable pub scalar_expr : FilterOp → ResolvedFilter → Option Expr
unfolding op_text
scalar_expr op rf =
    Option.map (λ v. binary (col_ref_expr rf.table rf.column) (op_text op) (lit_expr v)) rf.value

-- The switch of predicate.
unfoldable pub predicate_of : FilterOp → ResolvedFilter → Option Expr
unfolding tuple_ors between_expr contains_expr scalar_expr
predicate_of op_in_tuples rf = tuple_ors rf.columns rf.tuples >>= disjoin
predicate_of op_in rf =
    disjoin (map (λ v. binary (col_ref_expr rf.table rf.column) (codes "=") (lit_expr v)) rf.values)
predicate_of op_between rf =
    rf.from >>= λ from. Option.map (between_expr (col_ref_expr rf.table rf.column) from) rf.to
predicate_of op_contains rf = Option.map (contains_expr (col_ref_expr rf.table rf.column)) rf.value
predicate_of op rf = scalar_expr op rf

-- predicate
unfoldable pub predicate : ResolvedFilter → Option Expr
unfolding predicate_of
predicate rf = predicate_of rf.op rf

unfoldable pub rows_of : List (List Literal) → Rows
rows_of [] = no_rows
rows_of (tup ∷ tuples) = row (args_of (map (λ l. lit_expr l) tup)) (rows_of tuples)

unfoldable pub table_of_rows : Rows → Expr
table_of_rows rows = expr_of (term false (table_constructor rows))

-- The two cases of filterArg that become a TREATAS call.
unfoldable pub treatas : List (List Literal) → List Expr → Expr
unfolding rows_of table_of_rows
treatas tuples columns = func_expr (codes "TREATAS") (table_of_rows (rows_of tuples) ∷ columns)

unfoldable pub filter_arg_of : FilterOp → ResolvedFilter → Option Expr
unfolding treatas
filter_arg_of op_in rf =
    some (treatas (map (λ v. v ∷ []) rf.values) (col_ref_expr rf.table rf.column ∷ []))
filter_arg_of op_in_tuples rf =
    some
      (treatas rf.tuples (map (λ (c : ResolvedColumn). col_ref_expr c.table c.column) rf.columns))
filter_arg_of op rf =
    Option.map (λ p. func_expr (codes "FILTER") (expr_of (table_term rf.table) ∷ p ∷ []))
      (predicate rf)

-- filterArg
unfoldable pub filter_arg : ResolvedFilter → Option Expr
unfolding filter_arg_of
filter_arg rf = filter_arg_of rf.op rf
