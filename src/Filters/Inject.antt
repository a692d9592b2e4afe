-- ===== src/Filters/Inject.antt =====
-- ApplyExternalFilters (executor/extfilter.go): where the filters go in the query. The pointer that
-- findSummarizeColumns returns is the arguments of the call with the effect of an assignment to
-- them.
use dux.Base.{
  Bool, true, false, Option, none, some, List, [], ◌∷◌, Text, codes, to_upper, ◌==◌, ◌||◌,
  if◌then◌else◌,
}
use dux.Ast.{
  string, Expr, no_expr, expr, no_ops, op_expr, Term, no_term, term, Atom, func_call, col_ref,
  literal, sub_expr, table_constructor, qualified_ident, quoted_ident, ident, FuncCall, call, Args,
  no_args, arg, TableExpr, func, qualified_table, quoted_table, table,
}
use dux.Names.{strip_single_quotes}

-- The test of the loop of injectSummarizeArgs.
unfoldable pub is_string_arg : Expr → Bool
is_string_arg (expr (term negative (literal (string s))) no_ops) = true
is_string_arg _ = false

-- sc.Args[:split] and sc.Args[split:]
unfoldable pub before_pairs : Args → List Expr
unfolding is_string_arg
before_pairs no_args = []
before_pairs (arg e args) = let rest = before_pairs args in if is_string_arg e then [] else e ∷ rest

unfoldable pub from_pairs : Args → Args
unfolding is_string_arg
from_pairs no_args = no_args
from_pairs (arg e args) = let rest = from_pairs args in if is_string_arg e then arg e args else rest

unfoldable pub prepend : List Expr → Args → Args
prepend [] args = args
prepend (e ∷ es) args = arg e (prepend es args)

-- injectSummarizeArgs, with the arguments that the filters become
unfoldable pub inject_args : List Expr → Args → Args
unfolding before_pairs from_pairs prepend
inject_args filters args = prepend (before_pairs args) (prepend filters (from_pairs args))

-- A wrapper that keeps the rows of its first argument.
unfoldable pub keeps_first : Text → Bool
keeps_first name =
    name == codes "ADDCOLUMNS" || name == codes "SELECTCOLUMNS" || name == codes "FILTER"

-- A pointer to a call inside some syntax: the arguments of the call, and the syntax as it is when
-- other arguments are assigned through the pointer; none is nil.
abbrev pub Found : Type 0 → Type 0
Found X = Option (Args × (Args → X))

-- The same pointer, seen from the syntax around.
unfoldable pub inside : {X Y : Type 0} → (X → Y) → Found X → Found Y
inside f none = none
inside f (some (args, put)) = some (args, λ new. f (put new))

-- findSummarizeColumns and funcCallOf
unfoldable mutual
  unfolding keeps_first inside

  pub find_call : FuncCall → Found FuncCall
  find_call (call address pos name args) =
      let second = inside (call address pos name) (find_second args) in
      let first = inside (call address pos name) (find_first args) in
      if to_upper name == codes "SUMMARIZECOLUMNS"
      then some (args, call address pos name)
      else if to_upper name == codes "TOPN"
      then second
      else if keeps_first (to_upper name)
      then first
      else none

  pub find_first : Args → Found Args
  find_first no_args = none
  find_first (arg e args) = inside (λ e'. arg e' args) (find_expr e)

  pub find_second : Args → Found Args
  find_second no_args = none
  find_second (arg e args) = inside (arg e) (find_first args)

  pub find_expr : Expr → Found Expr
  find_expr no_expr = none
  find_expr (expr left no_ops) = inside (λ t. expr t no_ops) (find_term left)
  find_expr (expr left (op_expr op right ops)) = none

  pub find_term : Term → Found Term
  find_term no_term = none
  find_term (term true atom) = none
  find_term (term false atom) = inside (term false) (find_atom atom)

  pub find_atom : Atom → Found Atom
  find_atom (func_call fc) = inside func_call (find_call fc)
  find_atom (table_constructor rows) = none
  find_atom (col_ref cr) = none
  find_atom (literal l) = none
  find_atom (sub_expr e) = none
  find_atom (qualified_ident s) = none
  find_atom (quoted_ident s) = none
  find_atom (ident s) = none

unfoldable pub find_summarize_columns : TableExpr → Found TableExpr
unfolding find_call inside
find_summarize_columns (func pos fc) = inside (func pos) (find_call fc)
find_summarize_columns (qualified_table pos s) = none
find_summarize_columns (quoted_table pos s) = none
find_summarize_columns (table pos s) = none

unfoldable pub keeps_base : Text → Bool
keeps_base name =
    name == codes "FILTER"
    || name == codes "ALL"
    || name == codes "ALLEXCEPT"
    || name == codes "ADDCOLUMNS"

-- baseTableOfExprFunc and baseTableOfExpr
unfoldable mutual
  unfolding keeps_base

  pub base_of_call : FuncCall → Text
  base_of_call (call address pos name args) =
      let upper = to_upper name in
      let first = base_of_first args in
      let second = base_of_second args in
      let only = base_of_only args in
      if keeps_base upper
      then first
      else if upper == codes "TOPN"
      then second
      else if upper == codes "VALUES" || upper == codes "DISTINCT"
      then only
      else []

  pub base_of_first : Args → Text
  base_of_first no_args = []
  base_of_first (arg e args) = base_of_expr e

  pub base_of_second : Args → Text
  base_of_second no_args = []
  base_of_second (arg e args) = base_of_first args

  pub base_of_only : Args → Text
  base_of_only no_args = []
  base_of_only (arg e no_args) = base_of_column e
  base_of_only (arg e (arg e' args)) = []

  -- The case of VALUES and DISTINCT, where a column stands for its table.
  pub base_of_column : Expr → Text
  base_of_column no_expr = []
  base_of_column (expr left no_ops) = base_of_column_term left
  base_of_column (expr left (op_expr op right ops)) = []

  pub base_of_column_term : Term → Text
  base_of_column_term no_term = []
  base_of_column_term (term negative (col_ref cr)) = strip_single_quotes cr.table
  base_of_column_term (term negative (func_call fc)) = base_of_call fc
  base_of_column_term (term negative (qualified_ident s)) = s
  base_of_column_term (term negative (quoted_ident s)) = strip_single_quotes s
  base_of_column_term (term negative (ident s)) = s
  base_of_column_term (term negative (table_constructor rows)) = []
  base_of_column_term (term negative (literal l)) = []
  base_of_column_term (term negative (sub_expr e)) = []

  pub base_of_expr : Expr → Text
  base_of_expr no_expr = []
  base_of_expr (expr left no_ops) = base_of_term left
  base_of_expr (expr left (op_expr op right ops)) = []

  pub base_of_term : Term → Text
  base_of_term no_term = []
  base_of_term (term negative atom) = base_of_atom atom

  pub base_of_atom : Atom → Text
  base_of_atom (ident s) = s
  base_of_atom (quoted_ident s) = strip_single_quotes s
  base_of_atom (qualified_ident s) = s
  base_of_atom (func_call fc) = base_of_call fc
  base_of_atom (table_constructor rows) = []
  base_of_atom (col_ref cr) = []
  base_of_atom (literal l) = []
  base_of_atom (sub_expr e) = []

-- baseTableOfTableExpr
unfoldable pub base_table : TableExpr → Text
unfolding base_of_call
base_table (qualified_table pos s) = s
base_table (quoted_table pos s) = strip_single_quotes s
base_table (table pos s) = s
base_table (func pos fc) = base_of_call fc
