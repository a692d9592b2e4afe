-- ===== src/Filters/Build.antt =====
-- The construction of syntax (executor/extfilter.go). A result of none stands for a panic on an
-- empty slice or a missing operand.
use dux.Base.{
  ℕ, Bool, false, Option, none, some, List, [], ◌∷◌, ◌++◌, Text, codes, dot, contains, ◌&&◌, ◌||◌,
  leb, nat_eq, all, if◌then◌else◌,
}
use dux.Ast.{
  ColRef, Literal, Expr, no_expr, expr, Ops, no_ops, op_expr, Term, term, func_call, col_ref,
  literal, sub_expr, qualified_ident, quoted_ident, ident, call, Args, no_args, arg,
}
use dux.Filters.{nowhere}

is_ident_start : ℕ → Bool
is_ident_start c = leb 65 c && leb c 90 || leb 97 c && leb c 122 || nat_eq c 95

is_ident_byte : ℕ → Bool
unfolding is_ident_start
is_ident_byte c = is_ident_start c || leb 48 c && leb c 57

-- plainIdentRe.MatchString
unfoldable pub is_plain_ident : Text → Bool
unfolding is_ident_start is_ident_byte
is_plain_ident [] = false
is_plain_ident (c ∷ s) = is_ident_start c && all is_ident_byte s

unfoldable pub quoted : Text → Text
quoted name = 39 ∷ (name ++ 39 ∷ [])

-- tableToken
unfoldable pub table_token : Text → Text
unfolding is_plain_ident quoted
table_token name = if contains dot name || is_plain_ident name then name else quoted name

-- tableTerm
unfoldable pub table_term : Text → Term
unfolding is_plain_ident quoted
table_term name =
    if contains dot name
    then term false (qualified_ident name)
    else if is_plain_ident name
    then term false (ident name)
    else term false (quoted_ident (quoted name))

-- exprOf
abbrev pub expr_of : Term → Expr
expr_of t = expr t no_ops

unfoldable pub col_ref_of : Text → Text → ColRef
unfolding table_token
col_ref_of table column = record {
  address = 0;
  pos = nowhere;
  table = table_token table;
  column = b'[' ∷ (column ++ b']' ∷ []);
}

-- colRefExpr
unfoldable pub col_ref_expr : Text → Text → Expr
unfolding col_ref_of
col_ref_expr table column = expr_of (term false (col_ref (col_ref_of table column)))

-- litExpr
abbrev pub lit_expr : Literal → Expr
lit_expr l = expr_of (term false (literal l))

unfoldable pub args_of : List Expr → Args
args_of [] = no_args
args_of (e ∷ es) = arg e (args_of es)

-- funcExpr
unfoldable pub func_expr : Text → List Expr → Expr
unfolding args_of
func_expr name args = expr_of (term false (func_call (call 0 nowhere name (args_of args))))

-- sub
unfoldable pub sub : Expr → Term
sub (expr (term negative atom) no_ops) = term negative atom
sub e = term false (sub_expr e)

unfoldable pub append_op : Ops → Text → Term → Ops
append_op no_ops op t = op_expr op t no_ops
append_op (op_expr o u ops) op t = op_expr o u (append_op ops op t)

-- binary; the left side is never nil
unfoldable pub binary : Expr → Text → Expr → Expr
unfolding append_op sub
binary no_expr op right = no_expr
binary (expr left ops) op right = expr left (append_op ops op (sub right))

-- The operators of conjoin after the first predicate.
unfoldable pub and_ops : List Expr → Ops
unfolding sub
and_ops [] = no_ops
and_ops (p ∷ preds) = op_expr (codes "&&") (sub p) (and_ops preds)

-- conjoin
unfoldable pub conjoin : List Expr → Option Expr
unfolding and_ops
conjoin [] = none
conjoin (p ∷ preds) = some (expr (sub p) (and_ops preds))

unfoldable pub or_ops : List Expr → Ops
or_ops [] = no_ops
or_ops (p ∷ preds) = op_expr (codes "||") (term false (sub_expr p)) (or_ops preds)

-- The end of the cases "in" and "in_tuples" of predicate.
unfoldable pub disjoin : List Expr → Option Expr
unfolding or_ops
disjoin [] = none
disjoin (p ∷ []) = some p
disjoin (p ∷ q ∷ preds) = some (expr (term false (sub_expr p)) (or_ops (q ∷ preds)))
