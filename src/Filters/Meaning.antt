-- ===== src/Filters/Meaning.antt =====
-- The meaning of a filter and of the condition that it becomes (executor/extfilter.go), over any
-- values of columns and literals.
use mathlib.Core.Option
use dux.Base.{
  ◌>>=◌, Bool, true, false, Option, none, some, List, [], ◌∷◌, Text, codes, ◌==◌, ◌&&◌, ◌||◌,
  if◌then◌else◌,
}
use dux.Ast.{
  ColRef, Literal, Expr, no_expr, expr, Ops, no_ops, op_expr, Term, no_term, term, Atom, func_call,
  col_ref, literal, sub_expr, table_constructor, qualified_ident, quoted_ident, ident, FuncCall,
  call, Args, no_args, arg,
}

module _ {V : Type 0} (column : ColRef → V) (constant : Literal → V) (apply : Text → List V → V)
    (compare : Text → V → V → Bool) where
  -- The value of a term that is a column, a literal or a call over such terms.
  unfoldable mutual
    pub value_of : Term → Option V
    value_of no_term = none
    value_of (term true atom) = none
    value_of (term false atom) = value_of_atom atom

    pub value_of_atom : Atom → Option V
    value_of_atom (col_ref cr) = some (column cr)
    value_of_atom (literal l) = some (constant l)
    value_of_atom (func_call fc) = value_of_call fc
    value_of_atom (sub_expr e) = none
    value_of_atom (table_constructor rows) = none
    value_of_atom (qualified_ident s) = none
    value_of_atom (quoted_ident s) = none
    value_of_atom (ident s) = none

    pub value_of_call : FuncCall → Option V
    value_of_call (call address pos name args) = Option.map (apply name) (values_of args)

    pub values_of : Args → Option (List V)
    values_of no_args = some []
    values_of (arg e args) =
        let rest = values_of args in value_of_expr e >>= λ v. Option.map (λ vs. v ∷ vs) rest

    pub value_of_expr : Expr → Option V
    value_of_expr no_expr = none
    value_of_expr (expr left no_ops) = value_of left
    value_of_expr (expr left (op_expr op right ops)) = none

  -- The truth of a condition. A chain of && or of || has one reading; a chain that mixes operators
  -- has none, since the syntax does not tell their precedence.
  unfoldable mutual
    unfolding value_of

    pub truth : Expr → Option Bool
    truth no_expr = none
    truth (expr left ops) = truth_ops left (truth_term left) ops

    pub truth_ops : Term → Option Bool → Ops → Option Bool
    truth_ops left t no_ops = t
    truth_ops left t (op_expr op right ops) =
        let chain = truth_and ops in
        let chain' = truth_or ops in
        let single = truth_compare op left right ops in
        let second = truth_term right in
        if op == codes "&&"
        then (t >>= λ a. second >>= λ b. Option.map (λ c. a && (b && c)) chain)
        else if op == codes "||"
        then (t >>= λ a. second >>= λ b. Option.map (λ c. a || (b || c)) chain')
        else single

    pub truth_compare : Text → Term → Term → Ops → Option Bool
    truth_compare op left right no_ops =
        value_of left >>= λ a. Option.map (compare op a) (value_of right)
    truth_compare op left right (op_expr o u ops) = none

    pub truth_and : Ops → Option Bool
    truth_and no_ops = some true
    truth_and (op_expr op right ops) =
        let rest = truth_and ops in
        let first = truth_term right in
        if op == codes "&&" then (first >>= λ b. Option.map (λ c. b && c) rest) else none

    pub truth_or : Ops → Option Bool
    truth_or no_ops = some false
    truth_or (op_expr op right ops) =
        let rest = truth_or ops in
        let first = truth_term right in
        if op == codes "||" then (first >>= λ b. Option.map (λ c. b || c) rest) else none

    pub truth_term : Term → Option Bool
    truth_term no_term = none
    truth_term (term true atom) = none
    truth_term (term false atom) = truth_atom atom

    pub truth_atom : Atom → Option Bool
    truth_atom (sub_expr e) = truth e
    truth_atom (col_ref cr) = none
    truth_atom (literal l) = none
    truth_atom (func_call fc) = none
    truth_atom (table_constructor rows) = none
    truth_atom (qualified_ident s) = none
    truth_atom (quoted_ident s) = none
    truth_atom (ident s) = none
