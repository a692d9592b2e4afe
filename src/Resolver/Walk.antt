-- ===== src/Resolver/Walk.antt =====
-- resolveMeasureExpr (semantic/resolver.go) as a loop over the column references of an expression.
use dux.Base.{none, some, List, [], ◌∷◌, ◌++◌, ◌≡◌, refl, sym, ap, ◌∙◌}
use dux.Ast.{
  ColRef, Expr, Ops, Term, Atom, Args, MeasureDefinition, no_expr, expr, no_ops, op_expr, no_term,
  term, table_constructor, func_call, call, col_ref, literal, sub_expr, qualified_ident,
  quoted_ident, ident, no_args, arg,
}
use dux.Result.{ok, err}
use dux.Resolver.{
  Resolver, State, Outcome, and_then, visit_ref, resolve_measure_expr, resolve_ops, resolve_term,
  resolve_atom, resolve_args,
}

-- The references of an expression that stand outside its table constructors, from left to right:
-- resolveMeasureExpr does not go into the rows of a table constructor.
unfoldable mutual
  pub col_refs : Expr → List ColRef
  col_refs no_expr = []
  col_refs (expr left right) = term_refs left ++ op_refs right

  pub op_refs : Ops → List ColRef
  op_refs no_ops = []
  op_refs (op_expr op right ops) = term_refs right ++ op_refs ops

  pub term_refs : Term → List ColRef
  term_refs no_term = []
  term_refs (term negative atom) = atom_refs atom

  pub atom_refs : Atom → List ColRef
  atom_refs (col_ref cr) = cr ∷ []
  atom_refs (func_call (call address pos name args)) = arg_refs args
  atom_refs (sub_expr e) = col_refs e
  atom_refs (table_constructor rows) = []
  atom_refs (literal l) = []
  atom_refs (qualified_ident name) = []
  atom_refs (quoted_ident name) = []
  atom_refs (ident name) = []

  pub arg_refs : Args → List ColRef
  arg_refs no_args = []
  arg_refs (arg e args) = col_refs e ++ arg_refs args

and_then_assoc :
    (o : Outcome) (f g : State → Outcome)
    → and_then (and_then o f) g ≡ and_then o (λ st. and_then (f st) g)
unfolding and_then
and_then_assoc none f g = refl
and_then_assoc (some (err e)) f g = refl
and_then_assoc (some (ok st)) f g = refl

and_then_ext :
    (o : Outcome) (f g : State → Outcome)
    → ((st : State) → f st ≡ g st)
    → and_then o f ≡ and_then o g
unfolding and_then
and_then_ext none f g h = refl
and_then_ext (some (err e)) f g h = refl
and_then_ext (some (ok st)) f g h = h st

and_then_end : (o : Outcome) → and_then o (λ st. some (ok st)) ≡ o
unfolding and_then
and_then_end none = refl
and_then_end (some (err e)) = refl
and_then_end (some (ok st)) = refl

module _ (r : Resolver) (visit : MeasureDefinition → State → Outcome) where
  unfoldable pub visit_refs : List ColRef → State → Outcome
  visit_refs [] st = some (ok st)
  visit_refs (cr ∷ crs) st = and_then (visit_ref r visit cr st) (visit_refs crs)

  visit_refs-append :
      (crs more : List ColRef) (st : State)
      → visit_refs (crs ++ more) st ≡ and_then (visit_refs crs st) (visit_refs more)
  unfolding visit_refs and_then
  visit_refs-append [] more st = refl
  visit_refs-append (cr ∷ crs) more st =
      and_then_ext (visit_ref r visit cr st) _ _ (visit_refs-append crs more)
      ∙ sym (and_then_assoc (visit_ref r visit cr st) (visit_refs crs) (visit_refs more))

  joined :
      (o : Outcome) (f : State → Outcome) (crs more : List ColRef) (st : State)
      → o ≡ visit_refs crs st
      → ((st' : State) → f st' ≡ visit_refs more st')
      → and_then o f ≡ visit_refs (crs ++ more) st
  joined o f crs more st p q =
      ap (λ x. and_then x f) p
      ∙ and_then_ext (visit_refs crs st) f (visit_refs more) q
      ∙ sym (visit_refs-append crs more st)

  mutual
    unfolding resolve_measure_expr col_refs visit_refs

    pub resolve_measure_expr-col_refs :
        (e : Expr) (st : State) → resolve_measure_expr r visit e st ≡ visit_refs (col_refs e) st
    resolve_measure_expr-col_refs no_expr st = refl
    resolve_measure_expr-col_refs (expr left right) st =
        joined (resolve_term r visit left st) (resolve_ops r visit right) (term_refs left)
          (op_refs right) st (term-refs left st) (ops-refs right)

    ops-refs : (ops : Ops) (st : State) → resolve_ops r visit ops st ≡ visit_refs (op_refs ops) st
    ops-refs no_ops st = refl
    ops-refs (op_expr op right ops) st =
        joined (resolve_term r visit right st) (resolve_ops r visit ops) (term_refs right)
          (op_refs ops) st (term-refs right st) (ops-refs ops)

    term-refs : (t : Term) (st : State) → resolve_term r visit t st ≡ visit_refs (term_refs t) st
    term-refs no_term st = refl
    term-refs (term negative atom) st = atom-refs atom st

    atom-refs : (a : Atom) (st : State) → resolve_atom r visit a st ≡ visit_refs (atom_refs a) st
    atom-refs (col_ref cr) st = sym (and_then_end (visit_ref r visit cr st))
    atom-refs (func_call (call address pos name args)) st = args-refs args st
    atom-refs (sub_expr e) st = resolve_measure_expr-col_refs e st
    atom-refs (table_constructor rows) st = refl
    atom-refs (literal l) st = refl
    atom-refs (qualified_ident name) st = refl
    atom-refs (quoted_ident name) st = refl
    atom-refs (ident name) st = refl

    args-refs :
        (args : Args) (st : State) → resolve_args r visit args st ≡ visit_refs (arg_refs args) st
    args-refs no_args st = refl
    args-refs (arg e args) st =
        joined (resolve_measure_expr r visit e st) (resolve_args r visit args) (col_refs e)
          (arg_refs args) st (resolve_measure_expr-col_refs e st) (args-refs args)
