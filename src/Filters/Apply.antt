-- ===== src/Filters/Apply.antt =====
-- ApplyExternalFilters (executor/extfilter.go): the three shapes of a query. The function mutates
-- the query at its end alone, so an error leaves it as it was and the model returns the new one.
use dux.Base.{
  ℕ, suc, false, Option, none, some, List, [], ◌∷◌, Text, codes, equal_fold, ◌==◌, ◌||◌,
  if◌then◌else◌,
}
use dux.Ast.{
  Position, Expr, Term, term, func_call, qualified_ident, quoted_ident, ident, call, no_args, arg,
  TableExpr, func, qualified_table, quoted_table, table, Query,
}
use dux.Schema.{Schema, find_table}
use dux.Filters.{ExternalFilter, ResolvedFilter, nowhere, no_base_table, other_table, Try, ok, err}
use dux.Filters.Literals.{Strconv}
use dux.Filters.Build.{expr_of, conjoin}
use dux.Filters.Predicate.{predicate, filter_arg}
use dux.Filters.Resolve.{resolve_filters}
use dux.Filters.Inject.{inject_args, find_summarize_columns, base_table}

-- What a function makes of each filter; none is its panic.
unfoldable pub each : (ResolvedFilter → Option Expr) → List ResolvedFilter → Option (List Expr)
each f [] = some []
each f (rf ∷ rfs) = elim (f rf) [
  | none ↦ none
  | some e ↦ elim (each f rfs) [ none ↦ none | some es ↦ some (e ∷ es) ]
]

-- innerTerm
unfoldable pub inner_term : TableExpr → Term
inner_term (func pos fc) = term false (func_call fc)
inner_term (qualified_table pos s) = term false (qualified_ident s)
inner_term (quoted_table pos s) = term false (quoted_ident s)
inner_term (table pos s) = term false (ident s)

unfoldable pub position_of : TableExpr → Position
position_of (func pos fc) = pos
position_of (qualified_table pos s) = pos
position_of (quoted_table pos s) = pos
position_of (table pos s) = pos

-- wrapInFilter, with the conjunction of the predicates
unfoldable pub wrap_in_filter : Expr → TableExpr → TableExpr
unfolding inner_term position_of
wrap_in_filter condition orig =
    func (position_of orig)
      (call 0 nowhere (codes "FILTER") (arg (expr_of (inner_term orig)) (arg condition no_args)))

-- The key of the base table, or the empty text.
unfoldable pub base_key : Schema → Text → Text
base_key schema base =
    if base == [] then [] else elim (find_table schema base) [ none ↦ [] | some (key, t) ↦ key ]

-- The loop that compares each filter's table with the base table.
unfoldable pub check_tables : ℕ → Text → Text → List ResolvedFilter → Try (Unit {0})
check_tables i key base [] = ok tt
check_tables i key base (rf ∷ rfs) =
    let rest = check_tables (suc i) key base rfs in
    if equal_fold rf.table key || equal_fold rf.table base
    then rest
    else err (other_table i rf.table base)

unfoldable pub with_table : Query → TableExpr → Query
with_table q t = record q { evaluate = record q.evaluate { table = t } }

-- ApplyExternalFilters after the filters are resolved; none is a panic
unfoldable pub apply_resolved : Schema → List ResolvedFilter → Query → Option (Try Query)
unfolding each wrap_in_filter base_key check_tables with_table
apply_resolved schema rfs q =
    let orig = q.evaluate.table in
    let base = base_table orig in
    let key = base_key schema base in
    elim (find_summarize_columns orig) [
      | some (args, put) ↦ elim (each filter_arg rfs) [
        | none ↦ none
        | some filters ↦ some (ok (with_table q (put (inject_args filters args))))
      ]
      | none ↦ if key == [] then some (err no_base_table) else elim (check_tables 1 key base rfs) [
        | err e ↦ some (err e)
        | ok done ↦ elim (each predicate rfs) [
          | none ↦ none
          | some preds ↦ elim (conjoin preds) [
            | none ↦ none
            | some p ↦ some (ok (with_table q (wrap_in_filter p orig)))
          ]
        ]
      ]
    ]

-- ApplyExternalFilters
unfoldable pub apply_external_filters :
    Strconv → Schema → List ExternalFilter → Query → Option (Try Query)
unfolding apply_resolved
apply_external_filters sc schema [] q = some (ok q)
apply_external_filters sc schema (f ∷ filters) q =
    elim (resolve_filters sc schema 1 (f ∷ filters)) [
      | err e ↦ some (err e)
      | ok rfs ↦ apply_resolved schema rfs q
    ]
