-- ===== src/Emitter/Tables.antt =====
-- measureExprTables (emitter/cluster.go): the tables that an expression refers to, through the
-- measures that it refers to. A result of none means that the fuel of nested measures ran out.
use dux.Base.{
  Bool, true, false, Option, none, some, List, [], ◌∷◌, ◌++◌, Text, codes, to_upper, equal_fold,
  ◌==◌, ◌||◌, ◌&&◌, mem, if◌then◌else◌,
}
use dux.Ast.{Expr, Term, term, func_call, col_ref, call, Args, no_args, arg, MeasureDefinition}
use dux.Names.{strip_single_quotes}
use dux.Emitter.{
  Emitter, resolve_measure_def, table_key, is_model_table, bare_table_arg, iter_aggs, is_key,
  iter_bare_table, expr_needs_value_query,
}
use dux.Emitter.Subtrees.{expand, with_expr, walk_all}

-- The keys in `seen`, and `result`.
pub record TableSet : Type 0 where
  pub seen : List Text
  pub result : List Text

abbrev pub Tables : Type 0
Tables = Option TableSet

-- add
unfoldable pub add : Emitter → Text → Tables → Tables
unfolding table_key
add e t none = none
add e t (some set) =
    let key = table_key e t in
    if mem key set.seen
    then some set
    else some (record { seen = key ∷ set.seen; result = set.result ++ t ∷ [] })

unfoldable pub add_named : Emitter → Text → Tables → Tables
unfolding add
add_named e t found = if t == [] then found else add e t found

-- fc.Args[1] of an iterator of two arguments, or of CONCATENATEX, needs a query of its own.
unfoldable pub is_own_query : Emitter → Text → Args → Bool
unfolding is_key expr_needs_value_query
is_own_query e name (arg source (arg value no_args)) =
    (is_key (to_upper name) iter_aggs && expr_needs_value_query e value)
    || (equal_fold name (codes "CONCATENATEX") && expr_needs_value_query e value)
is_own_query e name (arg source (arg value (arg more args))) =
    equal_fold name (codes "CONCATENATEX") && expr_needs_value_query e value
is_own_query e name no_args = false
is_own_query e name (arg source no_args) = false

-- The table that COUNTROWS counts.
unfoldable pub counted_table : Text → Args → Text
unfolding bare_table_arg
counted_table name (arg source no_args) =
    if equal_fold name (codes "COUNTROWS") then bare_table_arg source else []
counted_table name no_args = []
counted_table name (arg source (arg more args)) = []

-- The tables of a call: the source of an iterator, and the table that COUNTROWS counts.
unfoldable pub add_call : Emitter → Text → Args → Text → Tables → Tables
unfolding is_model_table add_named counted_table
add_call e name args source found =
    add_named e (counted_table name args)
      (if is_model_table e source then add_named e source found else found)

-- The visit of measureExprTables.
unfoldable pub visit_tables :
    Emitter
    → List MeasureDefinition
    → (MeasureDefinition → Tables → Tables)
    → Term
    → Tables
    → Tables × Bool
unfolding resolve_measure_def expand with_expr add is_own_query add_call iter_bare_table
visit_tables e visiting inner (term neg (col_ref cr)) found =
    elim (with_expr (resolve_measure_def e cr)) [
      | some def ↦ (expand visiting inner def found, true)
      | none ↦
          if cr.table == []
          then (found, true)
          else (add e (strip_single_quotes cr.table) found, true)
    ]
visit_tables e visiting inner (term neg (func_call (call address pos name args))) found =
    if is_own_query e name args
    then (found, false)
    else (add_call e name args (iter_bare_table (call address pos name args)) found, true)
visit_tables e visiting inner t found = (found, true)

-- `result`
unfoldable pub result_of : Tables → Option (List Text)
result_of none = none
result_of (some set) = some set.result

-- measureExprTables
unfoldable pub measure_expr_tables : Emitter → Expr → Option (List Text)
unfolding visit_tables walk_all result_of
measure_expr_tables e ex =
    result_of (walk_all e (visit_tables e) ex (record { seen = []; result = [] }))
