-- ===== src/Resolver.antt =====
-- The resolution of measures (semantic/resolver.go): resolveMeasures, resolveMeasureExpr and
-- resolveColRef. A result of none means that the fuel of nested visits ran out.
pub mod Walk
pub mod Targets
pub mod Grounded
pub mod Total
pub mod Kept
pub mod Circle
use dux.Base.{
  ℕ, zero, suc, Bool, true, false, Option, none, some, List, [], ◌∷◌, ◌++◌, Text, to_lower, ◌==◌,
  nat_eq, mem, length, Dict, if◌then◌else◌, ◌||◌,
}
use dux.Ast.{
  ColRef, Expr, Ops, Term, Atom, Args, MeasureDefinition, no_expr, expr, no_ops, op_expr, no_term,
  term, table_constructor, func_call, call, col_ref, literal, sub_expr, qualified_ident,
  quoted_ident, ident, no_args, arg,
}
use dux.Result.{Result, ok, err, circular_measure, unknown_measure, unknown_table, unknown_column}
use dux.Names.{strip_brackets, strip_single_quotes}
use dux.Schema.{Schema, find_column}
use dux.Join.{resolve_table}
use dux.Measures.{Measures, find_measure, find_measure_by_name}

-- The fields of Resolver that the walk over the measures reads.
pub record Resolver : Type 0 where
  pub schema : Schema
  pub local_measures : Measures
  pub var_names : List Text
  pub allow_bare_columns : Bool

pub data ResolvedRef : Type 0 where
  ref_column : Text → Text → ResolvedRef
  ref_measure : Text → Text → MeasureDefinition → ResolvedRef
  ref_output : Text → ResolvedRef

-- What the walk writes: the definitions that measureState holds 1 or 2 for, with those for 2 in
-- `resolved`, and the entries of result.Refs in the order of the writes.
pub record State : Type 0 where
  pub entered : List MeasureDefinition
  pub resolved : List MeasureDefinition
  pub refs : List (ColRef × ResolvedRef)

-- A definition is a key by its address.
unfoldable pub has : MeasureDefinition → List MeasureDefinition → Bool
has def [] = false
has def (d ∷ defs) = nat_eq d.address def.address || has def defs

abbrev pub Outcome : Type 0
Outcome = Option (Result State)

-- if err := ...; err != nil { return err }
unfoldable pub and_then : Outcome → (State → Outcome) → Outcome
and_then none next = none
and_then (some (err e)) next = some (err e)
and_then (some (ok st)) next = next st

-- r.result.Refs[cr] = ref
pub refer : ColRef → ResolvedRef → State → State
refer cr ref st = record st { refs = (cr, ref) ∷ st.refs }

pub measure_ref : MeasureDefinition → ResolvedRef
measure_ref def = ref_measure (strip_single_quotes def.table) (strip_brackets def.column) def

module _ (r : Resolver) (visit : MeasureDefinition → State → Outcome) where
  unfoldable pub follow_measure : ColRef → MeasureDefinition → State → Outcome
  unfolding refer measure_ref
  follow_measure cr def st = visit def (refer cr (measure_ref def) st)

  -- The branch of resolveColRef for a reference without a table.
  pub bare_ref : ColRef → State → Outcome
  unfolding follow_measure refer
  bare_ref cr st =
      let name = strip_brackets cr.column in
      elim (find_measure_by_name name r.local_measures) [
        | err e ↦ some (err e)
        | ok (some def) ↦ follow_measure cr def st
        | ok none ↦
            if r.allow_bare_columns
            then some (ok (refer cr (ref_output name) st))
            else some (err (unknown_measure name))
      ]

  -- The lookup of a column at the end of resolveColRef: the variable `t` is the column that
  -- FindColumn returns.
  pub column_ref : ColRef → State → Outcome
  unfolding refer
  column_ref cr st =
      let table = strip_single_quotes cr.table in
      let col = strip_brackets cr.column in
      let found = find_column r.schema table col in
      elim found.column [
        | none ↦ some (err (unknown_table table))
        | some c ↦
            if found.column_key == []
            then some (err (unknown_column col table))
            else some
                (ok (refer cr (ref_column (resolve_table r.schema table) found.column_key) st))
      ]

  -- resolveColRef; resolveMeasures of one definition is a visit of it
  unfoldable pub resolve_col_ref : ColRef → State → Outcome
  unfolding bare_ref column_ref follow_measure
  resolve_col_ref cr st =
      let table = strip_single_quotes cr.table in
      if cr.table == []
      then bare_ref cr st
      else if mem (to_lower table) r.var_names
      then some (ok st)
      else elim (find_measure table (strip_brackets cr.column) r.local_measures) [
        | some def ↦ follow_measure cr def st
        | none ↦ column_ref cr st
      ]

  -- A reference in resolveMeasureExpr.
  unfoldable pub visit_ref : ColRef → State → Outcome
  unfolding follow_measure resolve_col_ref
  visit_ref cr st =
      let name = strip_brackets cr.column in
      if cr.table == []
      then elim (find_measure_by_name name r.local_measures) [
        | err e ↦ some (err e)
        | ok none ↦ some (err (unknown_measure name))
        | ok (some def) ↦ follow_measure cr def st
      ]
      else elim (find_measure (strip_single_quotes cr.table) name r.local_measures) [
        | none ↦ resolve_col_ref cr st
        | some def ↦ follow_measure cr def st
      ]

  -- resolveMeasureExpr, over the first term, the terms of the operators and their arguments
  unfoldable mutual
    unfolding visit_ref and_then

    pub resolve_measure_expr : Expr → State → Outcome
    resolve_measure_expr no_expr st = some (ok st)
    resolve_measure_expr (expr left right) st = and_then (resolve_term left st) (resolve_ops right)

    pub resolve_ops : Ops → State → Outcome
    resolve_ops no_ops st = some (ok st)
    resolve_ops (op_expr op right ops) st = and_then (resolve_term right st) (resolve_ops ops)

    pub resolve_term : Term → State → Outcome
    resolve_term no_term st = some (ok st)
    resolve_term (term negative atom) st = resolve_atom atom st

    pub resolve_atom : Atom → State → Outcome
    resolve_atom (col_ref cr) st = visit_ref cr st
    resolve_atom (func_call (call address pos name args)) st = resolve_args args st
    resolve_atom (sub_expr e) st = resolve_measure_expr e st
    resolve_atom (table_constructor rows) st = some (ok st)
    resolve_atom (literal l) st = some (ok st)
    resolve_atom (qualified_ident name) st = some (ok st)
    resolve_atom (quoted_ident name) st = some (ok st)
    resolve_atom (ident name) st = some (ok st)

    pub resolve_args : Args → State → Outcome
    resolve_args no_args st = some (ok st)
    resolve_args (arg e args) st = and_then (resolve_measure_expr e st) (resolve_args args)

-- r.measureState[def] = 1
pub enter : MeasureDefinition → State → State
enter def st = record st { entered = def ∷ st.entered }

-- r.measureState[def] = 2
pub leave : MeasureDefinition → State → State
leave def st = record st { resolved = def ∷ st.resolved }

pub left : MeasureDefinition → Outcome → Outcome
unfolding leave
left def none = none
left def (some (err e)) = some (err e)
left def (some (ok st)) = some (ok (leave def st))

-- visit, with fuel for the visits in progress
unfoldable pub visit : Resolver → ℕ → MeasureDefinition → State → Outcome
unfolding has enter left resolve_measure_expr
visit r zero def st = none
visit r (suc fuel) def st =
    if has def st.resolved
    then some (ok st)
    else if has def st.entered
    then some (err (circular_measure def.table def.column))
    else left def (resolve_measure_expr r (visit r fuel) def.expr (enter def st))

-- for _, def := range definitions
unfoldable pub visit_all : Resolver → ℕ → List MeasureDefinition → State → Outcome
unfolding visit and_then
visit_all r fuel [] st = some (ok st)
visit_all r fuel (def ∷ defs) st = and_then (visit r fuel def st) (visit_all r fuel defs)

-- Every definition that a visit may meet: those of the query and those of the map.
unfoldable pub defs_in : Dict MeasureDefinition → List MeasureDefinition
defs_in [] = []
defs_in ((name, def) ∷ defs) = def ∷ defs_in defs

unfoldable pub stored : Measures → List MeasureDefinition
unfolding defs_in
stored [] = []
stored ((table, defs) ∷ measures) = defs_in defs ++ stored measures

-- resolveMeasures, with fuel for one visit in progress of each definition
unfoldable pub resolve_measures : Resolver → List MeasureDefinition → State → Outcome
unfolding visit_all stored
resolve_measures r definitions st =
    visit_all r (suc (length (definitions ++ stored r.local_measures))) definitions st
