-- ===== src/Emitter.antt =====
-- The walks of the emitter over expressions (emitter/emitter.go, emitter/cluster.go): walkTerms, the
-- measures that references stand for, and the tests on calls.
pub mod Literals
pub mod Subtrees
pub mod Tables
pub mod Walks
pub mod Ends
pub mod Plan
use mathlib.Core.Option
use dux.Base.{
  ℕ, Bool, true, false, Option, none, some, List, [], ◌∷◌, Text, codes, to_lower, to_upper,
  equal_fold, ◌==◌, ◌||◌, ◌&&◌, not, any, nat_eq, if◌then◌else◌,
}
use dux.Ast.{
  ColRef, Expr, no_expr, expr, Ops, no_ops, op_expr, Term, no_term, term, Atom, table_constructor,
  func_call, col_ref, literal, sub_expr, qualified_ident, quoted_ident, ident, FuncCall, call, Args,
  no_args, arg, MeasureDefinition,
}
use dux.Result.{Result, ok, err}
use dux.Names.{strip_brackets, strip_single_quotes}
use dux.Schema.{Schema, find_table}
use dux.Join.{resolve_table}
use dux.Measures.{Measures, find_measure, find_measure_by_name}
use dux.Resolver.{ResolvedRef, ref_column, ref_measure, ref_output}

abbrev pub Refs : Type 0
Refs = List (ColRef × ResolvedRef)

-- The fields of Emitter that the walks read; a nil pointer or map is none. Resolution is its field
-- Refs, the latest entry first.
pub record Emitter : Type 0 where
  pub schema : Option Schema
  pub measures : Option Measures
  pub resolution : Option Refs

-- Two references are the same node by their addresses, and where the program made them itself,
-- with the address 0, also by what they read.
unfoldable pub is_same_ref : ColRef → ColRef → Bool
is_same_ref a b =
    nat_eq a.address b.address
    && (not (nat_eq a.address 0) || a.table == b.table && a.column == b.column)

-- e.Resolution.Refs[cr]
unfoldable pub find_ref : ColRef → Refs → Option ResolvedRef
unfolding is_same_ref
find_ref cr [] = none
find_ref cr ((c, ref) ∷ refs) = if is_same_ref c cr then some ref else find_ref cr refs

-- effectiveMeasures
unfoldable pub effective_measures : Emitter → Option Measures
effective_measures e = elim e.measures [
  | some measures ↦ some measures
  | none ↦ Option.map (λ (s : Schema). s.measures) e.schema
]

-- The test ref.Kind == RefMeasure, and ref.Measure.
unfoldable pub measure_of_ref : Option ResolvedRef → Option MeasureDefinition
measure_of_ref none = none
measure_of_ref (some (ref_measure table name def)) = some def
measure_of_ref (some (ref_column table name)) = none
measure_of_ref (some (ref_output name)) = none

-- An error of FindMeasureByName is no measure.
unfoldable pub measure_or_none : Result (Option MeasureDefinition) → Option MeasureDefinition
measure_or_none (ok def) = def
measure_or_none (err e) = none

-- resolveMeasureDef
unfoldable pub resolve_measure_def : Emitter → ColRef → Option MeasureDefinition
unfolding find_ref effective_measures measure_of_ref measure_or_none
resolve_measure_def e cr = elim e.resolution [
  | some refs ↦ measure_of_ref (find_ref cr refs)
  | none ↦ elim (effective_measures e) [
    | none ↦ none
    | some measures ↦
        let name = strip_brackets cr.column in
        let table = strip_single_quotes cr.table in
        if table == []
        then measure_or_none (find_measure_by_name name measures)
        else find_measure table name measures
  ]
]

-- canonTable
unfoldable pub canon_table : Emitter → Text → Text
canon_table e name = elim e.schema [ some s ↦ resolve_table s name | none ↦ name ]

-- tableKey
unfoldable pub table_key : Emitter → Text → Text
unfolding canon_table
table_key e name = to_lower (canon_table e name)

-- isModelTable
unfoldable pub is_model_table : Emitter → Text → Bool
is_model_table e name = elim e.schema [
  | none ↦ true
  | some s ↦ elim (find_table s name) [ none ↦ false | some t ↦ true ]
]

-- walkTerms: `visit` changes a state and says whether to go into the term
module _ {ℓ} {S : Type ℓ} (visit : Term → S → S × Bool) where
  unfoldable mutual
    pub walk_terms : Expr → S → S
    walk_terms no_expr s = s
    walk_terms (expr left right) s = walk_ops right (walk_term left s)

    pub walk_ops : Ops → S → S
    walk_ops no_ops s = s
    walk_ops (op_expr op right ops) s = walk_ops ops (walk_term right s)

    pub walk_term : Term → S → S
    walk_term no_term s = s
    walk_term (term neg atom) s =
        let inside = walk_atom atom in
        let (s', deeper) = visit (term neg atom) s in if deeper then inside s' else s'

    pub walk_atom : Atom → S → S
    walk_atom (table_constructor rows) s = s
    walk_atom (func_call fc) s = walk_call fc s
    walk_atom (col_ref cr) s = s
    walk_atom (literal l) s = s
    walk_atom (sub_expr e) s = walk_terms e s
    walk_atom (qualified_ident name) s = s
    walk_atom (quoted_ident name) s = s
    walk_atom (ident name) s = s

    pub walk_call : FuncCall → S → S
    walk_call (call address pos name args) s = walk_args args s

    pub walk_args : Args → S → S
    walk_args no_args s = s
    walk_args (arg e args) s = walk_args args (walk_terms e s)

-- exprOfFunc
abbrev pub expr_of_func : FuncCall → Expr
expr_of_func fc = expr (term false (func_call fc)) no_ops

-- bareTableArg
unfoldable pub bare_table_of_term : Term → Text
bare_table_of_term (term neg (ident name)) = name
bare_table_of_term (term neg (quoted_ident name)) = strip_single_quotes name
bare_table_of_term (term neg (qualified_ident name)) = name
bare_table_of_term t = []

unfoldable pub bare_table_arg : Expr → Text
unfolding bare_table_of_term
bare_table_arg no_expr = []
bare_table_arg (expr left no_ops) = bare_table_of_term left
bare_table_arg (expr left (op_expr op right ops)) = []

abbrev pub simple_aggs : List Text
simple_aggs =
    codes "SUM"
    ∷ codes "AVERAGE"
    ∷ codes "COUNT"
    ∷ codes "COUNTA"
    ∷ codes "MIN"
    ∷ codes "MAX"
    ∷ codes "MEDIAN"
    ∷ []

abbrev pub iter_aggs : List Text
iter_aggs = codes "SUMX" ∷ codes "AVERAGEX" ∷ codes "COUNTX" ∷ codes "MINX" ∷ codes "MAXX" ∷ []

-- name is a key of the map
unfoldable pub is_key : Text → List Text → Bool
is_key name names = any (λ n. n == name) names

-- Left.FuncCall of an argument that is not nil.
unfoldable pub is_call : Expr → Bool
is_call (expr (term neg (func_call fc)) ops) = true
is_call e = false

-- emitsInline. The code would panic on a nil argument of COUNTROWS, which the parser never makes;
-- it counts as inline here.
unfoldable pub emits_inline : FuncCall → Bool
unfolding is_key is_call
emits_inline (call address pos name (arg e no_args)) =
    let upper = to_upper name in
    is_key upper simple_aggs
    || (upper == codes "DISTINCTCOUNT" || upper == codes "COUNTBLANK")
    || (upper == codes "COUNTROWS" && not (is_call e))
emits_inline (call address pos name args) =
    let upper = to_upper name in
    is_key upper simple_aggs
    || (upper == codes "DISTINCTCOUNT" || upper == codes "COUNTBLANK")
    || upper == codes "COUNTROWS"

-- iterBareTable
unfoldable pub iter_bare_table : FuncCall → Text
unfolding is_key bare_table_arg
iter_bare_table (call address pos name no_args) = []
iter_bare_table (call address pos name (arg e args)) =
    let upper = to_upper name in
    if is_key upper iter_aggs || upper == codes "CONCATENATEX" then bare_table_arg e else []

-- The visit of exprNeedsValueQuery; the state is `needed`
unfoldable pub visit_needed : Emitter → Term → Bool → Bool × Bool
unfolding resolve_measure_def emits_inline
visit_needed e (term neg (col_ref cr)) needed = elim (resolve_measure_def e cr) [
  | some def ↦ (true, false)
  | none ↦ (needed, not needed)
]
visit_needed e (term neg (func_call (call address pos name args))) needed =
    if to_upper name == codes "CALCULATE" || emits_inline (call address pos name args)
    then (true, false)
    else (needed, not needed)
visit_needed e t needed = (needed, not needed)

-- exprNeedsValueQuery
unfoldable pub expr_needs_value_query : Emitter → Expr → Bool
unfolding visit_needed walk_terms
expr_needs_value_query e ex = walk_terms (visit_needed e) ex false
