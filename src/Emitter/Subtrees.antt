-- ===== src/Emitter/Subtrees.antt =====
-- aggSubtrees (emitter/cluster.go): the maximal aggregates of an expression, through the measures
-- that it refers to. A result of none means that the fuel of nested measures ran out.
use dux.Base.{
  ℕ, zero, suc, Bool, true, false, Option, none, some, List, [], ◌∷◌, ◌++◌, Text, codes, to_upper,
  ◌||◌, length, if◌then◌else◌,
}
use dux.Ast.{Expr, no_expr, expr, Term, term, func_call, col_ref, FuncCall, call, MeasureDefinition}
use dux.Resolver.{has, stored, ref_column, ref_measure, ref_output}
use dux.Emitter.{Emitter, Refs, effective_measures, resolve_measure_def, walk_terms, is_key}

abbrev pub liftable_agg_funcs : List Text
liftable_agg_funcs =
    codes "SUM"
    ∷ codes "AVERAGE"
    ∷ codes "COUNT"
    ∷ codes "COUNTA"
    ∷ codes "COUNTBLANK"
    ∷ codes "MIN"
    ∷ codes "MAX"
    ∷ codes "MEDIAN"
    ∷ codes "COUNTROWS"
    ∷ codes "DISTINCTCOUNT"
    ∷ codes "SUMX"
    ∷ codes "AVERAGEX"
    ∷ codes "COUNTX"
    ∷ codes "MINX"
    ∷ codes "MAXX"
    ∷ codes "CONCATENATEX"
    ∷ codes "CALCULATE"
    ∷ codes "TOTALYTD"
    ∷ codes "TOTALQTD"
    ∷ codes "TOTALMTD"
    ∷ []

abbrev pub time_intel_range_funcs : List Text
time_intel_range_funcs =
    codes "DATESYTD"
    ∷ codes "DATESQTD"
    ∷ codes "DATESMTD"
    ∷ codes "SAMEPERIODLASTYEAR"
    ∷ codes "DATEADD"
    ∷ codes "PREVIOUSYEAR"
    ∷ codes "PREVIOUSQUARTER"
    ∷ codes "PREVIOUSMONTH"
    ∷ codes "PREVIOUSDAY"
    ∷ codes "NEXTYEAR"
    ∷ codes "NEXTQUARTER"
    ∷ codes "NEXTMONTH"
    ∷ codes "NEXTDAY"
    ∷ codes "DATESBETWEEN"
    ∷ codes "DATESINPERIOD"
    ∷ []

-- isTimeIntelRangeFunc
unfoldable pub is_time_intel_range_func : Text → Bool
unfolding is_key
is_time_intel_range_func name = is_key name time_intel_range_funcs

-- isLiftable
unfoldable pub is_liftable : Text → Bool
unfolding is_key is_time_intel_range_func
is_liftable name = is_key name liftable_agg_funcs || is_time_intel_range_func name

-- The definitions that references can lead to.
unfoldable pub defs_of_refs : Refs → List MeasureDefinition
defs_of_refs [] = []
defs_of_refs ((cr, ref_measure table name def) ∷ refs) = def ∷ defs_of_refs refs
defs_of_refs ((cr, ref_column table name) ∷ refs) = defs_of_refs refs
defs_of_refs ((cr, ref_output name) ∷ refs) = defs_of_refs refs

unfoldable pub known_defs : Emitter → List MeasureDefinition
unfolding defs_of_refs stored effective_measures
known_defs e = elim e.resolution [
  | some refs ↦ defs_of_refs refs
  | none ↦ elim (effective_measures e) [ some measures ↦ stored measures | none ↦ [] ]
]

-- visiting[def] = true; walkTerms(def.Expr, visit); delete(visiting, def): `inner` walks a
-- definition that is not being visited and has an expression
unfoldable pub expand {ℓ} :
    {S : Type ℓ} → List MeasureDefinition → (MeasureDefinition → S → S) → MeasureDefinition → S → S
unfolding has
expand visiting inner def s = if has def visiting then s else inner def s

-- def != nil && def.Expr != nil
unfoldable pub with_expr : Option MeasureDefinition → Option MeasureDefinition
with_expr none = none
with_expr (some def) = elim def.expr [ no_expr ↦ none | expr left right ↦ some def ]

abbrev pub Subtrees : Type 0
Subtrees = Option (List FuncCall)

-- result = append(result, fc)
unfoldable pub append_call : FuncCall → Subtrees → Subtrees
append_call fc none = none
append_call fc (some found) = some (found ++ fc ∷ [])

-- The visit of aggSubtrees.
unfoldable pub visit_agg :
    Emitter
    → List MeasureDefinition
    → (MeasureDefinition → Subtrees → Subtrees)
    → Term
    → Subtrees
    → Subtrees × Bool
unfolding resolve_measure_def expand with_expr is_liftable append_call
visit_agg e visiting inner (term neg (col_ref cr)) found =
    elim (with_expr (resolve_measure_def e cr)) [
      | some def ↦ (expand visiting inner def found, true)
      | none ↦ (found, true)
    ]
visit_agg e visiting inner (term neg (func_call (call address pos name args))) found =
    if is_liftable (to_upper name)
    then (append_call (call address pos name args) found, false)
    else (found, true)
visit_agg e visiting inner t found = (found, true)

-- The walk over a definition, in which `visit` is called with the definition in `visiting`.
unfoldable pub walk_def {ℓ} :
    {X : Type ℓ}
    → (List MeasureDefinition
        → (MeasureDefinition → Option X → Option X)
        → Term
        → Option X
        → Option X × Bool)
    → ℕ
    → List MeasureDefinition
    → MeasureDefinition
    → Option X
    → Option X
unfolding walk_terms
walk_def visit zero visiting def found = none
walk_def visit (suc fuel) visiting def found =
    walk_terms (visit (def ∷ visiting) (walk_def visit fuel (def ∷ visiting))) def.expr found

-- A walk in which no definition is being visited.
unfoldable pub walk_all {ℓ} :
    {X : Type ℓ}
    → Emitter
    → (List MeasureDefinition
        → (MeasureDefinition → Option X → Option X)
        → Term
        → Option X
        → Option X × Bool)
    → Expr
    → X
    → Option X
unfolding walk_terms known_defs walk_def
walk_all e visit ex start =
    walk_terms (visit [] (walk_def visit (length (known_defs e)) [])) ex (some start)

-- aggSubtrees
unfoldable pub agg_subtrees : Emitter → Expr → Subtrees
unfolding visit_agg walk_all
agg_subtrees e ex = walk_all e (visit_agg e) ex []
