-- ===== src/Emitter/Ends.antt =====
-- The fuel of aggSubtrees and measureExprTables (emitter/cluster.go): one nested walk for each
-- definition, since a definition is not entered while it is visited.
use dux.Base.{
  false, Option, none, some, List, [], ◌∷◌, ◌++◌, Text, mem, ap, ◌==◌, ◌≡◌, refl, sym, subst, ◌⊎◌,
  inl, inr, Bool-cases, Option-cases, arith, Memᴰ, to_upper,
}
use dux.Ast.{
  ColRef, Expr, no_expr, expr, Ops, Term, no_term, term, table_constructor, func_call, col_ref,
  literal, sub_expr, qualified_ident, quoted_ident, ident, FuncCall, call, Args, MeasureDefinition,
}
use dux.Resolver.{has, stored, ref_column, ref_measure, ref_output}
use dux.Resolver.Total.{missing}
use dux.Names.{strip_brackets, strip_single_quotes}
use dux.Result.{Result, ok, err}
use dux.Measures.{Measures, find_measure_by_name, scan_tables}
use dux.Resolver.Targets.{find_measure-stored, scan_tables-stored}
use dux.Emitter.{
  Emitter, Refs, table_key, is_model_table, effective_measures, find_ref, is_same_ref,
  measure_of_ref, measure_or_none, resolve_measure_def,
}
use dux.Emitter.Subtrees.{
  defs_of_refs, known_defs, expand, with_expr, visit_agg, agg_subtrees, append_call, is_liftable,
}
use dux.Emitter.Walks.{IsDone, walk_all-IsDone}
use dux.Emitter.Tables.{
  TableSet, add, add_named, add_call, counted_table, is_own_query, visit_tables, result_of,
  measure_expr_tables,
}

find_ref-known :
    (cr : ColRef) (refs : Refs) (d : MeasureDefinition)
    → measure_of_ref (find_ref cr refs) ≡ some d
    → Memᴰ d (defs_of_refs refs)
unfolding find_ref measure_of_ref defs_of_refs
find_ref-known cr [] d h = absurd (ground arith)
find_ref-known cr ((c, ref_measure t n def) ∷ refs) d h = elim (Bool-cases (is_same_ref c cr)) [
  | inl this ↦ Memᴰ.head (ground arith)
  | inr other ↦ Memᴰ.tail (find_ref-known cr refs d (ground arith))
]
find_ref-known cr ((c, ref_column t n) ∷ refs) d h = elim (Bool-cases (is_same_ref c cr)) [
  | inl this ↦ absurd (ground arith)
  | inr other ↦ find_ref-known cr refs d (ground arith)
]
find_ref-known cr ((c, ref_output n) ∷ refs) d h = elim (Bool-cases (is_same_ref c cr)) [
  | inl this ↦ absurd (ground arith)
  | inr other ↦ find_ref-known cr refs d (ground arith)
]

Expr-cases : (e : Expr) → (e ≡ no_expr) ⊎ ((t : Term) × (ops : Ops) × (e ≡ expr t ops))
Expr-cases no_expr = inl refl
Expr-cases (expr t ops) = inr (t, ops, refl)

found_ok :
    (r : Result (Option MeasureDefinition)) (d : MeasureDefinition)
    → measure_or_none r ≡ some d
    → r ≡ ok (some d)
unfolding measure_or_none
found_ok (ok (some x)) d h = ground arith
found_ok (ok none) d h = absurd (ground arith)
found_ok (err e) d h = absurd (ground arith)

by_name-known :
    (name : Text) (measures : Measures) (d : MeasureDefinition)
    → measure_or_none (find_measure_by_name name measures) ≡ some d
    → Memᴰ d (stored measures)
unfolding measure_or_none find_measure_by_name
by_name-known name measures d h =
    scan_tables-stored name measures measures none d (λ e t q. absurd (ground arith))
      (found_ok (scan_tables name measures measures none) d h)

known_defs-refs :
    (e : Emitter) (refs : Refs) → e.resolution ≡ some refs → known_defs e ≡ defs_of_refs refs
unfolding known_defs
known_defs-refs e refs r = ground arith

known_defs-measures :
    (e : Emitter) (measures : Measures)
    → e.resolution ≡ none
    → effective_measures e ≡ some measures
    → known_defs e ≡ stored measures
unfolding known_defs
known_defs-measures e measures r m = ground arith

-- A definition that a reference leads to is one of those known.
resolve_measure_def-known :
    (e : Emitter) (cr : ColRef) (d : MeasureDefinition)
    → resolve_measure_def e cr ≡ some d
    → Memᴰ d (known_defs e)
unfolding resolve_measure_def
resolve_measure_def-known e cr d h = elim (Option-cases e.resolution) [
  | inr (refs, r) ↦
      subst (Memᴰ d) (sym (known_defs-refs e refs r)) (find_ref-known cr refs d (ground arith))
  | inl none_at ↦ elim (Option-cases (effective_measures e)) [
    | inl nothing ↦ absurd (ground arith)
    | inr (measures, m) ↦
        subst (Memᴰ d) (sym (known_defs-measures e measures none_at m))
          (elim (Bool-cases (strip_single_quotes cr.table == [])) [
            | inl bare ↦ by_name-known (strip_brackets cr.column) measures d (ground arith)
            | inr named ↦
                find_measure-stored (strip_single_quotes cr.table) (strip_brackets cr.column)
                  measures d (ground arith)
          ])
  ]
]

with_expr-some :
    (o : Option MeasureDefinition) (d : MeasureDefinition) → with_expr o ≡ some d → o ≡ some d
unfolding with_expr
with_expr-some none d h = h
with_expr-some (some def) d h = elim (Expr-cases def.expr) [
  | inl missing ↦ absurd (ground arith)
  | inr (left, right, there) ↦ ground arith
]

-- A reference is followed by a walk over a definition that is known and not being visited.
expand-IsDone {ℓ} :
    {X : Type ℓ} (e : Emitter) (visiting : List MeasureDefinition)
    (inner : MeasureDefinition → Option X → Option X) (cr : ColRef) (d : MeasureDefinition)
    (s : Option X)
    → ((d' : MeasureDefinition) (s' : Option X)
        → Memᴰ d' (known_defs e)
        → has d' visiting ≡ false
        → IsDone s'
        → IsDone (inner d' s'))
    → with_expr (resolve_measure_def e cr) ≡ some d
    → IsDone s
    → IsDone (expand visiting inner d s)
unfolding expand
expand-IsDone e visiting inner cr d s go h done = elim (Bool-cases (has d visiting)) [
  | inl there ↦ rw there done
  | inr fresh ↦ rw fresh (
      go d s (resolve_measure_def-known e cr d (with_expr-some (resolve_measure_def e cr) d h))
        fresh done)
]

module _ (e : Emitter) (visiting : List MeasureDefinition) where
  -- A walk over a definition that may be entered ends.
  Goes {ℓ} : {X : Type ℓ} → (MeasureDefinition → Option X → Option X) → Type ℓ
  Goes {X = X} inner =
      (d : MeasureDefinition) (s : Option X)
      → Memᴰ d (known_defs e)
      → has d visiting ≡ false
      → IsDone s
      → IsDone (inner d s)

  visit_agg-IsDone :
      (inner : MeasureDefinition → Option (List FuncCall) → Option (List FuncCall)) (t : Term)
      (s : Option (List FuncCall))
      → Goes inner
      → IsDone s
      → IsDone (visit_agg e visiting inner t s).0
  unfolding visit_agg IsDone append_call Goes
  visit_agg-IsDone inner no_term s go h = h
  visit_agg-IsDone inner (term neg (col_ref cr)) s go h =
      elim (Option-cases (with_expr (resolve_measure_def e cr))) [
        | inl nothing ↦ rw (visit_agg, nothing) h
        | inr (d, leads) ↦ rw (visit_agg, leads) (expand-IsDone e visiting inner cr d s go leads h)
      ]
  visit_agg-IsDone inner (term neg (func_call (call address pos name args))) s go (x, h) =
      elim (Bool-cases (is_liftable (to_upper name))) [
        | inl lifted ↦ rw (lifted, h) (x ++ call address pos name args ∷ [], refl)
        | inr other ↦ rw other (x, h)
      ]
  visit_agg-IsDone inner (term neg (table_constructor rows)) s go h = h
  visit_agg-IsDone inner (term neg (literal l)) s go h = h
  visit_agg-IsDone inner (term neg (sub_expr ex)) s go h = h
  visit_agg-IsDone inner (term neg (qualified_ident name)) s go h = h
  visit_agg-IsDone inner (term neg (quoted_ident name)) s go h = h
  visit_agg-IsDone inner (term neg (ident name)) s go h = h

  add-IsDone : (t : Text) (s : Option TableSet) → IsDone s → IsDone (add e t s)
  unfolding add IsDone
  add-IsDone t s (set, h) = elim (Bool-cases (mem (table_key e t) set.seen)) [
    | inl there ↦ rw (h, there) (set, refl)
    | inr fresh ↦ rw (h, fresh) (_, refl)
  ]

  add_named-IsDone : (t : Text) (s : Option TableSet) → IsDone s → IsDone (add_named e t s)
  unfolding add_named
  add_named-IsDone t s h = elim (Bool-cases (t == [])) [
    | inl empty ↦ rw empty h
    | inr named ↦ rw named (add-IsDone t s h)
  ]

  add_call-IsDone :
      (name : Text) (args : Args) (source : Text) (s : Option TableSet)
      → IsDone s
      → IsDone (add_call e name args source s)
  unfolding add_call
  add_call-IsDone name args source s h =
      add_named-IsDone (counted_table name args) _ (elim (Bool-cases (is_model_table e source)) [
        | inl model ↦ rw model (add_named-IsDone source s h)
        | inr other ↦ rw other h
      ])

  visit_tables-IsDone :
      (inner : MeasureDefinition → Option TableSet → Option TableSet) (t : Term)
      (s : Option TableSet)
      → Goes inner
      → IsDone s
      → IsDone (visit_tables e visiting inner t s).0
  unfolding visit_tables Goes
  visit_tables-IsDone inner no_term s go h = h
  visit_tables-IsDone inner (term neg (col_ref cr)) s go h =
      elim (Option-cases (with_expr (resolve_measure_def e cr))) [
        | inr (d, leads) ↦
            rw (visit_tables, leads) (expand-IsDone e visiting inner cr d s go leads h)
        | inl nothing ↦ elim (Bool-cases (cr.table == [])) [
          | inl bare ↦ rw (visit_tables, nothing, bare) h
          | inr named ↦
              rw (visit_tables, nothing, named) (add-IsDone (strip_single_quotes cr.table) s h)
        ]
      ]
  visit_tables-IsDone inner (term neg (func_call (call address pos name args))) s go h =
      elim (Bool-cases (is_own_query e name args)) [
        | inl own ↦ rw own h
        | inr other ↦ rw other (add_call-IsDone name args _ s h)
      ]
  visit_tables-IsDone inner (term neg (table_constructor rows)) s go h = h
  visit_tables-IsDone inner (term neg (literal l)) s go h = h
  visit_tables-IsDone inner (term neg (sub_expr ex)) s go h = h
  visit_tables-IsDone inner (term neg (qualified_ident name)) s go h = h
  visit_tables-IsDone inner (term neg (quoted_ident name)) s go h = h
  visit_tables-IsDone inner (term neg (ident name)) s go h = h

pub agg_subtrees-total :
    (e : Emitter) (ex : Expr) → (subtrees : List FuncCall) × (agg_subtrees e ex ≡ some subtrees)
unfolding agg_subtrees IsDone Goes
agg_subtrees-total e ex =
    walk_all-IsDone (visit_agg e) (known_defs e)
      (λ visiting inner t s go h. visit_agg-IsDone e visiting inner t s go h) e ex [] refl

pub measure_expr_tables-total :
    (e : Emitter) (ex : Expr) → (tables : List Text) × (measure_expr_tables e ex ≡ some tables)
unfolding measure_expr_tables IsDone Goes result_of
measure_expr_tables-total e ex =
    let (set, done) =
      walk_all-IsDone (visit_tables e) (known_defs e)
        (λ visiting inner t s go h. visit_tables-IsDone e visiting inner t s go h) e ex
        (record { seen = []; result = [] }) refl in
    (set.result, ap result_of done)
