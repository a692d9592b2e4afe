-- ===== src/Filters/Arguments.antt =====
-- The meaning of the arguments that filterArg makes (executor/extfilter.go), read from the syntax:
-- TREATAS by its rows and columns, FILTER by its table and its condition.
use mathlib.Core.Option
use dux.Base.{
  ℕ, ◌>>=◌, Bool, false, true, Option, none, some, List, [], ◌∷◌, ◌++◌, Text, codes, dot, contains,
  ◌&&◌, ◌||◌, any, map, length, All, ◌≡◌, refl, sym, ap, ◌∙◌, arith, Bool-cases, inl, inr, subst,
}
use dux.Ast.{
  Position, ColRef, Literal, Expr, expr, no_ops, Term, term, func_call, table_constructor,
  qualified_ident, quoted_ident, ident, call, Args, no_args, arg, Rows, no_rows, row,
}
use dux.Schema.{Schema}
use dux.Filters.{
  FilterOp, op_in, op_between, op_contains, op_in_tuples, op_eq, op_ne, op_lt, op_le, op_gt, op_ge,
  ResolvedColumn, ResolvedFilter, nowhere,
}
use dux.Filters.Build.{
  is_plain_ident, table_term, col_ref_of, col_ref_expr, lit_expr, args_of, func_expr, expr_of,
  quoted,
}
use dux.Filters.Predicate.{predicate, rows_of, table_of_rows, treatas, filter_arg, filter_arg_of}
use dux.Filters.Meaning.{values_of, truth}
use dux.Filters.Selects.{IsOperable, cell, tuple_selects, selects}
use dux.Filters.Chains.{and_true}
use dux.Filters.Refines.{predicate_refines}
use dux.Filters.Accepted.{IsAccepted, IsAccepted-IsOperable}
use dux.Filters.Apply.{each}
use dux.Filters.Steps.{each-cons}

-- The term is the table's name: with a dot, plain, or between single quotes.
pub data IsTableTerm (name : Text) : Term → Type 0 where
  with_dot : IsTableTerm name (term false (qualified_ident name))
  plain : IsTableTerm name (term false (ident name))
  in_quotes : IsTableTerm name (term false (quoted_ident (b'\'' ∷ (name ++ b'\'' ∷ []))))

table_term-IsTableTerm : (name : Text) → IsTableTerm name (table_term name)
unfolding table_term quoted
table_term-IsTableTerm name = elim (Bool-cases (contains dot name)) [
  | inl dotted ↦ rw dotted with_dot
  | inr undotted ↦ elim (Bool-cases (is_plain_ident name)) [
    | inl bare ↦ rw (undotted, bare) plain
    | inr other ↦ rw (undotted, other) in_quotes
  ]
]

module _ {V : Type 0} (column : ColRef → V) (constant : Literal → V) (apply : Text → List V → V)
    (compare : Text → V → V → Bool) where
  -- Every column equals the value at its place, of which there are as many.
  unfoldable pub equal_row : List V → List V → Option Bool
  equal_row [] [] = some true
  equal_row (v ∷ vs) (w ∷ ws) = Option.map (λ b. compare (codes "=") v w && b) (equal_row vs ws)
  equal_row [] (w ∷ ws) = none
  equal_row (v ∷ vs) [] = none

  unfoldable pub any_row : List V → Rows → Option Bool
  unfolding equal_row
  any_row vs no_rows = some false
  any_row vs (row args rows) =
      let rest = any_row vs rows in
      values_of column constant apply compare args >>= λ ws.
      equal_row vs ws >>= λ b. Option.map (λ c. b || c) rest

  -- What an argument that filters a table says of a row.
  pub data HasTruth (table : Text) : Expr → Bool → Type 0 where
    treats_as :
        (address : ℕ) (pos : Position) (rows : Rows) (columns : Args) (vs : List V) {b : Bool}
        → values_of column constant apply compare columns ≡ some vs
        → any_row vs rows ≡ some b
        → HasTruth table
            (expr
              (term false (
                func_call (
                  call address pos
                    (codes "TREATAS")
                    (arg (expr (term false (table_constructor rows)) no_ops) columns))))
              no_ops)
            b
    filters :
        (address : ℕ) (pos : Position) (t : Term) (p : Expr) {b : Bool}
        → IsTableTerm table t
        → truth column constant apply compare p ≡ some b
        → HasTruth table
            (expr
              (term false (
                func_call
                  (call address pos (codes "FILTER") (arg (expr t no_ops) (arg p no_args)))))
              no_ops)
            b

  literals :
      (ls : List Literal)
      → values_of column constant apply compare (args_of (map (λ l. lit_expr l) ls))
        ≡ some (map constant ls)
  unfolding values_of args_of
  literals [] = refl
  literals (l ∷ ls) = ap (Option.map (λ vs. constant l ∷ vs)) (literals ls)

  column_values :
      (cs : List ResolvedColumn)
      → values_of column constant apply compare
          (args_of (map (λ (c : ResolvedColumn). col_ref_expr c.table c.column) cs))
        ≡ some (map (λ (c : ResolvedColumn). column (col_ref_of c.table c.column)) cs)
  unfolding values_of args_of col_ref_expr
  column_values [] = refl
  column_values (c ∷ cs) =
      ap (Option.map (λ vs. column (col_ref_of c.table c.column) ∷ vs)) (column_values cs)

  equal_row-tuple :
      (cs : List ResolvedColumn) (tup : List Literal)
      → length tup ≡ length cs
      → equal_row
          (map (λ (c : ResolvedColumn). column (col_ref_of c.table c.column)) cs)
          (map constant tup)
        ≡ some (tuple_selects column constant apply compare cs tup)
  unfolding equal_row tuple_selects cell
  equal_row-tuple [] [] h = refl
  equal_row-tuple [] (l ∷ tup) h = absurd (omega arith)
  equal_row-tuple (c ∷ cs) [] h = absurd (omega arith)
  equal_row-tuple (c ∷ cs) (l ∷ tup) h =
      ap
        (Option.map
          (λ b. compare (codes "=") (column (col_ref_of c.table c.column)) (constant l) && b))
        (equal_row-tuple cs tup (omega arith))

  any_row-tuples :
      (cs : List ResolvedColumn) (tuples : List (List Literal))
      → All (λ tup. length tup ≡ length cs) tuples
      → any_row
          (map (λ (c : ResolvedColumn). column (col_ref_of c.table c.column)) cs)
          (rows_of tuples)
        ≡ some (any (tuple_selects column constant apply compare cs) tuples)
  unfolding any_row rows_of any
  any_row-tuples cs [] h = refl
  any_row-tuples cs (tup ∷ tuples) (h, hs) =
      rw (literals tup, equal_row-tuple cs tup h, any_row-tuples cs tuples hs) refl

  any_row-values :
      (table name : Text) (ls : List Literal)
      → any_row (column (col_ref_of table name) ∷ []) (rows_of (map (λ l. l ∷ []) ls))
        ≡ some (any (cell column constant apply compare (codes "=") table name) ls)
  unfolding any_row rows_of any values_of args_of equal_row cell
  any_row-values table name [] = refl
  any_row-values table name (l ∷ ls) =
      let same = compare (codes "=") (column (col_ref_of table name)) (constant l) in
      ap (Option.map (λ c. (same && true) || c)) (any_row-values table name ls)
      ∙ ap (λ b. some (b || any (cell column constant apply compare (codes "=") table name) ls))
          (sym (and_true same))

  filters-predicate :
      (op : FilterOp) (rf : ResolvedFilter)
      → rf.op ≡ op
      → IsOperable op rf
      → (e : Expr) × (Option.map
            (λ q. func_expr (codes "FILTER") (expr_of (table_term rf.table) ∷ q ∷ []))
            (predicate rf)
          ≡ some e)
        × HasTruth rf.table e (selects column constant apply compare op rf)
  unfolding func_expr args_of
  filters-predicate op rf same h =
      let (p, built, holds) =
        predicate_refines column constant apply compare rf
          (subst (λ o. IsOperable o rf) (sym same) h) in
      (
        func_expr (codes "FILTER") (expr_of (table_term rf.table) ∷ p ∷ []),
        ap (Option.map (λ q. func_expr (codes "FILTER") (expr_of (table_term rf.table) ∷ q ∷ [])))
            built,
        filters 0 nowhere (table_term rf.table) p (table_term-IsTableTerm rf.table)
            (holds ∙ ap (λ o. some (selects column constant apply compare o rf)) same),
      )

  -- The filter's argument exists, and says of a row that the filter selects it.
  Argues : FilterOp → ResolvedFilter → Type 0
  Argues op rf =
      (e : Expr) × (filter_arg_of op rf ≡ some e)
      × HasTruth rf.table e (selects column constant apply compare op rf)

  Argues-in : (rf : ResolvedFilter) → Argues op_in rf
  unfolding Argues filter_arg_of selects treatas func_expr args_of table_of_rows
  Argues-in rf = (
    _,
    refl,
    treats_as 0 nowhere (rows_of (map (λ l. l ∷ []) rf.values))
        (arg (col_ref_expr rf.table rf.column) no_args)
        (column (col_ref_of rf.table rf.column) ∷ [])
        (unfold values_of in unfold col_ref_expr in refl)
        (any_row-values rf.table rf.column rf.values),
  )

  Argues-in_tuples : (rf : ResolvedFilter) → IsOperable op_in_tuples rf → Argues op_in_tuples rf
  unfolding Argues filter_arg_of selects treatas func_expr args_of table_of_rows IsOperable
  Argues-in_tuples rf (some', full, fit) = (
    _,
    refl,
    treats_as 0 nowhere (rows_of rf.tuples)
        (args_of (map (λ (c : ResolvedColumn). col_ref_expr c.table c.column) rf.columns))
        (map (λ (c : ResolvedColumn). column (col_ref_of c.table c.column)) rf.columns)
        (column_values rf.columns) (any_row-tuples rf.columns rf.tuples fit),
  )

  Argues-at : (op : FilterOp) (rf : ResolvedFilter) → rf.op ≡ op → IsOperable op rf → Argues op rf
  unfolding Argues filter_arg_of
  Argues-at op_in rf same h = unfold Argues in Argues-in rf
  Argues-at op_in_tuples rf same h = unfold Argues in Argues-in_tuples rf h
  Argues-at op_between rf same h = filters-predicate op_between rf same h
  Argues-at op_contains rf same h = filters-predicate op_contains rf same h
  Argues-at op_eq rf same h = filters-predicate op_eq rf same h
  Argues-at op_ne rf same h = filters-predicate op_ne rf same h
  Argues-at op_lt rf same h = filters-predicate op_lt rf same h
  Argues-at op_le rf same h = filters-predicate op_le rf same h
  Argues-at op_gt rf same h = filters-predicate op_gt rf same h
  Argues-at op_ge rf same h = filters-predicate op_ge rf same h

  -- The arguments say, one by one, what the filters select.
  unfoldable pub HaveArguments : List ResolvedFilter → List Expr → Type 0
  HaveArguments [] [] = Unit
  HaveArguments (rf ∷ rfs) (e ∷ es) =
      HasTruth rf.table e (selects column constant apply compare rf.op rf) × HaveArguments rfs es
  HaveArguments _ _ = ⊥

  pub each-HaveArguments :
      (schema : Schema) (rfs : List ResolvedFilter)
      → All (IsAccepted schema) rfs
      → (es : List Expr) × (each filter_arg rfs ≡ some es) × HaveArguments rfs es
  unfolding HaveArguments Argues
  each-HaveArguments schema [] h = ([], unfold each in refl, tt)
  each-HaveArguments schema (rf ∷ rfs) (h, hs) =
      let (e, built, says) = Argues-at rf.op rf refl (IsAccepted-IsOperable schema rf h) in
      let (es, more, all_say) = each-HaveArguments schema rfs hs in
      (e ∷ es, each-cons filter_arg rf rfs e es (unfold filter_arg in built) more, (says, all_say))
