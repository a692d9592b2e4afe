-- ===== src/Filters/Wrapped.antt =====
-- The FILTER that wrapInFilter puts over a query, and the table of the schema that it filters
-- (executor/extfilter.go).
use dux.Base.{
  true, false, none, some, [], Text, codes, ◌==◌, subst, ◌≡◌, refl, ap, ◌∙◌, eq_iff, ◌⊎◌, inl, inr,
  Bool-cases, Option-cases, arith,
}
use dux.Ast.{
  Position, Expr, expr, no_ops, term, func_call, qualified_ident, quoted_ident, ident, FuncCall,
  call, Args, no_args, arg, TableExpr, func, qualified_table, quoted_table, table,
}
use dux.Schema.{Schema, Table, find_table}
use dux.Filters.{nowhere}
use dux.Filters.Inject.{base_table}
use dux.Filters.Apply.{wrap_in_filter, base_key}
use dux.Filters.Place.{ReplacesIn}
use dux.Filters.BaseTable.{IsBaseOf, base_table_unique}
use dux.Filters.BaseFound.{base_table-IsBaseOf}

-- The second expression is FILTER with the first as it is and the condition.
pub data IsFilterOver (p : Expr) : TableExpr → TableExpr → Type 0 where
  over_call :
      (pos : Position) (fc : FuncCall)
      → IsFilterOver p (func pos fc) (
          func pos (
            call 0 nowhere
              (codes "FILTER")
              (arg (expr (term false (func_call fc)) no_ops) (arg p no_args))))
  over_qualified :
      (pos : Position) (s : Text)
      → IsFilterOver p (qualified_table pos s) (
          func pos (
            call 0 nowhere
              (codes "FILTER")
              (arg (expr (term false (qualified_ident s)) no_ops) (arg p no_args))))
  over_quoted :
      (pos : Position) (s : Text)
      → IsFilterOver p (quoted_table pos s) (
          func pos (
            call 0 nowhere
              (codes "FILTER")
              (arg (expr (term false (quoted_ident s)) no_ops) (arg p no_args))))
  over_table :
      (pos : Position) (s : Text)
      → IsFilterOver p (table pos s) (
          func pos (
            call 0 nowhere
              (codes "FILTER")
              (arg (expr (term false (ident s)) no_ops) (arg p no_args))))

pub wrap_in_filter-IsFilterOver : (p : Expr) (t : TableExpr) → IsFilterOver p t (wrap_in_filter p t)
unfolding wrap_in_filter
wrap_in_filter-IsFilterOver p (func pos fc) = over_call pos fc
wrap_in_filter-IsFilterOver p (qualified_table pos s) = over_qualified pos s
wrap_in_filter-IsFilterOver p (quoted_table pos s) = over_quoted pos s
wrap_in_filter-IsFilterOver p (table pos s) = over_table pos s

-- No call of the expression can take the filters.
unfoldable pub HasNoCall : TableExpr → Type 0
HasNoCall t = (old new : Args) (t' : TableExpr) → ¬ ReplacesIn old new t t'

pub base_key-some :
    (schema : Schema) (base : Text)
    → (base_key schema base == []) ≡ false
    → ((base == []) ≡ false)
      × ((held : Table) × (find_table schema base ≡ some (base_key schema base, held)))
unfolding base_key
base_key-some schema base h = elim (Bool-cases (base == [])) [
  | inl empty ↦
      let unnamed : (base_key schema base == []) ≡ true = unfold ◌==◌ in rw empty refl in
      absurd (ground arith)
  | inr full ↦ elim (Option-cases (find_table schema base)) [
    | inl missing ↦
        let unnamed : (base_key schema base == []) ≡ true =
          unfold ◌==◌ in rw (full, missing) refl in
        absurd (ground arith)
    | inr ((key, held), found) ↦ (full, (held, rw (full, found) refl))
  ]
]

-- The schema gives the name no table, or one without a name.
unfoldable pub HasNoTable : Schema → Text → Type 0
HasNoTable schema base =
    (base ≡ [])
    ⊎ (find_table schema base ≡ none)
    ⊎ ((held : Table) × (find_table schema base ≡ some ([], held)))

pub base_key-none :
    (schema : Schema) (base : Text) → base_key schema base ≡ [] → HasNoTable schema base
unfolding base_key HasNoTable
base_key-none schema base h = elim (Bool-cases (base == [])) [
  | inl empty ↦ inl ((eq_iff base []).0 empty)
  | inr full ↦ elim (Option-cases (find_table schema base)) [
    | inl missing ↦ inr (inl missing)
    | inr ((key, held), found) ↦
        let unnamed : key ≡ [] = ground arith in
        inr (inr (held, found ∙ ap (λ k. some (k, held)) unnamed))
  ]
]

-- The base table of an expression is the one that base_table returns.
pub no_table_of :
    (schema : Schema) (t : TableExpr)
    → HasNoTable schema (base_table t)
    → (base : Text) → IsBaseOf base t
    → HasNoTable schema base
no_table_of schema t h base b = subst (HasNoTable schema) (base_table_unique t b) h

pub based : (t : TableExpr) → (base_table t == []) ≡ false → IsBaseOf (base_table t) t
based t full = elim (base_table-IsBaseOf t) [
  | inl h ↦ h
  | inr empty ↦ let none_at = (eq_iff (base_table t) []).1 empty in absurd (ground arith)
]
