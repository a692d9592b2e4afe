-- ===== src/Filters/Ends.antt =====
-- The branches of ApplyExternalFilters (executor/extfilter.go) after the filters are resolved.
use dux.Base.{true, false, none, some, List, [], ◌==◌, ◌≡◌, arith}
use dux.Ast.{Expr, Args, TableExpr, Query}
use dux.Schema.{Schema}
use dux.Filters.{ResolvedFilter, FilterError, no_base_table, ok, err}
use dux.Filters.Build.{conjoin}
use dux.Filters.Predicate.{predicate, filter_arg}
use dux.Filters.Inject.{inject_args, find_summarize_columns, base_table}
use dux.Filters.Apply.{each, wrap_in_filter, base_key, check_tables, with_table, apply_resolved}

module _ (schema : Schema) (q : Query) where
  pub apply-found :
      (rfs : List ResolvedFilter) (args : Args) (put : Args → TableExpr) (new : List Expr)
      → find_summarize_columns q.evaluate.table ≡ some (args, put)
      → each filter_arg rfs ≡ some new
      → apply_resolved schema rfs q ≡ some (ok (with_table q (put (inject_args new args))))
  unfolding apply_resolved
  apply-found rfs args put new f e = ground arith

  pub apply-no_base :
      (rfs : List ResolvedFilter)
      → find_summarize_columns q.evaluate.table ≡ none
      → (base_key schema (base_table q.evaluate.table) == []) ≡ true
      → apply_resolved schema rfs q ≡ some (err no_base_table)
  unfolding apply_resolved
  apply-no_base rfs f k = ground arith

  pub apply-other :
      (rfs : List ResolvedFilter) (e : FilterError)
      → find_summarize_columns q.evaluate.table ≡ none
      → (base_key schema (base_table q.evaluate.table) == []) ≡ false
      → check_tables 1
          (base_key schema (base_table q.evaluate.table))
          (base_table q.evaluate.table)
          rfs
        ≡ err e
      → apply_resolved schema rfs q ≡ some (err e)
  unfolding apply_resolved
  apply-other rfs e f k c = ground arith

  pub apply-wrapped :
      (rfs : List ResolvedFilter) (preds : List Expr) (p : Expr)
      → find_summarize_columns q.evaluate.table ≡ none
      → (base_key schema (base_table q.evaluate.table) == []) ≡ false
      → check_tables 1
          (base_key schema (base_table q.evaluate.table))
          (base_table q.evaluate.table)
          rfs
        ≡ ok tt
      → each predicate rfs ≡ some preds
      → conjoin preds ≡ some p
      → apply_resolved schema rfs q ≡ some (ok (with_table q (wrap_in_filter p q.evaluate.table)))
  unfolding apply_resolved
  apply-wrapped rfs preds p f k c e j = ground arith
