-- ===== src/Filters/Outcome.antt =====
-- The result of ApplyExternalFilters (executor/extfilter.go).
use dux.Base.{◌+◌, Bool, Option, some, List, ◌∷◌, ◌++◌, Text, all, length, All, ◌≡◌, ◌≢◌}
use dux.Ast.{ColRef, Literal, Expr, Args, TableExpr, Query}
use dux.Schema.{Schema, Table, find_table}
use dux.Filters.{ResolvedFilter, FilterError, no_base_table, other_table, Try, ok, err}
use dux.Filters.Meaning.{truth}
use dux.Filters.Selects.{selects}
use dux.Filters.Place.{ReplacesIn}
use dux.Filters.Arguments.{HaveArguments}
use dux.Filters.Inserted.{IsInserted}
use dux.Filters.BaseTable.{IsBaseOf}
use dux.Filters.Steps.{IsOnBase}
use dux.Filters.Wrapped.{IsFilterOver, HasNoCall, HasNoTable}

err≢ok : {e : FilterError} {u : Unit {0}} → Try.err e ≢ ok u
err≢ok h = cc

module _ {V : Type 0} (column : ColRef → V) (constant : Literal → V) (apply : Text → List V → V)
    (compare : Text → V → V → Bool) (schema : Schema) where
  -- The row is selected by every filter.
  unfoldable pub selects_all : List ResolvedFilter → Bool
  selects_all = all (λ rf. selects column constant apply compare rf.op rf)

  -- The ends of ApplyExternalFilters once the filters are resolved.
  pub data IsApplied (q : Query) (rfs : List ResolvedFilter) : Option (Try Query) → Type 0 where
    -- The filters are arguments of the call that is found, and nothing else changes.
    injected :
        (args args' : Args) (new : List Expr) (t : TableExpr)
        → ReplacesIn args args' q.evaluate.table t
        → IsInserted new args args'
        → HaveArguments column constant apply compare rfs new
        → IsApplied q rfs (some (ok (record q { evaluate = record q.evaluate { table = t } })))
    -- The whole expression stands under one FILTER that holds where every filter does.
    wrapped :
        (p : Expr) (base key : Text) (held : Table) (t : TableExpr)
        → HasNoCall q.evaluate.table
        → IsBaseOf base q.evaluate.table
        → find_table schema base ≡ some (key, held)
        → All (IsOnBase key base) rfs
        → truth column constant apply compare p ≡ some (selects_all rfs)
        → IsFilterOver p q.evaluate.table t
        → IsApplied q rfs (some (ok (record q { evaluate = record q.evaluate { table = t } })))
    -- The expression has no base table in the schema.
    unbased :
        HasNoCall q.evaluate.table
        → ((base : Text) → IsBaseOf base q.evaluate.table → HasNoTable schema base)
        → IsApplied q rfs (some (err no_base_table))
    -- A filter is on another table; the error is about the first.
    refused :
        (base key : Text) (held : Table) (before after : List ResolvedFilter) (rf : ResolvedFilter)
        → HasNoCall q.evaluate.table
        → IsBaseOf base q.evaluate.table
        → find_table schema base ≡ some (key, held)
        → rfs ≡ before ++ (rf ∷ after)
        → All (IsOnBase key base) before
        → ¬ IsOnBase key base rf
        → IsApplied q rfs (some (err (other_table (1 + length before) rf.table base)))
