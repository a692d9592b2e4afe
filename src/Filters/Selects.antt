-- ===== src/Filters/Selects.antt =====
-- What a resolved filter selects (executor/extfilter.go), said without syntax.
use dux.Base.{
  Bool, true, false, Option, none, some, List, [], ◌∷◌, Text, codes, ◌&&◌, any, length, All, ◌≡◌,
  ◌≢◌,
}
use dux.Ast.{ColRef, Literal, number}
use dux.Filters.{
  FilterOp, op_in, op_between, op_contains, op_in_tuples, op_eq, op_ne, op_lt, op_le, op_gt, op_ge,
  ResolvedColumn, ResolvedFilter,
}
use dux.Filters.Build.{col_ref_of}

-- The filter has the operands that its operator needs.
unfoldable pub IsOperable : FilterOp → ResolvedFilter → Type 0
IsOperable op_in rf = rf.values ≢ []
IsOperable op_between rf = ((l : Literal) × (rf.from ≡ some l)) × ((l : Literal) × (rf.to ≡ some l))
IsOperable op_in_tuples rf =
    (rf.columns ≢ []) × (rf.tuples ≢ []) × All (λ tup. length tup ≡ length rf.columns) rf.tuples
IsOperable op rf = (l : Literal) × (rf.value ≡ some l)

module _ {V : Type 0} (column : ColRef → V) (constant : Literal → V) (apply : Text → List V → V)
    (compare : Text → V → V → Bool) where
  unfoldable pub cell : Text → Text → Text → Literal → Bool
  cell op table name l = compare op (column (col_ref_of table name)) (constant l)

  -- Every column equals the value at its place.
  unfoldable pub tuple_selects : List ResolvedColumn → List Literal → Bool
  unfolding cell
  tuple_selects (c ∷ columns) (l ∷ tup) =
      cell (codes "=") c.table c.column l && tuple_selects columns tup
  tuple_selects [] tup = true
  tuple_selects (c ∷ columns) [] = true

  unfoldable pub compares : Text → ResolvedFilter → Option Literal → Bool
  unfolding cell
  compares op rf none = false
  compares op rf (some l) = cell op rf.table rf.column l

  -- The row is selected.
  unfoldable pub selects : FilterOp → ResolvedFilter → Bool
  unfolding cell tuple_selects compares
  selects op_in rf = any (cell (codes "=") rf.table rf.column) rf.values
  selects op_between rf = compares (codes ">=") rf rf.from && compares (codes "<=") rf rf.to
  selects op_contains rf = elim rf.value [
    | none ↦ false
    | some l ↦
        compare (codes ">")
          (apply (codes "SEARCH") (constant l ∷ column (col_ref_of rf.table rf.column) ∷ []))
          (constant (number (codes "0")))
  ]
  selects op_in_tuples rf = any (tuple_selects rf.columns) rf.tuples
  selects op_eq rf = compares (codes "=") rf rf.value
  selects op_ne rf = compares (codes "<>") rf rf.value
  selects op_lt rf = compares (codes "<") rf rf.value
  selects op_le rf = compares (codes "<=") rf rf.value
  selects op_gt rf = compares (codes ">") rf rf.value
  selects op_ge rf = compares (codes ">=") rf rf.value
