-- ===== src/Filters/BaseTable.antt =====
-- The base table of a table expression (baseTableOfTableExpr, executor/extfilter.go), said by a
-- relation.
use dux.Base.{
  ℕ, Bool, true, false, Text, codes, to_upper, ◌==◌, ◌||◌, ◌≡◌, refl, ◌∙◌, ◌⊎◌, inl, inr,
}
use dux.Ast.{
  Position, ColRef, Expr, expr, no_ops, term, func_call, col_ref, qualified_ident, quoted_ident,
  ident, FuncCall, call, Args, no_args, arg, TableExpr, func, qualified_table, quoted_table, table,
}
use dux.Names.{strip_single_quotes}
use dux.Filters.Inject.{keeps_base, base_of_call, base_of_column, base_of_expr, base_table}

-- The functions whose base table is that of their first argument.
unfoldable pub IsKeeper : Text → Type 0
IsKeeper name =
    (to_upper name ≡ codes "FILTER")
    ⊎ (to_upper name ≡ codes "ALL")
    ⊎ (to_upper name ≡ codes "ALLEXCEPT")
    ⊎ (to_upper name ≡ codes "ADDCOLUMNS")

unfoldable pub IsDistinct : Text → Type 0
IsDistinct name = (to_upper name ≡ codes "VALUES") ⊎ (to_upper name ≡ codes "DISTINCT")

mutual
  pub data IsBaseOfCall : Text → FuncCall → Type 0 where
    of_first :
        {s : Text} (address : ℕ) (pos : Position) (name : Text) (e : Expr) (rest : Args)
        → IsKeeper name
        → IsBaseOfExpr s e
        → IsBaseOfCall s (call address pos name (arg e rest))
    of_second :
        {s : Text} (address : ℕ) (pos : Position) (name : Text) (n e : Expr) (rest : Args)
        → to_upper name ≡ codes "TOPN"
        → IsBaseOfExpr s e
        → IsBaseOfCall s (call address pos name (arg n (arg e rest)))
    of_only :
        {s : Text} (address : ℕ) (pos : Position) (name : Text) (e : Expr)
        → IsDistinct name
        → IsBaseOfExpr s e
        → IsBaseOfCall s (call address pos name (arg e no_args))
    of_column :
        (address : ℕ) (pos : Position) (name : Text) (negative : Bool) (cr : ColRef)
        → IsDistinct name
        → IsBaseOfCall
            (strip_single_quotes cr.table)
            (call address pos name (arg (expr (term negative (col_ref cr)) no_ops) no_args))

  pub data IsBaseOfExpr : Text → Expr → Type 0 where
    plain : (negative : Bool) (s : Text) → IsBaseOfExpr s (expr (term negative (ident s)) no_ops)
    in_quotes :
        (negative : Bool) (s : Text)
        → IsBaseOfExpr (strip_single_quotes s) (expr (term negative (quoted_ident s)) no_ops)
    with_dot :
        (negative : Bool) (s : Text)
        → IsBaseOfExpr s (expr (term negative (qualified_ident s)) no_ops)
    of_call :
        {s : Text} (negative : Bool) (fc : FuncCall)
        → IsBaseOfCall s fc
        → IsBaseOfExpr s (expr (term negative (func_call fc)) no_ops)

pub data IsBaseOf : Text → TableExpr → Type 0 where
  named : (pos : Position) (s : Text) → IsBaseOf s (table pos s)
  quoted : (pos : Position) (s : Text) → IsBaseOf (strip_single_quotes s) (quoted_table pos s)
  qualified : (pos : Position) (s : Text) → IsBaseOf s (qualified_table pos s)
  below : {s : Text} (pos : Position) (fc : FuncCall) → IsBaseOfCall s fc → IsBaseOf s (func pos fc)

keeper : (name : Text) → IsKeeper name → keeps_base (to_upper name) ≡ true
unfolding keeps_base IsKeeper ◌==◌
keeper name (inl h) = rw h refl
keeper name (inr (inl h)) = rw h refl
keeper name (inr (inr (inl h))) = rw h refl
keeper name (inr (inr (inr h))) = rw h refl

distinct :
    (name : Text)
    → IsDistinct name
    → (keeps_base (to_upper name) ≡ false)
      × ((to_upper name == codes "TOPN") ≡ false)
      × ((to_upper name == codes "VALUES" || to_upper name == codes "DISTINCT") ≡ true)
unfolding keeps_base IsDistinct ◌==◌
distinct name (inl h) = rw h (refl, refl, refl)
distinct name (inr h) = rw h (refl, refl, refl)

topn :
    (name : Text)
    → to_upper name ≡ codes "TOPN"
    → (keeps_base (to_upper name) ≡ false) × ((to_upper name == codes "TOPN") ≡ true)
unfolding keeps_base ◌==◌
topn name h = rw h (refl, refl)

column_or_expr : {s : Text} (e : Expr) → IsBaseOfExpr s e → base_of_column e ≡ base_of_expr e
unfolding base_of_call
column_or_expr _ (plain negative s) = refl
column_or_expr _ (in_quotes negative s) = refl
column_or_expr _ (with_dot negative s) = refl
column_or_expr _ (of_call negative fc h) = refl

mutual
  unfolding base_of_call

  call_base : {s : Text} (fc : FuncCall) → IsBaseOfCall s fc → base_of_call fc ≡ s
  call_base _ (of_first address pos name e rest k h) = rw (keeper name k) (expr_base e h)
  call_base _ (of_second address pos name n e rest k h) =
      let (a, b) = topn name k in rw (a, b) (expr_base e h)
  call_base _ (of_only address pos name e k h) =
      let (a, b, c) = distinct name k in rw (a, b, c) (column_or_expr e h ∙ expr_base e h)
  call_base _ (of_column address pos name negative cr k) =
      let (a, b, c) = distinct name k in rw (a, b, c) refl

  expr_base : {s : Text} (e : Expr) → IsBaseOfExpr s e → base_of_expr e ≡ s
  expr_base _ (plain negative s) = refl
  expr_base _ (in_quotes negative s) = refl
  expr_base _ (with_dot negative s) = refl
  expr_base _ (of_call negative fc h) = call_base fc h

-- A table expression has one base table, and base_table finds it.
pub base_table_unique : {s : Text} (t : TableExpr) → IsBaseOf s t → base_table t ≡ s
unfolding base_table
base_table_unique _ (named pos s) = refl
base_table_unique _ (quoted pos s) = refl
base_table_unique _ (qualified pos s) = refl
base_table_unique _ (below pos fc h) = call_base fc h
