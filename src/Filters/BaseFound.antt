-- ===== src/Filters/BaseFound.antt =====
-- What baseTableOfTableExpr returns is the base table (executor/extfilter.go).
use dux.Base.{
  ℕ, true, [], Text, codes, to_upper, ◌==◌, ◌||◌, eq_iff, ◌≡◌, refl, sym, subst, ap, ◌⊎◌, inl, inr,
  Bool-cases, arith,
}
use dux.Ast.{
  Position, Expr, no_expr, expr, no_ops, op_expr, no_term, term, func_call, col_ref, literal,
  sub_expr, table_constructor, qualified_ident, quoted_ident, ident, FuncCall, call, Args, no_args,
  arg, TableExpr, func, qualified_table, quoted_table, table,
}
use dux.Filters.Inject.{
  keeps_base, base_of_call, base_of_first, base_of_second, base_of_only, base_of_expr, base_table,
}
use dux.Filters.BaseTable.{
  IsKeeper, IsDistinct, IsBaseOfCall, of_first, of_second, of_only, of_column, IsBaseOfExpr, plain,
  in_quotes, with_dot, of_call, IsBaseOf, named, quoted, qualified, below,
}

IsKeeper-of : (name : Text) → keeps_base (to_upper name) ≡ true → IsKeeper name
unfolding keeps_base IsKeeper
IsKeeper-of name h = elim (Bool-cases (to_upper name == codes "FILTER")) [
  | inl filter ↦ inl ((eq_iff (to_upper name) (codes "FILTER")).0 filter)
  | inr not_filter ↦ elim (Bool-cases (to_upper name == codes "ALL")) [
    | inl all ↦ inr (inl ((eq_iff (to_upper name) (codes "ALL")).0 all))
    | inr not_all ↦ elim (Bool-cases (to_upper name == codes "ALLEXCEPT")) [
      | inl except ↦ inr (inr (inl ((eq_iff (to_upper name) (codes "ALLEXCEPT")).0 except)))
      | inr not_except ↦ elim (Bool-cases (to_upper name == codes "ADDCOLUMNS")) [
        | inl add ↦ inr (inr (inr ((eq_iff (to_upper name) (codes "ADDCOLUMNS")).0 add)))
        | inr not_add ↦ absurd (ground arith)
      ]
    ]
  ]
]

IsDistinct-of :
    (name : Text)
    → (to_upper name == codes "VALUES" || to_upper name == codes "DISTINCT") ≡ true
    → IsDistinct name
unfolding IsDistinct
IsDistinct-of name h = elim (Bool-cases (to_upper name == codes "VALUES")) [
  | inl values ↦ inl ((eq_iff (to_upper name) (codes "VALUES")).0 values)
  | inr not_values ↦ elim (Bool-cases (to_upper name == codes "DISTINCT")) [
    | inl listed ↦ inr ((eq_iff (to_upper name) (codes "DISTINCT")).0 listed)
    | inr not_distinct ↦ absurd (ground arith)
  ]
]

-- What the first, the second or the only argument says of a call.
OfFirst : Args → Type 0
OfFirst args =
    ((e : Expr) × (rest : Args) × (args ≡ arg e rest) × IsBaseOfExpr (base_of_first args) e)
    ⊎ (base_of_first args ≡ [])

OfSecond : Args → Type 0
OfSecond args =
    ((n : Expr) × (e : Expr) × (rest : Args) × (args ≡ arg n (arg e rest))
      × IsBaseOfExpr (base_of_second args) e)
    ⊎ (base_of_second args ≡ [])

OfOnly : Args → Type 0
OfOnly args =
    ((address : ℕ) (pos : Position) (name : Text)
      → IsDistinct name
      → IsBaseOfCall (base_of_only args) (call address pos name args))
    ⊎ (base_of_only args ≡ [])

call_sound :
    (address : ℕ) (pos : Position) (name : Text) (args : Args)
    → OfFirst args
    → OfSecond args
    → OfOnly args
    → IsBaseOfCall (base_of_call (call address pos name args)) (call address pos name args)
      ⊎ (base_of_call (call address pos name args) ≡ [])
unfolding base_of_call OfFirst OfSecond OfOnly
call_sound address pos name args first second only =
    elim (Bool-cases (keeps_base (to_upper name))) [
      | inl keeps ↦ rw keeps (elim first [
        | inl (e, rest, same, h) ↦ inl (
            subst (λ a. IsBaseOfCall (base_of_first args) (call address pos name a)) (sym same)
              (of_first address pos name e rest (IsKeeper-of name keeps) h))
        | inr empty ↦ inr empty
      ])
      | inr other ↦ elim (Bool-cases (to_upper name == codes "TOPN")) [
        | inl top ↦
            rw (other, top)
              (elim second [
                | inl (n, e, rest, same, h) ↦ inl (
                    subst (λ a. IsBaseOfCall (base_of_second args) (call address pos name a))
                      (sym same)
                      (of_second address pos name n e rest
                        ((eq_iff (to_upper name) (codes "TOPN")).0 top) h))
                | inr empty ↦ inr empty
              ])
        | inr not_topn ↦
            elim (Bool-cases
              (to_upper name == codes "VALUES" || to_upper name == codes "DISTINCT")) [
                | inl listed ↦
                    rw (other, not_topn, listed)
                      (elim only [
                        | inl h ↦ inl (h address pos name (IsDistinct-of name listed))
                        | inr empty ↦ inr empty
                      ])
                | inr unlisted ↦ rw (other, not_topn, unlisted) (inr refl)
              ]
      ]
    ]

mutual
  unfolding base_of_call OfFirst OfSecond OfOnly

  call_of : (fc : FuncCall) → IsBaseOfCall (base_of_call fc) fc ⊎ (base_of_call fc ≡ [])
  call_of (call address pos name args) =
      call_sound address pos name args (first_of args) (second_of args) (only_of args)

  first_of : (args : Args) → OfFirst args
  first_of no_args = inr refl
  first_of (arg e rest) = elim (expr_of_base e) [
    | inl h ↦ inl (e, rest, refl, h)
    | inr empty ↦ inr empty
  ]

  second_of : (args : Args) → OfSecond args
  second_of no_args = inr refl
  second_of (arg n args) = elim (first_of args) [
    | inl (e, rest, same, h) ↦ inl (n, e, rest, ap (arg n) same, h)
    | inr empty ↦ inr empty
  ]

  only_of : (args : Args) → OfOnly args
  only_of no_args = inr refl
  only_of (arg e (arg e' args)) = inr refl
  only_of (arg no_expr no_args) = inr refl
  only_of (arg (expr left (op_expr op right ops)) no_args) = inr refl
  only_of (arg (expr no_term no_ops) no_args) = inr refl
  only_of (arg (expr (term negative (col_ref cr)) no_ops) no_args) =
      inl (λ address pos name k. of_column address pos name negative cr k)
  only_of (arg (expr (term negative (func_call fc)) no_ops) no_args) = elim (call_of fc) [
    | inl h ↦ inl (λ address pos name k. of_only address pos name _ k (of_call negative fc h))
    | inr empty ↦ inr empty
  ]
  only_of (arg (expr (term negative (qualified_ident s)) no_ops) no_args) =
      inl (λ address pos name k. of_only address pos name _ k (with_dot negative s))
  only_of (arg (expr (term negative (quoted_ident s)) no_ops) no_args) =
      inl (λ address pos name k. of_only address pos name _ k (in_quotes negative s))
  only_of (arg (expr (term negative (ident s)) no_ops) no_args) =
      inl (λ address pos name k. of_only address pos name _ k (plain negative s))
  only_of (arg (expr (term negative (table_constructor rows)) no_ops) no_args) = inr refl
  only_of (arg (expr (term negative (literal l)) no_ops) no_args) = inr refl
  only_of (arg (expr (term negative (sub_expr e)) no_ops) no_args) = inr refl

  expr_of_base : (e : Expr) → IsBaseOfExpr (base_of_expr e) e ⊎ (base_of_expr e ≡ [])
  expr_of_base no_expr = inr refl
  expr_of_base (expr left (op_expr op right ops)) = inr refl
  expr_of_base (expr no_term no_ops) = inr refl
  expr_of_base (expr (term negative (func_call fc)) no_ops) = elim (call_of fc) [
    | inl h ↦ inl (of_call negative fc h)
    | inr empty ↦ inr empty
  ]
  expr_of_base (expr (term negative (qualified_ident s)) no_ops) = inl (with_dot negative s)
  expr_of_base (expr (term negative (quoted_ident s)) no_ops) = inl (in_quotes negative s)
  expr_of_base (expr (term negative (ident s)) no_ops) = inl (plain negative s)
  expr_of_base (expr (term negative (table_constructor rows)) no_ops) = inr refl
  expr_of_base (expr (term negative (col_ref cr)) no_ops) = inr refl
  expr_of_base (expr (term negative (literal l)) no_ops) = inr refl
  expr_of_base (expr (term negative (sub_expr e)) no_ops) = inr refl

-- What base_table returns, unless it is the empty text, is the base table.
pub base_table-IsBaseOf : (t : TableExpr) → IsBaseOf (base_table t) t ⊎ (base_table t ≡ [])
unfolding base_table
base_table-IsBaseOf (table pos s) = inl (named pos s)
base_table-IsBaseOf (quoted_table pos s) = inl (quoted pos s)
base_table-IsBaseOf (qualified_table pos s) = inl (qualified pos s)
base_table-IsBaseOf (func pos fc) = elim (call_of fc) [
  | inl h ↦ inl (below pos fc h)
  | inr empty ↦ inr empty
]
