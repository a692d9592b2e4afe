-- ===== src/Filters/Single.antt =====
-- The operands that resolveFilter (executor/extfilter.go) leaves in a filter on one column.
use dux.Base.{
  some-injective, Bool, some, List, [], ◌∷◌, Text, codes, ◌||◌, length, All, subst, ◌≡◌, ◌≢◌, refl,
  ap, arith,
}
use dux.Ast.{Literal}
use dux.Filters.{
  Value, ExternalFilter, FilterOp, op_in, op_between, op_contains, op_in_tuples, op_eq, op_ne,
  op_lt, op_le, op_gt, op_ge, ResolvedFilter, ok, ◌>>=◌,
}
use dux.Filters.Literals.{Strconv}
use dux.Filters.Resolve.{
  is_null, in_values, operand_literal, resolve_in, resolve_between, resolve_contains,
  resolve_scalar, resolve_operands, blank_filter,
}
use dux.Filters.Selects.{IsOperable}
use dux.Filters.Typed.{
  bind-ok, unless-ok, ok-injective, some≢none, IsTyped, operand-IsTyped, values-IsTyped,
}

-- A filter on one column, with its operands typed.
pub record IsSingle (table column : Text) (op : FilterOp) (numeric : Bool) (rf : ResolvedFilter)
    : Type 0 where
  pub table_same : rf.table ≡ table
  pub column_same : rf.column ≡ column
  pub op_same : rf.op ≡ op
  pub numeric_same : rf.numeric ≡ numeric
  pub columns_none : rf.columns ≡ []
  pub tuples_none : rf.tuples ≡ []
  pub operable : IsOperable op rf
  pub values : All (IsTyped numeric) rf.values
  pub value : (l : Literal) → rf.value ≡ some l → IsTyped numeric l
  pub from : (l : Literal) → rf.from ≡ some l → IsTyped numeric l
  pub to : (l : Literal) → rf.to ≡ some l → IsTyped numeric l

module _ (sc : Strconv) where
  in_values-IsTyped :
      (numeric : Bool) (values : List Value) (ls : List Literal)
      → in_values sc numeric values ≡ ok ls
      → All (IsTyped numeric) ls × (ls ≢ [])
  unfolding in_values
  in_values-IsTyped numeric [] ls h = absurd (ground arith)
  in_values-IsTyped numeric (v ∷ values) ls h =
      let (typed, n) = values-IsTyped sc numeric (v ∷ values) ls h in
      (typed, λ e. absurd (omega (arith, ap length e)))

  in-IsSingle :
      (f : ExternalFilter) (table column : Text) (numeric : Bool) (rf : ResolvedFilter)
      → resolve_in sc f (blank_filter table column op_in numeric) ≡ ok rf
      → IsSingle table column op_in numeric rf
  unfolding resolve_in blank_filter IsOperable
  in-IsSingle f table column numeric rf h =
      let (ls, made, same) = bind-ok (in_values sc numeric f.values) _ rf h in
      let (typed, full) = in_values-IsTyped numeric f.values ls made in
      subst (IsSingle table column op_in numeric) (ok-injective same) (record {
        table_same = refl;
        column_same = refl;
        op_same = refl;
        numeric_same = refl;
        columns_none = refl;
        tuples_none = refl;
        operable = full;
        values = typed;
        value = λ k q. absurd (ground arith);
        from = λ k q. absurd (ground arith);
        to = λ k q. absurd (ground arith);
      })

  between-IsSingle :
      (f : ExternalFilter) (table column : Text) (numeric : Bool) (rf : ResolvedFilter)
      → resolve_between sc f (blank_filter table column op_between numeric) ≡ ok rf
      → IsSingle table column op_between numeric rf
  unfolding resolve_between blank_filter IsOperable
  between-IsSingle f table column numeric rf h =
      let given = unless-ok (is_null f.from || is_null f.to) _ _ rf h in
      let (l, first, more) =
        bind-ok (operand_literal sc numeric f.from (codes "from")) _ rf given in
      let (k, second, same) = bind-ok (operand_literal sc numeric f.to (codes "to")) _ rf more in
      let from_typed = operand-IsTyped sc numeric f.from (codes "from") l first in
      let to_typed = operand-IsTyped sc numeric f.to (codes "to") k second in
      subst (IsSingle table column op_between numeric) (ok-injective same) (record {
        table_same = refl;
        column_same = refl;
        op_same = refl;
        numeric_same = refl;
        columns_none = refl;
        tuples_none = refl;
        operable = ((l, refl), (k, refl));
        values = tt;
        value = λ x q. absurd (some≢none q);
        from = λ x q. subst (IsTyped numeric) (some-injective q) from_typed;
        to = λ x q. subst (IsTyped numeric) (some-injective q) to_typed;
      })

  -- A filter with one literal operand.
  one-IsSingle :
      (table column : Text) (op : FilterOp) (numeric : Bool) (l : Literal) (rf : ResolvedFilter)
      → IsTyped numeric l
      → IsOperable op (record (blank_filter table column op numeric) { value = some l })
      → record (blank_filter table column op numeric) { value = some l } ≡ rf
      → IsSingle table column op numeric rf
  unfolding blank_filter
  one-IsSingle table column op numeric l rf t o e =
      subst (IsSingle table column op numeric) e (record {
        table_same = refl;
        column_same = refl;
        op_same = refl;
        numeric_same = refl;
        columns_none = refl;
        tuples_none = refl;
        operable = o;
        values = tt;
        value = λ k q. (let same : l ≡ k = ground arith in subst (IsTyped numeric) same t);
        from = λ k q. absurd (ground arith);
        to = λ k q. absurd (ground arith);
      })

  -- The operators with one operand.
  pub data IsScalar : FilterOp → Type 0 where
    scalar_eq : IsScalar op_eq
    scalar_ne : IsScalar op_ne
    scalar_lt : IsScalar op_lt
    scalar_le : IsScalar op_le
    scalar_gt : IsScalar op_gt
    scalar_ge : IsScalar op_ge
    scalar_contains : IsScalar op_contains

  IsOperable-value :
      (op : FilterOp) (rf : ResolvedFilter) (l : Literal)
      → IsScalar op
      → rf.value ≡ some l
      → IsOperable op rf
  unfolding IsOperable
  IsOperable-value op rf l scalar_eq e = (l, e)
  IsOperable-value op rf l scalar_ne e = (l, e)
  IsOperable-value op rf l scalar_lt e = (l, e)
  IsOperable-value op rf l scalar_le e = (l, e)
  IsOperable-value op rf l scalar_gt e = (l, e)
  IsOperable-value op rf l scalar_ge e = (l, e)
  IsOperable-value op rf l scalar_contains e = (l, e)

  value-IsSingle :
      (v : Value) (table column : Text) (op : FilterOp) (numeric : Bool) (rf : ResolvedFilter)
      → IsScalar op
      → (operand_literal sc numeric v (codes "value") >>= λ l.
          ok (record (blank_filter table column op numeric) { value = some l }))
        ≡ ok rf
      → IsSingle table column op numeric rf
  value-IsSingle v table column op numeric rf s h =
      let (l, made, same) = bind-ok (operand_literal sc numeric v (codes "value")) _ rf h in
      one-IsSingle table column op numeric l rf
        (operand-IsTyped sc numeric v (codes "value") l made) (IsOperable-value op _ l s refl)
        (ok-injective same)

  scalar-IsSingle :
      (name : Text) (f : ExternalFilter) (table column : Text) (op : FilterOp) (numeric : Bool)
      (rf : ResolvedFilter)
      → IsScalar op
      → resolve_scalar sc name f (blank_filter table column op numeric) ≡ ok rf
      → IsSingle table column op numeric rf
  unfolding resolve_scalar blank_filter
  scalar-IsSingle name f table column op numeric rf s h =
      value-IsSingle f.value table column op numeric rf s (unless-ok (is_null f.value) _ _ rf h)

  contains-IsSingle :
      (name : Text) (f : ExternalFilter) (table column : Text) (numeric : Bool)
      (rf : ResolvedFilter)
      → resolve_contains sc name f (blank_filter table column op_contains numeric) ≡ ok rf
      → IsSingle table column op_contains numeric rf
  unfolding resolve_contains blank_filter
  contains-IsSingle name f table column numeric rf h =
      value-IsSingle f.value table column op_contains numeric rf scalar_contains
        (unless-ok numeric _ _ rf (unless-ok (is_null f.value) _ _ rf h))

  pub operands-IsSingle :
      (op : FilterOp) (name : Text) (f : ExternalFilter) (table column : Text) (numeric : Bool)
      (rf : ResolvedFilter)
      → op ≢ op_in_tuples
      → resolve_operands sc op name f (blank_filter table column op numeric) ≡ ok rf
      → IsSingle table column op numeric rf
  unfolding resolve_operands
  operands-IsSingle op_in name f table column numeric rf o h =
      in-IsSingle f table column numeric rf h
  operands-IsSingle op_between name f table column numeric rf o h =
      between-IsSingle f table column numeric rf h
  operands-IsSingle op_contains name f table column numeric rf o h =
      contains-IsSingle name f table column numeric rf h
  operands-IsSingle op_in_tuples name f table column numeric rf o h = absurd (o refl)
  operands-IsSingle op_eq name f table column numeric rf o h =
      scalar-IsSingle name f table column op_eq numeric rf scalar_eq h
  operands-IsSingle op_ne name f table column numeric rf o h =
      scalar-IsSingle name f table column op_ne numeric rf scalar_ne h
  operands-IsSingle op_lt name f table column numeric rf o h =
      scalar-IsSingle name f table column op_lt numeric rf scalar_lt h
  operands-IsSingle op_le name f table column numeric rf o h =
      scalar-IsSingle name f table column op_le numeric rf scalar_le h
  operands-IsSingle op_gt name f table column numeric rf o h =
      scalar-IsSingle name f table column op_gt numeric rf scalar_gt h
  operands-IsSingle op_ge name f table column numeric rf o h =
      scalar-IsSingle name f table column op_ge numeric rf scalar_ge h
