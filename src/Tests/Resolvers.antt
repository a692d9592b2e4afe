-- ===== src/Tests/Resolvers.antt =====
-- Runs over the resolution of measures (semantic/resolver.go).
use mathlib.Core.List.Memᴰ
use dux.Base.{
  ℕ, false, some, [], ◌∷◌, Text, codes, ◌==◌, ◌≡◌, ◌≢◌, refl, ap, sym, ◌∙◌, to_lower, equal_fold,
  arith, inl, inr, ◌⊎◌, Memᴰ, Memᴰ-cons,
}
use dux.Ast.{
  ColRef, Expr, MeasureDefinition, expr, no_ops, term, func_call, call, col_ref, literal, number,
  no_args, arg, Position, table_constructor, row, no_rows,
}
use dux.Result.{Result, ok, err, circular_measure}
use dux.Names.{strip_brackets, strip_single_quotes, strip, undouble}
use dux.Schema.{new_schema}
use dux.Measures.{find_measure, find_measure_by_name, scan_tables, find_in}
use dux.Resolver.{
  Resolver, State, has, and_then, visit, visit_all, visit_ref, resolve_measure_expr, follow_measure,
  stored, defs_in, resolve_measures, ref_measure,
}
use dux.Resolver.Grounded.{IsPointed, IsGrounded, resolve_measures-IsGrounded}
use dux.Resolver.Circle.{IsCircular, resolve_measures-IsCircular}
use dux.Resolver.Total.{resolve_measures-total}

abbrev top : Position
top = record { line = 1; column = 1 }

abbrev measure_of : Text → ColRef
measure_of name = record { address = 5; pos = top; table = []; column = name }

-- SUM(1)
abbrev one : Expr
one = expr (term false (literal (number (codes "1")))) no_ops

-- ABS([Revenue])
abbrev abs_of : Text → Expr
abs_of name =
    expr
      (term false (
        func_call (
          call 0 top (codes "ABS")
            (arg (expr (term false (col_ref (measure_of name))) no_ops) no_args))))
      no_ops

abbrev definition : ℕ → Text → Expr → MeasureDefinition
definition address column e = record {
  address = address;
  table = codes "Sales";
  column = column;
  expr = e;
  expression = [];
}

abbrev base : MeasureDefinition
base = definition 1 (codes "[Revenue]") one

abbrev derived : MeasureDefinition
derived = definition 2 (codes "[Margin]") (abs_of (codes "[Revenue]"))

-- Revenue as a measure that refers to Margin
abbrev looping : MeasureDefinition
looping = definition 3 (codes "[Revenue]") (abs_of (codes "[Margin]"))

abbrev resolver : MeasureDefinition → Resolver
resolver revenue = record {
  schema = new_schema;
  local_measures =
      (codes "Sales", (codes "Revenue", revenue) ∷ (codes "Margin", derived) ∷ []) ∷ [];
  var_names = [];
  allow_bare_columns = false;
}

abbrev start : State
start = record { entered = []; resolved = []; refs = [] }

-- Revenue as the table constructor {[Revenue]}, which refers to Revenue itself
abbrev hidden_loop : MeasureDefinition
hidden_loop = definition 4 (codes "[Revenue]") (
    expr
      (term false (
        table_constructor (
          row (arg (expr (term false (col_ref (measure_of (codes "[Revenue]")))) no_ops) no_args)
            no_rows)))
      no_ops)

abbrev finish : State
finish = record {
  entered = base ∷ derived ∷ [];
  resolved = derived ∷ base ∷ [];
  refs = (measure_of (codes "[Revenue]"), ref_measure (codes "Sales") (codes "Revenue") base) ∷ [];
}

resolve_runs : resolve_measures (resolver base) (derived ∷ []) start ≡ some (ok finish)
unfolding resolve_measures visit_all visit has and_then resolve_measure_expr visit_ref
    follow_measure find_measure_by_name scan_tables find_measure find_in strip_brackets
    strip_single_quotes strip undouble equal_fold to_lower ◌==◌ stored defs_in
resolve_runs = refl

loop_runs :
    resolve_measures (resolver looping) (derived ∷ []) start
    ≡ some (err (circular_measure (codes "Sales") (codes "[Margin]")))
unfolding resolve_measures visit_all visit has and_then resolve_measure_expr visit_ref
    follow_measure find_measure_by_name scan_tables find_measure find_in strip_brackets
    strip_single_quotes strip undouble equal_fold to_lower ◌==◌ stored defs_in
loop_runs = refl

-- The reference in a row of the table constructor is not followed.
hidden_loop_runs :
    resolve_measures (resolver hidden_loop) (hidden_loop ∷ []) start
    ≡ some (ok (record { entered = hidden_loop ∷ []; resolved = hidden_loop ∷ []; refs = [] }))
unfolding resolve_measures visit_all visit has and_then resolve_measure_expr stored defs_in
hidden_loop_runs = refl

one_of : (x d : MeasureDefinition) → Memᴰ d (derived ∷ x ∷ derived ∷ []) → (d ≡ derived) ⊎ (d ≡ x)
one_of x d m = elim ((Memᴰ-cons d derived (x ∷ derived ∷ [])).0 m) [
  | inl e ↦ inl e
  | inr n ↦ elim ((Memᴰ-cons d x (derived ∷ [])).0 n) [
    | inl e ↦ inr e
    | inr l ↦ inl (Memᴰ.eq_of_singleton l)
  ]
]

pointed :
    (x : MeasureDefinition)
    → x.address ≢ 2
    → IsPointed (derived ∷ stored (resolver x).local_measures)
unfolding IsPointed stored defs_in
pointed x other d d' m m' e = elim (one_of x d m) [
  | inl p ↦ elim (one_of x d' m') [
    | inl q ↦ p ∙ sym q
    | inr q ↦ absurd (other (sym (ap (λ y. y.address) q) ∙ sym e ∙ ap (λ y. y.address) p))
  ]
  | inr p ↦ elim (one_of x d' m') [
    | inl q ↦ absurd (other (sym (ap (λ y. y.address) p) ∙ e ∙ ap (λ y. y.address) q))
    | inr q ↦ p ∙ sym q
  ]
]

resolve_measures-IsGrounded_example : IsGrounded (resolver base) derived
resolve_measures-IsGrounded_example =
    resolve_measures-IsGrounded (resolver base) (derived ∷ []) start finish derived
      (pointed base (λ e. absurd (ground arith))) refl resolve_runs (Memᴰ.head refl)

resolve_measures-total_example :
    (o : Result State) × (resolve_measures (resolver looping) (derived ∷ []) start ≡ some o)
resolve_measures-total_example = resolve_measures-total (resolver looping) (derived ∷ []) start

resolve_measures-IsCircular_example : (d : MeasureDefinition) × IsCircular (resolver looping) d
resolve_measures-IsCircular_example =
    resolve_measures-IsCircular (resolver looping) (derived ∷ []) start (codes "Sales")
      (codes "[Margin]") (pointed looping (λ e. absurd (ground arith))) refl loop_runs
