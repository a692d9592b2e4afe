-- ===== src/Tests/Filters.antt =====
-- Runs over the external filters (executor/extfilter.go).
use dux.Base.{
  ℕ, true, false, Option, none, some, [], ◌∷◌, ◌++◌, codes, ◌==◌, ◌≡◌, refl, ◌⊎◌, any, to_lower,
  to_upper, lookup, starts_with, leb,
}
use dux.Ast.{
  string, number, Expr, expr, no_ops, term, func_call, call, col_ref, literal, Args, no_args, arg,
  TableExpr, func, Query,
}
use dux.Schema.{find_table, find_fold}
use dux.Filters.{null, json_number, ExternalFilter, op_ge, ResolvedFilter, nowhere, ok}
use dux.Filters.Literals.{Strconv, is_numeric_type, literal_of_text, literal_for}
use dux.Filters.Predicate.{predicate}
use dux.Filters.Resolve.{
  blank_filter, filter_op, find_table_column, within, is_null, operand_literal, resolve_operands,
  resolve_scalar, resolve_with, resolve_single, resolve_filter,
}
use dux.Filters.Inject.{
  is_string_arg, before_pairs, from_pairs, inject_args, find_summarize_columns, keeps_first,
  find_call, Found, inside,
}
use dux.Filters.Meaning.{truth}
use dux.Filters.Selects.{IsOperable, selects}
use dux.Filters.Refines.{predicate_refines}
use dux.Filters.Accepted.{IsAccepted, resolve_filter-IsAccepted}
use dux.Filters.Steps.{list_of, inject_args-split}
use dux.Tests.Sample.{sample, sales}

-- Every text is a number, and no float is printed.
abbrev plain_strconv : Strconv
plain_strconv = record {
  format_float64 = λ _. [];
  format_float32 = λ _. [];
  format_int = λ _. [];
  parses_float = λ _. true;
  trim_space = λ s. s;
}

abbrev at_least_five : ExternalFilter
at_least_five = record {
  table = codes "lake.sales";
  column = codes "KEY";
  op = codes ">=";
  values = [];
  value = json_number (codes "5");
  from = null;
  to = null;
  columns = [];
  tuples = [];
}

abbrev resolved : ResolvedFilter
resolved = record (blank_filter sales (codes "Key") op_ge true) {
  value = some (number (codes "5"));
}

resolve_runs_filter : resolve_filter plain_strconv sample at_least_five ≡ ok resolved
unfolding resolve_filter resolve_single resolve_with resolve_operands resolve_scalar operand_literal
    within is_null literal_for literal_of_text filter_op find_table_column find_table find_fold
    lookup to_lower ◌==◌ is_numeric_type starts_with any blank_filter
resolve_runs_filter = refl

resolve_filter-IsAccepted_example : IsAccepted sample resolved
resolve_filter-IsAccepted_example =
    resolve_filter-IsAccepted plain_strconv sample at_least_five resolved resolve_runs_filter

resolved-IsOperable : IsOperable op_ge resolved
unfolding IsOperable blank_filter
resolved-IsOperable = (number (codes "5"), refl)

-- Columns hold 7, literals are their length, and every comparison is ≥.
predicate_refines_example :
    (e : Expr) × (predicate resolved ≡ some e)
    × (truth {V = ℕ} (λ _. 7) (λ _. 5) (λ _ _. 0) (λ _ a b. leb b a) e
        ≡ some
            (selects {V = ℕ} (λ _. 7) (λ _. 5) (λ _ _. 0) (λ _ a b. leb b a) resolved.op resolved))
unfolding blank_filter
predicate_refines_example =
    predicate_refines {V = ℕ} (λ _. 7) (λ _. 5) (λ _ _. 0) (λ _ a b. leb b a) resolved
      resolved-IsOperable

abbrev group_column : Expr
group_column =
    expr
      (term false (
        col_ref
          (record { address = 3; pos = nowhere; table = codes "Dates"; column = codes "[Key]" })))
      no_ops

abbrev name_arg : Expr
name_arg = expr (term false (literal (string (codes "x")))) no_ops

abbrev summarize : Args
summarize = arg group_column (arg name_arg (arg group_column no_args))

-- TOPN(SUMMARIZECOLUMNS(...)) in small letters
abbrev top_of_summary : TableExpr
top_of_summary = func nowhere (
    call 1 nowhere (codes "topn") (
      arg name_arg (
        arg
          (expr (term false (func_call (call 2 nowhere (codes "SummarizeColumns") summarize)))
            no_ops)
          no_args)))

abbrev summary_query : Query
summary_query = record {
  defines = [];
  evaluate = record { vars = []; table = top_of_summary; order_by = []; start_at = [] };
}

inject_args-split_example :
    (list_of (inject_args (group_column ∷ []) summarize)
      ≡ before_pairs summarize ++ ((group_column ∷ []) ++ list_of (from_pairs summarize)))
    × (list_of summarize ≡ before_pairs summarize ++ list_of (from_pairs summarize))
    × (any is_string_arg (before_pairs summarize) ≡ false)
    × ((from_pairs summarize ≡ no_args)
        ⊎ ((e : Expr) × (rest : Args) × (from_pairs summarize ≡ arg e rest)
            × (is_string_arg e ≡ true)))
inject_args-split_example = inject_args-split (group_column ∷ []) summarize

-- The pointer holds the arguments, and an assignment through it changes them alone.
found_args : Found TableExpr → Option (Args × TableExpr)
found_args none = none
found_args (some (args, put)) = some (args, put no_args)

find_runs :
    found_args (find_summarize_columns top_of_summary)
    ≡ some (
      summarize,
      func nowhere (
          call 1 nowhere (codes "topn") (
            arg name_arg (
              arg
                (expr
                  (term false (func_call (call 2 nowhere (codes "SummarizeColumns") no_args)))
                  no_ops)
                no_args))),
    )
unfolding found_args find_summarize_columns find_call keeps_first to_upper inside ◌==◌
find_runs = refl
