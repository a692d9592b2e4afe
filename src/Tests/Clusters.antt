-- ===== src/Tests/Clusters.antt =====
-- Runs over the clusters of measures (emitter/cluster.go).
use dux.Base.{
  equal_fold, to_upper, to_lower, ◌==◌, any, mem, sort_strings, refl, ℕ, suc, ◌%◌, true, false,
  none, some, List, [], ◌∷◌, codes, ◌&&◌, nat_eq, ltb, ◌≡◌, if◌then◌else◌,
}
use dux.Ast.{
  Position, Expr, expr, no_ops, term, literal, string, col_ref, func_call, FuncCall, call, arg,
  no_args,
}
use dux.Names.{strip_single_quotes}
use dux.Emitter.{Emitter}
use dux.Emitter.Subtrees.{agg_subtrees}
use dux.Emitter.Tables.{measure_expr_tables}
use dux.Emitter.Plan.{Plan, plan_measures}
use dux.Emitter.Plan.Keys.{HaveOwnKeys}
use dux.Emitter.Plan.Filed.{AreFiled}
use dux.Emitter.Plan.Homes.{ReadsAt, plan_measures-AreFiled}
use dux.Emitter.Plan.Partition.{pair_times, inline_times, IsScalarLast, plan_measures-IsPartition}

abbrev top : Position
top = record { line = 1; column = 1 }

-- An emitter without a schema.
abbrev bare : Emitter
bare = record { schema = none; measures = none; resolution = none }

abbrev name_of : Expr
name_of = expr (term false (literal (string (codes "\"Total\"")))) no_ops

abbrev sum_of : ℕ → List ℕ → FuncCall
sum_of address table = call address top (codes "SUM") (
    arg
      (expr
        (term false (
          col_ref
            (record { address = address; pos = top; table = table; column = codes "[Amount]" })))
        no_ops)
      no_args)

abbrev sales_sum : Expr
sales_sum = expr (term false (func_call (sum_of 1 (codes "Sales")))) no_ops

abbrev budget_sum : Expr
budget_sum = expr (term false (func_call (sum_of 2 (codes "Budget")))) no_ops

plan_measures-IsPartition_example :
    (p : Plan) × (plan_measures bare
        (λ _. false)
        (name_of ∷ sales_sum ∷ name_of ∷ budget_sum ∷ [])
        (sales_sum ∷ [])
        true
      ≡ some p)
    × ((k : ℕ)
        → (pair_times k p ≡ (if nat_eq (k % 2) 0 && ltb (suc k) 4 then 1 else 0))
          × (inline_times k p ≡ (if ltb k 1 then 1 else 0)))
    × IsScalarLast p.clusters
plan_measures-IsPartition_example =
    plan_measures-IsPartition bare (λ _. false) (name_of ∷ sales_sum ∷ name_of ∷ budget_sum ∷ [])
      (sales_sum ∷ []) true

abbrev plan_of_two : Plan
plan_of_two = record {
  clusters =
      (record {
        key = codes "sales";
        tables = codes "Sales" ∷ [];
        pair_idx = 0 ∷ [];
        inline_idx = 0 ∷ [];
        lifted = [];
        calc = none;
      })
      ∷ (record {
        key = codes "budget";
        tables = codes "Budget" ∷ [];
        pair_idx = 2 ∷ [];
        inline_idx = [];
        lifted = [];
        calc = none;
      })
      ∷ [];
  split_pairs = [];
  split_inline = [];
}

plan_runs :
    plan_measures bare
      (λ _. false)
      (name_of ∷ sales_sum ∷ name_of ∷ budget_sum ∷ [])
      (sales_sum ∷ [])
      true
    ≡ some plan_of_two
unfolding plan_measures agg_subtrees measure_expr_tables to_upper to_lower equal_fold ◌==◌ any mem
    sort_strings strip_single_quotes
plan_runs = refl

plan_measures-AreFiled_example :
    AreFiled bare
      (λ _. false)
      (λ i key. ReadsAt bare (name_of ∷ sales_sum ∷ name_of ∷ budget_sum ∷ []) (suc i) key)
      (λ j key. ReadsAt bare (sales_sum ∷ []) j key)
      plan_of_two.clusters
    × HaveOwnKeys plan_of_two.clusters
plan_measures-AreFiled_example =
    plan_measures-AreFiled bare (λ _. false) (name_of ∷ sales_sum ∷ name_of ∷ budget_sum ∷ [])
      (sales_sum ∷ []) true plan_of_two plan_runs
