-- ===== src/Emitter/Plan/Ends.antt =====
-- planMeasures (emitter/cluster.go) returns a plan: every walk of it ends.
use dux.Base.{
  ℕ, suc, ◌+◌, Bool, false, Option, some, List, [], ◌∷◌, Text, any, ◌≡◌, refl, inl, inr, Bool-cases,
  Option-cases, ◌>>=◌,
}
use dux.Ast.{Expr, FuncCall}
use dux.Emitter.{Emitter, expr_of_func}
use dux.Emitter.Subtrees.{agg_subtrees}
use dux.Emitter.Tables.{measure_expr_tables}
use dux.Emitter.Walks.{IsDone}
use dux.Emitter.Ends.{agg_subtrees-total, measure_expr_tables-total}
use dux.Emitter.Plan.{
  Cluster, Plan, place, is_context, calc_cluster_for, is_ctx, distinct_keys, lift_one, lift_all,
  is_whole, assign, plan_pairs, plan_inline, sort_clusters, plan_measures,
}

IsDone-bind {ℓ κ} :
    {A : Type ℓ} {B : Type κ} (o : Option A) (f : A → Option B)
    → IsDone o
    → ((a : A) → IsDone (f a))
    → IsDone (o >>= f)
unfolding IsDone
IsDone-bind o f (a, h) g = rw h (g a)

module _ (e : Emitter) (modifies : FuncCall → Bool) where
  tables-IsDone : (ex : Expr) → IsDone (measure_expr_tables e ex)
  unfolding IsDone
  tables-IsDone ex = measure_expr_tables-total e ex

  distinct_keys-IsDone :
      (subtrees : List FuncCall) (keys : List Text)
      → IsDone (distinct_keys e modifies subtrees keys)
  unfolding distinct_keys
  distinct_keys-IsDone [] keys = unfold IsDone in (keys, refl)
  distinct_keys-IsDone (st ∷ subtrees) keys =
      IsDone-bind (measure_expr_tables e (expr_of_func st)) _ (tables-IsDone (expr_of_func st))
        (λ tables. distinct_keys-IsDone subtrees _)

  calc_cluster_for-IsDone :
      (fc : FuncCall) (clusters : List Cluster) → IsDone (calc_cluster_for e modifies fc clusters)
  unfolding calc_cluster_for
  calc_cluster_for-IsDone fc clusters = elim (Option-cases (place (is_context fc) clusters)) [
    | inr (n, known) ↦ rw (calc_cluster_for, known) (unfold IsDone in (_, refl))
    | inl new ↦
        rw (calc_cluster_for, new)
          (IsDone-bind (measure_expr_tables e (expr_of_func fc)) _ (tables-IsDone (expr_of_func fc))
            (λ tables. unfold IsDone in (_, refl)))
  ]

  lift_one-IsDone :
      (lift : Bool) (st : FuncCall) (clusters : List Cluster)
      → IsDone (lift_one e modifies lift st clusters)
  unfolding lift_one
  lift_one-IsDone lift st clusters = elim (Bool-cases (is_ctx e modifies lift st)) [
    | inl context ↦ rw context (
        IsDone-bind (calc_cluster_for e modifies st clusters) _
          (calc_cluster_for-IsDone st clusters) (λ r. unfold IsDone in (_, refl)))
    | inr plain ↦ rw plain (
        IsDone-bind (measure_expr_tables e (expr_of_func st)) _ (tables-IsDone (expr_of_func st))
          (λ tables. unfold IsDone in (_, refl)))
  ]

  lift_all-IsDone :
      (lift : Bool) (subtrees : List FuncCall) (clusters : List Cluster)
      → IsDone (lift_all e modifies lift subtrees clusters)
  unfolding lift_all
  lift_all-IsDone lift [] clusters = unfold IsDone in (clusters, refl)
  lift_all-IsDone lift (st ∷ subtrees) clusters =
      IsDone-bind (lift_one e modifies lift st clusters) _ (lift_one-IsDone lift st clusters)
        (λ clusters'. lift_all-IsDone lift subtrees clusters')

  is_whole-IsDone :
      (lift : Bool) (subtrees : List FuncCall) → IsDone (is_whole e modifies lift subtrees)
  unfolding is_whole IsDone
  is_whole-IsDone lift subtrees = elim (Bool-cases (any (is_ctx e modifies lift) subtrees)) [
    | inl context ↦ rw context (false, refl)
    | inr plain ↦ let (keys, done) = distinct_keys-IsDone subtrees [] in rw (plain, done) (_, refl)
  ]

  assign-IsDone :
      (lift : Bool) (ex : Expr) (clusters : List Cluster)
      → IsDone (assign e modifies lift ex clusters)
  unfolding assign
  assign-IsDone lift ex clusters =
      IsDone-bind (agg_subtrees e ex) _ (unfold IsDone in (agg_subtrees-total e ex)) (λ subtrees.
        IsDone-bind (is_whole e modifies lift subtrees) _ (is_whole-IsDone lift subtrees) (λ whole.
          elim (Bool-cases whole) [
            | inl home ↦ rw home (
                IsDone-bind (measure_expr_tables e ex) _ (tables-IsDone ex)
                  (λ tables. unfold IsDone in (_, refl)))
            | inr split ↦ rw split (
                IsDone-bind (lift_all e modifies lift subtrees clusters) _
                  (lift_all-IsDone lift subtrees clusters)
                  (λ clusters'. unfold IsDone in (_, refl)))
          ]))

  plan_pairs-IsDone :
      (lift : Bool) (i : ℕ) (args : List Expr) (p : Plan)
      → IsDone (plan_pairs e modifies lift i args p)
  unfolding plan_pairs
  plan_pairs-IsDone lift i [] p = unfold IsDone in (p, refl)
  plan_pairs-IsDone lift i (name ∷ []) p = unfold IsDone in (p, refl)
  plan_pairs-IsDone lift i (name ∷ value ∷ args) p =
      IsDone-bind (assign e modifies lift value p.clusters) _ (assign-IsDone lift value p.clusters)
        (λ r. plan_pairs-IsDone lift (2 + i) args _)

  plan_inline-IsDone :
      (lift : Bool) (j : ℕ) (args : List Expr) (p : Plan)
      → IsDone (plan_inline e modifies lift j args p)
  unfolding plan_inline
  plan_inline-IsDone lift j [] p = unfold IsDone in (p, refl)
  plan_inline-IsDone lift j (ex ∷ args) p =
      IsDone-bind (assign e modifies lift ex p.clusters) _ (assign-IsDone lift ex p.clusters)
        (λ r. plan_inline-IsDone lift (suc j) args _)

  pub plan_measures-total :
      (pair_args inline_args : List Expr) (lift : Bool)
      → (p : Plan) × (plan_measures e modifies pair_args inline_args lift ≡ some p)
  unfolding plan_measures IsDone
  plan_measures-total pair_args inline_args lift =
      let (p, pairs) =
        plan_pairs-IsDone lift 0 pair_args
          (record { clusters = []; split_pairs = []; split_inline = [] }) in
      let (q, inline) = plan_inline-IsDone lift 0 inline_args p in
      rw (pairs, inline) (sort_clusters q, refl)
