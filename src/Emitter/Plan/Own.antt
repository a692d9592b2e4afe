-- ===== src/Emitter/Plan/Own.antt =====
-- No two regular clusters of a plan have the same key (emitter/cluster.go).
use dux.Base.{
  ℕ, suc, ◌+◌, Bool, Option, none, some, List, [], ◌∷◌, Text, ◌≡◌, refl, subst, inl, inr,
  Bool-cases, Option-cases, bind-some, some-injective, arith,
}
use dux.Ast.{Expr, FuncCall}
use dux.Emitter.{Emitter, expr_of_func}
use dux.Emitter.Subtrees.{agg_subtrees}
use dux.Emitter.Tables.{measure_expr_tables}
use dux.Emitter.Plan.{
  Cluster, Plan, cluster_key, place, is_regular, is_context, change_at, new_cluster,
  context_cluster, found_or_new, cluster_for, calc_cluster_for, is_ctx, lift_call, add_pair,
  add_inline, put_pair, put_inline, lift_one, lift_all, is_whole, assign, plan_pairs, plan_inline,
  sort_clusters, plan_measures,
}
use dux.Emitter.Plan.Keys.{
  HaveOwnKeys, Keeps, HaveOwnKeys-concat, place-any, shares_key-any, any-context,
  HaveOwnKeys-change_at, HaveOwnKeys-keyless, HaveOwnKeys-sort,
}

module _ (e : Emitter) (modifies : FuncCall → Bool) where
  cluster_for-HaveOwnKeys :
      (tables : List Text) (cs : List Cluster)
      → HaveOwnKeys cs
      → HaveOwnKeys (cluster_for e modifies tables cs).1
  unfolding cluster_for found_or_new
  cluster_for-HaveOwnKeys tables cs h =
      let key = cluster_key e tables in
      elim (Option-cases (place (is_regular key) cs)) [
        | inr (n, known) ↦ rw known h
        | inl new ↦ rw new (
            HaveOwnKeys-concat cs (new_cluster key tables none)
              (shares_key-any key tables cs (place-any (is_regular key) cs new)) h)
      ]

  calc_cluster_for-HaveOwnKeys :
      (fc : FuncCall) (cs : List Cluster) (r : ℕ × List Cluster)
      → calc_cluster_for e modifies fc cs ≡ some r
      → HaveOwnKeys cs
      → HaveOwnKeys r.1
  unfolding calc_cluster_for
  calc_cluster_for-HaveOwnKeys fc cs r h own = elim (Option-cases (place (is_context fc) cs)) [
    | inr (n, known) ↦
        (let same : (n, cs) ≡ r = ground arith in subst (λ q. HaveOwnKeys q.1) same own)
    | inl new ↦
        let (tables, held, made) =
          bind-some (measure_expr_tables e (expr_of_func fc))
            (λ tables. some (found_or_new none (context_cluster e modifies fc tables cs) cs)) r
            (ground arith) in
        subst (λ q. HaveOwnKeys q.1) (some-injective made)
          (unfold found_or_new in
            HaveOwnKeys-concat cs (context_cluster e modifies fc tables cs)
              (unfold context_cluster in any-context cs _ tables fc) own)
  ]

  lift_one-HaveOwnKeys :
      (lift : Bool) (st : FuncCall) (cs cs' : List Cluster)
      → lift_one e modifies lift st cs ≡ some cs'
      → HaveOwnKeys cs
      → HaveOwnKeys cs'
  unfolding lift_one
  lift_one-HaveOwnKeys lift st cs cs' h own = elim (Bool-cases (is_ctx e modifies lift st)) [
    | inl context ↦
        let (r, held, made) =
          bind-some (calc_cluster_for e modifies st cs) (λ r. some r.1) cs' (ground arith) in
        subst HaveOwnKeys (some-injective made) (calc_cluster_for-HaveOwnKeys st cs r held own)
    | inr plain ↦
        let (tables, held, made) =
          bind-some (measure_expr_tables e (expr_of_func st))
            (λ tables.
              (let r = cluster_for e modifies tables cs in some (change_at (lift_call st) r.0 r.1)))
            cs' (ground arith) in
        let r = cluster_for e modifies tables cs in
        subst HaveOwnKeys (some-injective made) (
          HaveOwnKeys-change_at (lift_call st) r.0 r.1
            (unfold Keeps in unfold lift_call in λ c. (refl, refl))
            (cluster_for-HaveOwnKeys tables cs own))
  ]

  lift_all-HaveOwnKeys :
      (lift : Bool) (subtrees : List FuncCall) (cs cs' : List Cluster)
      → lift_all e modifies lift subtrees cs ≡ some cs'
      → HaveOwnKeys cs
      → HaveOwnKeys cs'
  unfolding lift_all
  lift_all-HaveOwnKeys lift [] cs cs' h own = subst HaveOwnKeys (some-injective h) own
  lift_all-HaveOwnKeys lift (st ∷ subtrees) cs cs' h own =
      let (mid, first, rest) = bind-some (lift_one e modifies lift st cs) _ cs' h in
      lift_all-HaveOwnKeys lift subtrees mid cs' rest
        (lift_one-HaveOwnKeys lift st cs mid first own)

  assign-HaveOwnKeys :
      (lift : Bool) (ex : Expr) (cs : List Cluster) (o : Option ℕ) (cs' : List Cluster)
      → assign e modifies lift ex cs ≡ some (o, cs')
      → HaveOwnKeys cs
      → HaveOwnKeys cs'
  unfolding assign
  assign-HaveOwnKeys lift ex cs o cs' h own =
      let (subtrees, found, next) =
        bind-some {B = Option ℕ × List Cluster} (agg_subtrees e ex) _ (o, cs') h in
      let (whole, known, last) =
        bind-some {B = Option ℕ × List Cluster} (is_whole e modifies lift subtrees) _ (o, cs')
          next in
      elim (Bool-cases whole) [
        | inl home ↦
            let (tables, held, made) =
              bind-some {B = Option ℕ × List Cluster} (measure_expr_tables e ex)
                (λ tables. (let r = cluster_for e modifies tables cs in some (some r.0, r.1)))
                (o, cs') (ground arith) in
            subst (λ q. HaveOwnKeys q.1) (some-injective made)
              (cluster_for-HaveOwnKeys tables cs own)
        | inr split ↦
            let (cs'', held, made) =
              bind-some {B = Option ℕ × List Cluster} (lift_all e modifies lift subtrees cs)
                (λ cs''. some (none, cs'')) (o, cs') (ground arith) in
            subst (λ q. HaveOwnKeys q.1) (some-injective made)
              (lift_all-HaveOwnKeys lift subtrees cs cs'' held own)
      ]

  put_pair-HaveOwnKeys :
      (i : ℕ) (p : Plan) (o : Option ℕ) (cs : List Cluster)
      → HaveOwnKeys cs
      → HaveOwnKeys (put_pair i p (o, cs)).clusters
  unfolding put_pair
  put_pair-HaveOwnKeys i p none cs own = own
  put_pair-HaveOwnKeys i p (some n) cs own =
      HaveOwnKeys-change_at (add_pair i) n cs (unfold Keeps in unfold add_pair in λ c. (refl, refl))
        own

  put_inline-HaveOwnKeys :
      (j : ℕ) (p : Plan) (o : Option ℕ) (cs : List Cluster)
      → HaveOwnKeys cs
      → HaveOwnKeys (put_inline j p (o, cs)).clusters
  unfolding put_inline
  put_inline-HaveOwnKeys j p none cs own = own
  put_inline-HaveOwnKeys j p (some n) cs own =
      HaveOwnKeys-change_at (add_inline j) n cs
        (unfold Keeps in unfold add_inline in λ c. (refl, refl)) own

  plan_pairs-HaveOwnKeys :
      (lift : Bool) (i : ℕ) (args : List Expr) (p p' : Plan)
      → plan_pairs e modifies lift i args p ≡ some p'
      → HaveOwnKeys p.clusters
      → HaveOwnKeys p'.clusters
  unfolding plan_pairs
  plan_pairs-HaveOwnKeys lift i [] p p' h own =
      subst (λ q. HaveOwnKeys q.clusters) (some-injective h) own
  plan_pairs-HaveOwnKeys lift i (name ∷ []) p p' h own =
      subst (λ q. HaveOwnKeys q.clusters) (some-injective h) own
  plan_pairs-HaveOwnKeys lift i (name ∷ value ∷ args) p p' h own =
      let ((o, cs), held, more) = bind-some (assign e modifies lift value p.clusters) _ p' h in
      plan_pairs-HaveOwnKeys lift (2 + i) args (put_pair i p (o, cs)) p' more
        (put_pair-HaveOwnKeys i p o cs (assign-HaveOwnKeys lift value p.clusters o cs held own))

  plan_inline-HaveOwnKeys :
      (lift : Bool) (j : ℕ) (args : List Expr) (p p' : Plan)
      → plan_inline e modifies lift j args p ≡ some p'
      → HaveOwnKeys p.clusters
      → HaveOwnKeys p'.clusters
  unfolding plan_inline
  plan_inline-HaveOwnKeys lift j [] p p' h own =
      subst (λ q. HaveOwnKeys q.clusters) (some-injective h) own
  plan_inline-HaveOwnKeys lift j (ex ∷ args) p p' h own =
      let ((o, cs), held, more) = bind-some (assign e modifies lift ex p.clusters) _ p' h in
      plan_inline-HaveOwnKeys lift (suc j) args (put_inline j p (o, cs)) p' more
        (put_inline-HaveOwnKeys j p o cs (assign-HaveOwnKeys lift ex p.clusters o cs held own))

  pub plan_measures-HaveOwnKeys :
      (pair_args inline_args : List Expr) (lift : Bool) (p : Plan)
      → plan_measures e modifies pair_args inline_args lift ≡ some p
      → HaveOwnKeys p.clusters
  unfolding plan_measures sort_clusters
  plan_measures-HaveOwnKeys pair_args inline_args lift p h =
      let start : Plan = record { clusters = []; split_pairs = []; split_inline = [] } in
      let (q, pairs, rest) =
        bind-some {B = Plan} (plan_pairs e modifies lift 0 pair_args start) _ p h in
      let (r, inlines, sorted) =
        bind-some {B = Plan} (plan_inline e modifies lift 0 inline_args q) _ p rest in
      let first =
        plan_pairs-HaveOwnKeys lift 0 pair_args start q pairs (unfold HaveOwnKeys in tt) in
      let own = plan_inline-HaveOwnKeys lift 0 inline_args q r inlines first in
      subst (λ s. HaveOwnKeys s.clusters) (some-injective sorted)
        (HaveOwnKeys-sort r.clusters r.clusters own (HaveOwnKeys-keyless r.clusters own))
