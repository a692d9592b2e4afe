-- ===== src/Emitter/Plan.antt =====
-- planMeasures (emitter/cluster.go): the clusters of the measures of a SUMMARIZECOLUMNS call. A
-- cluster's place in the list stands for its pointer. A result of none means that the fuel of
-- nested measures ran out.
pub mod Ends
pub mod Shares
pub mod Partition
pub mod Keys
pub mod Own
pub mod Filed
pub mod Homes
use mathlib.Core.Option
use dux.Base.{
  ◌>>=◌, ℕ, zero, suc, ◌+◌, ◌/◌, ◌%◌, Bool, true, false, Option, none, some, List, [], ◌∷◌, ◌++◌,
  Text, codes, ◌==◌, ◌&&◌, not, any, map, mem, nat_eq, ltb, length, sort_strings, if◌then◌else◌,
}
use dux.Ast.{Expr, Args, FuncCall, call}
use dux.Emitter.{Emitter, table_key, expr_of_func}
use dux.Emitter.Subtrees.{agg_subtrees}
use dux.Emitter.Tables.{measure_expr_tables}

pub record Cluster : Type 0 where
  pub key : Text
  pub tables : List Text
  pub pair_idx : List ℕ
  pub inline_idx : List ℕ
  pub lifted : List FuncCall
  pub calc : Option FuncCall

pub record Plan : Type 0 where
  pub clusters : List Cluster
  pub split_pairs : List ℕ
  pub split_inline : List ℕ

-- strings.Join(canon, "\x00")
unfoldable pub join_zero : List Text → Text
join_zero [] = []
join_zero (t ∷ []) = t
join_zero (t ∷ u ∷ ts) = t ++ 0 ∷ join_zero (u ∷ ts)

-- clusterKey
unfoldable pub cluster_key : Emitter → List Text → Text
unfolding table_key join_zero
cluster_key e [] = []
cluster_key e (t ∷ tables) = join_zero (sort_strings (map (table_key e) (t ∷ tables)))

-- The digits of a number as fmt writes them.
unfoldable pub digits : ℕ → ℕ → Text
digits zero n = []
digits (suc fuel) n =
    let front = digits fuel (n / 10) in
    if ltb n 10 then (48 + n) ∷ [] else front ++ (48 + n % 10) ∷ []

unfoldable pub is_same_call : FuncCall → FuncCall → Bool
is_same_call (call a p name args) (call b q other args') = nat_eq a b

-- The look-up of byKey: the cluster of the key that is no context cluster.
unfoldable pub is_regular : Text → Cluster → Bool
is_regular key c = elim c.calc [ none ↦ c.key == key | some fc ↦ false ]

-- The look-up of calcByFc.
unfoldable pub is_context : FuncCall → Cluster → Bool
unfolding is_same_call
is_context fc c = elim c.calc [ none ↦ false | some known ↦ is_same_call known fc ]

-- len(calcByFc)
unfoldable pub count_contexts : List Cluster → ℕ
count_contexts [] = 0
count_contexts (c ∷ clusters) =
    let rest = count_contexts clusters in elim c.calc [ none ↦ rest | some fc ↦ suc rest ]

-- The place of the first cluster that passes the test.
unfoldable pub place : (Cluster → Bool) → List Cluster → Option ℕ
place test [] = none
place test (c ∷ clusters) =
    let later = Option.map suc (place test clusters) in if test c then some 0 else later

-- The cluster at a place, changed.
unfoldable pub change_at : (Cluster → Cluster) → ℕ → List Cluster → List Cluster
change_at f n [] = []
change_at f zero (c ∷ clusters) = f c ∷ clusters
change_at f (suc n) (c ∷ clusters) = c ∷ change_at f n clusters

unfoldable pub new_cluster : Text → List Text → Option FuncCall → Cluster
new_cluster key tables calc = record {
  key = key;
  tables = tables;
  pair_idx = [];
  inline_idx = [];
  lifted = [];
  calc = calc;
}

-- The place of a cluster that is found, or of a new one at the end.
unfoldable pub found_or_new : Option ℕ → Cluster → List Cluster → ℕ × List Cluster
found_or_new (some n) c clusters = (n, clusters)
found_or_new none c clusters = (length clusters, clusters ++ c ∷ [])

-- c.lifted = append(c.lifted, st)
unfoldable pub lift_call : FuncCall → Cluster → Cluster
lift_call st c = record c { lifted = c.lifted ++ st ∷ [] }

unfoldable pub add_pair : ℕ → Cluster → Cluster
add_pair i c = record c { pair_idx = c.pair_idx ++ i ∷ [] }

unfoldable pub add_inline : ℕ → Cluster → Cluster
add_inline j c = record c { inline_idx = c.inline_idx ++ j ∷ [] }

-- The body of the loop over the pairs.
unfoldable pub put_pair : ℕ → Plan → Option ℕ × List Cluster → Plan
unfolding add_pair change_at
put_pair i p (some n, clusters) = record p { clusters = change_at (add_pair i) n clusters }
put_pair i p (none, clusters) = record p {
  clusters = clusters;
  split_pairs = p.split_pairs ++ i ∷ [];
}

unfoldable pub put_inline : ℕ → Plan → Option ℕ × List Cluster → Plan
unfolding add_inline change_at
put_inline j p (some n, clusters) = record p { clusters = change_at (add_inline j) n clusters }
put_inline j p (none, clusters) = record p {
  clusters = clusters;
  split_inline = p.split_inline ++ j ∷ [];
}

-- The stable sort: the clusters whose key is not empty, then the others.
unfoldable pub keyed : List Cluster → List Cluster
keyed [] = []
keyed (c ∷ clusters) = let rest = keyed clusters in if c.key == [] then rest else c ∷ rest

unfoldable pub keyless : List Cluster → List Cluster
keyless [] = []
keyless (c ∷ clusters) = let rest = keyless clusters in if c.key == [] then c ∷ rest else rest

unfoldable pub sort_clusters : Plan → Plan
unfolding keyed keyless
sort_clusters p = record p { clusters = keyed p.clusters ++ keyless p.clusters }

module _ (e : Emitter) (modifies : FuncCall → Bool) where
  -- clusterFor
  unfoldable pub cluster_for : List Text → List Cluster → ℕ × List Cluster
  unfolding found_or_new new_cluster cluster_key place is_regular
  cluster_for tables clusters =
      let key = cluster_key e tables in
      found_or_new (place (is_regular key) clusters) (new_cluster key tables none) clusters

  -- The new cluster of calcClusterFor.
  unfoldable pub context_cluster : FuncCall → List Text → List Cluster → Cluster
  unfolding new_cluster cluster_key count_contexts digits
  context_cluster fc tables clusters =
      let n = count_contexts clusters in
      new_cluster (cluster_key e tables ++ 0 ∷ codes "__calc" ++ digits (suc n) n) tables (some fc)

  -- calcClusterFor
  unfoldable pub calc_cluster_for : FuncCall → List Cluster → Option (ℕ × List Cluster)
  unfolding found_or_new context_cluster place is_context
  calc_cluster_for fc clusters = elim (place (is_context fc) clusters) [
    | some n ↦ some (n, clusters)
    | none ↦ measure_expr_tables e (expr_of_func fc) >>= λ tables.
        some (found_or_new none (context_cluster fc tables clusters) clusters)
  ]

  -- isCtx[st] of a subtree, where liftContext is `lift`
  unfoldable pub is_ctx : Bool → FuncCall → Bool
  is_ctx lift st = lift && modifies st

  -- The keys of `distinct`.
  unfoldable pub distinct_keys : List FuncCall → List Text → Option (List Text)
  unfolding cluster_key
  distinct_keys [] keys = some keys
  distinct_keys (st ∷ subtrees) keys = measure_expr_tables e (expr_of_func st) >>= λ tables.
      let key = cluster_key e tables in
      distinct_keys subtrees (if mem key keys then keys else key ∷ keys)

  -- The body of the loop at the end of assign.
  unfoldable pub lift_one : Bool → FuncCall → List Cluster → Option (List Cluster)
  unfolding is_ctx calc_cluster_for cluster_for change_at lift_call
  lift_one lift st clusters =
      if is_ctx lift st
      then (calc_cluster_for st clusters >>= λ r. some r.1)
      else (measure_expr_tables e (expr_of_func st) >>= λ tables.
          let r = cluster_for tables clusters in some (change_at (lift_call st) r.0 r.1))

  unfoldable pub lift_all : Bool → List FuncCall → List Cluster → Option (List Cluster)
  unfolding lift_one
  lift_all lift [] clusters = some clusters
  lift_all lift (st ∷ subtrees) clusters =
      lift_one lift st clusters >>= λ clusters'. lift_all lift subtrees clusters'

  -- len(isCtx) == 0 and len(distinct) <= 1
  unfoldable pub is_whole : Bool → List FuncCall → Option Bool
  unfolding is_ctx distinct_keys
  is_whole lift subtrees =
      if any (is_ctx lift) subtrees
      then some false
      else Option.map (λ keys. ltb (length keys) 2) (distinct_keys subtrees [])

  -- assign: the place of the home cluster, or none where the expression is split
  unfoldable pub assign : Bool → Expr → List Cluster → Option (Option ℕ × List Cluster)
  unfolding is_whole lift_all cluster_for
  assign lift ex clusters = agg_subtrees e ex >>= λ subtrees. is_whole lift subtrees >>= λ whole.
      if whole
      then (measure_expr_tables e ex >>= λ tables.
          let r = cluster_for tables clusters in some (some r.0, r.1))
      else (lift_all lift subtrees clusters >>= λ clusters'. some (none, clusters'))

  -- The loop over the pairs; an argument without a partner at the end is left.
  unfoldable pub plan_pairs : Bool → ℕ → List Expr → Plan → Option Plan
  unfolding assign put_pair
  plan_pairs lift i (name ∷ value ∷ args) p =
      assign lift value p.clusters >>= λ r. plan_pairs lift (2 + i) args (put_pair i p r)
  plan_pairs lift i (name ∷ []) p = some p
  plan_pairs lift i [] p = some p

  unfoldable pub plan_inline : Bool → ℕ → List Expr → Plan → Option Plan
  unfolding assign put_inline
  plan_inline lift j [] p = some p
  plan_inline lift j (ex ∷ args) p =
      assign lift ex p.clusters >>= λ r. plan_inline lift (suc j) args (put_inline j p r)

  -- planMeasures; `modifies` is contextModifying
  unfoldable pub plan_measures : List Expr → List Expr → Bool → Option Plan
  unfolding plan_pairs plan_inline sort_clusters
  plan_measures pair_args inline_args lift =
      plan_pairs lift 0 pair_args (record { clusters = []; split_pairs = []; split_inline = [] })
      >>= λ p. plan_inline lift 0 inline_args p >>= λ q. some (sort_clusters q)

-- tableClusterCount
unfoldable pub table_cluster_count : List Cluster → ℕ
table_cluster_count [] = 0
table_cluster_count (c ∷ clusters) =
    let rest = table_cluster_count clusters in if c.key == [] then rest else suc rest

unfoldable pub is_calc : Cluster → Bool
is_calc c = elim c.calc [ none ↦ false | some fc ↦ true ]

-- hasContextClusters
unfoldable pub has_context_clusters : Plan → Bool
unfolding is_calc
has_context_clusters p = any is_calc p.clusters

-- regularTableClusterCount
unfoldable pub regular_table_cluster_count : List Cluster → ℕ
unfolding is_calc
regular_table_cluster_count [] = 0
regular_table_cluster_count (c ∷ clusters) =
    let rest = regular_table_cluster_count clusters in
    if not (c.key == []) && not (is_calc c) then suc rest else rest
