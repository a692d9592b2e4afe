-- ===== src/Emitter/Plan/Homes.antt =====
-- The clusters that planMeasures makes (emitter/cluster.go): each whole measure stands in the
-- cluster of its tables.
use dux.Base.{
  ℕ, zero, suc, ◌+◌, Bool, true, Option, none, some, List, [], ◌∷◌, ◌++◌, Text, ◌≡◌, refl, sym, ap,
  subst, inl, inr, Bool-cases, bind-some, some-injective, All, arith,
}
use dux.Ast.{Expr, FuncCall}
use dux.Emitter.{Emitter}
use dux.Emitter.Subtrees.{agg_subtrees}
use dux.Emitter.Tables.{measure_expr_tables}
use dux.Emitter.Plan.{
  Cluster, Plan, cluster_key, is_regular, cluster_for, add_pair, add_inline, put_pair, put_inline,
  lift_all, is_whole, assign, plan_pairs, plan_inline, keyed, keyless, sort_clusters, plan_measures,
}
use dux.Emitter.Plan.Keys.{HaveOwnKeys}
use dux.Emitter.Plan.Own.{plan_measures-HaveOwnKeys}
use dux.Emitter.Plan.Filed.{
  ReadsKey, All-concat, IsAt, change_at-All, All-keyed, All-keyless, is_regular-key, IsFiled,
  AreFiled, cluster_for-AreFiled, lift_all-AreFiled,
}

-- args[i], with none out of range
unfoldable pub argument : ℕ → List Expr → Option Expr
argument i [] = none
argument zero (x ∷ xs) = some x
argument (suc i) (x ∷ xs) = argument i xs

-- The measure at the index reads the key.
unfoldable pub ReadsAt : Emitter → List Expr → ℕ → Text → Type 0
unfolding ReadsKey argument
ReadsAt e args i key = (ex : Expr) × (argument i args ≡ some ex) × ReadsKey e ex key

All-append {ℓ κ} :
    {A : Type ℓ} (P : A → Type κ) (xs ys : List A) → All P xs → All P ys → All P (xs ++ ys)
All-append P [] ys h k = k
All-append P (x ∷ xs) ys (p, h) k = (p, All-append P xs ys h k)

module _ (e : Emitter) (modifies : FuncCall → Bool) (pair_args inline_args : List Expr) where
  PairReads : ℕ → Text → Type 0
  PairReads i key = ReadsAt e pair_args (suc i) key

  InlineReads : ℕ → Text → Type 0
  InlineReads j key = ReadsAt e inline_args j key

  Filed : List Cluster → Type 0
  Filed = AreFiled e modifies PairReads InlineReads

  -- The home cluster has the key of the expression's tables.
  IsHome : Expr → Option ℕ → List Cluster → Type 0
  unfolding ReadsKey IsAt
  IsHome ex o cs =
      (n : ℕ) → o ≡ some n → (key : Text) × ReadsKey e ex key × IsAt (is_regular key) n cs

  assign-Filed :
      (lift : Bool) (ex : Expr) (cs : List Cluster) (o : Option ℕ) (cs' : List Cluster)
      → assign e modifies lift ex cs ≡ some (o, cs')
      → Filed cs
      → Filed cs' × IsHome ex o cs'
  unfolding assign Filed IsHome ReadsKey
  assign-Filed lift ex cs o cs' h filed =
      let (subtrees, found, next) =
        bind-some {B = Option ℕ × List Cluster} (agg_subtrees e ex) _ (o, cs') h in
      let (whole, known, last) =
        bind-some {B = Option ℕ × List Cluster} (is_whole e modifies lift subtrees) _ (o, cs')
          next in
      elim (Bool-cases whole) [
        | inl home ↦
            let (tables, held, made) =
              bind-some {B = Option ℕ × List Cluster} (measure_expr_tables e ex)
                (λ tables. (let r = cluster_for e modifies tables cs in some (some r.0, r.1)))
                (o, cs') (ground arith) in
            let r = cluster_for e modifies tables cs in
            let (kept, at) =
              cluster_for-AreFiled e modifies PairReads InlineReads tables cs filed in
            subst (λ q. Filed q.1 × IsHome ex q.0 q.1) (some-injective made)
              (
                kept,
                λ n q. (
                  cluster_key e tables,
                  (tables, held, refl),
                  subst (λ m. IsAt (is_regular (cluster_key e tables)) m r.1) (some-injective q) at,
                ),
              )
        | inr split ↦
            let (cs'', held, made) =
              bind-some {B = Option ℕ × List Cluster} (lift_all e modifies lift subtrees cs)
                (λ cs''. some (none, cs'')) (o, cs') (ground arith) in
            subst (λ q. Filed q.1 × IsHome ex q.0 q.1) (some-injective made)
              (
                lift_all-AreFiled e modifies PairReads InlineReads lift subtrees cs cs'' held filed,
                λ n q. absurd (ground arith),
              )
      ]

  add_pair-IsFiled :
      (i : ℕ) (ex : Expr) (key : Text) (c : Cluster)
      → argument (suc i) pair_args ≡ some ex
      → ReadsKey e ex key
      → is_regular key c ≡ true
      → IsFiled e modifies PairReads InlineReads c
      → IsFiled e modifies PairReads InlineReads (add_pair i c)
  unfolding IsFiled add_pair PairReads ReadsAt
  add_pair-IsFiled i ex key c at reads regular (pairs, inlines, lifted, alone) =
      let (plain, same) = is_regular-key key c regular in
      (
        All-concat (λ x. ReadsAt e pair_args (suc x) c.key) c.pair_idx i pairs
            (ex, at, subst (ReadsKey e ex) (sym same) reads),
        inlines,
        lifted,
        inl plain,
      )

  add_inline-IsFiled :
      (j : ℕ) (ex : Expr) (key : Text) (c : Cluster)
      → argument j inline_args ≡ some ex
      → ReadsKey e ex key
      → is_regular key c ≡ true
      → IsFiled e modifies PairReads InlineReads c
      → IsFiled e modifies PairReads InlineReads (add_inline j c)
  unfolding IsFiled add_inline InlineReads ReadsAt
  add_inline-IsFiled j ex key c at reads regular (pairs, inlines, lifted, alone) =
      let (plain, same) = is_regular-key key c regular in
      (
        pairs,
        All-concat (λ x. ReadsAt e inline_args x c.key) c.inline_idx j inlines
            (ex, at, subst (ReadsKey e ex) (sym same) reads),
        lifted,
        inl plain,
      )

  put_pair-Filed :
      (i : ℕ) (ex : Expr) (p : Plan) (o : Option ℕ) (cs : List Cluster)
      → argument (suc i) pair_args ≡ some ex
      → Filed cs
      → IsHome ex o cs
      → Filed (put_pair i p (o, cs)).clusters
  unfolding put_pair Filed IsHome AreFiled
  put_pair-Filed i ex p none cs at filed home = filed
  put_pair-Filed i ex p (some n) cs at filed home =
      let (key, reads, here) = home n refl in
      change_at-All (IsFiled e modifies PairReads InlineReads) (is_regular key) (add_pair i) n cs
        (λ c regular held. add_pair-IsFiled i ex key c at reads regular held) here filed

  put_inline-Filed :
      (j : ℕ) (ex : Expr) (p : Plan) (o : Option ℕ) (cs : List Cluster)
      → argument j inline_args ≡ some ex
      → Filed cs
      → IsHome ex o cs
      → Filed (put_inline j p (o, cs)).clusters
  unfolding put_inline Filed IsHome AreFiled
  put_inline-Filed j ex p none cs at filed home = filed
  put_inline-Filed j ex p (some n) cs at filed home =
      let (key, reads, here) = home n refl in
      change_at-All (IsFiled e modifies PairReads InlineReads) (is_regular key) (add_inline j) n cs
        (λ c regular held. add_inline-IsFiled j ex key c at reads regular held) here filed

  -- `args` is what is left of the arguments at the index `i`.
  IsRest : List Expr → ℕ → List Expr → Type 0
  unfolding argument
  IsRest all i args = (m : ℕ) → argument (i + m) all ≡ argument m args

  plan_pairs-Filed :
      (lift : Bool) (i : ℕ) (args : List Expr) (p p' : Plan)
      → plan_pairs e modifies lift i args p ≡ some p'
      → IsRest pair_args i args
      → Filed p.clusters
      → Filed p'.clusters
  unfolding plan_pairs IsRest argument
  plan_pairs-Filed lift i [] p p' h rest filed =
      subst (λ q. Filed q.clusters) (some-injective h) filed
  plan_pairs-Filed lift i (name ∷ []) p p' h rest filed =
      subst (λ q. Filed q.clusters) (some-injective h) filed
  plan_pairs-Filed lift i (name ∷ value ∷ args) p p' h rest filed =
      let ((o, cs), held, more) = bind-some (assign e modifies lift value p.clusters) _ p' h in
      let (kept, home) = assign-Filed lift value p.clusters o cs held filed in
      let there : argument (suc i) pair_args ≡ some value =
        subst (λ m. argument m pair_args ≡ some value) (omega arith) (rest 1) in
      plan_pairs-Filed lift (2 + i) args (put_pair i p (o, cs)) p' more
        (λ m.
          subst (λ n. argument n pair_args ≡ argument m args)
            (let q : i + suc (suc m) ≡ 2 + i + m = omega arith in q) (rest (suc (suc m))))
        (put_pair-Filed i value p o cs there kept home)

  plan_inline-Filed :
      (lift : Bool) (j : ℕ) (args : List Expr) (p p' : Plan)
      → plan_inline e modifies lift j args p ≡ some p'
      → IsRest inline_args j args
      → Filed p.clusters
      → Filed p'.clusters
  unfolding plan_inline IsRest argument
  plan_inline-Filed lift j [] p p' h rest filed =
      subst (λ q. Filed q.clusters) (some-injective h) filed
  plan_inline-Filed lift j (ex ∷ args) p p' h rest filed =
      let ((o, cs), held, more) = bind-some (assign e modifies lift ex p.clusters) _ p' h in
      let (kept, home) = assign-Filed lift ex p.clusters o cs held filed in
      let there : argument j inline_args ≡ some ex =
        subst (λ m. argument m inline_args ≡ some ex) (omega arith) (rest 0) in
      plan_inline-Filed lift (suc j) args (put_inline j p (o, cs)) p' more
        (λ m.
          subst (λ n. argument n inline_args ≡ argument m args)
            (let q : j + suc m ≡ suc j + m = omega arith in q) (rest (suc m)))
        (put_inline-Filed j ex p o cs there kept home)

  sort_clusters-Filed : (p : Plan) → Filed p.clusters → Filed (sort_clusters p).clusters
  unfolding sort_clusters Filed AreFiled
  sort_clusters-Filed p filed =
      All-append (IsFiled e modifies PairReads InlineReads) (keyed p.clusters) (keyless p.clusters)
        (All-keyed (IsFiled e modifies PairReads InlineReads) p.clusters filed)
        (All-keyless (IsFiled e modifies PairReads InlineReads) p.clusters filed)

AreFiled-plan :
    (e : Emitter) (modifies : FuncCall → Bool) (pair_args inline_args : List Expr) (lift : Bool)
    (p : Plan)
    → plan_measures e modifies pair_args inline_args lift ≡ some p
    → AreFiled e modifies
        (λ i key. ReadsAt e pair_args (suc i) key)
        (λ j key. ReadsAt e inline_args j key)
        p.clusters
unfolding plan_measures Filed PairReads InlineReads
AreFiled-plan e modifies pair_args inline_args lift p h =
    let start : Plan = record { clusters = []; split_pairs = []; split_inline = [] } in
    let (q, pairs, rest) =
      bind-some {B = Plan} (plan_pairs e modifies lift 0 pair_args start) _ p h in
    let (r, inlines, sorted) =
      bind-some {B = Plan} (plan_inline e modifies lift 0 inline_args q) _ p rest in
    let first =
      plan_pairs-Filed e modifies pair_args inline_args lift 0 pair_args start q pairs
        (unfold IsRest in λ m. ap (λ n. argument n pair_args) (omega arith))
        (unfold AreFiled in tt) in
    let second =
      plan_inline-Filed e modifies pair_args inline_args lift 0 inline_args q r inlines
        (unfold IsRest in λ m. ap (λ n. argument n inline_args) (omega arith)) first in
    subst
      (λ s.
        AreFiled e modifies (λ i key. ReadsAt e pair_args (suc i) key)
          (λ j key. ReadsAt e inline_args j key) s.clusters)
      (some-injective sorted) (sort_clusters-Filed e modifies pair_args inline_args r second)

-- In a plan of planMeasures the tables of every measure that stands whole in a cluster, and of
-- every aggregate that is lifted into one, have the key of the cluster; a context cluster holds
-- nothing but its call; and no two clusters but context clusters have the same key.
pub plan_measures-AreFiled :
    (e : Emitter) (modifies : FuncCall → Bool) (pair_args inline_args : List Expr) (lift : Bool)
    (p : Plan)
    → plan_measures e modifies pair_args inline_args lift ≡ some p
    → AreFiled e modifies
        (λ i key. ReadsAt e pair_args (suc i) key)
        (λ j key. ReadsAt e inline_args j key)
        p.clusters
      × HaveOwnKeys p.clusters
plan_measures-AreFiled e modifies pair_args inline_args lift p h = (
  AreFiled-plan e modifies pair_args inline_args lift p h,
  plan_measures-HaveOwnKeys e modifies pair_args inline_args lift p h,
)
