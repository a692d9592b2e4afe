-- ===== src/Emitter/Plan/Shares.antt =====
-- How often an index stands in the clusters of a plan (emitter/cluster.go), and what the steps of
-- planMeasures do to that number.
use dux.Base.{
  ℕ, zero, suc, ◌+◌, ◌<◌, Bool, Option, none, some, List, [], ◌∷◌, ◌++◌, Text, ◌==◌, nat_eq, length,
  length-append, ◌≡◌, refl, ap, ◌∙◌, subst, inl, inr, Bool-cases, Option-cases, bind-some,
  some-injective, arith, if◌then◌else◌,
}
use dux.Ast.{Expr, FuncCall}
use dux.Emitter.{Emitter, expr_of_func}
use dux.Emitter.Subtrees.{agg_subtrees}
use dux.Emitter.Tables.{measure_expr_tables}
use dux.Emitter.Plan.{
  Cluster, cluster_key, place, is_regular, is_context, change_at, new_cluster, context_cluster,
  found_or_new, cluster_for, calc_cluster_for, is_ctx, lift_call, lift_one, lift_all, is_whole,
  assign, keyed, keyless,
}

-- How often a number stands in a list.
unfoldable pub times : ℕ → List ℕ → ℕ
times k [] = 0
times k (x ∷ xs) = (if nat_eq x k then 1 else 0) + times k xs

pub times-append : (k : ℕ) (xs ys : List ℕ) → times k (xs ++ ys) ≡ times k xs + times k ys
unfolding times
times-append k [] ys = omega arith
times-append k (x ∷ xs) ys = omega (arith, times-append k xs ys)

place-length :
    (test : Cluster → Bool) (cs : List Cluster) (n : ℕ) → place test cs ≡ some n → n < length cs
unfolding place
place-length test [] n h = absurd (ground arith)
place-length test (c ∷ cs) n h = elim (Bool-cases (test c)) [
  | inl here ↦ (let z : 0 ≡ n = ground arith in omega arith)
  | inr later ↦ elim (Option-cases (place test cs)) [
    | inl nowhere ↦ absurd (ground arith)
    | inr (m, at) ↦ let q : suc m ≡ n = ground arith in omega (arith, place-length test cs m at)
  ]
]

found_or_new-length :
    (test : Cluster → Bool) (c : Cluster) (cs : List Cluster)
    → (found_or_new (place test cs) c cs).0 < length (found_or_new (place test cs) c cs).1
unfolding found_or_new
found_or_new-length test c cs = elim (Option-cases (place test cs)) [
  | inl new ↦ rw new (omega (arith, length-append cs (c ∷ [])))
  | inr (n, at) ↦ rw at (place-length test cs n at)
]

cluster_for-length :
    (e : Emitter) (modifies : FuncCall → Bool) (tables : List Text) (cs : List Cluster)
    → (cluster_for e modifies tables cs).0 < length (cluster_for e modifies tables cs).1
unfolding cluster_for
cluster_for-length e modifies tables cs =
    found_or_new-length (is_regular (cluster_key e tables)) _ cs

-- `proj` is one of the two lists of indices of a cluster.
module _ (proj : Cluster → List ℕ) (k : ℕ) where
  -- How often the index stands in the clusters.
  unfoldable pub total : List Cluster → ℕ
  unfolding times
  total [] = 0
  total (c ∷ cs) = times k (proj c) + total cs

  total-append : (xs ys : List Cluster) → total (xs ++ ys) ≡ total xs + total ys
  unfolding total
  total-append [] ys = omega arith
  total-append (c ∷ cs) ys = omega (arith, total-append cs ys)

  pub change_at-same :
      (f : Cluster → Cluster) (n : ℕ) (cs : List Cluster)
      → ((c : Cluster) → proj (f c) ≡ proj c)
      → total (change_at f n cs) ≡ total cs
  unfolding change_at total
  change_at-same f n [] h = refl
  change_at-same f zero (c ∷ cs) h = ap (λ xs. times k xs + total cs) (h c)
  change_at-same f (suc n) (c ∷ cs) h = ap (λ m. times k (proj c) + m) (change_at-same f n cs h)

  pub change_at-more :
      (f : Cluster → Cluster) (i n : ℕ) (cs : List Cluster)
      → ((c : Cluster) → proj (f c) ≡ proj c ++ i ∷ [])
      → n < length cs
      → total (change_at f n cs) ≡ (if nat_eq i k then 1 else 0) + total cs
  unfolding change_at total times
  change_at-more f i n [] h less = absurd (omega arith)
  change_at-more f i zero (c ∷ cs) h less =
      let added : times k (proj (f c)) ≡ times k (proj c) + times k (i ∷ []) =
        ap (times k) (h c) ∙ times-append k (proj c) (i ∷ []) in
      omega arith
  change_at-more f i (suc n) (c ∷ cs) h less =
      omega (arith, change_at-more f i n cs h (omega arith))

  keyed-total : (cs : List Cluster) → total (keyed cs) + total (keyless cs) ≡ total cs
  unfolding keyed keyless total
  keyed-total [] = refl
  keyed-total (c ∷ cs) = elim (Bool-cases (c.key == [])) [
    | inl empty ↦ rw empty (omega (arith, keyed-total cs))
    | inr full ↦ rw full (omega (arith, keyed-total cs))
  ]

  pub sort-total : (cs : List Cluster) → total (keyed cs ++ keyless cs) ≡ total cs
  sort-total cs = total-append (keyed cs) (keyless cs) ∙ keyed-total cs

  found_or_new-total :
      (o : Option ℕ) (c : Cluster) (cs : List Cluster)
      → proj c ≡ []
      → total (found_or_new o c cs).1 ≡ total cs
  unfolding found_or_new total times
  found_or_new-total (some n) c cs h = refl
  found_or_new-total none c cs h =
      let zero_of : times k (proj c) ≡ 0 = ap (times k) h in omega (arith, total-append cs (c ∷ []))

  module _ (e : Emitter) (modifies : FuncCall → Bool)
      (fresh : (key : Text) (tables : List Text) (calc : Option FuncCall)
        → proj (new_cluster key tables calc) ≡ [])
      (lifting : (st : FuncCall) (c : Cluster) → proj (lift_call st c) ≡ proj c) where
    cluster_for-total :
        (tables : List Text) (cs : List Cluster)
        → total (cluster_for e modifies tables cs).1 ≡ total cs
    unfolding cluster_for
    cluster_for-total tables cs = found_or_new-total _ _ cs (fresh _ tables none)

    calc_cluster_for-total :
        (fc : FuncCall) (cs : List Cluster) (r : ℕ × List Cluster)
        → calc_cluster_for e modifies fc cs ≡ some r
        → total r.1 ≡ total cs
    unfolding calc_cluster_for context_cluster
    calc_cluster_for-total fc cs r h = elim (Option-cases (place (is_context fc) cs)) [
      | inr (n, known) ↦
          let same : (n, cs) ≡ r = ground arith in subst (λ q. total q.1 ≡ total cs) same refl
      | inl new ↦
          let (tables, held, made) =
            bind-some (measure_expr_tables e (expr_of_func fc))
              (λ tables. some (found_or_new none (context_cluster e modifies fc tables cs) cs)) r
              (ground arith) in
          subst (λ q. total q.1 ≡ total cs) (some-injective made)
            (found_or_new-total none _ cs (fresh _ tables (some fc)))
    ]

    lift_one-total :
        (lift : Bool) (st : FuncCall) (cs cs' : List Cluster)
        → lift_one e modifies lift st cs ≡ some cs'
        → total cs' ≡ total cs
    unfolding lift_one
    lift_one-total lift st cs cs' h = elim (Bool-cases (is_ctx e modifies lift st)) [
      | inl context ↦
          let (r, held, made) =
            bind-some (calc_cluster_for e modifies st cs) (λ r. some r.1) cs' (ground arith) in
          subst (λ q. total q ≡ total cs) (some-injective made)
            (calc_cluster_for-total st cs r held)
      | inr plain ↦
          let (tables, held, made) =
            bind-some (measure_expr_tables e (expr_of_func st))
              (λ tables.
                (let r = cluster_for e modifies tables cs in
                  some (change_at (lift_call st) r.0 r.1)))
              cs' (ground arith) in
          let r = cluster_for e modifies tables cs in
          subst (λ q. total q ≡ total cs) (some-injective made)
            (change_at-same (lift_call st) r.0 r.1 (lifting st) ∙ cluster_for-total tables cs)
    ]

    lift_all-total :
        (lift : Bool) (subtrees : List FuncCall) (cs cs' : List Cluster)
        → lift_all e modifies lift subtrees cs ≡ some cs'
        → total cs' ≡ total cs
    unfolding lift_all
    lift_all-total lift [] cs cs' h = subst (λ q. total q ≡ total cs) (some-injective h) refl
    lift_all-total lift (st ∷ subtrees) cs cs' h =
        let (mid, first, rest) = bind-some (lift_one e modifies lift st cs) _ cs' h in
        lift_all-total lift subtrees mid cs' rest ∙ lift_one-total lift st cs mid first

    -- assign keeps the number, and its home cluster is one of the clusters.
    pub assign-total :
        (lift : Bool) (ex : Expr) (cs : List Cluster) (o : Option ℕ) (cs' : List Cluster)
        → assign e modifies lift ex cs ≡ some (o, cs')
        → (total cs' ≡ total cs) × ((n : ℕ) → o ≡ some n → n < length cs')
    unfolding assign
    assign-total lift ex cs o cs' h =
        let (subtrees, found, next) =
          bind-some {B = Option ℕ × List Cluster} (agg_subtrees e ex) _ (o, cs') h in
        let (whole, known, last) =
          bind-some {B = Option ℕ × List Cluster} (is_whole e modifies lift subtrees) _ (o, cs')
            next in
        elim (Bool-cases whole) [
          | inl home ↦
              let (tables, held, made) =
                bind-some {B = Option ℕ × List Cluster} (measure_expr_tables e ex)
                  (λ tables. (let r = cluster_for e modifies tables cs in some (some r.0, r.1)))
                  (o, cs') (ground arith) in
              let same = some-injective made in
              subst (λ q. (total q.1 ≡ total cs) × ((n : ℕ) → q.0 ≡ some n → n < length q.1)) same
                (
                  cluster_for-total tables cs,
                  λ n q.
                      subst (λ m. m < length (cluster_for e modifies tables cs).1)
                        (some-injective q) (cluster_for-length e modifies tables cs),
                )
          | inr split ↦
              let (cs'', held, made) =
                bind-some {B = Option ℕ × List Cluster} (lift_all e modifies lift subtrees cs)
                  (λ cs''. some (none, cs'')) (o, cs') (ground arith) in
              subst (λ q. (total q.1 ≡ total cs) × ((n : ℕ) → q.0 ≡ some n → n < length q.1))
                (some-injective made)
                (lift_all-total lift subtrees cs cs'' held, λ n q. absurd (ground arith))
        ]
