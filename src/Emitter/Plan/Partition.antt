-- ===== src/Emitter/Plan/Partition.antt =====
-- Every measure of a plan has one place (emitter/cluster.go).
use dux.Base.{
  ℕ, suc, ◌+◌, ◌%◌, Bool, Option, none, some, List, [], ◌∷◌, ◌++◌, nat_eq, ltb, leb, length, ◌&&◌,
  ◌≡◌, ◌≢◌, ◌==◌, eq_iff, All, refl, sym, ap, ◌∙◌, subst, inl, inr, Bool-cases, bind-some,
  some-injective, arith, if◌then◌else◌,
}
use dux.Ast.{Expr, FuncCall}
use dux.Emitter.{Emitter}
use dux.Emitter.Plan.{
  Cluster, Plan, new_cluster, lift_call, add_pair, add_inline, put_pair, put_inline, assign,
  plan_pairs, plan_inline, keyed, keyless, sort_clusters, plan_measures,
}
use dux.Emitter.Plan.Ends.{plan_measures-total}
use dux.Emitter.Plan.Shares.{
  times, times-append, total, change_at-same, change_at-more, sort-total, assign-total,
}

-- How often the index of a name stands in the clusters and among the split pairs.
unfoldable pub pair_times : ℕ → Plan → ℕ
unfolding times total
pair_times k p = total (λ c. c.pair_idx) k p.clusters + times k p.split_pairs

-- The same of the inline measures.
unfoldable pub inline_times : ℕ → Plan → ℕ
unfolding times total
inline_times k p = total (λ c. c.inline_idx) k p.clusters + times k p.split_inline

unfoldable one_if : Bool → ℕ
one_if b = if b then 1 else 0

module _ (e : Emitter) (modifies : FuncCall → Bool) (lift : Bool) (k : ℕ) where
  put_pair-times :
      (i : ℕ) (ex : Expr) (p : Plan) (o : Option ℕ) (cs : List Cluster)
      → assign e modifies lift ex p.clusters ≡ some (o, cs)
      → (pair_times k (put_pair i p (o, cs)) ≡ one_if (nat_eq i k) + pair_times k p)
        × (inline_times k (put_pair i p (o, cs)) ≡ inline_times k p)
  unfolding pair_times inline_times put_pair one_if times
  put_pair-times i ex p (some n) cs h =
      let (pairs, home) =
        assign-total (λ c. c.pair_idx) k e modifies (unfold new_cluster in λ _ _ _. refl)
          (unfold lift_call in λ _ _. refl) lift ex p.clusters (some n) cs h in
      let (inlines, _) =
        assign-total (λ c. c.inline_idx) k e modifies (unfold new_cluster in λ _ _ _. refl)
          (unfold lift_call in λ _ _. refl) lift ex p.clusters (some n) cs h in
      let more =
        change_at-more (λ c. c.pair_idx) k (add_pair i) i n cs (unfold add_pair in λ _. refl)
          (home n refl) in
      let same =
        change_at-same (λ c. c.inline_idx) k (add_pair i) n cs (unfold add_pair in λ _. refl) in
      (omega arith, omega arith)
  put_pair-times i ex p none cs h =
      let (pairs, _) =
        assign-total (λ c. c.pair_idx) k e modifies (unfold new_cluster in λ _ _ _. refl)
          (unfold lift_call in λ _ _. refl) lift ex p.clusters none cs h in
      let (inlines, _) =
        assign-total (λ c. c.inline_idx) k e modifies (unfold new_cluster in λ _ _ _. refl)
          (unfold lift_call in λ _ _. refl) lift ex p.clusters none cs h in
      (omega (arith, times-append k p.split_pairs (i ∷ [])), omega arith)

  put_inline-times :
      (j : ℕ) (ex : Expr) (p : Plan) (o : Option ℕ) (cs : List Cluster)
      → assign e modifies lift ex p.clusters ≡ some (o, cs)
      → (inline_times k (put_inline j p (o, cs)) ≡ one_if (nat_eq j k) + inline_times k p)
        × (pair_times k (put_inline j p (o, cs)) ≡ pair_times k p)
  unfolding pair_times inline_times put_inline one_if times
  put_inline-times j ex p (some n) cs h =
      let (pairs, home) =
        assign-total (λ c. c.pair_idx) k e modifies (unfold new_cluster in λ _ _ _. refl)
          (unfold lift_call in λ _ _. refl) lift ex p.clusters (some n) cs h in
      let (inlines, _) =
        assign-total (λ c. c.inline_idx) k e modifies (unfold new_cluster in λ _ _ _. refl)
          (unfold lift_call in λ _ _. refl) lift ex p.clusters (some n) cs h in
      let more =
        change_at-more (λ c. c.inline_idx) k (add_inline j) j n cs (unfold add_inline in λ _. refl)
          (home n refl) in
      let same =
        change_at-same (λ c. c.pair_idx) k (add_inline j) n cs (unfold add_inline in λ _. refl) in
      (omega arith, omega arith)
  put_inline-times j ex p none cs h =
      let (pairs, _) =
        assign-total (λ c. c.pair_idx) k e modifies (unfold new_cluster in λ _ _ _. refl)
          (unfold lift_call in λ _ _. refl) lift ex p.clusters none cs h in
      let (inlines, _) =
        assign-total (λ c. c.inline_idx) k e modifies (unfold new_cluster in λ _ _ _. refl)
          (unfold lift_call in λ _ _. refl) lift ex p.clusters none cs h in
      (omega (arith, times-append k p.split_inline (j ∷ [])), omega arith)

  -- The number of places of an index among the names from the index `i` on.
  unfoldable names_from : ℕ → List Expr → ℕ
  unfolding one_if
  names_from i [] = 0
  names_from i (name ∷ []) = 0
  names_from i (name ∷ value ∷ args) = one_if (nat_eq i k) + names_from (2 + i) args

  names_from-closed :
      (i : ℕ) (args : List Expr)
      → names_from i args
        ≡ one_if (leb i k && (nat_eq (k % 2) (i % 2) && ltb (suc k) (i + length args)))
  unfolding names_from one_if
  names_from-closed i [] = ground arith
  names_from-closed i (name ∷ []) = ground arith
  names_from-closed i (name ∷ value ∷ args) = ground (arith, names_from-closed (2 + i) args)

  plan_pairs-times :
      (i : ℕ) (args : List Expr) (p p' : Plan)
      → plan_pairs e modifies lift i args p ≡ some p'
      → (pair_times k p' ≡ names_from i args + pair_times k p)
        × (inline_times k p' ≡ inline_times k p)
  unfolding plan_pairs names_from
  plan_pairs-times i [] p p' h = rw (← some-injective h) (omega arith, refl)
  plan_pairs-times i (name ∷ []) p p' h = rw (← some-injective h) (omega arith, refl)
  plan_pairs-times i (name ∷ value ∷ args) p p' h =
      let ((o, cs), held, rest) = bind-some (assign e modifies lift value p.clusters) _ p' h in
      let (pairs, inlines) = put_pair-times i value p o cs held in
      let (later, same) = plan_pairs-times (2 + i) args (put_pair i p (o, cs)) p' rest in
      (omega arith, same ∙ inlines)

  inlines_from : ℕ → List Expr → ℕ
  unfolding one_if
  inlines_from j [] = 0
  inlines_from j (ex ∷ args) = one_if (nat_eq j k) + inlines_from (suc j) args

  inlines_from-closed :
      (j : ℕ) (args : List Expr) → inlines_from j args ≡ one_if (leb j k && ltb k (j + length args))
  unfolding inlines_from one_if
  inlines_from-closed j [] = ground arith
  inlines_from-closed j (ex ∷ args) = ground (arith, inlines_from-closed (suc j) args)

  plan_inline-times :
      (j : ℕ) (args : List Expr) (p p' : Plan)
      → plan_inline e modifies lift j args p ≡ some p'
      → (inline_times k p' ≡ inlines_from j args + inline_times k p)
        × (pair_times k p' ≡ pair_times k p)
  unfolding plan_inline inlines_from
  plan_inline-times j [] p p' h = rw (← some-injective h) (omega arith, refl)
  plan_inline-times j (ex ∷ args) p p' h =
      let ((o, cs), held, rest) = bind-some (assign e modifies lift ex p.clusters) _ p' h in
      let (inlines, pairs) = put_inline-times j ex p o cs held in
      let (later, same) = plan_inline-times (suc j) args (put_inline j p (o, cs)) p' rest in
      (omega arith, same ∙ pairs)

AreKeyed-keyed : (cs : List Cluster) → All (λ (c : Cluster). c.key ≢ []) (keyed cs)
unfolding keyed
AreKeyed-keyed [] = tt
AreKeyed-keyed (c ∷ cs) = elim (Bool-cases (c.key == [])) [
  | inl empty ↦ rw empty (AreKeyed-keyed cs)
  | inr full ↦
      rw full ((λ h. absurd (let yes = (eq_iff c.key []).1 h in ground arith)), AreKeyed-keyed cs)
]

AreKeyless-keyless : (cs : List Cluster) → All (λ (c : Cluster). c.key ≡ []) (keyless cs)
unfolding keyless
AreKeyless-keyless [] = tt
AreKeyless-keyless (c ∷ cs) = elim (Bool-cases (c.key == [])) [
  | inl empty ↦ rw empty ((eq_iff c.key []).0 empty, AreKeyless-keyless cs)
  | inr full ↦ rw full (AreKeyless-keyless cs)
]

-- The clusters with a table stand before those without one.
unfoldable pub IsScalarLast : List Cluster → Type 0
IsScalarLast cs =
    (xs : List Cluster) × (ys : List Cluster) × (cs ≡ xs ++ ys)
    × All (λ (c : Cluster). c.key ≢ []) xs
    × All (λ (c : Cluster). c.key ≡ []) ys

sort_clusters-times :
    (k : ℕ) (p : Plan)
    → (pair_times k (sort_clusters p) ≡ pair_times k p)
      × (inline_times k (sort_clusters p) ≡ inline_times k p)
unfolding pair_times inline_times sort_clusters
sort_clusters-times k p = (
  ap (λ m. m + times k p.split_pairs) (sort-total (λ c. c.pair_idx) k p.clusters),
  ap (λ m. m + times k p.split_inline) (sort-total (λ c. c.inline_idx) k p.clusters),
)

module _ (e : Emitter) (modifies : FuncCall → Bool) (lift : Bool) (k : ℕ)
    (pair_args inline_args : List Expr) (q r : Plan)
    (pairs : plan_pairs e modifies lift 0 pair_args
        (record { clusters = []; split_pairs = []; split_inline = [] })
      ≡ some q)
    (inlines : plan_inline e modifies lift 0 inline_args q ≡ some r) where
  plan_pair_times :
      pair_times k (sort_clusters r)
      ≡ (if nat_eq (k % 2) 0 && ltb (suc k) (length pair_args) then 1 else 0)
  unfolding pair_times one_if total times
  plan_pair_times =
      let (first, _) =
        plan_pairs-times e modifies lift k 0 pair_args
          (record { clusters = []; split_pairs = []; split_inline = [] }) q pairs in
      let (_, kept) = plan_inline-times e modifies lift k 0 inline_args q r inlines in
      ground (
        arith,
        (sort_clusters-times k r).0,
        kept,
        first,
        names_from-closed e modifies lift k 0 pair_args,
      )

  plan_inline_times :
      inline_times k (sort_clusters r) ≡ (if ltb k (length inline_args) then 1 else 0)
  unfolding inline_times one_if total times
  plan_inline_times =
      let (_, first) =
        plan_pairs-times e modifies lift k 0 pair_args
          (record { clusters = []; split_pairs = []; split_inline = [] }) q pairs in
      let (more, _) = plan_inline-times e modifies lift k 0 inline_args q r inlines in
      ground (
        arith,
        (sort_clusters-times k r).1,
        more,
        first,
        inlines_from-closed e modifies lift k 0 inline_args,
      )

-- planMeasures returns a plan, also where stored measures refer to each other in a circle. In it the
-- index of each name of a pair of arguments stands exactly once, in one cluster or among the split
-- pairs, and no other number does; so does the index of each inline measure; and the clusters that
-- read a table stand before the others. It holds for every test of which calls modify the context.
pub plan_measures-IsPartition :
    (e : Emitter) (modifies : FuncCall → Bool) (pair_args inline_args : List Expr) (lift : Bool)
    → (p : Plan) × (plan_measures e modifies pair_args inline_args lift ≡ some p)
      × ((k : ℕ)
          → (pair_times k p ≡ (if nat_eq (k % 2) 0 && ltb (suc k) (length pair_args) then 1 else 0))
            × (inline_times k p ≡ (if ltb k (length inline_args) then 1 else 0)))
      × IsScalarLast p.clusters
unfolding plan_measures IsScalarLast
plan_measures-IsPartition e modifies pair_args inline_args lift =
    let (p, made) = plan_measures-total e modifies pair_args inline_args lift in
    let start : Plan = record { clusters = []; split_pairs = []; split_inline = [] } in
    let (q, pairs, rest) =
      bind-some {B = Plan} (plan_pairs e modifies lift 0 pair_args start) _ p made in
    let (r, inlines, sorted) =
      bind-some {B = Plan} (plan_inline e modifies lift 0 inline_args q) _ p rest in
    let same : sort_clusters r ≡ p = some-injective sorted in
    (
      p,
      made,
      λ k. (
        ap (pair_times k) (sym same)
            ∙ plan_pair_times e modifies lift k pair_args inline_args q r pairs inlines,
        ap (inline_times k) (sym same)
            ∙ plan_inline_times e modifies lift k pair_args inline_args q r pairs inlines,
      ),
      subst (λ s. IsScalarLast s.clusters) same
          (unfold sort_clusters in
            (
              keyed r.clusters,
              keyless r.clusters,
              refl,
              AreKeyed-keyed r.clusters,
              AreKeyless-keyless r.clusters,
            )),
    )
