-- ===== src/Emitter/Plan/Filed.antt =====
-- What a cluster holds (emitter/cluster.go): a measure or an aggregate stands in the cluster whose
-- key is that of the tables it reads.
use dux.Base.{
  ℕ, zero, suc, Bool, true, Option, none, some, List, [], ◌∷◌, ◌++◌, Text, ◌==◌, eq_iff, length,
  ◌≡◌, refl, sym, subst, ◌⊎◌, inl, inr, Bool-cases, Option-cases, bind-some, some-injective, All,
  arith,
}
use dux.Ast.{Expr, FuncCall}
use dux.Emitter.{Emitter, expr_of_func}
use dux.Emitter.Tables.{measure_expr_tables}
use dux.Emitter.Plan.{
  Cluster, cluster_key, place, is_regular, is_context, change_at, new_cluster, context_cluster,
  found_or_new, cluster_for, calc_cluster_for, is_ctx, lift_call, lift_one, lift_all, keyed,
  keyless,
}

-- The tables of the expression have the key.
unfoldable pub ReadsKey : Emitter → Expr → Text → Type 0
ReadsKey e ex key =
    (tables : List Text) × (measure_expr_tables e ex ≡ some tables) × (cluster_key e tables ≡ key)

pub All-concat {ℓ κ} :
    {A : Type ℓ} (P : A → Type κ) (xs : List A) (x : A) → All P xs → P x → All P (xs ++ x ∷ [])
All-concat P [] x h p = (p, tt)
All-concat P (y ∷ ys) x (h, hs) p = (h, All-concat P ys x hs p)

-- The cluster at the place passes the test.
unfoldable pub IsAt : (Cluster → Bool) → ℕ → List Cluster → Type 0
IsAt test n [] = ⊥
IsAt test zero (c ∷ cs) = test c ≡ true
IsAt test (suc n) (c ∷ cs) = IsAt test n cs

IsAt-end :
    (test : Cluster → Bool) (c : Cluster) (cs : List Cluster)
    → test c ≡ true
    → IsAt test (length cs) (cs ++ c ∷ [])
unfolding IsAt
IsAt-end test c [] h = h
IsAt-end test c (d ∷ cs) h = IsAt-end test c cs h

IsAt-place :
    (test : Cluster → Bool) (cs : List Cluster) (n : ℕ) → place test cs ≡ some n → IsAt test n cs
unfolding IsAt place
IsAt-place test [] n h = absurd (ground arith)
IsAt-place test (c ∷ cs) n h = elim (Bool-cases (test c)) [
  | inl here ↦ (let z : 0 ≡ n = ground arith in subst (λ m. IsAt test m (c ∷ cs)) z here)
  | inr later ↦ elim (Option-cases (place test cs)) [
    | inl nowhere ↦ absurd (ground arith)
    | inr (m, at) ↦
        let q : suc m ≡ n = ground arith in
        subst (λ m. IsAt test m (c ∷ cs)) q (IsAt-place test cs m at)
  ]
]

IsAt-found :
    (test : Cluster → Bool) (c : Cluster) (cs : List Cluster)
    → test c ≡ true
    → IsAt test (found_or_new (place test cs) c cs).0 (found_or_new (place test cs) c cs).1
unfolding found_or_new
IsAt-found test c cs h = elim (Option-cases (place test cs)) [
  | inl new ↦ rw new (IsAt-end test c cs h)
  | inr (n, at) ↦ rw at (IsAt-place test cs n at)
]

module _ (P : Cluster → Type 0) where
  pub change_at-All :
      (test : Cluster → Bool) (f : Cluster → Cluster) (n : ℕ) (cs : List Cluster)
      → ((c : Cluster) → test c ≡ true → P c → P (f c))
      → IsAt test n cs
      → All P cs
      → All P (change_at f n cs)
  unfolding IsAt change_at
  change_at-All test f n [] go at h = tt
  change_at-All test f zero (c ∷ cs) go at (h, hs) = (go c at h, hs)
  change_at-All test f (suc n) (c ∷ cs) go at (h, hs) = (h, change_at-All test f n cs go at hs)

  found_or_new-All :
      (o : Option ℕ) (c : Cluster) (cs : List Cluster)
      → P c
      → All P cs
      → All P (found_or_new o c cs).1
  unfolding found_or_new
  found_or_new-All (some n) c cs p h = h
  found_or_new-All none c cs p h = All-concat P cs c h p

  pub All-keyed : (cs : List Cluster) → All P cs → All P (keyed cs)
  unfolding keyed
  All-keyed [] h = tt
  All-keyed (c ∷ cs) (h, hs) = elim (Bool-cases (c.key == [])) [
    | inl empty ↦ rw empty (All-keyed cs hs)
    | inr full ↦ rw full (h, All-keyed cs hs)
  ]

  pub All-keyless : (cs : List Cluster) → All P cs → All P (keyless cs)
  unfolding keyless
  All-keyless [] h = tt
  All-keyless (c ∷ cs) (h, hs) = elim (Bool-cases (c.key == [])) [
    | inl empty ↦ rw empty (h, All-keyless cs hs)
    | inr full ↦ rw full (All-keyless cs hs)
  ]

pub is_regular-key :
    (key : Text) (c : Cluster) → is_regular key c ≡ true → (c.calc ≡ none) × (c.key ≡ key)
unfolding is_regular
is_regular-key key c h = elim (Option-cases c.calc) [
  | inl plain ↦ (plain, (eq_iff c.key key).0 (ground arith))
  | inr (fc, context) ↦ absurd (ground arith)
]

module _ (e : Emitter) (modifies : FuncCall → Bool)
    (PairReads InlineReads : ℕ → Text → Type 0) where
  -- What the cluster holds reads its tables, and a context cluster holds nothing but its call.
  unfoldable pub IsFiled : Cluster → Type 0
  unfolding ReadsKey
  IsFiled c =
      All (λ i. PairReads i c.key) c.pair_idx
      × All (λ j. InlineReads j c.key) c.inline_idx
      × All (λ st. ReadsKey e (expr_of_func st) c.key) c.lifted
      × ((c.calc ≡ none) ⊎ ((c.pair_idx ≡ []) × (c.inline_idx ≡ []) × (c.lifted ≡ [])))

  unfoldable pub AreFiled : List Cluster → Type 0
  AreFiled = All IsFiled

  new_cluster-IsFiled :
      (key : Text) (tables : List Text) (calc : Option FuncCall)
      → IsFiled (new_cluster key tables calc)
  unfolding IsFiled new_cluster
  new_cluster-IsFiled key tables calc = (tt, tt, tt, inr (refl, refl, refl))

  pub cluster_for-AreFiled :
      (tables : List Text) (cs : List Cluster)
      → AreFiled cs
      → AreFiled (cluster_for e modifies tables cs).1
        × IsAt
            (is_regular (cluster_key e tables))
            (cluster_for e modifies tables cs).0
            (cluster_for e modifies tables cs).1
  unfolding cluster_for AreFiled
  cluster_for-AreFiled tables cs h =
      let key = cluster_key e tables in
      (
        found_or_new-All IsFiled (place (is_regular key) cs) (new_cluster key tables none) cs
            (new_cluster-IsFiled key tables none) h,
        IsAt-found (is_regular key) (new_cluster key tables none) cs
            (unfold is_regular in unfold new_cluster in ((eq_iff key key).1 refl)),
      )

  calc_cluster_for-AreFiled :
      (fc : FuncCall) (cs : List Cluster) (r : ℕ × List Cluster)
      → calc_cluster_for e modifies fc cs ≡ some r
      → AreFiled cs
      → AreFiled r.1
  unfolding calc_cluster_for AreFiled
  calc_cluster_for-AreFiled fc cs r h filed = elim (Option-cases (place (is_context fc) cs)) [
    | inr (n, known) ↦
        (let same : (n, cs) ≡ r = ground arith in subst (λ q. AreFiled q.1) same filed)
    | inl new ↦
        let (tables, held, made) =
          bind-some (measure_expr_tables e (expr_of_func fc))
            (λ tables. some (found_or_new none (context_cluster e modifies fc tables cs) cs)) r
            (ground arith) in
        subst (λ q. AreFiled q.1) (some-injective made)
          (found_or_new-All IsFiled none _ cs
            (unfold context_cluster in new_cluster-IsFiled _ tables (some fc)) filed)
  ]

  -- An aggregate that is lifted into the cluster of its tables.
  lift_call-IsFiled :
      (st : FuncCall) (tables : List Text) (c : Cluster)
      → measure_expr_tables e (expr_of_func st) ≡ some tables
      → is_regular (cluster_key e tables) c ≡ true
      → IsFiled c
      → IsFiled (lift_call st c)
  unfolding IsFiled lift_call ReadsKey
  lift_call-IsFiled st tables c reads at (pairs, inlines, lifted, alone) =
      let (plain, same) = is_regular-key (cluster_key e tables) c at in
      (
        pairs,
        inlines,
        All-concat (λ x. ReadsKey e (expr_of_func x) c.key) c.lifted st lifted
            (tables, reads, sym same),
        inl plain,
      )

  lift_one-AreFiled :
      (lift : Bool) (st : FuncCall) (cs cs' : List Cluster)
      → lift_one e modifies lift st cs ≡ some cs'
      → AreFiled cs
      → AreFiled cs'
  unfolding lift_one
  lift_one-AreFiled lift st cs cs' h filed = elim (Bool-cases (is_ctx e modifies lift st)) [
    | inl context ↦
        let (r, held, made) =
          bind-some (calc_cluster_for e modifies st cs) (λ r. some r.1) cs' (ground arith) in
        subst AreFiled (some-injective made) (calc_cluster_for-AreFiled st cs r held filed)
    | inr plain ↦
        let (tables, held, made) =
          bind-some (measure_expr_tables e (expr_of_func st))
            (λ tables.
              (let r = cluster_for e modifies tables cs in some (change_at (lift_call st) r.0 r.1)))
            cs' (ground arith) in
        let r = cluster_for e modifies tables cs in
        let (kept, at) = cluster_for-AreFiled tables cs filed in
        subst AreFiled (some-injective made) (
          unfold AreFiled in
          change_at-All IsFiled (is_regular (cluster_key e tables)) (lift_call st) r.0 r.1
            (λ c here p. lift_call-IsFiled st tables c held here p) at kept)
  ]

  pub lift_all-AreFiled :
      (lift : Bool) (subtrees : List FuncCall) (cs cs' : List Cluster)
      → lift_all e modifies lift subtrees cs ≡ some cs'
      → AreFiled cs
      → AreFiled cs'
  unfolding lift_all
  lift_all-AreFiled lift [] cs cs' h filed = subst AreFiled (some-injective h) filed
  lift_all-AreFiled lift (st ∷ subtrees) cs cs' h filed =
      let (mid, first, rest) = bind-some (lift_one e modifies lift st cs) _ cs' h in
      lift_all-AreFiled lift subtrees mid cs' rest (lift_one-AreFiled lift st cs mid first filed)
