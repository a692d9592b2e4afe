-- ===== src/Emitter/Plan/Keys.antt =====
-- The keys of the clusters (emitter/cluster.go): byKey gives one cluster for each.
use dux.Base.{
  ℕ, zero, suc, Bool, false, none, some, List, [], ◌∷◌, ◌++◌, Text, ◌==◌, eq_iff, ◌||◌, any, ◌≡◌,
  refl, ap, ◌∙◌, inl, inr, Bool-cases, Option-cases, arith,
}
use dux.Ast.{FuncCall}
use dux.Emitter.Plan.{Cluster, place, is_regular, change_at, new_cluster, keyed, keyless}

-- Both clusters are regular and have the same key.
unfoldable pub shares_key : Cluster → Cluster → Bool
unfolding is_regular
shares_key c d = elim c.calc [ none ↦ is_regular c.key d | some fc ↦ false ]

-- No two regular clusters have the same key.
unfoldable pub HaveOwnKeys : List Cluster → Type 0
unfolding shares_key
HaveOwnKeys [] = Unit {0}
HaveOwnKeys (c ∷ cs) = (any (shares_key c) cs ≡ false) × HaveOwnKeys cs

any-append :
    (test : Cluster → Bool) (xs ys : List Cluster)
    → any test (xs ++ ys) ≡ (any test xs || any test ys)
unfolding any
any-append test [] ys = refl
any-append test (x ∷ xs) ys = ground (arith, any-append test xs ys)

pub HaveOwnKeys-concat :
    (cs : List Cluster) (d : Cluster)
    → any (λ c. shares_key c d) cs ≡ false
    → HaveOwnKeys cs
    → HaveOwnKeys (cs ++ d ∷ [])
unfolding HaveOwnKeys any
HaveOwnKeys-concat [] d new h = (refl, tt)
HaveOwnKeys-concat (c ∷ cs) d new (own, h) = (
  any-append (shares_key c) cs (d ∷ []) ∙ unfold any in ground arith,
  HaveOwnKeys-concat cs d (ground arith) h,
)

pub place-any :
    (test : Cluster → Bool) (cs : List Cluster) → place test cs ≡ none → any test cs ≡ false
unfolding place any
place-any test [] h = refl
place-any test (c ∷ cs) h = elim (Bool-cases (test c)) [
  | inl here ↦ absurd (ground arith)
  | inr later ↦ elim (Option-cases (place test cs)) [
    | inl nowhere ↦ ground (arith, place-any test cs nowhere)
    | inr (n, at) ↦ absurd (ground arith)
  ]
]

-- A new regular cluster shares its key with those that byKey gives for the key.
shares_key-new :
    (key : Text) (tables : List Text) (c : Cluster)
    → is_regular key c ≡ false
    → shares_key c (new_cluster key tables none) ≡ false
unfolding shares_key is_regular new_cluster
shares_key-new key tables c h = elim (Option-cases c.calc) [
  | inl plain ↦ ground (arith, eq_iff c.key key, eq_iff key c.key)
  | inr (fc, context) ↦ ground arith
]

pub shares_key-any :
    (key : Text) (tables : List Text) (cs : List Cluster)
    → any (is_regular key) cs ≡ false
    → any (λ c. shares_key c (new_cluster key tables none)) cs ≡ false
unfolding any
shares_key-any key tables [] h = refl
shares_key-any key tables (c ∷ cs) h =
    ground (
      arith,
      shares_key-new key tables c (ground arith),
      shares_key-any key tables cs (ground arith),
    )

shares_key-context :
    (c : Cluster) (key : Text) (tables : List Text) (fc : FuncCall)
    → shares_key c (new_cluster key tables (some fc)) ≡ false
unfolding shares_key is_regular new_cluster
shares_key-context c key tables fc = ground arith

pub any-context :
    (cs : List Cluster) (key : Text) (tables : List Text) (fc : FuncCall)
    → any (λ c. shares_key c (new_cluster key tables (some fc))) cs ≡ false
unfolding any
any-context [] key tables fc = refl
any-context (c ∷ cs) key tables fc =
    ground (arith, shares_key-context c key tables fc, any-context cs key tables fc)

-- A change that leaves the key and the call.
unfoldable pub Keeps : (Cluster → Cluster) → Type 0
Keeps f = (c : Cluster) → ((f c).key ≡ c.key) × ((f c).calc ≡ c.calc)

shares_key-Keeps :
    (f : Cluster → Cluster) (c d : Cluster)
    → Keeps f
    → (shares_key c (f d) ≡ shares_key c d) × (shares_key (f c) d ≡ shares_key c d)
unfolding shares_key is_regular Keeps
shares_key-Keeps f c d keeps =
    let (k, q) = keeps c in let (k', q') = keeps d in (rw (k', q') refl, rw (k, q) refl)

any-change_at :
    (f : Cluster → Cluster) (c : Cluster) (n : ℕ) (cs : List Cluster)
    → Keeps f
    → any (shares_key c) (change_at f n cs) ≡ any (shares_key c) cs
unfolding any change_at
any-change_at f c n [] keeps = refl
any-change_at f c zero (d ∷ cs) keeps =
    ap (λ b. b || any (shares_key c) cs) (shares_key-Keeps f c d keeps).0
any-change_at f c (suc n) (d ∷ cs) keeps =
    ap (λ b. shares_key c d || b) (any-change_at f c n cs keeps)

any-changed :
    (f : Cluster → Cluster) (c : Cluster) (cs : List Cluster)
    → Keeps f
    → any (shares_key (f c)) cs ≡ any (shares_key c) cs
unfolding any
any-changed f c [] keeps = refl
any-changed f c (d ∷ cs) keeps =
    λ i. (shares_key-Keeps f c d keeps).1 i || any-changed f c cs keeps i

pub HaveOwnKeys-change_at :
    (f : Cluster → Cluster) (n : ℕ) (cs : List Cluster)
    → Keeps f
    → HaveOwnKeys cs
    → HaveOwnKeys (change_at f n cs)
unfolding HaveOwnKeys change_at
HaveOwnKeys-change_at f n [] keeps h = tt
HaveOwnKeys-change_at f zero (c ∷ cs) keeps (own, h) = (any-changed f c cs keeps ∙ own, h)
HaveOwnKeys-change_at f (suc n) (c ∷ cs) keeps (own, h) =
    (any-change_at f c n cs keeps ∙ own, HaveOwnKeys-change_at f n cs keeps h)

any-keyed :
    (test : Cluster → Bool) (cs : List Cluster)
    → any test cs ≡ false
    → (any test (keyed cs) ≡ false) × (any test (keyless cs) ≡ false)
unfolding any keyed keyless
any-keyed test [] h = (refl, refl)
any-keyed test (c ∷ cs) h =
    let (first, second) = any-keyed test cs (ground arith) in
    elim (Bool-cases (c.key == [])) [
      | inl empty ↦ (ground arith, ground arith)
      | inr full ↦ (ground arith, ground arith)
    ]

-- A cluster with a table shares its key with none that has no table.
any-keyless :
    (c : Cluster) (cs : List Cluster)
    → (c.key == []) ≡ false
    → any (shares_key c) (keyless cs) ≡ false
unfolding any keyless shares_key is_regular
any-keyless c [] full = refl
any-keyless c (d ∷ cs) full = elim (Bool-cases (d.key == [])) [
  | inr other ↦ rw other (any-keyless c cs full)
  | inl empty ↦ elim (Option-cases c.calc) [
    | inr (fc, context) ↦ ground (arith, any-keyless c cs full)
    | inl plain ↦ elim (Option-cases d.calc) [
      | inr (fc, context) ↦ ground (arith, any-keyless c cs full)
      | inl plain' ↦
          ground
            (arith, any-keyless c cs full, eq_iff c.key [], eq_iff d.key [], eq_iff d.key c.key)
    ]
  ]
]

pub HaveOwnKeys-keyless : (cs : List Cluster) → HaveOwnKeys cs → HaveOwnKeys (keyless cs)
unfolding HaveOwnKeys keyless
HaveOwnKeys-keyless [] h = tt
HaveOwnKeys-keyless (c ∷ cs) (own, h) = elim (Bool-cases (c.key == [])) [
  | inl empty ↦ rw empty ((any-keyed (shares_key c) cs own).1, HaveOwnKeys-keyless cs h)
  | inr full ↦ rw full (HaveOwnKeys-keyless cs h)
]

pub HaveOwnKeys-sort :
    (cs ds : List Cluster)
    → HaveOwnKeys cs
    → HaveOwnKeys (keyless ds)
    → HaveOwnKeys (keyed cs ++ keyless ds)
unfolding HaveOwnKeys keyed
HaveOwnKeys-sort [] ds h k = k
HaveOwnKeys-sort (c ∷ cs) ds (own, h) k = elim (Bool-cases (c.key == [])) [
  | inl empty ↦ rw empty (HaveOwnKeys-sort cs ds h k)
  | inr full ↦
      let none_there = any-append (shares_key c) (keyed cs) (keyless ds) ∙ λ i.
      (any-keyed (shares_key c) cs own).0 i || any-keyless c ds full i in
      rw full (none_there, HaveOwnKeys-sort cs ds h k)
]
