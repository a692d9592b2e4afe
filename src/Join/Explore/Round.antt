-- ===== src/Join/Explore/Round.antt =====
-- One pass over the relationships (semantic/join.go).
use mathlib.Core.List.Memᴰ
use dux.Base.{
  ℕ, suc, ◌+◌, ◌≤◌, Bool, true, false, Option, some, List, [], ◌∷◌, ◌++◌, Text, mem, if◌then◌else◌,
  ◌≡◌, refl, ap, Memᴰ, Memᴰ-concat, arith, ◌⊎◌, inl, inr, ◌==◌, eq_iff, eq_refl, Option-cases,
  Bool-cases, length, length-append, ◌||◌,
}
use dux.Schema.{Relationship}
use dux.Join.Explore.{hit, more, scan}

-- The keys of `universe` that are not visited.
abbrev pub unseen : List Text → List Text → ℕ
unseen [] visited = 0
unseen (u ∷ us) visited = if mem u visited then unseen us visited else suc (unseen us visited)

pub mem-cons : (k x : Text) (xs : List Text) → mem k (x ∷ xs) ≡ (x == k || mem k xs)
unfolding mem
mem-cons k x xs = refl

unseen-cons-le : (us visited : List Text) (k : Text) → unseen us (k ∷ visited) ≤ unseen us visited
unseen-cons-le [] visited k = omega arith
unseen-cons-le (u ∷ us) visited k =
    ground (arith, mem-cons u k visited, unseen-cons-le us visited k)

-- A key that is visited anew leaves one key less to see.
unseen-cons :
    (us visited : List Text) (k : Text)
    → mem k visited ≡ false
    → Memᴰ k us
    → suc (unseen us (k ∷ visited)) ≤ unseen us visited
unseen-cons [] visited k new m = absurd (Memᴰ.not-nil m)
unseen-cons (u ∷ us) visited k new m = elim (Memᴰ.cases_cons m) [
  | inl e ↦ ground (
    arith,
    mem-cons u k visited,
    unseen-cons-le us visited k,
    eq_iff k u,
    e,
    ap (λ x. mem x visited) e,
  )
  | inr later ↦ ground (arith, mem-cons u k visited, unseen-cons us visited k new later)
]

module _ (key : Text → Text) (is_target : Text → Bool) (next : Relationship → Option Text) where
  -- What a pass over `rels` that finds no target has done.
  pub record Scanned (rels : List Relationship) (v q v' q' : List Text) : Type 0 where
    pub grows : (k : Text) → mem k v ≡ true → mem k v' ≡ true
    pub fresh :
        (k : Text)
        → mem k v' ≡ true
        → (mem k v ≡ true)
          ⊎ ((n : Text) × (rel : Relationship) × Memᴰ n q'
              × (key n ≡ k)
              × Memᴰ rel rels
              × (next rel ≡ some n)
              × (is_target k ≡ false))
    pub kept : (c : Text) → Memᴰ c q → Memᴰ c q'
    pub queued :
        (c : Text)
        → Memᴰ c q'
        → Memᴰ c q ⊎ ((rel : Relationship) × Memᴰ rel rels × (next rel ≡ some c))
    pub covered :
        (rel : Relationship) (n : Text) → Memᴰ rel rels → next rel ≡ some n → mem (key n) v' ≡ true
    pub budget :
        (us : List Text)
        → ((rel : Relationship) (n : Text) → Memᴰ rel rels → next rel ≡ some n → Memᴰ (key n) us)
        → unseen us v' + length q' ≤ unseen us v + length q

  Scanned-nil : (v q : List Text) → Scanned [] v q v q
  Scanned-nil v q = record {
    grows = λ k m. m;
    fresh = λ k m. inl m;
    kept = λ c m. m;
    queued = λ c m. inl m;
    covered = λ rel n m e. absurd (Memᴰ.not-nil m);
    budget = λ us h. omega arith;
  }

  -- A relationship that leads nowhere, or to a visited table.
  Scanned-skip :
      (rel : Relationship) (rels : List Relationship) (v q v' q' : List Text)
      → ((n : Text) → next rel ≡ some n → mem (key n) v ≡ true)
      → Scanned rels v q v' q'
      → Scanned (rel ∷ rels) v q v' q'
  Scanned-skip rel rels v q v' q' seen s = record {
    grows = s.grows;
    fresh = λ k m. elim (s.fresh k m) [
      | inl old ↦ inl old
      | inr (n, r, a, b, c, d, e) ↦ inr (n, r, a, b, Memᴰ.tail c, d, e)
    ];
    kept = s.kept;
    queued =
        λ c m. elim (s.queued c m) [ inl old ↦ inl old | inr (r, a, b) ↦ inr (r, Memᴰ.tail a, b) ];
    covered = λ r n m e. elim (Memᴰ.cases_cons m) [
      | inl this ↦ s.grows (key n) (seen n (rw (← this) e))
      | inr later ↦ s.covered r n later e
    ];
    budget = λ us h. s.budget us (λ r n m e. h r n (Memᴰ.tail m) e);
  }

  -- A relationship that leads to a new table.
  Scanned-enter :
      (rel : Relationship) (rels : List Relationship) (v q v' q' : List Text) (n : Text)
      → next rel ≡ some n
      → mem (key n) v ≡ false
      → is_target (key n) ≡ false
      → Scanned rels (key n ∷ v) (q ++ n ∷ []) v' q'
      → Scanned (rel ∷ rels) v q v' q'
  Scanned-enter rel rels v q v' q' n leads new plain s =
      let entered : mem (key n) (key n ∷ v) ≡ true =
        ground (arith, mem-cons (key n) (key n) v, eq_refl (key n)) in
      let waits : Memᴰ n q' = s.kept n ((Memᴰ-concat n n q).1 (inr refl)) in
      record {
        grows = λ k m. s.grows k (ground (arith, mem-cons k (key n) v));
        fresh = λ k m. elim (s.fresh k m) [
          | inl old ↦ elim (Bool-cases (key n == k)) [
            | inl this ↦
                let same : key n ≡ k = (eq_iff (key n) k).0 this in
                inr (n, rel, waits, same, Memᴰ.head refl, leads, rw (← same) plain)
            | inr other ↦ inl (ground (arith, mem-cons k (key n) v))
          ]
          | inr (x, r, a, b, c, d, e) ↦ inr (x, r, a, b, Memᴰ.tail c, d, e)
        ];
        kept = λ c m. s.kept c ((Memᴰ-concat c n q).1 (inl m));
        queued = λ c m. elim (s.queued c m) [
          | inl old ↦ elim ((Memᴰ-concat c n q).0 old) [
            | inl before ↦ inl before
            | inr this ↦ inr (rel, Memᴰ.head refl, rw this leads)
          ]
          | inr (r, a, b) ↦ inr (r, Memᴰ.tail a, b)
        ];
        covered = λ r x m e. elim (Memᴰ.cases_cons m) [
          | inl this ↦
              let same : x ≡ n = ground (arith, ap next this) in rw same (s.grows (key n) entered)
          | inr later ↦ s.covered r x later e
        ];
        budget = λ us h. omega (
          arith,
          s.budget us (λ r x m e. h r x (Memᴰ.tail m) e),
          length-append q (n ∷ []),
          unseen-cons us v (key n) new (h rel n (Memᴰ.head refl) leads),
        );
      }

  -- A pass over the relationships that does not end the loop.
  pub scan-Scanned :
      (rels : List Relationship) (v q v' q' : List Text)
      → scan key is_target next rels v q ≡ more v' q'
      → Scanned rels v q v' q'
  unfolding scan
  scan-Scanned [] v q v' q' h =
      let same_v : v ≡ v' = cc in
      let same_q : q ≡ q' = cc in rw (← same_v, ← same_q) (Scanned-nil v q)
  scan-Scanned (rel ∷ rels) v q v' q' h = elim (Option-cases (next rel)) [
    | inl e ↦
        Scanned-skip rel rels v q v' q' (λ n f. cc) (scan-Scanned rels v q v' q' (ground arith))
    | inr (n, e) ↦ elim (Bool-cases (mem (key n) v)) [
      | inl old ↦
          Scanned-skip rel rels v q v' q' (λ x f. ground (arith))
            (scan-Scanned rels v q v' q' (ground arith))
      | inr new ↦ elim (Bool-cases (is_target (key n))) [
        | inl target ↦ absurd (ground arith)
        | inr plain ↦
            Scanned-enter rel rels v q v' q' n e new plain
              (scan-Scanned rels (key n ∷ v) (q ++ n ∷ []) v' q' (ground arith))
      ]
    ]
  ]

  -- A pass that ends the loop has found a relationship that leads to a target.
  pub scan-hit :
      (rels : List Relationship) (v q : List Text)
      → scan key is_target next rels v q ≡ hit
      → (rel : Relationship) × (n : Text) × Memᴰ rel rels
        × (next rel ≡ some n)
        × (is_target (key n) ≡ true)
  unfolding scan
  scan-hit [] v q h = cc
  scan-hit (rel ∷ rels) v q h = elim (Option-cases (next rel)) [
    | inl e ↦ let (r, x, m, f, t) = scan-hit rels v q (ground arith) in (r, x, Memᴰ.tail m, f, t)
    | inr (n, e) ↦ elim (Bool-cases (mem (key n) v)) [
      | inl old ↦
          let (r, x, m, f, t) = scan-hit rels v q (ground arith) in (r, x, Memᴰ.tail m, f, t)
      | inr new ↦ elim (Bool-cases (is_target (key n))) [
        | inl target ↦ (rel, n, Memᴰ.head refl, e, target)
        | inr plain ↦
            let (r, x, m, f, t) = scan-hit rels (key n ∷ v) (q ++ n ∷ []) (ground arith) in
            (r, x, Memᴰ.tail m, f, t)
      ]
    ]
  ]
