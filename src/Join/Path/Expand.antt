-- ===== src/Join/Path/Expand.antt =====
-- The loop over the relationships of one state (semantic/join.go): what a successful expansion at
-- depth `c` keeps, and that it covers every relationship.
use mathlib.Core.List.Memᴰ
use dux.Base.{
  ℕ, suc, ◌≤◌, true, false, none, some, List, [], ◌∷◌, ◌++◌, Text, to_lower, lookup, insert, length,
  length-append, lookup-insert, ◌≡◌, refl, ◌∙◌, ap, Memᴰ, Memᴰ-concat, arith, ◌⊎◌, inl, inr,
  Option-cases, Bool-cases, eq_iff, ◌==◌, eq_refl, subst, if◌then◌else◌,
}
use dux.Result.{ok, Result-cases, ok-injective}
use dux.Schema.{Schema, Relationship}
use dux.Join.{JoinStep, table_names_match}
use dux.Join.Path.{SearchState, Frontier, Hop, step_to, is_worse, follow, expand}
use dux.Join.Path.Chain.{Leads, Leads-unique}
use dux.Join.Path.Pass.{
  Layered-snoc, steps_to, Followed, follow-Followed, Mid, Grew, Grew-refl, Grew-trans, Covered,
  Covered-Grew, FoundWithin,
}

module _ (schema : Schema) (first to : Text) (curr : SearchState) where
  abbrev deeper : Relationship → Hop → Text → List JoinStep
  deeper rel hop next = steps_to curr rel hop next

  length-deeper :
      (rel : Relationship) (hop : Hop) (next : Text)
      → length (deeper rel hop next) ≡ suc (length curr.steps)
  length-deeper rel hop next =
      omega (arith, length-append curr.steps (step_to curr.table rel hop next ∷ []))

  module _ (c : ℕ) (depth : length curr.steps ≡ c) where
    -- A table that is not worse has no depth yet, or this depth.
    at_depth :
        (fr : Frontier) (rel : Relationship) (hop : Hop) (next : Text)
        → Mid schema first to c fr
        → is_worse (lookup (to_lower next) fr.best_depth) (length (deeper rel hop next)) ≡ false
        → (lookup (to_lower next) fr.best_depth ≡ none)
          ⊎ (lookup (to_lower next) fr.best_depth ≡ some (suc c))
    unfolding is_worse
    at_depth fr rel hop next mid w = elim (Option-cases (lookup (to_lower next) fr.best_depth)) [
      | inl e ↦ inl e
      | inr (d, e) ↦
          let deep = length-deeper rel hop next in
          let le = mid.bounded (to_lower next) d e in inr (e ∙ ap some (ground arith))
    ]

    abbrev enter : Frontier → Relationship → Hop → Text → Frontier
    enter fr rel hop next = record fr {
      best_depth = insert (to_lower next) (length (deeper rel hop next)) fr.best_depth;
      queue = fr.queue ++ (record { table = next; steps = deeper rel hop next }) ∷ [];
    }

    best-enter :
        (fr : Frontier) (rel : Relationship) (hop : Hop) (next k : Text)
        → lookup k (enter fr rel hop next).best_depth
          ≡ (if to_lower next == k then some (suc c) else lookup k fr.best_depth)
    best-enter fr rel hop next k =
        lookup-insert (to_lower next) k (length (deeper rel hop next)) fr.best_depth
        ∙ ap (λ n. if to_lower next == k then some n else lookup k fr.best_depth)
            (length-deeper rel hop next ∙ ap suc depth)

    Grew-enter :
        (fr : Frontier) (rel : Relationship) (hop : Hop) (next : Text)
        → Mid schema first to c fr
        → is_worse (lookup (to_lower next) fr.best_depth) (length (deeper rel hop next)) ≡ false
        → Grew schema first to c fr (enter fr rel hop next)
    Grew-enter fr rel hop next mid w = record {
      best = λ k d e. elim (at_depth fr rel hop next mid w) [
        | inl new ↦ ground (arith, best-enter fr rel hop next k, eq_iff (to_lower next) k)
        | inr old ↦ ground (arith, best-enter fr rel hop next k, eq_iff (to_lower next) k)
      ];
      queue = λ e m. (Memᴰ-concat e _ fr.queue).1 (inl m);
      found = λ n h. h;
      fresh = λ k d e. elim (Bool-cases (to_lower next == k)) [
        | inl this ↦ inr (
          record { table = next; steps = deeper rel hop next },
          (Memᴰ-concat _ _ fr.queue).1 (inr refl),
          (eq_iff (to_lower next) k).0 this,
          ground (arith, best-enter fr rel hop next k),
        )
        | inr other ↦ inl (ground (arith, best-enter fr rel hop next k))
      ];
    }

    Mid-enter :
        (fr : Frontier) (rel : Relationship) (hop : Hop) (next : Text)
        → Mid schema first to c fr
        → is_worse (lookup (to_lower next) fr.best_depth) (length (deeper rel hop next)) ≡ false
        → Mid schema first to c (enter fr rel hop next)
    Mid-enter fr rel hop next mid w =
        let deep : length (deeper rel hop next) ≡ suc c =
          length-deeper rel hop next ∙ ap suc depth in
        record {
          layered = Layered-snoc c fr.queue _ mid.layered deep;
          bounded = λ k d e. ground (arith, best-enter fr rel hop next k, mid.bounded k d);
          matched = λ e m. elim ((Memᴰ-concat e _ fr.queue).0 m) [
            | inl old ↦
                (Grew-enter fr rel hop next mid w).best (to_lower e.table) (length e.steps)
                  (mid.matched e old)
            | inr this ↦ rw this (
                ground (
                  arith,
                  best-enter fr rel hop next (to_lower next),
                  eq_refl (to_lower next),
                  deep,
                ))
          ];
          late = mid.late;
        }

    abbrev reach : Frontier → Relationship → Hop → Text → Frontier
    reach fr rel hop next = record fr { found = some (deeper rel hop next) }

    Grew-reach :
        (fr : Frontier) (rel : Relationship) (hop : Hop) (next : Text)
        → Mid schema first to c fr
        → Grew schema first to c fr (reach fr rel hop next)
    Grew-reach fr rel hop next mid = record {
      best = λ k d e. e;
      queue = λ e m. m;
      found = λ n (p, e, le).
          (deeper rel hop next, refl, omega (arith, mid.late p e, length-deeper rel hop next));
      fresh = λ k d e. inl e;
    }

    Mid-reach :
        (fr : Frontier) (rel : Relationship) (hop : Hop) (next : Text)
        → Mid schema first to c fr
        → Mid schema first to c (reach fr rel hop next)
    Mid-reach fr rel hop next mid = record {
      layered = mid.layered;
      bounded = mid.bounded;
      matched = mid.matched;
      late = λ p e. ground (arith, length-deeper rel hop next);
    }

    -- One relationship keeps the invariant, and what it leads to is covered.
    pub record Kept (rels : List Relationship) (fr fr' : Frontier) : Type 0 where
      pub mid : Mid schema first to c fr'
      pub grew : Grew schema first to c fr fr'
      pub covers :
          (rel : Relationship) → Memᴰ rel rels → Covered schema first to c curr.table rel fr'

    hit_or_other :
        (rel : Relationship) (fr : Frontier) (hop : Hop) (next : Text)
        → Leads schema curr.table rel hop next
        → (table_names_match next to ≡ true → FoundWithin schema first to (suc c) fr)
        → (table_names_match next to ≡ false
            → (d : ℕ) × (lookup (to_lower next) fr.best_depth ≡ some d) × (d ≤ suc c))
        → Covered schema first to c curr.table rel fr
    hit_or_other rel fr hop next l h o = record {
      hit = λ hop' next' l' m. h (rw ((Leads-unique schema l l').1) m);
      other = λ hop' next' l' m.
          let same = (Leads-unique schema l l').1 in
          let (d, e, le) = o (rw same m) in (d, rw (← same) e, le);
    }

    worse_depth :
        (fr : Frontier) (next : Text) (n : ℕ)
        → is_worse (lookup (to_lower next) fr.best_depth) n ≡ true
        → n ≡ suc c
        → (d : ℕ) × (lookup (to_lower next) fr.best_depth ≡ some d) × (d ≤ suc c)
    unfolding is_worse
    worse_depth fr next n w e = elim (Option-cases (lookup (to_lower next) fr.best_depth)) [
      | inl missing ↦ absurd (ground arith)
      | inr (d, held) ↦ (d, held, ground arith)
    ]

    Followed-Kept :
        (rel : Relationship) (fr fr' : Frontier)
        → Mid schema first to c fr
        → Followed schema first to curr rel fr fr'
        → (Mid schema first to c fr')
          × Grew schema first to c fr fr'
          × Covered schema first to c curr.table rel fr'
    Followed-Kept rel fr fr' mid (Followed.idle e) = (
      mid,
      Grew-refl schema first to c fr,
      record {
        hit = λ hop next l m. absurd (let t = l.turns in cc);
        other = λ hop next l m. absurd (let t = l.turns in cc);
      },
    )
    Followed-Kept rel fr fr' mid (Followed.reached hop next l m fine) = (
      Mid-reach fr rel hop next mid,
      Grew-reach fr rel hop next mid,
      hit_or_other rel _ hop next l
          (λ _. (deeper rel hop next, refl, omega (arith, length-deeper rel hop next))) (λ n. cc),
    )
    Followed-Kept rel fr fr' mid (Followed.worse hop next l m w) = (
      mid,
      Grew-refl schema first to c fr,
      hit_or_other rel fr hop next l (λ n. cc)
          (λ _. worse_depth fr next _ w (length-deeper rel hop next ∙ ap suc depth)),
    )
    Followed-Kept rel fr fr' mid (Followed.entered hop next l m w) = (
      Mid-enter fr rel hop next mid w,
      Grew-enter fr rel hop next mid w,
      hit_or_other rel _ hop next l (λ n. cc)
          (λ _. (
            suc c,
            ground (arith, best-enter fr rel hop next (to_lower next), eq_refl (to_lower next)),
            omega arith,
          )),
    )

    -- An expansion that succeeds keeps the invariant and covers every relationship.
    pub expand-Kept :
        (rels : List Relationship) (fr fr' : Frontier)
        → Mid schema first to c fr
        → expand schema first to curr rels fr ≡ ok fr'
        → Kept rels fr fr'
    unfolding expand
    expand-Kept [] fr fr' mid h =
        let same : fr ≡ fr' = ok-injective h in
        subst (Kept [] fr) same (record {
          mid = mid;
          grew = Grew-refl schema first to c fr;
          covers = λ rel m. absurd (Memᴰ.not-nil m);
        })
    expand-Kept (rel ∷ rels) fr fr' mid h =
        elim (Result-cases (follow schema first to curr rel fr)) [
          | inr (e, f) ↦ absurd (ground arith)
          | inl (fr1, f) ↦
              let (mid1, grew1, cover1) =
                Followed-Kept rel fr fr1 mid (follow-Followed schema first to curr rel fr fr1 f) in
              let later = expand-Kept rels fr1 fr' mid1 (ground arith) in
              record {
                mid = later.mid;
                grew = Grew-trans schema first to c fr fr1 fr' grew1 later.grew;
                covers = λ r m. elim (Memᴰ.cases_cons m) [
                  | inl this ↦
                      rw this
                        (Covered-Grew schema first to c c curr.table rel fr1 fr' later.grew cover1)
                  | inr rest ↦ later.covers r rest
                ];
              }
        ]
