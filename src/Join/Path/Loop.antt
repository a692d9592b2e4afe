-- ===== src/Join/Path/Loop.antt =====
-- The breadth-first invariant of bfsJoin (semantic/join.go).
use mathlib.Core.List.Memᴰ
use dux.Base.{
  ℕ, suc, ◌≤◌, true, false, some, List, [], ◌∷◌, Text, to_lower, lookup, length, ◌≡◌, refl, sym,
  ◌∙◌, ap, Memᴰ, arith, ◌⊎◌, inl, inr, Option-cases, Bool-cases, subst, All,
}
use dux.Result.{ok}
use dux.Schema.{Schema, Relationship}
use dux.Join.Path.{SearchState, Frontier, is_late, round}
use dux.Join.Path.Chain.{Leads-congruent}
use dux.Join.Path.Pass.{Layered, Mid, Covered, Covered-Grew, FoundWithin}
use dux.Join.Path.Expand.{Kept, expand-Kept}

pub All-Layered :
    (c : ℕ) (q : List SearchState) → All (λ (x : SearchState). length x.steps ≡ c) q → Layered c q
All-Layered c [] h = tt
All-Layered c (e ∷ q) h = inl (h.0, All-Layered c q h.1)

module _ (schema : Schema) (first to : Text) (from : List Text) where
  -- A table of depth `d` waits in the queue, is too deep to matter, or has been expanded.
  abbrev pub Explored : Frontier → Text → ℕ → Type 0
  Explored fr t d =
      ((e : SearchState) × Memᴰ e fr.queue × (to_lower e.table ≡ to_lower t))
      ⊎ FoundWithin schema first to d fr
      ⊎ ((rel : Relationship) → Memᴰ rel schema.relationships → Covered schema first to d t rel fr)

  pub record Bfs (c : ℕ) (fr : Frontier) : Type 0 where
    pub layered : Layered c fr.queue
    pub bounded : (k : Text) (d : ℕ) → lookup k fr.best_depth ≡ some d → d ≤ suc c
    pub matched :
        (e : SearchState)
        → Memᴰ e fr.queue
        → lookup (to_lower e.table) fr.best_depth ≡ some (length e.steps)
    pub explored : (t : Text) (d : ℕ) → lookup (to_lower t) fr.best_depth ≡ some d → Explored fr t d
    pub sources : (t : Text) → Memᴰ t from → lookup (to_lower t) fr.best_depth ≡ some 0

  Covered-congruent :
      (d : ℕ) (t u : Text) (rel : Relationship) (fr : Frontier)
      → to_lower t ≡ to_lower u
      → Covered schema first to d t rel fr
      → Covered schema first to d u rel fr
  Covered-congruent d t u rel fr e v = record {
    hit = λ hop next l m. v.hit hop next (Leads-congruent schema u t (sym e) l) m;
    other = λ hop next l m. v.other hop next (Leads-congruent schema u t (sym e) l) m;
  }

  Covered-queue :
      (d : ℕ) (t : Text) (rel : Relationship) (fr : Frontier) (rest : List SearchState)
      → Covered schema first to d t rel fr
      → Covered schema first to d t rel (record fr { queue = rest })
  Covered-queue d t rel fr rest v = record { hit = v.hit; other = v.other }

  -- A late state leaves the queue.
  Bfs-late :
      (c : ℕ) (curr : SearchState) (rest : List SearchState) (fr : Frontier)
      → fr.queue ≡ curr ∷ rest
      → Bfs c fr
      → Layered c rest
      → c ≡ length curr.steps
      → is_late fr.found (length curr.steps) ≡ true
      → Bfs c (record fr { queue = rest })
  unfolding is_late
  Bfs-late c curr rest fr q b layers depth late = record {
    layered = layers;
    bounded = b.bounded;
    matched = λ e m. b.matched e (rw q (Memᴰ.tail m));
    explored = λ t d e. elim (b.explored t d e) [
      | inr (inl found) ↦ inr (inl found)
      | inr (inr cover) ↦ inr (inr (λ r m. Covered-queue d t r fr rest (cover r m)))
      | inl (x, m, same) ↦ elim (Memᴰ.cases_cons (subst (Memᴰ x) q m)) [
        | inr later ↦ inl (x, later, same)
        | inl this ↦
            let at_x = b.matched x m in
            inr (
              inl (
                within d (
                  ground (
                    arith,
                    ap (λ (s : SearchState). length s.steps) this,
                    ap (λ k. lookup k fr.best_depth) same,
                  ))))
      ]
    ];
    sources = b.sources;
  }
    where
      within : (d : ℕ) → length curr.steps ≡ d → FoundWithin schema first to d fr
      within d e = elim (Option-cases fr.found) [
        | inl missing ↦ absurd (ground arith)
        | inr (p, found) ↦ (p, found, ground arith)
      ]

  -- The state that leaves the queue is expanded.
  Bfs-expand :
      (c : ℕ) (curr : SearchState) (rest : List SearchState) (fr fr' : Frontier)
      → fr.queue ≡ curr ∷ rest
      → Bfs c fr
      → (depth : length curr.steps ≡ c)
      → Kept schema first to curr c depth schema.relationships (record fr { queue = rest }) fr'
      → Bfs c fr'
  Bfs-expand c curr rest fr fr' q b depth k = record {
    layered = mid.layered;
    bounded = mid.bounded;
    matched = mid.matched;
    explored = λ t d e. elim (grew.fresh (to_lower t) d e) [
      | inr (x, m, same, deep) ↦ inl (x, m, same)
      | inl old ↦ elim (b.explored t d old) [
        | inr (inl near) ↦ inr (inl (grew.found d near))
        | inr (inr cover) ↦ inr (
            inr λ r m.
              Covered-Grew schema first to d c t r (record fr { queue = rest }) fr' grew
                (Covered-queue d t r fr rest (cover r m)))
        | inl (x, m, same) ↦ elim (Memᴰ.cases_cons (subst (Memᴰ x) q m)) [
          | inr later ↦ inl (x, grew.queue x later, same)
          | inl this ↦
              let at_x = b.matched x m in
              let here : c ≡ d = ground (
                arith,
                ap (λ (s : SearchState). length s.steps) this,
                ap (λ k. lookup k fr.best_depth) same,
              ) in
              let from_curr : to_lower curr.table ≡ to_lower t =
                ap (λ (s : SearchState). to_lower s.table) (sym this) ∙ same in
              inr (
                inr λ r n.
                  Covered-congruent d curr.table t r fr' from_curr
                    (subst (λ y. Covered schema first to y curr.table r fr') here (k.covers r n)))
        ]
      ]
    ];
    sources = λ t m. grew.best (to_lower t) 0 (b.sources t m);
  }
    where
      open k use {mid, grew}

  -- The invariant at the depth of the head of the queue.
  settle :
      (c : ℕ) (curr : SearchState) (rest : List SearchState) (fr : Frontier)
      → fr.queue ≡ curr ∷ rest
      → Bfs c fr
      → Layered (length curr.steps) rest × Bfs (length curr.steps) fr
  settle c curr rest fr q b = elim (subst (Layered c) q b.layered) [
    | inl (e, l) ↦ rw e (l, b)
    | inr (e, l) ↦ rw e (
      All-Layered (suc c) rest l,
      record {
        layered = rw q (inl (e, All-Layered (suc c) rest l));
        bounded = λ k d f. omega (arith, b.bounded k d f);
        matched = b.matched;
        explored = b.explored;
        sources = b.sources;
      },
    )
  ]

  Mid-early :
      (curr : SearchState) (rest : List SearchState) (fr : Frontier)
      → fr.queue ≡ curr ∷ rest
      → Bfs (length curr.steps) fr
      → Layered (length curr.steps) rest
      → is_late fr.found (length curr.steps) ≡ false
      → Mid schema first to (length curr.steps) (record fr { queue = rest })
  unfolding is_late
  Mid-early curr rest fr q b layers early = record {
    layered = layers;
    bounded = b.bounded;
    matched = λ e m. b.matched e (rw q (Memᴰ.tail m));
    late = λ p found. ground arith;
  }

  -- One round keeps the invariant, at the depth of the state that left the queue.
  pub round-Bfs :
      (c : ℕ) (curr : SearchState) (rest : List SearchState) (fr fr' : Frontier)
      → fr.queue ≡ curr ∷ rest
      → Bfs c fr
      → round schema first to curr (record fr { queue = rest }) ≡ ok fr'
      → Bfs (length curr.steps) fr'
  unfolding round
  round-Bfs c curr rest fr fr' q b h =
      let (layers, b') = settle c curr rest fr q b in
      elim (Bool-cases (is_late fr.found (length curr.steps))) [
        | inl late ↦
            subst (Bfs (length curr.steps)) (ground arith)
              (Bfs-late (length curr.steps) curr rest fr q b' layers refl late)
        | inr early ↦ Bfs-expand (length curr.steps) curr rest fr fr' q b' refl (
            expand-Kept schema first to curr (length curr.steps) refl schema.relationships
              (record fr { queue = rest }) fr' (Mid-early curr rest fr q b' layers early)
              (ground arith))
      ]

  -- One round leaves every depth that is known.
  pub round-best :
      (c : ℕ) (curr : SearchState) (rest : List SearchState) (fr fr' : Frontier)
      → fr.queue ≡ curr ∷ rest
      → Bfs c fr
      → round schema first to curr (record fr { queue = rest }) ≡ ok fr'
      → (k : Text) (d : ℕ) → lookup k fr.best_depth ≡ some d
      → lookup k fr'.best_depth ≡ some d
  unfolding round
  round-best c curr rest fr fr' q b h k d e =
      let (layers, b') = settle c curr rest fr q b in
      elim (Bool-cases (is_late fr.found (length curr.steps))) [
        | inl late ↦ ground arith
        | inr early ↦
            let kept =
              expand-Kept schema first to curr (length curr.steps) refl schema.relationships
                (record fr { queue = rest }) fr' (Mid-early curr rest fr q b' layers early)
                (ground arith) in
            kept.grew.best k d e
      ]
