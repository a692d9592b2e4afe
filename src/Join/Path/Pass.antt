-- ===== src/Join/Path/Pass.antt =====
-- The body of bfsJoin's loop over the relationships (semantic/join.go).
use dux.Base.{
  ℕ, suc, ◌≤◌, true, false, none, some, List, [], ◌∷◌, ◌++◌, Text, to_lower, lookup, insert, length,
  ◌≡◌, Memᴰ, subst, arith, ◌⊎◌, inl, inr, Option-cases, Bool-cases, All,
}
use dux.Result.{ok, Result-cases}
use dux.Schema.{Schema, Relationship}
use dux.Join.{JoinStep, table_names_match, resolve_table_strict}
use dux.Join.Path.{SearchState, Frontier, Hop, direction, step_to, is_worse, is_tie, offer, follow}
use dux.Join.Path.Chain.{Leads}

abbrev pub steps_to : SearchState → Relationship → Hop → Text → List JoinStep
steps_to curr rel hop next = curr.steps ++ step_to curr.table rel hop next ∷ []

-- The states of a queue have the depth `c`, and then the depth `c + 1`.
abbrev pub Layered : ℕ → List SearchState → Type 0
Layered c [] = Unit {0}
Layered c (e ∷ q) =
    ((length e.steps ≡ c) × Layered c q) ⊎ All (λ (x : SearchState). length x.steps ≡ suc c) (e ∷ q)

All-snoc :
    (c : ℕ) (q : List SearchState) (e : SearchState)
    → All (λ (x : SearchState). length x.steps ≡ c) q
    → length e.steps ≡ c
    → All (λ (x : SearchState). length x.steps ≡ c) (q ++ e ∷ [])
All-snoc c [] e h n = (n, tt)
All-snoc c (x ∷ q) e h n = (h.0, All-snoc c q e h.1 n)

pub Layered-snoc :
    (c : ℕ) (q : List SearchState) (e : SearchState)
    → Layered c q
    → length e.steps ≡ suc c
    → Layered c (q ++ e ∷ [])
Layered-snoc c [] e h n = inr (n, tt)
Layered-snoc c (x ∷ q) e (inl h) n = inl (h.0, Layered-snoc c q e h.1 n)
Layered-snoc c (x ∷ q) e (inr h) n = inr (All-snoc (suc c) (x ∷ q) e h n)

module _ (schema : Schema) (first to : Text) where
  -- The ways in which the body succeeds.
  pub data Followed (curr : SearchState) (rel : Relationship) (fr : Frontier)
      : Frontier → Type 0 where
    idle : direction curr.table rel ≡ none → Followed curr rel fr fr
    reached :
        (hop : Hop) (next : Text)
        → Leads schema curr.table rel hop next
        → table_names_match next to ≡ true
        → is_tie fr.found (length (steps_to curr rel hop next)) ≡ false
        → Followed curr rel fr (record fr { found = some (steps_to curr rel hop next) })
    worse :
        (hop : Hop) (next : Text)
        → Leads schema curr.table rel hop next
        → table_names_match next to ≡ false
        → is_worse (lookup (to_lower next) fr.best_depth) (length (steps_to curr rel hop next))
          ≡ true
        → Followed curr rel fr fr
    entered :
        (hop : Hop) (next : Text)
        → Leads schema curr.table rel hop next
        → table_names_match next to ≡ false
        → is_worse (lookup (to_lower next) fr.best_depth) (length (steps_to curr rel hop next))
          ≡ false
        → Followed curr rel fr (record fr {
          best_depth = insert (to_lower next) (length (steps_to curr rel hop next)) fr.best_depth;
          queue = fr.queue ++ (record { table = next; steps = steps_to curr rel hop next }) ∷ [];
        })

  pub follow-Followed :
      (curr : SearchState) (rel : Relationship) (fr fr' : Frontier)
      → follow schema first to curr rel fr ≡ ok fr'
      → Followed curr rel fr fr'
  unfolding follow offer
  follow-Followed curr rel fr fr' h = elim (Option-cases (direction curr.table rel)) [
    | inl e ↦
        let same : fr ≡ fr' = ground arith in subst (Followed curr rel fr) same (Followed.idle e)
    | inr (hop, e) ↦ elim (Result-cases (resolve_table_strict schema hop.next_raw)) [
      | inr (error, f) ↦ absurd (ground arith)
      | inl (next, f) ↦
          let leads : Leads schema curr.table rel hop next = record { turns = e; resolves = f } in
          let depth = length (steps_to curr rel hop next) in
          elim (Bool-cases (table_names_match next to)) [
            | inl m ↦ elim (Bool-cases (is_tie fr.found depth)) [
              | inl tie ↦ absurd (ground arith)
              | inr fine ↦
                  subst (Followed curr rel fr) (ground arith)
                    (Followed.reached hop next leads m fine)
            ]
            | inr m ↦ elim (Bool-cases (is_worse (lookup (to_lower next) fr.best_depth) depth)) [
              | inl w ↦
                  subst (Followed curr rel fr) (ground arith) (Followed.worse hop next leads m w)
              | inr w ↦
                  subst (Followed curr rel fr) (ground arith) (Followed.entered hop next leads m w)
            ]
          ]
    ]
  ]

  -- What holds while a state of depth `c` is expanded.
  pub record Mid (c : ℕ) (fr : Frontier) : Type 0 where
    pub layered : Layered c fr.queue
    pub bounded : (k : Text) (d : ℕ) → lookup k fr.best_depth ≡ some d → d ≤ suc c
    pub matched :
        (e : SearchState)
        → Memᴰ e fr.queue
        → lookup (to_lower e.table) fr.best_depth ≡ some (length e.steps)
    pub late : (p : List JoinStep) → fr.found ≡ some p → suc c ≤ length p

  abbrev pub FoundWithin : ℕ → Frontier → Type 0
  FoundWithin n fr = (p : List JoinStep) × (fr.found ≡ some p) × (length p ≤ n)

  -- What an expansion leaves in place, and what it adds.
  pub record Grew (c : ℕ) (fr fr' : Frontier) : Type 0 where
    pub best :
        (k : Text) (d : ℕ) → lookup k fr.best_depth ≡ some d → lookup k fr'.best_depth ≡ some d
    pub queue : (e : SearchState) → Memᴰ e fr.queue → Memᴰ e fr'.queue
    pub found : (n : ℕ) → FoundWithin n fr → FoundWithin n fr'
    pub fresh :
        (k : Text) (d : ℕ)
        → lookup k fr'.best_depth ≡ some d
        → (lookup k fr.best_depth ≡ some d)
          ⊎ ((e : SearchState) × Memᴰ e fr'.queue × (to_lower e.table ≡ k) × (d ≡ suc c))

  pub Grew-refl : (c : ℕ) (fr : Frontier) → Grew c fr fr
  Grew-refl c fr = record {
    best = λ k d h. h;
    queue = λ e m. m;
    found = λ n h. h;
    fresh = λ k d h. inl h;
  }

  pub Grew-trans : (c : ℕ) (a b d : Frontier) → Grew c a b → Grew c b d → Grew c a d
  Grew-trans c a b d g h = record {
    best = λ k n e. h.best k n (g.best k n e);
    queue = λ e m. h.queue e (g.queue e m);
    found = λ n e. h.found n (g.found n e);
    fresh = λ k n e. elim (h.fresh k n e) [
      | inl old ↦ elim (g.fresh k n old) [
        | inl older ↦ inl older
        | inr (x, m, same, deep) ↦ inr (x, h.queue x m, same, deep)
      ]
      | inr new ↦ inr new
    ];
  }

  -- The far end of a relationship has been found or has a depth.
  pub record Covered (c : ℕ) (t : Text) (rel : Relationship) (fr : Frontier) : Type 0 where
    pub hit :
        (hop : Hop) (next : Text)
        → Leads schema t rel hop next
        → table_names_match next to ≡ true
        → FoundWithin (suc c) fr
    pub other :
        (hop : Hop) (next : Text)
        → Leads schema t rel hop next
        → table_names_match next to ≡ false
        → (d : ℕ) × (lookup (to_lower next) fr.best_depth ≡ some d) × (d ≤ suc c)

  pub Covered-Grew :
      (c c' : ℕ) (t : Text) (rel : Relationship) (fr fr' : Frontier)
      → Grew c' fr fr'
      → Covered c t rel fr
      → Covered c t rel fr'
  Covered-Grew c c' t rel fr fr' g v = record {
    hit = λ hop next l m. g.found (suc c) (v.hit hop next l m);
    other = λ hop next l m.
        let (d, e, le) = v.other hop next l m in (d, g.best (to_lower next) d e, le);
  }
