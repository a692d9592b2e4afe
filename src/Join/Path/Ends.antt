-- ===== src/Join/Path/Ends.antt =====
-- bfsJoin ends (semantic/join.go): a state is no deeper than there are tables, and each round takes
-- from the queue a state that outweighs all that it adds.
use dux.Base.{
  ℕ, suc, ◌+◌, ◌*◌, ◌-◌, ◌≤◌, List, [], ◌∷◌, Text, to_lower, length, ◌≡◌, refl, ap, Memᴰ, arith,
  ◌⊎◌, inl, inr, length-append, List-cases, Memᴰ-concat,
}
use dux.Result.{ok, Result-cases, ok-injective}
use dux.Schema.{Schema, Relationship}
use dux.Join.{resolve_table, resolve_table_strict, resolve_table_matches, strict, sole_or}
use dux.Join.Path.{SearchState, Frontier, Hop, direction, follow, expand, weight}
use dux.Join.Path.Chain.{Leads}
use dux.Join.Path.Pass.{Followed, follow-Followed, steps_to}
use dux.Join.Reach.{ends}
use dux.Join.Reach.Ends.{mem-ends}
use dux.Join.Path.Levels.{potential, potential-append}

module _ (schema : Schema) (first to : Text) where
  strict-eq-resolve_table :
      (n r : Text) → resolve_table_strict schema n ≡ ok r → r ≡ resolve_table schema n
  unfolding resolve_table_strict resolve_table strict sole_or
  strict-eq-resolve_table n r h = elim (List-cases (resolve_table_matches schema n)) [
    | inl e ↦ ground arith
    | inr (x, [], e) ↦ ground arith
    | inr (x, y ∷ rest, e) ↦ ground arith
  ]

  Leads-ends :
      (t : Text) (rel : Relationship) (hop : Hop) (next : Text)
      → Memᴰ rel schema.relationships
      → Leads schema t rel hop next
      → Memᴰ (to_lower next) (ends schema schema.relationships)
  unfolding direction
  Leads-ends t rel hop next m l =
      let (from, to') = mem-ends schema rel schema.relationships m in
      let at = strict-eq-resolve_table hop.next_raw next l.resolves in
      let far : (hop.next_raw ≡ rel.to_table) ⊎ (hop.next_raw ≡ rel.from_table) =
        let turns = l.turns in ground arith in
      elim far [ inl e ↦ rw (at, e) to' | inr e ↦ rw (at, e) from ]

  -- What one relationship adds to the queue.
  follow-queue :
      (r n : ℕ) (curr : SearchState) (rel : Relationship) (fr fr' : Frontier)
      → Memᴰ rel schema.relationships
      → Followed schema first to curr rel fr fr'
      → ((e : SearchState)
          → Memᴰ e fr'.queue
          → Memᴰ e fr.queue
            ⊎ Memᴰ (to_lower e.table) (ends schema schema.relationships)
              × (length e.steps ≡ suc (length curr.steps)))
        × (potential r n fr'.queue
            ≤ potential r n fr.queue + weight r (n - suc (length curr.steps)))
  unfolding potential
  follow-queue r n curr rel fr fr' m (Followed.idle e) = (λ e q. inl q, omega arith)
  follow-queue r n curr rel fr fr' m (Followed.worse hop next l t w) = (λ e q. inl q, omega arith)
  follow-queue r n curr rel fr fr' m (Followed.reached hop next l t w) = (λ e q. inl q, omega arith)
  follow-queue r n curr rel fr fr' m (Followed.entered hop next l t w) =
      let deep : length (steps_to curr rel hop next) ≡ suc (length curr.steps) =
        omega (arith, length-append curr.steps _) in
      (
        λ e q. elim ((Memᴰ-concat e _ fr.queue).0 q) [
          | inl old ↦ inl old
          | inr this ↦ rw this (inr (Leads-ends curr.table rel hop next m l, deep))
        ],
        omega (
          arith,
          potential-append r n fr.queue
              (record { table = next; steps = steps_to curr rel hop next } ∷ []),
          ap (λ k. weight r (n - k)) deep,
        ),
      )

  -- What an expansion adds to the queue.
  pub expand-queue :
      (r n : ℕ) (curr : SearchState) (rels : List Relationship) (fr fr' : Frontier)
      → ((rel : Relationship) → Memᴰ rel rels → Memᴰ rel schema.relationships)
      → expand schema first to curr rels fr ≡ ok fr'
      → ((e : SearchState)
          → Memᴰ e fr'.queue
          → Memᴰ e fr.queue
            ⊎ Memᴰ (to_lower e.table) (ends schema schema.relationships)
              × (length e.steps ≡ suc (length curr.steps)))
        × (potential r n fr'.queue
            ≤ potential r n fr.queue + length rels * weight r (n - suc (length curr.steps)))
  unfolding expand
  expand-queue r n curr [] fr fr' within h =
      let same : fr ≡ fr' = ok-injective h in rw (← same) (λ e q. inl q, omega arith)
  expand-queue r n curr (rel ∷ rels) fr fr' within h =
      elim (Result-cases (follow schema first to curr rel fr)) [
        | inr (e, f) ↦ absurd (ground arith)
        | inl (fr1, f) ↦
            let (new1, cost1) =
              follow-queue r n curr rel fr fr1 (within rel (Memᴰ.head refl))
                (follow-Followed schema first to curr rel fr fr1 f) in
            let (new2, cost2) =
              expand-queue r n curr rels fr1 fr' (λ x m. within x (Memᴰ.tail m)) (ground arith) in
            (λ e q. elim (new2 e q) [ inl old ↦ new1 e old | inr new ↦ inr new ], omega arith)
      ]
