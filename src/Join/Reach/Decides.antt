-- ===== src/Join/Reach/Decides.antt =====
-- What FilterReaches and GroupingReaches decide (semantic/join.go), against the rules of filter
-- propagation as inductive relations.
use mathlib.Core.Bool.{Bool-set}
use dux.Base.{
  suc, Bool, true, false, Option, some, List, [], ◌∷◌, Text, to_lower, mem, length, ◌≡◌, refl, ◌↔◌,
  Memᴰ, arith, Bool-cases, inl, inr, ∥∥₁_elim, ∥∥₁_map,
}
use dux.Schema.{Schema, Relationship}
use dux.Join.{resolve_table}
use dux.Join.Explore.{explore, Walk, here}
use dux.Join.Explore.Loop.{
  Outcome-cases, unseen-le, Inv-start, explore-found, explore-exhausted, explore-ends, mem-of_Walk,
}
use dux.Join.Reach.{
  verdict, ends, target_set, reaches, filter_step, filter_reaches, grouping_step, grouping_reaches,
}
use dux.Join.Reach.Ends.{mem-ends}
use dux.Join.Reach.Rules.{
  Propagates, Groups, filter_congruent, grouping_congruent, filter_step-cases, grouping_step-cases,
  Propagates-of_Walk, Walk-of_Propagates, Groups-of_Walk, Walk-of_Groups,
}

module _ (schema : Schema) (next : Text → Relationship → Option Text)
    (congruent : (c d : Text) (rel : Relationship)
      → to_lower c ≡ to_lower d
      → next c rel ≡ next d rel)
    (within : (c d : Text) (rel : Relationship)
      → Memᴰ rel schema.relationships
      → next c rel ≡ some d
      → Memᴰ (to_lower d) (ends schema schema.relationships))
    (src : Text) (targets : List Text) where
  abbrev origin : Text
  origin = resolve_table schema src

  -- A table that a walk from the source leads to is a target.
  abbrev pub Reaches : Type 0
  Reaches =
      (d : Text) × Walk next schema.relationships origin d
      × (mem (to_lower d) (target_set schema targets) ≡ true)

  pub reaches_decides :
      (b : Bool) × (reaches next schema src targets ≡ some b) × ((b ≡ true) ↔ ∥ Reaches ∥₁)
  unfolding reaches verdict
  reaches_decides = elim (Bool-cases (mem (to_lower origin) (target_set schema targets))) [
    | inl at_once ↦ (true, rw at_once refl, (λ _. ∣ (origin, here, at_once) ∣₁, λ _. refl))
    | inr later ↦
        let is_target = λ (k : Text). mem k (target_set schema targets) in
        let fuel = suc (length (ends schema schema.relationships)) in
        let inv = Inv-start to_lower is_target next schema.relationships origin later in
        let run =
          explore to_lower is_target next schema.relationships fuel (to_lower origin ∷ [])
            (origin ∷ []) in
        elim (Outcome-cases run) [
          | inl e ↦
              let hit =
                explore-found to_lower is_target next schema.relationships origin congruent fuel
                  (to_lower origin ∷ []) (origin ∷ []) inv e in
              (true, rw (later, e) refl, (λ _. ∣ hit ∣₁, λ _. refl))
          | inr (inl (v, e)) ↦
              let inv' =
                explore-exhausted to_lower is_target next schema.relationships origin congruent fuel
                  (to_lower origin ∷ []) (origin ∷ []) v inv e in
              (
                false,
                rw (later, e) refl,
                (
                  λ h. cc,
                  λ h. ∥∥₁_elim h (Bool-set _ _) λ (d, w, t).
                      let seen =
                        mem-of_Walk to_lower is_target next schema.relationships origin congruent v
                          inv' w in
                      cc (inv'.clear (to_lower d) seen),
                ),
              )
          | inr (inr e) ↦ absurd (
              explore-ends to_lower is_target next schema.relationships origin
                (ends schema schema.relationships) within fuel (to_lower origin ∷ []) (origin ∷ [])
                (omega (arith, unseen-le (ends schema schema.relationships) (to_lower origin ∷ [])))
                e)
        ]
  ]

module _ (schema : Schema) where
  filter_within :
      (c d : Text) (rel : Relationship)
      → Memᴰ rel schema.relationships
      → filter_step schema c rel ≡ some d
      → Memᴰ (to_lower d) (ends schema schema.relationships)
  filter_within c d rel r e =
      let (from, to) = mem-ends schema rel schema.relationships r in
      elim (filter_step-cases schema c d rel e) [
        | inl (m, same) ↦ rw (← same) from
        | inr (b, n, m, same) ↦ rw (← same) to
      ]

  grouping_within :
      (c d : Text) (rel : Relationship)
      → Memᴰ rel schema.relationships
      → grouping_step schema c rel ≡ some d
      → Memᴰ (to_lower d) (ends schema schema.relationships)
  grouping_within c d rel r e =
      let (from, to) = mem-ends schema rel schema.relationships r in
      rw (← (grouping_step-cases schema c d rel e).1) from

  -- FilterReaches always ends with an answer, and it answers true exactly if a filter on the
  -- resolved source reaches a table whose key is that of a target, where a filter passes from the
  -- to-table of a relationship (its one side) to the from-table (its many side), and from the
  -- from-table to the to-table only where the relationship is bidirectional.
  pub filter_reaches_decides :
      (src : Text) (targets : List Text)
      → (b : Bool) × (filter_reaches schema src targets ≡ some b)
        × ((b ≡ true)
            ↔ ∥ (
                (d : Text) × Propagates schema (resolve_table schema src) d
                × (mem (to_lower d) (target_set schema targets) ≡ true)) ∥₁)
  unfolding filter_reaches
  filter_reaches_decides src targets =
      let (b, e, decides) =
        reaches_decides schema (filter_step schema) (filter_congruent schema) filter_within src
          targets in
      (
        b,
        e,
        (
          λ h. ∥∥₁_map (decides.0 h) λ (d, w, t). (d, Propagates-of_Walk schema _ w, t),
          λ h. decides.1 (∥∥₁_map h λ (d, p, t). (d, Walk-of_Propagates schema _ p, t)),
        ),
      )

  -- GroupingReaches always ends with an answer, and it answers true exactly if going from the one
  -- side of relationships to their many side alone leads from the resolved source to a table whose
  -- key is that of a target.
  pub grouping_reaches_decides :
      (src : Text) (targets : List Text)
      → (b : Bool) × (grouping_reaches schema src targets ≡ some b)
        × ((b ≡ true)
            ↔ ∥ (
                (d : Text) × Groups schema (resolve_table schema src) d
                × (mem (to_lower d) (target_set schema targets) ≡ true)) ∥₁)
  unfolding grouping_reaches
  grouping_reaches_decides src targets =
      let (b, e, decides) =
        reaches_decides schema (grouping_step schema) (grouping_congruent schema) grouping_within
          src targets in
      (
        b,
        e,
        (
          λ h. ∥∥₁_map (decides.0 h) λ (d, w, t). (d, Groups-of_Walk schema _ w, t),
          λ h. decides.1 (∥∥₁_map h λ (d, p, t). (d, Walk-of_Groups schema _ p, t)),
        ),
      )
