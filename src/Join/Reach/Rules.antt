-- ===== src/Join/Reach/Rules.antt =====
-- The rules of filter propagation as inductive relations, and that the steps of the two loops of
-- semantic/join.go follow them.
use dux.Base.{true, false, some, Text, to_lower, ◌≡◌, Memᴰ, arith, inl, inr, ◌⊎◌, subst}
use dux.Schema.{Schema, Relationship}
use dux.Join.{table_names_match, resolve_table}
use dux.Join.Explore.{Walk, here, step}
use dux.Join.Reach.{filter_step, grouping_step}

-- The tables that a filter on `src` reaches under the propagation rules of DAX.
pub data Propagates (schema : Schema) (src : Text) : Text → Type 0 where
  at_source : Propagates schema src src
  -- From the one side of a relationship to its many side.
  to_many :
      {c : Text} (rel : Relationship)
      → Propagates schema src c
      → Memᴰ rel schema.relationships
      → table_names_match rel.to_table c ≡ true
      → Propagates schema src (resolve_table schema rel.from_table)
  -- From the many side to the one side of a bidirectional relationship.
  to_one :
      {c : Text} (rel : Relationship)
      → Propagates schema src c
      → Memᴰ rel schema.relationships
      → rel.bidirectional ≡ true
      → table_names_match rel.to_table c ≡ false
      → table_names_match rel.from_table c ≡ true
      → Propagates schema src (resolve_table schema rel.to_table)

-- The tables that a group filter on `src` reaches: from the one side to the many side alone.
pub data Groups (schema : Schema) (src : Text) : Text → Type 0 where
  at_source : Groups schema src src
  to_many :
      {c : Text} (rel : Relationship)
      → Groups schema src c
      → Memᴰ rel schema.relationships
      → table_names_match rel.to_table c ≡ true
      → Groups schema src (resolve_table schema rel.from_table)

module _ (schema : Schema) where
  match_congruent :
      (t c d : Text) → to_lower c ≡ to_lower d → table_names_match t c ≡ table_names_match t d
  unfolding table_names_match
  match_congruent t c d e = rw e

  pub filter_congruent :
      (c d : Text) (rel : Relationship)
      → to_lower c ≡ to_lower d
      → filter_step schema c rel ≡ filter_step schema d rel
  unfolding filter_step
  filter_congruent c d rel e =
      rw (match_congruent rel.to_table c d e, match_congruent rel.from_table c d e)

  pub grouping_congruent :
      (c d : Text) (rel : Relationship)
      → to_lower c ≡ to_lower d
      → grouping_step schema c rel ≡ grouping_step schema d rel
  unfolding grouping_step
  grouping_congruent c d rel e = rw (match_congruent rel.to_table c d e)

  pub filter_step-cases :
      (c d : Text) (rel : Relationship)
      → filter_step schema c rel ≡ some d
      → ((table_names_match rel.to_table c ≡ true) × (resolve_table schema rel.from_table ≡ d))
        ⊎ ((rel.bidirectional ≡ true)
            × (table_names_match rel.to_table c ≡ false)
            × (table_names_match rel.from_table c ≡ true)
            × (resolve_table schema rel.to_table ≡ d))
  unfolding filter_step
  filter_step-cases c d rel e = ground arith

  pub grouping_step-cases :
      (c d : Text) (rel : Relationship)
      → grouping_step schema c rel ≡ some d
      → (table_names_match rel.to_table c ≡ true) × (resolve_table schema rel.from_table ≡ d)
  unfolding grouping_step
  grouping_step-cases c d rel e = ground arith

  module _ (src : Text) where
    pub Propagates-of_Walk :
        {d : Text} → Walk (filter_step schema) schema.relationships src d → Propagates schema src d
    Propagates-of_Walk here = Propagates.at_source
    Propagates-of_Walk (step {c} {d} rel w r e) = elim (filter_step-cases c d rel e) [
      | inl (m, same) ↦
          subst (Propagates schema src) same (Propagates.to_many rel (Propagates-of_Walk w) r m)
      | inr (b, not_to, m, same) ↦
          subst (Propagates schema src) same
            (Propagates.to_one rel (Propagates-of_Walk w) r b not_to m)
    ]

    pub Walk-of_Propagates :
        {d : Text} → Propagates schema src d → Walk (filter_step schema) schema.relationships src d
    unfolding filter_step
    Walk-of_Propagates Propagates.at_source = here
    Walk-of_Propagates (Propagates.to_many rel p r m) =
        step rel (Walk-of_Propagates p) r (ground arith)
    Walk-of_Propagates (Propagates.to_one rel p r b not_to m) =
        step rel (Walk-of_Propagates p) r (ground arith)

    pub Groups-of_Walk :
        {d : Text} → Walk (grouping_step schema) schema.relationships src d → Groups schema src d
    Groups-of_Walk here = Groups.at_source
    Groups-of_Walk (step {c} {d} rel w r e) =
        let (m, same) = grouping_step-cases c d rel e in
        subst (Groups schema src) same (Groups.to_many rel (Groups-of_Walk w) r m)

    pub Walk-of_Groups :
        {d : Text} → Groups schema src d → Walk (grouping_step schema) schema.relationships src d
    unfolding grouping_step
    Walk-of_Groups Groups.at_source = here
    Walk-of_Groups (Groups.to_many rel p r m) = step rel (Walk-of_Groups p) r (ground arith)
