-- ===== src/Join/Reach/Compare.antt =====
-- How the answers of FilterReaches and GroupingReaches compare (semantic/join.go).
use dux.Base.{
  true, false, some, List, Text, ◌≡◌, ◌∙◌, Bool-cases, inl, inr, ∥∥₁_map, ap, All, All-mem,
}
use dux.Schema.{Schema}
use dux.Join.Reach.{filter_reaches, grouping_reaches}
use dux.Join.Reach.Rules.{Propagates, Groups}
use dux.Join.Reach.Decides.{filter_reaches_decides, grouping_reaches_decides}

Propagates-of_Groups :
    (schema : Schema) (src : Text) {d : Text} → Groups schema src d → Propagates schema src d
Propagates-of_Groups schema src Groups.at_source = Propagates.at_source
Propagates-of_Groups schema src (Groups.to_many rel g r m) =
    Propagates.to_many rel (Propagates-of_Groups schema src g) r m

Groups-of_Propagates :
    (schema : Schema) (src : Text)
    → All (λ rel. rel.bidirectional ≡ false) schema.relationships
    → {d : Text} → Propagates schema src d
    → Groups schema src d
Groups-of_Propagates schema src one_way Propagates.at_source = Groups.at_source
Groups-of_Propagates schema src one_way (Propagates.to_many rel p r m) =
    Groups.to_many rel (Groups-of_Propagates schema src one_way p) r m
Groups-of_Propagates schema src one_way (Propagates.to_one rel p r b n m) =
    let not_b = All-mem (λ rel. rel.bidirectional ≡ false) schema.relationships one_way r in cc

-- Wherever GroupingReaches answers true, FilterReaches does.
pub grouping_reaches-filter_reaches :
    (schema : Schema) (src : Text) (targets : List Text)
    → grouping_reaches schema src targets ≡ some true
    → filter_reaches schema src targets ≡ some true
grouping_reaches-filter_reaches schema src targets h =
    let (b, e, grouping) = grouping_reaches_decides schema src targets in
    let (c, f, filter) = filter_reaches_decides schema src targets in
    let reached = grouping.0 (cc) in
    f ∙ ap some (filter.1 (∥∥₁_map reached λ (d, g, t). (d, Propagates-of_Groups schema _ g, t)))

-- In a schema without bidirectional relationships FilterReaches and GroupingReaches give the same
-- answer.
pub filter_reaches-grouping_reaches :
    (schema : Schema) (src : Text) (targets : List Text)
    → All (λ rel. rel.bidirectional ≡ false) schema.relationships
    → filter_reaches schema src targets ≡ grouping_reaches schema src targets
filter_reaches-grouping_reaches schema src targets one_way =
    let (b, e, grouping) = grouping_reaches_decides schema src targets in
    let (c, f, filter) = filter_reaches_decides schema src targets in
    elim (Bool-cases c) [
      | inl yes' ↦
          let down = grouping.1 (
            ∥∥₁_map (filter.0 yes') λ (d, p, t). (d, Groups-of_Propagates schema _ one_way p, t)) in
          cc
      | inr no' ↦ elim (Bool-cases b) [
        | inl yes' ↦
            let up =
              filter.1
                (∥∥₁_map (grouping.0 yes') λ (d, g, t). (d, Propagates-of_Groups schema _ g, t)) in
            cc
        | inr no'' ↦ cc
      ]
    ]
