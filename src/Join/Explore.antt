-- ===== src/Join/Explore.antt =====
-- The breadth-first loop that FilterReaches, GroupingReaches and ValidateFilterPaths of
-- semantic/join.go share: a queue of tables, a set of visited keys, and a body that runs over the
-- relationships. The three differ in the key of a table, in the table that a relationship leads to,
-- and in the targets that end the loop.
pub mod Round
pub mod Loop
use dux.Base.{
  ℕ, zero, suc, Bool, true, Option, none, some, List, [], ◌∷◌, ◌++◌, Text, mem, if◌then◌else◌, ◌≡◌,
  Memᴰ,
}
use dux.Schema.{Relationship}

-- A pass over the relationships: a target was found, or the visited keys and the queue.
pub data Pass : Type 0 where
  hit : Pass
  more : List Text → List Text → Pass

-- `out_of_fuel` is no result of the program.
pub data Outcome : Type 0 where
  found : Outcome
  exhausted : List Text → Outcome
  out_of_fuel : Outcome

module _ (key : Text → Text) (is_target : Text → Bool) where
  -- for _, rel := range schema.Relationships
  pub scan : (Relationship → Option Text) → List Relationship → List Text → List Text → Pass
  scan next [] visited queue = more visited queue
  scan next (rel ∷ rels) visited queue =
      let skip = scan next rels visited queue in
      elim (next rel) [
        | none ↦ skip
        | some n ↦
            let enter = scan next rels (key n ∷ visited) (queue ++ n ∷ []) in
            if mem (key n) visited then skip else if is_target (key n) then hit else enter
      ]

  module _ (next : Text → Relationship → Option Text) (rels : List Relationship) where
    -- for len(queue) > 0
    unfoldable pub explore : ℕ → List Text → List Text → Outcome
    unfolding scan
    explore zero visited queue = elim queue [ [] ↦ exhausted visited | _ ∷ _ ↦ out_of_fuel ]
    explore (suc fuel) visited queue = elim queue [
      | [] ↦ exhausted visited
      | curr ∷ rest ↦ elim (scan (next curr) rels visited rest) [
        | hit ↦ found
        | more visited' queue' ↦ explore fuel visited' queue'
      ]
    ]

-- The tables that a walk along the relationships reaches from `src`.
pub data Walk (next : Text → Relationship → Option Text) (rels : List Relationship) (src : Text)
    : Text → Type 0 where
  here : Walk next rels src src
  step :
      {c d : Text} (rel : Relationship)
      → Walk next rels src c
      → Memᴰ rel rels
      → next c rel ≡ some d
      → Walk next rels src d
