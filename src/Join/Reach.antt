-- ===== src/Join/Reach.antt =====
-- FilterReaches and GroupingReaches (semantic/join.go). The loop is that of `Explore`: its keys are
-- the lower-cased tables, and its fuel is one round for the source and one for each end of a
-- relationship.
pub mod Ends
pub mod Rules
pub mod Decides
pub mod Compare
use mathlib.Core.Option
use dux.Base.{
  ℕ, suc, Bool, true, false, Option, none, some, List, [], ◌∷◌, Text, to_lower, mem, map, length,
  if◌then◌else◌, ◌&&◌, ◌≡◌, Memᴰ,
}
use dux.Schema.{Schema, Relationship}
use dux.Join.{table_names_match, resolve_table}
use dux.Join.Explore.{Outcome, found, exhausted, out_of_fuel, explore}

-- `none` is the loop without fuel.
pub verdict : Outcome → Option Bool
verdict found = some true
verdict (exhausted visited) = some false
verdict out_of_fuel = none

-- The keys of both ends of every relationship.
pub ends : Schema → List Relationship → List Text
ends schema [] = []
ends schema (rel ∷ rels) =
    to_lower (resolve_table schema rel.from_table)
    ∷ to_lower (resolve_table schema rel.to_table)
    ∷ ends schema rels

pub target_set : Schema → List Text → List Text
target_set schema = map (λ t. to_lower (resolve_table schema t))

-- The body that both functions share: `step` is the table that a relationship leads to.
pub reaches : (Text → Relationship → Option Text) → Schema → Text → List Text → Option Bool
unfolding verdict target_set ends
reaches step schema src targets =
    let targets' = target_set schema targets in
    let src' = resolve_table schema src in
    if mem (to_lower src') targets'
    then some true
    else verdict (
        explore to_lower (λ k. mem k targets') step schema.relationships
          (suc (length (ends schema schema.relationships))) (to_lower src' ∷ []) (src' ∷ []))

-- The switch of FilterReaches: from the one side to the many side always, and back only along a
-- bidirectional relationship.
pub filter_step : Schema → Text → Relationship → Option Text
filter_step schema curr rel = Option.map (resolve_table schema) (
    if table_names_match rel.to_table curr
    then some rel.from_table
    else if rel.bidirectional && table_names_match rel.from_table curr
    then some rel.to_table
    else none)

-- FilterReaches
unfoldable pub filter_reaches : Schema → Text → List Text → Option Bool
unfolding reaches filter_step
filter_reaches schema = reaches (filter_step schema) schema

-- The test of GroupingReaches: from the one side to the many side alone.
pub grouping_step : Schema → Text → Relationship → Option Text
grouping_step schema curr rel =
    if table_names_match rel.to_table curr then some (resolve_table schema rel.from_table) else none

-- GroupingReaches
unfoldable pub grouping_reaches : Schema → Text → List Text → Option Bool
unfolding reaches grouping_step
grouping_reaches schema = reaches (grouping_step schema) schema
