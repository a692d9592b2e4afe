-- ===== src/Join/Validate.antt =====
-- ValidateFilterPaths (semantic/join.go). A relationship is compared with itself as a pointer, so
-- the others are those at other places of the list.
pub mod Decides
use dux.Base.{
  ℕ, suc, Bool, true, false, Option, none, some, List, [], ◌∷◌, ◌++◌, Text, to_lower, mem, ◌==◌,
  length, if◌then◌else◌, ◌*◌,
}
use dux.Result.{Result, ok, err, ambiguous_graph}
use dux.Schema.{Schema, Relationship}
use dux.Join.Explore.{Outcome, found, exhausted, out_of_fuel, explore}

-- An empty name is no table.
pub named : Text → Option Text
named next = if next == [] then none else some next

-- The lower-cased far end of a relationship, seen from `current`.
pub path_step : Text → Relationship → Option Text
unfolding named
path_step current other =
    if to_lower other.from_table == current
    then named (to_lower other.to_table)
    else if to_lower other.to_table == current
    then named (to_lower other.from_table)
    else none

pub seen_at : Text → Outcome → Option Bool
seen_at dst found = none
seen_at dst (exhausted seen) = some (mem dst seen)
seen_at dst out_of_fuel = none

-- seen[dst] after the loop from `src` over the other relationships; `none` is the loop without fuel
pub connected : List Relationship → Text → Text → Option Bool
unfolding path_step seen_at
connected others src dst =
    seen_at dst (
      explore (λ t. t) (λ _. false) path_step others (suc (2 * length others)) (src ∷ [])
        (src ∷ []))

-- The loop over the relationships, with those that stand before.
pub validate_from : List Relationship → List Relationship → Option (Result (Unit {0}))
unfolding connected
validate_from before [] = some (ok tt)
validate_from before (r ∷ after) =
    let later = validate_from (before ++ r ∷ []) after in
    if r.bidirectional
    then elim (connected (before ++ after) (to_lower r.from_table) (to_lower r.to_table)) [
      | none ↦ none
      | some true ↦ some (err (ambiguous_graph r.from_table r.to_table))
      | some false ↦ later
    ]
    else later

-- ValidateFilterPaths
unfoldable pub validate_filter_paths : Schema → Option (Result (Unit {0}))
unfolding validate_from
validate_filter_paths schema = validate_from [] schema.relationships
