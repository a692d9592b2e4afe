-- ===== src/Join/Path.antt =====
-- bfsJoin (semantic/join.go): the shortest relationship path from a join tree to a table.
pub mod Chain
pub mod Pass
pub mod Expand
pub mod Sound
pub mod Loop
pub mod Settled
pub mod Shortest
pub mod Levels
pub mod Ends
pub mod Total
use dux.Base.{
  ℕ, zero, suc, ◌+◌, ◌*◌, Bool, true, false, Option, none, some, List, [], ◌∷◌, ◌++◌, Text, Dict,
  to_lower, lookup, insert, map, length, ltb, leb, nat_eq, if◌then◌else◌, ◌||◌,
}
use dux.Result.{Result, ok, err, ◌>>=◌, ambiguous_path, no_path}
use dux.Schema.{Schema, Relationship}
use dux.Join.{JoinStep, table_names_match, resolve_table_strict}

-- `state` of bfsJoin
pub record SearchState : Type 0 where
  pub table : Text
  pub steps : List JoinStep

-- The variables of the loop.
pub record Frontier : Type 0 where
  pub best_depth : Dict ℕ
  pub queue : List SearchState
  pub found : Option (List JoinStep)

-- The far end of a relationship as it is declared, and the columns of the join predicate.
pub record Hop : Type 0 where
  pub next_raw : Text
  pub from_col : Text
  pub to_col : Text

-- The switch over the two directions of a relationship.
unfoldable pub direction : Text → Relationship → Option Hop
direction table rel =
    if table_names_match rel.from_table table
    then some
        (record { next_raw = rel.to_table; from_col = rel.from_column; to_col = rel.to_column })
    else if table_names_match rel.to_table table
    then some
        (record { next_raw = rel.from_table; from_col = rel.to_column; to_col = rel.from_column })
    else none

unfoldable pub step_to : Text → Relationship → Hop → Text → JoinStep
step_to table rel hop next = record {
  from_table = table;
  table = next;
  on_from_col = hop.from_col;
  on_to_col = hop.to_col;
  bidirectional = rel.bidirectional;
}

-- previous, ok := bestDepth[nextLower]; ok && previous < depth
pub is_worse : Option ℕ → ℕ → Bool
is_worse none depth = false
is_worse (some previous) depth = ltb previous depth

-- found != nil && len(found) == n
pub is_tie : Option (List JoinStep) → ℕ → Bool
is_tie none n = false
is_tie (some p) n = nat_eq (length p) n

-- found != nil && n >= len(found)
pub is_late : Option (List JoinStep) → ℕ → Bool
is_late none n = false
is_late (some p) n = leb (length p) n

module _ (schema : Schema) (first to : Text) where
  -- What the body does with the resolved table `next`.
  pub offer : List JoinStep → Text → Frontier → Result Frontier
  unfolding is_worse is_tie
  offer new_steps next fr =
      let depth = length new_steps in
      if table_names_match next to
      then (if is_tie fr.found depth
          then err (ambiguous_path first to)
          else ok (record fr { found = some new_steps }))
      else if is_worse (lookup (to_lower next) fr.best_depth) depth
      then ok fr
      else ok (record fr {
        best_depth = insert (to_lower next) depth fr.best_depth;
        queue = fr.queue ++ (record { table = next; steps = new_steps }) ∷ [];
      })

  -- The body of the loop over the relationships.
  pub follow : SearchState → Relationship → Frontier → Result Frontier
  unfolding offer step_to
  follow curr rel fr = elim (direction curr.table rel) [
    | none ↦ ok fr
    | some hop ↦ resolve_table_strict schema hop.next_raw >>= λ next.
        offer (curr.steps ++ step_to curr.table rel hop next ∷ []) next fr
  ]

  pub expand : SearchState → List Relationship → Frontier → Result Frontier
  unfolding follow
  expand curr [] fr = ok fr
  expand curr (rel ∷ rels) fr = follow curr rel fr >>= expand curr rels

  -- One round of the outer loop, after `curr` left the queue.
  pub round : SearchState → Frontier → Result Frontier
  unfolding expand is_late
  round curr fr =
      if is_late fr.found (length curr.steps) then ok fr else expand curr schema.relationships fr

  -- for len(queue) > 0; `none` is the loop without fuel
  pub search : ℕ → Frontier → Option (Result Frontier)
  unfolding round
  search zero fr = elim fr.queue [ [] ↦ some (ok fr) | _ ∷ _ ↦ none ]
  search (suc fuel) fr = elim fr.queue [
    | [] ↦ some (ok fr)
    | curr ∷ rest ↦ elim (round curr (record fr { queue = rest })) [
      | ok fr' ↦ search fuel fr'
      | err e ↦ some (err e)
    ]
  ]

  pub outcome : Option (Result Frontier) → Option (Result (List JoinStep))
  outcome none = none
  outcome (some (err e)) = some (err e)
  outcome (some (ok fr)) = elim fr.found [
    | some p ↦ some (ok p)
    | none ↦ some (err (no_path first to))
  ]

pub any_match : List Text → Text → Bool
any_match [] to = false
any_match (table ∷ tables) to = table_names_match table to || any_match tables to

-- bestDepth of the sources; a later source of the same key writes the same depth
pub depth_zero : List Text → Dict ℕ
depth_zero [] = []
depth_zero (table ∷ tables) = insert (to_lower table) 0 (depth_zero tables)

pub sources : List Text → List SearchState
sources = map (λ table. record { table = table; steps = [] })

pub initial : List Text → Frontier
unfolding depth_zero sources
initial from = record { best_depth = depth_zero from; queue = sources from; found = none }

-- The rounds that a table in the queue can lead to when `n` more levels are left and each table
-- leads to `r` others: the fuel of the loop.
pub weight : ℕ → ℕ → ℕ
weight r zero = 0
weight r (suc n) = suc (r * weight r n)

-- No level is deeper than the number of tables: the sources and both ends of each relationship.
pub levels : Schema → List Text → ℕ
levels schema from = length from + 2 * length schema.relationships

-- bfsJoin; an empty join tree is the panic of from[0], a result of none
unfoldable pub bfs_join : Schema → List Text → Text → Option (Result (List JoinStep))
unfolding any_match initial search outcome weight levels
bfs_join schema [] to = none
bfs_join schema (first ∷ rest) to =
    let from = first ∷ rest in
    if any_match from to
    then some (ok [])
    else outcome schema first to (
        search schema first to
          (length from * weight (length schema.relationships) (levels schema from)) (initial from))
