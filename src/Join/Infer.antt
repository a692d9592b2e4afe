-- ===== src/Join/Infer.antt =====
-- InferJoinPath (semantic/join.go): the join tree that connects all the tables of a query.
pub mod Order
pub mod Plan
use dux.Base.{
  Bool, true, false, Option, none, some, List, [], ◌∷◌, ◌++◌, Text, to_lower, mem, if◌then◌else◌,
}
use dux.Result.{Result, ok, err, ◌>>=◌}
use dux.Schema.{Schema}
use dux.Join.{JoinStep, JoinPath, resolve_table_strict, unique_slice}
use dux.Join.Path.{bfs_join}

-- The variables of the loop: `joined` by its keys, `joinedTables` and `steps`.
pub record Tree : Type 0 where
  pub joined : List Text
  pub joined_tables : List Text
  pub steps : List JoinStep

pub add_step : JoinStep → Tree → Tree
add_step step tree = if mem (to_lower step.table) tree.joined then tree else record {
  joined = to_lower step.table ∷ tree.joined;
  joined_tables = tree.joined_tables ++ step.table ∷ [];
  steps = tree.steps ++ step ∷ [];
}

-- for _, step := range path
pub add_steps : List JoinStep → Tree → Tree
unfolding add_step
add_steps [] tree = tree
add_steps (step ∷ steps) tree = add_steps steps (add_step step tree)

-- for _, target := range targets
pub attach : Schema → List Text → Tree → Option (Result Tree)
unfolding add_steps
attach schema [] tree = some (ok tree)
attach schema (target ∷ targets) tree =
    let skip = attach schema targets tree in
    if mem (to_lower target) tree.joined
    then skip
    else elim (bfs_join schema tree.joined_tables target) [
      | none ↦ none
      | some (err e) ↦ some (err e)
      | some (ok path) ↦ attach schema targets (add_steps path tree)
    ]

pub resolve_all : Schema → List Text → Result (List Text)
resolve_all schema [] = ok []
resolve_all schema (table ∷ tables) =
    let later = resolve_all schema tables in
    resolve_table_strict schema table >>= λ resolved. later >>= λ rest. ok (resolved ∷ rest)

pub seed : Text → Tree
seed primary = record { joined = to_lower primary ∷ []; joined_tables = primary ∷ []; steps = [] }

pub path_of : Option (Result Tree) → Option (Result JoinPath)
path_of none = none
path_of (some (err e)) = some (err e)
path_of (some (ok tree)) = some (ok (record { steps = tree.steps }))

pub infer : Schema → Result Text → Result (List Text) → Option (Result JoinPath)
unfolding path_of attach seed
infer schema (err e) targets = some (err e)
infer schema (ok primary) (err e) = some (err e)
infer schema (ok primary) (ok targets) =
    path_of (attach schema (unique_slice targets) (seed primary))

-- InferJoinPath
unfoldable pub infer_join_path : Schema → List Text → Option (Result JoinPath)
unfolding infer resolve_all
infer_join_path schema [] = some (ok (record { steps = [] }))
infer_join_path schema (primary ∷ []) = some (ok (record { steps = [] }))
infer_join_path schema (primary ∷ table ∷ tables) =
    infer schema (resolve_table_strict schema primary) (resolve_all schema (table ∷ tables))
