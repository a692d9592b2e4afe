-- ===== src/Join.antt =====
-- semantic/join.go: the names of tables, and the join tree that InferJoinPath builds over the
-- declared relationships.
pub mod Resolve
pub mod Explore
pub mod Reach
pub mod Path
pub mod Infer
pub mod Leaf
pub mod Validate
pub mod Keys
use dux.Base.{
  ℕ, zero, suc, Bool, true, false, Option, none, some, List, [], ◌∷◌, ◌++◌, Text, Dict, dot, ◌==◌,
  to_lower, after_dot, contains, sort_strings, mem, ◌||◌, ◌&&◌, not, if◌then◌else◌,
}
use dux.Result.{Result, ok, err, ambiguous_table}
use dux.Schema.{Schema, Table, Relationship}

pub record JoinStep : Type 0 where
  pub from_table : Text
  pub table : Text
  pub on_from_col : Text
  pub on_to_col : Text
  pub bidirectional : Bool

pub record JoinPath : Type 0 where
  pub steps : List JoinStep

-- The part behind the last dot of `a`, if it has one, is `b`.
pub bare_match : Text → Text → Bool
bare_match a b = elim (after_dot a) [ some bare ↦ bare == b | none ↦ false ]

-- tableNamesMatch
unfoldable pub table_names_match : Text → Text → Bool
unfolding bare_match
table_names_match a b =
    let al = to_lower a in
    let bl = to_lower b in
    if al == bl then true else if bare_match al bl then true else bare_match bl al

-- The first key that equals the name in lower case.
pub fold_key : Text → Dict Table → Option Text
fold_key nl [] = none
fold_key nl ((key, t) ∷ m) = if to_lower key == nl then some key else fold_key nl m

-- The keys whose part behind the last dot equals the name in lower case.
pub bare_keys : Text → Dict Table → List Text
bare_keys nl [] = []
bare_keys nl ((key, t) ∷ m) =
    let rest = bare_keys nl m in
    elim (after_dot key) [
      | none ↦ rest
      | some bare ↦ if to_lower bare == nl then key ∷ rest else rest
    ]

-- resolveTableMatches
unfoldable pub resolve_table_matches : Schema → Text → List Text
unfolding fold_key bare_keys
resolve_table_matches schema name =
    let nl = to_lower name in
    elim (fold_key nl schema.tables) [
      | some key ↦ key ∷ []
      | none ↦ if contains dot name then [] else bare_keys nl schema.tables
    ]

pub sole_or : Text → List Text → Text
sole_or name (key ∷ []) = key
sole_or name _ = name

-- ResolveTable
unfoldable pub resolve_table : Schema → Text → Text
unfolding sole_or
resolve_table schema name = sole_or name (resolve_table_matches schema name)

pub strict : Text → List Text → Result Text
strict name [] = ok name
strict name (key ∷ []) = ok key
strict name (key ∷ key' ∷ rest) = err (ambiguous_table name (sort_strings (key ∷ key' ∷ rest)))

-- resolveTableStrict
unfoldable pub resolve_table_strict : Schema → Text → Result Text
unfolding strict
resolve_table_strict schema name = strict name (resolve_table_matches schema name)

-- The loop of LeafEdge, with the edge found so far.
pub leaf_loop : Text → Option JoinStep → List JoinStep → Option JoinStep
leaf_loop table edge [] = edge
leaf_loop table edge (step ∷ steps) =
    let skip = leaf_loop table edge steps in
    let take = leaf_loop table (some step) steps in
    if table_names_match step.from_table table
    then none
    else if table_names_match step.table table
    then elim edge [ some _ ↦ none | none ↦ take ]
    else skip

-- LeafEdge; the Boolean result is the constructor of the option
unfoldable pub leaf_edge : JoinPath → Schema → Text → Option JoinStep
unfolding leaf_loop
leaf_edge p schema table = leaf_loop (resolve_table schema table) none p.steps

-- The loop of uniqueSlice over `seen` and the slice.
pub unique_loop : List Text → List Text → List Text
unique_loop seen [] = []
unique_loop seen (s ∷ ss) =
    let again = unique_loop seen ss in
    let new = s ∷ unique_loop (s ∷ seen) ss in if mem s seen then again else new

-- uniqueSlice
unfoldable pub unique_slice : List Text → List Text
unfolding unique_loop
unique_slice ss = unique_loop [] ss
