-- ===== src/Tests/Joins.antt =====
-- Runs over the relationships (semantic/join.go).
use dux.Base.{
  ◌≤◌, Bool, true, false, none, some, List, [], ◌∷◌, Text, codes, to_lower, ◌==◌, lookup, insert,
  after_dot, contains, mem, length, ◌≡◌, refl, ◌↔◌, ◌⊎◌, ◌≢◌, Memᴰ,
}
use dux.Result.{Result, ok, err, no_path, ambiguous_graph}
use dux.Schema.{Schema, Table, Relationship}
use dux.Join.{
  JoinStep, JoinPath, table_names_match, resolve_table_matches, resolve_table, resolve_table_strict,
  leaf_edge, unique_slice,
}
use dux.Join.Explore.{explore}
use dux.Join.Reach.{filter_reaches, grouping_reaches, target_set}
use dux.Join.Reach.Rules.{Propagates, Groups}
use dux.Join.Reach.Decides.{filter_reaches_decides, grouping_reaches_decides}
use dux.Join.Reach.Compare.{grouping_reaches-filter_reaches, filter_reaches-grouping_reaches}
use dux.Join.Path.{bfs_join, direction, step_to}
use dux.Join.Path.Chain.{Chain, start}
use dux.Join.Path.Shortest.{bfs_join-shortest, bfs_join-no_path}
use dux.Join.Path.Total.{bfs_join-total}
use dux.Join.Infer.{infer_join_path}
use dux.Join.Infer.Order.{IsTree, keys_after}
use dux.Join.Infer.Plan.{
  IsCovered, infer_join_path-IsTree, infer_join_path-IsCovered, infer_join_path-total,
}
use dux.Join.Leaf.{IsNoSource, arrivals, leaf_edge_iff}
use dux.Join.Validate.{validate_filter_paths}
use dux.Join.Validate.Decides.{IsUnambiguous, Conflict, validate_filter_paths_decides}
use dux.Join.Resolve.{resolve_table_strict-match, resolve_table_exact}
use dux.Tests.Schemas.{sample_unique}
use dux.Tests.Sample.{
  plain_table, sample, sales, products, dates, returns, sales_products, sales_dates, returns_dates,
}

resolve_runs : resolve_table_strict sample (codes "sales") ≡ ok sales
unfolding resolve_table_strict resolve_table_matches to_lower ◌==◌ after_dot contains
resolve_runs = refl

reaches_runs :
    (grouping_reaches sample (codes "products") (codes "sales" ∷ []) ≡ some true)
    × (grouping_reaches sample (codes "sales") (codes "dates" ∷ []) ≡ some false)
    × (filter_reaches sample (codes "sales") (codes "returns" ∷ []) ≡ some true)
unfolding grouping_reaches filter_reaches explore resolve_table resolve_table_matches
    table_names_match to_lower ◌==◌ after_dot contains mem
reaches_runs = (refl, refl, refl)

abbrev to_dates : JoinStep
to_dates = record {
  from_table = sales;
  table = dates;
  on_from_col = codes "DateKey";
  on_to_col = codes "Key";
  bidirectional = true;
}

bfs_runs : bfs_join sample (sales ∷ []) dates ≡ some (ok (to_dates ∷ []))
unfolding bfs_join direction resolve_table_strict resolve_table_matches table_names_match to_lower
    ◌==◌ after_dot contains lookup insert step_to
bfs_runs = refl

filter_reaches_decides_example :
    (b : Bool) × (filter_reaches sample sales (returns ∷ []) ≡ some b)
    × ((b ≡ true)
        ↔ ∥ (
            (d : Text) × Propagates sample (resolve_table sample sales) d
            × (mem (to_lower d) (target_set sample (returns ∷ [])) ≡ true)) ∥₁)
filter_reaches_decides_example = filter_reaches_decides sample sales (returns ∷ [])

grouping_reaches_decides_example :
    (b : Bool) × (grouping_reaches sample dates (returns ∷ []) ≡ some b)
    × ((b ≡ true)
        ↔ ∥ (
            (d : Text) × Groups sample (resolve_table sample dates) d
            × (mem (to_lower d) (target_set sample (returns ∷ [])) ≡ true)) ∥₁)
grouping_reaches_decides_example = grouping_reaches_decides sample dates (returns ∷ [])

grouping_reaches-filter_reaches_example :
    filter_reaches sample (codes "products") (codes "sales" ∷ []) ≡ some true
grouping_reaches-filter_reaches_example =
    grouping_reaches-filter_reaches sample (codes "products") (codes "sales" ∷ []) reaches_runs.0

abbrev one_way : Schema
one_way = record sample { relationships = sales_products ∷ returns_dates ∷ [] }

filter_reaches-grouping_reaches_example :
    filter_reaches one_way products (sales ∷ []) ≡ grouping_reaches one_way products (sales ∷ [])
filter_reaches-grouping_reaches_example =
    filter_reaches-grouping_reaches one_way products (sales ∷ []) (refl, (refl, tt))

-- bfsJoin

bfs_join-shortest_example :
    ((t : Text) × Chain sample (sales ∷ []) t (to_dates ∷ []) × (table_names_match t dates ≡ true))
    × ((t : Text) (q : List JoinStep)
        → Chain sample (sales ∷ []) t q
        → table_names_match t dates ≡ true
        → length (to_dates ∷ []) ≤ length q)
bfs_join-shortest_example = bfs_join-shortest sample (sales ∷ []) dates (to_dates ∷ []) bfs_runs

abbrev lonely : Schema
lonely = record sample { relationships = sales_products ∷ [] }

no_path_runs : bfs_join lonely (sales ∷ []) dates ≡ some (err (no_path sales dates))
unfolding bfs_join direction resolve_table_strict resolve_table_matches table_names_match to_lower
    ◌==◌ after_dot contains lookup insert step_to
no_path_runs = refl

bfs_join-no_path_example : table_names_match sales dates ≢ true
bfs_join-no_path_example =
    bfs_join-no_path lonely (sales ∷ []) dates sales dates sales [] no_path_runs
      (start (Memᴰ.head refl))

bfs_join-total_example :
    (r : Result (List JoinStep)) × (bfs_join sample (sales ∷ []) returns ≡ some r)
bfs_join-total_example = bfs_join-total sample (sales ∷ []) returns (λ h. cc)

-- InferJoinPath

abbrev returns_to_dates : JoinStep
returns_to_dates = record {
  from_table = dates;
  table = returns;
  on_from_col = codes "Key";
  on_to_col = codes "DateKey";
  bidirectional = false;
}

infer_runs :
    infer_join_path sample (sales ∷ returns ∷ dates ∷ [])
    ≡ some (ok (record { steps = to_dates ∷ returns_to_dates ∷ [] }))
unfolding infer_join_path bfs_join direction resolve_table_strict resolve_table_matches
    table_names_match to_lower ◌==◌ after_dot contains lookup insert step_to unique_slice mem
infer_runs = refl

sales_resolves : resolve_table_strict sample sales ≡ ok sales
unfolding resolve_table_strict resolve_table_matches to_lower ◌==◌ after_dot contains
sales_resolves = refl

infer_join_path-IsTree_example :
    IsTree sample (to_lower sales ∷ []) (to_dates ∷ returns_to_dates ∷ [])
infer_join_path-IsTree_example =
    infer_join_path-IsTree sample sales returns (dates ∷ []) sales
      (record { steps = to_dates ∷ returns_to_dates ∷ [] }) sales_resolves infer_runs

infer_join_path-IsCovered_example :
    (t' : Text) × (resolve_table_strict sample returns ≡ ok t')
    × IsCovered sample sales
        (keys_after (to_lower sales ∷ []) (to_dates ∷ returns_to_dates ∷ []))
        t'
infer_join_path-IsCovered_example =
    infer_join_path-IsCovered sample sales returns (dates ∷ []) sales
      (record { steps = to_dates ∷ returns_to_dates ∷ [] }) sales_resolves infer_runs returns
      (Memᴰ.head refl)

infer_join_path-total_example :
    (r : Result JoinPath) × (infer_join_path sample (sales ∷ returns ∷ []) ≡ some r)
infer_join_path-total_example = infer_join_path-total sample (sales ∷ returns ∷ [])

-- LeafEdge

leaf_edge_iff_example :
    (leaf_edge (record { steps = to_dates ∷ returns_to_dates ∷ [] }) sample returns
      ≡ some returns_to_dates)
    ↔ (IsNoSource (resolve_table sample returns) (to_dates ∷ returns_to_dates ∷ [])
        × (arrivals (resolve_table sample returns) (to_dates ∷ returns_to_dates ∷ [])
            ≡ returns_to_dates ∷ []))
leaf_edge_iff_example =
    leaf_edge_iff (record { steps = to_dates ∷ returns_to_dates ∷ [] }) sample returns
      returns_to_dates

leaf_edge_runs :
    (leaf_edge (record { steps = to_dates ∷ returns_to_dates ∷ [] }) sample returns
      ≡ some returns_to_dates)
    × (leaf_edge (record { steps = to_dates ∷ returns_to_dates ∷ [] }) sample dates ≡ none)
unfolding leaf_edge resolve_table resolve_table_matches table_names_match to_lower ◌==◌ after_dot
    contains
leaf_edge_runs = (refl, refl)

-- ValidateFilterPaths

validate_filter_paths_decides_example :
    ((validate_filter_paths sample ≡ some (ok tt)) × IsUnambiguous [] sample.relationships)
    ⊎ ((c : Relationship) × (validate_filter_paths sample
          ≡ some (err (ambiguous_graph c.from_table c.to_table)))
        × Conflict [] sample.relationships c)
validate_filter_paths_decides_example = validate_filter_paths_decides sample

abbrev doubled : Schema
doubled = record sample { relationships = sales_dates ∷ sales_dates ∷ [] }

validate_runs :
    (validate_filter_paths sample ≡ some (ok tt))
    × (validate_filter_paths doubled
        ≡ some (err (ambiguous_graph (codes "lake.Sales") (codes "dates"))))
unfolding validate_filter_paths explore to_lower ◌==◌ mem
validate_runs = (refl, refl)

-- ResolveTable

resolve_table_strict-match_example :
    (table_names_match sales (codes "sales") ≡ true)
    × ((sales ≡ codes "sales") ⊎ ((t : Table) × (lookup sales sample.tables ≡ some t)))
resolve_table_strict-match_example =
    resolve_table_strict-match sample (codes "sales") sales resolve_runs

resolve_table_exact_example :
    (resolve_table sample (codes "DATES") ≡ dates)
    × (resolve_table_strict sample (codes "DATES") ≡ ok dates)
unfolding lookup to_lower ◌==◌
resolve_table_exact_example =
    resolve_table_exact sample (codes "DATES") dates (plain_table dates) sample_unique refl refl
