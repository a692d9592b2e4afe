-- ===== src/Join/Path/Shortest.antt =====
-- What bfsJoin returns (semantic/join.go): a shortest chain from the join tree to the table, or the
-- error that there is none.
use mathlib.Core.Option.{some-injective}
use dux.Base.{
  ℕ, zero, suc, ◌*◌, ◌≤◌, true, Option, none, some, List, [], ◌∷◌, Text, length, ◌≡◌, ◌≢◌, refl,
  sym, ◌∙◌, ap, Memᴰ, arith, ◌⊎◌, inl, inr, Option-cases, Bool-cases, List-cases, subst,
}
use dux.Result.{Error, Result, ok, err, Result-cases, no_path}
use dux.Schema.{Schema, Relationship}
use dux.Join.{JoinStep, table_names_match, resolve_table_strict, resolve_table_matches, strict}
use dux.Join.Path.{
  SearchState, Frontier, direction, offer, follow, expand, round, search, outcome, any_match,
  initial, weight, levels, bfs_join,
}
use dux.Join.Path.Chain.{Chain, start}
use dux.Join.Path.Settled.{Settled, search-Settled, Bfs-initial, IsSound-initial, Chain-bound}

-- No error of the loop is the one at the end of bfsJoin.
module _ (schema : Schema) (first to a b : Text) where
  resolve-ne-no_path : (n : Text) → resolve_table_strict schema n ≢ err (no_path a b)
  unfolding resolve_table_strict strict
  resolve-ne-no_path n h = elim (List-cases (resolve_table_matches schema n)) [
    | inl none_left ↦ ground arith
    | inr (x, [], f) ↦ ground arith
    | inr (x, y ∷ rest, f) ↦ ground arith
  ]

  follow-ne-no_path :
      (curr : SearchState) (rel : Relationship) (fr : Frontier)
      → follow schema first to curr rel fr ≢ err (no_path a b)
  unfolding follow offer
  follow-ne-no_path curr rel fr h = elim (Option-cases (direction curr.table rel)) [
    | inl idle ↦ absurd (ground arith)
    | inr (hop, turn) ↦ elim (Result-cases (resolve_table_strict schema hop.next_raw)) [
      | inr (error, f) ↦ resolve-ne-no_path hop.next_raw (ground arith)
      | inl (next, f) ↦ ground arith
    ]
  ]

  expand-ne-no_path :
      (curr : SearchState) (rels : List Relationship) (fr : Frontier)
      → expand schema first to curr rels fr ≢ err (no_path a b)
  unfolding expand
  expand-ne-no_path curr [] fr h = absurd (ground arith)
  expand-ne-no_path curr (rel ∷ rels) fr h =
      elim (Result-cases (follow schema first to curr rel fr)) [
        | inr (x, f) ↦ follow-ne-no_path curr rel fr (ground arith)
        | inl (fr1, f) ↦ expand-ne-no_path curr rels fr1 (ground arith)
      ]

  round-ne-no_path :
      (curr : SearchState) (fr : Frontier) → round schema first to curr fr ≢ err (no_path a b)
  unfolding round
  round-ne-no_path curr fr h = expand-ne-no_path curr schema.relationships fr (ground arith)

  search-ne-no_path :
      (fuel : ℕ) (fr : Frontier) → search schema first to fuel fr ≢ some (err (no_path a b))
  unfolding search
  search-ne-no_path zero fr h = elim (List-cases fr.queue) [
    | inl empty ↦ absurd (ground arith)
    | inr (x, rest, q) ↦ absurd (ground arith)
  ]
  search-ne-no_path (suc fuel) fr h = elim (List-cases fr.queue) [
    | inl empty ↦ absurd (ground arith)
    | inr (curr, rest, q) ↦
        elim (Result-cases (round schema first to curr (record fr { queue = rest }))) [
          | inr (x, f) ↦ round-ne-no_path curr (record fr { queue = rest }) (ground arith)
          | inl (fr1, f) ↦ search-ne-no_path fuel fr1 (ground arith)
        ]
  ]

pub Option-Result-cases {ℓ} :
    {A : Type ℓ} (o : Option (Result A))
    → (o ≡ none) ⊎ ((a : A) × (o ≡ some (ok a))) ⊎ ((e : Error) × (o ≡ some (err e)))
Option-Result-cases none = inl refl
Option-Result-cases (some (ok a)) = inr (inl (a, refl))
Option-Result-cases (some (err e)) = inr (inr (e, refl))

module _ (schema : Schema) (first : Text) (rest : List Text) (to : Text) where
  abbrev from : List Text
  from = first ∷ rest

  abbrev rounds : ℕ
  rounds = length from * weight (length schema.relationships) (levels schema from)

  abbrev run : Option (Result Frontier)
  run = search schema first to rounds (initial from)

  settled : (fr : Frontier) → run ≡ some (ok fr) → Settled schema first to from fr
  settled fr e =
      search-Settled schema first to from _ 0 (initial from) fr (Bfs-initial schema first to from)
        (IsSound-initial schema first to from) e

  source_of_match :
      (from' : List Text)
      → any_match from' to ≡ true
      → (t : Text) × Memᴰ t from' × (table_names_match t to ≡ true)
  unfolding any_match
  source_of_match [] h = absurd (ground arith)
  source_of_match (t ∷ from') h = elim (Bool-cases (table_names_match t to)) [
    | inl m ↦ (t, Memᴰ.head refl, m)
    | inr m ↦ let (u, n, k) = source_of_match from' (ground arith) in (u, Memᴰ.tail n, k)
  ]

  shortest_from :
      (p : List JoinStep)
      → bfs_join schema from to ≡ some (ok p)
      → ((t : Text) × Chain schema from t p × (table_names_match t to ≡ true))
        × ((t : Text) (q : List JoinStep)
            → Chain schema from t q
            → table_names_match t to ≡ true
            → length p ≤ length q)
  unfolding bfs_join outcome
  shortest_from p h = elim (Bool-cases (any_match from to)) [
    | inl at_once ↦
        let (t, m, k) = source_of_match from at_once in
        let same : [] ≡ p = ground arith in
        (
          (t, subst (Chain schema from t) same (start m), k),
          λ u q c n. omega (arith, ap (length {A = JoinStep}) same),
        )
    | inr away ↦ elim (Option-Result-cases run) [
      | inl e ↦ absurd (ground arith)
      | inr (inr (error, e)) ↦ absurd (ground arith)
      | inr (inl (fr, e)) ↦
          let s = settled fr e in
          let found : fr.found ≡ some p = elim (Option-cases fr.found) [
            | inl missing ↦ absurd (ground arith)
            | inr (p', f) ↦ ground arith
          ] in
          (
            s.sound.found p found,
            λ t q c m. elim (Chain-bound schema first to from fr s away c) [
              | inl (p', f, le) ↦
                  omega (arith, ap (length {A = JoinStep}) (some-injective _ _ (sym f ∙ found)))
              | inr (no_match, _) ↦ absurd (cc)
            ],
          )
    ]
  ]

  no_path_from :
      (a b t : Text) (q : List JoinStep)
      → bfs_join schema from to ≡ some (err (no_path a b))
      → Chain schema from t q
      → table_names_match t to ≢ true
  unfolding bfs_join outcome
  no_path_from a b t q h c m = elim (Bool-cases (any_match from to)) [
    | inl at_once ↦ ground arith
    | inr away ↦ elim (Option-Result-cases run) [
      | inl e ↦ ground arith
      | inr (inr (error, e)) ↦
          search-ne-no_path schema first to a b rounds (initial from) (ground arith)
      | inr (inl (fr, e)) ↦ elim (Chain-bound schema first to from fr (settled fr e) away c) [
        | inl (p, f, le) ↦ ground arith
        | inr (no_match, _) ↦ cc
      ]
    ]
  ]

-- A path that bfsJoin returns is a chain of relationships from the join tree to a table that
-- matches `to`, and no chain from the join tree to a table that matches `to` is shorter.
pub bfs_join-shortest :
    (schema : Schema) (from : List Text) (to : Text) (p : List JoinStep)
    → bfs_join schema from to ≡ some (ok p)
    → ((t : Text) × Chain schema from t p × (table_names_match t to ≡ true))
      × ((t : Text) (q : List JoinStep)
          → Chain schema from t q
          → table_names_match t to ≡ true
          → length p ≤ length q)
bfs_join-shortest schema [] to p h = absurd (unfold bfs_join in ground arith)
bfs_join-shortest schema (first ∷ rest) to p h = shortest_from schema first rest to p h

-- When bfsJoin reports that there is no path, no chain of relationships leads from the join tree
-- to a table that matches `to`.
pub bfs_join-no_path :
    (schema : Schema) (from : List Text) (to a b t : Text) (q : List JoinStep)
    → bfs_join schema from to ≡ some (err (no_path a b))
    → Chain schema from t q
    → table_names_match t to ≢ true
bfs_join-no_path schema [] to a b t q h c = absurd (unfold bfs_join in ground arith)
bfs_join-no_path schema (first ∷ rest) to a b t q h c =
    no_path_from schema first rest to a b t q h c
