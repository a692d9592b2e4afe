-- ===== src/Join/Path/Total.antt =====
-- bfsJoin always returns (semantic/join.go): its fuel is enough.
use mathlib.Core.List.Memᴰ
use native.Mathlib.Decide.{dec_lt}
use dux.Base.{
  ◌≢◌, ℕ, zero, suc, ◌+◌, ◌*◌, ◌-◌, ◌≤◌, some, List, [], ◌∷◌, ◌++◌, Text, to_lower, length, ◌≡◌,
  refl, ◌∙◌, ap, Memᴰ, arith, ◌⊎◌, inl, inr, length-append, Option-cases, Bool-cases, List-cases,
  map,
}
use dux.Result.{Result, ok, err, Result-cases, no_path}
use dux.Schema.{Schema}
use dux.Join.{JoinStep}
use dux.Join.Path.{
  SearchState, Frontier, is_late, round, search, outcome, any_match, initial, sources, weight,
  levels, bfs_join,
}
use dux.Join.Path.Loop.{Bfs, round-Bfs, round-best}
use dux.Join.Path.Settled.{Bfs-initial, mem-sources}
use dux.Join.Path.Levels.{shallow-le, Levels, le-shallow, potential}
use dux.Join.Path.Ends.{expand-queue}
use dux.Join.Reach.{ends}
use dux.Join.Reach.Ends.{length-ends}

-- The keys of every table that bfsJoin can meet.
abbrev keys : Schema → List Text → List Text
keys schema from = map to_lower from ++ ends schema schema.relationships

length-lower : (from : List Text) → length (map to_lower from) ≡ length from
length-lower [] = refl
length-lower (t ∷ from) = ap suc (length-lower from)

length-keys : (schema : Schema) (from : List Text) → length (keys schema from) ≡ levels schema from
unfolding levels
length-keys schema from = omega (
  arith,
  length-append (map to_lower from) (ends schema schema.relationships),
  length-lower from,
  length-ends schema schema.relationships,
)

potential-sources :
    (r n : ℕ) (from : List Text) → potential r n (sources from) ≡ length from * weight r n
unfolding potential sources
potential-sources r n [] = omega arith
potential-sources r n (t ∷ from) =
    let whole : n - 0 ≡ n = omega arith in
    omega (arith, potential-sources r n from, ap (weight r) whole)

module _ (schema : Schema) (first to : Text) (from : List Text) where
  -- Every level up to that of a state in the queue has a key.
  Deep : Frontier → Type 0
  Deep fr =
      (e : SearchState)
      → Memᴰ e fr.queue
      → Levels fr.best_depth (keys schema from) (suc (length e.steps))

  abbrev size : ℕ
  size = length schema.relationships

  abbrev height : ℕ
  height = levels schema from

  abbrev load : List SearchState → ℕ
  load = potential size height

  -- A state that a round adds is one level below the state that left the queue.
  round-queue :
      (curr : SearchState) (rest : List SearchState) (fr fr' : Frontier)
      → round schema first to curr (record fr { queue = rest }) ≡ ok fr'
      → ((e : SearchState)
          → Memᴰ e fr'.queue
          → Memᴰ e rest
            ⊎ Memᴰ (to_lower e.table) (ends schema schema.relationships)
              × (length e.steps ≡ suc (length curr.steps)))
        × (load fr'.queue ≤ load rest + size * weight size (height - suc (length curr.steps)))
  unfolding round
  round-queue curr rest fr fr' h = elim (Bool-cases (is_late fr.found (length curr.steps))) [
    | inl late ↦
        let same : rest ≡ fr'.queue = ground arith in rw (← same) (λ e m. inl m, omega arith)
    | inr early ↦
        expand-queue schema first to size height curr schema.relationships
          (record fr { queue = rest }) fr' (λ r m. m) (ground arith)
  ]

  round-Deep :
      (c : ℕ) (curr : SearchState) (rest : List SearchState) (fr fr' : Frontier)
      → fr.queue ≡ curr ∷ rest
      → Bfs schema first to from c fr
      → Deep fr
      → round schema first to curr (record fr { queue = rest }) ≡ ok fr'
      → Deep fr'
  unfolding Deep
  round-Deep c curr rest fr fr' q b deep h e m j lt =
      let best = round-best schema first to from c curr rest fr fr' q b h in
      elim ((round-queue curr rest fr fr' h).0 e m) [
        | inl old ↦ let (k, i, f) = deep e (rw q (Memᴰ.tail old)) j lt in (k, i, best k j f)
        | inr (near, below) ↦ elim (dec_lt j (suc (length curr.steps))) [
          | yes less ↦
              let (k, i, f) = deep curr (rw q (Memᴰ.head refl)) j less in (k, i, best k j f)
          | no more ↦
              let b' = round-Bfs schema first to from c curr rest fr fr' q b h in
              let at : length e.steps ≡ j = omega arith in
              (
                to_lower e.table,
                Memᴰ.append_right (map to_lower from) near,
                b'.matched e m ∙ ap some at,
              )
        ]
      ]

  -- The head of the queue outweighs all that its round can add.
  head_weight :
      (fr : Frontier) (curr : SearchState) (rest : List SearchState)
      → Deep fr
      → fr.queue ≡ curr ∷ rest
      → weight size (height - length curr.steps)
        ≡ suc (size * weight size (height - suc (length curr.steps)))
  unfolding weight Deep
  head_weight fr curr rest deep q =
      let held = deep curr (rw q (Memᴰ.head refl)) in
      let below = le-shallow fr.best_depth (keys schema from) (suc (length curr.steps)) held in
      let room : suc (length curr.steps) ≤ height = omega (
        arith,
        below,
        shallow-le fr.best_depth (keys schema from) (suc (length curr.steps)),
        length-keys schema from,
      ) in
      let next : height - length curr.steps ≡ suc (height - suc (length curr.steps)) =
        omega arith in
      rw next refl

  search_ends :
      (fuel c : ℕ) (fr : Frontier)
      → Bfs schema first to from c fr
      → Deep fr
      → load fr.queue ≤ fuel
      → (r : Result Frontier) × (search schema first to fuel fr ≡ some r)
  unfolding search potential
  search_ends zero c fr b deep n = elim (List-cases fr.queue) [
    | inl e ↦ (ok fr, ground arith)
    | inr (curr, rest, e) ↦ absurd (spent curr rest e)
  ]
    where
      spent : (curr : SearchState) (rest : List SearchState) → fr.queue ≡ curr ∷ rest → ⊥
      spent curr rest e = omega (arith, head_weight fr curr rest deep e, ap load e)
  search_ends (suc fuel) c fr b deep n = elim (List-cases fr.queue) [
    | inl e ↦ (ok fr, ground arith)
    | inr (curr, rest, e) ↦
        elim (Result-cases (round schema first to curr (record fr { queue = rest }))) [
          | inr (error, f) ↦ (err error, ground arith)
          | inl (fr1, f) ↦
              let (r, done) =
                search_ends fuel (length curr.steps) fr1
                  (round-Bfs schema first to from c curr rest fr fr1 e b f)
                  (round-Deep c curr rest fr fr1 e b deep f)
                  (omega (
                    arith,
                    head_weight fr curr rest deep e,
                    ap load e,
                    (round-queue curr rest fr fr1 f).1,
                  )) in
              (r, ground arith)
        ]
  ]

Deep-initial :
    (schema : Schema) (first to : Text) (from : List Text)
    → Deep schema first to from (initial from)
unfolding Deep initial
Deep-initial schema first to from e m j lt =
    let (t, s) = mem-sources from e m in
    let at = (Bfs-initial schema first to from).matched e m in
    let top : length e.steps ≡ j = omega (arith, ap (length {A = JoinStep}) s) in
    (
      to_lower e.table,
      Memᴰ.append_left (ends schema schema.relationships) (Memᴰ.map to_lower t),
      at ∙ ap some top,
    )

outcome-total :
    (schema : Schema) (first to : Text) (r : Result Frontier)
    → (r' : Result (List JoinStep)) × (outcome schema first to (some r) ≡ some r')
unfolding outcome
outcome-total schema first to (err e) = (err e, refl)
outcome-total schema first to (ok fr) = elim (Option-cases fr.found) [
  | inl missing ↦ (err (no_path first to), ground arith)
  | inr (p, found) ↦ (ok p, ground arith)
]

-- bfsJoin always returns, a path or an error, whatever the schema and the table, where the join
-- tree has a table.
pub bfs_join-total :
    (schema : Schema) (from : List Text) (to : Text)
    → from ≢ []
    → (r : Result (List JoinStep)) × (bfs_join schema from to ≡ some r)
unfolding bfs_join initial
bfs_join-total schema [] to some' = absurd (some' refl)
bfs_join-total schema (first ∷ rest) to some' = elim (Bool-cases (any_match (first ∷ rest) to)) [
  | inl at_once ↦ (ok [], rw at_once refl)
  | inr away ↦
      let from = first ∷ rest in
      let (r, runs) =
        search_ends schema first to from
          (length from * weight (length schema.relationships) (levels schema from)) 0 (initial from)
          (Bfs-initial schema first to from) (Deep-initial schema first to from)
          (omega
            (arith, potential-sources (length schema.relationships) (levels schema from) from)) in
      let (r', e) = outcome-total schema first to r in (r', ground arith)
]
