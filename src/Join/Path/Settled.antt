-- ===== src/Join/Path/Settled.antt =====
-- The frontier that the loop of bfsJoin (semantic/join.go) leaves when its queue is empty.
use mathlib.Core.List.Memᴰ
use dux.Base.{
  ℕ, zero, suc, ◌≤◌, false, some, List, [], ◌∷◌, Text, to_lower, lookup, length, ◌≡◌, refl, sym,
  ◌∙◌, ap, Memᴰ, arith, ◌⊎◌, inl, inr, length-append, Bool-cases, List-cases, subst, eq_iff,
  lookup-insert, ◌==◌,
}
use dux.Result.{ok, Result-cases}
use dux.Schema.{Schema}
use dux.Join.{JoinStep, table_names_match}
use dux.Join.Path.{
  SearchState, Frontier, step_to, round, search, any_match, depth_zero, sources, initial,
}
use dux.Join.Path.Chain.{Chain, start, extend}
use dux.Join.Path.Pass.{Layered, FoundWithin}
use dux.Join.Path.Sound.{IsSound, round-IsSound}
use dux.Join.Path.Loop.{Bfs, round-Bfs}

Layered-sources : (from : List Text) → Layered 0 (sources from)
unfolding sources
Layered-sources [] = tt
Layered-sources (t ∷ from) = inl (refl, Layered-sources from)

depth_zero-eq : (from : List Text) (k : Text) (d : ℕ) → lookup k (depth_zero from) ≡ some d → d ≡ 0
unfolding depth_zero lookup
depth_zero-eq [] k d e = cc
depth_zero-eq (t ∷ from) k d e =
    ground (arith, lookup-insert (to_lower t) k 0 (depth_zero from), depth_zero-eq from k d)

depth_zero_of_mem :
    (from : List Text) (t : Text) → Memᴰ t from → lookup (to_lower t) (depth_zero from) ≡ some 0
unfolding depth_zero
depth_zero_of_mem [] t m = absurd (Memᴰ.not-nil m)
depth_zero_of_mem (u ∷ from) t (Memᴰ.head e) = ground (
  arith,
  lookup-insert (to_lower u) (to_lower t) 0 (depth_zero from),
  eq_iff (to_lower u) (to_lower t),
  e,
)
depth_zero_of_mem (u ∷ from) t (Memᴰ.tail m) =
    ground (
      arith,
      lookup-insert (to_lower u) (to_lower t) 0 (depth_zero from),
      depth_zero_of_mem from t m,
    )

-- A key with a depth is that of a source, which is in the queue.
depth_zero-mem :
    (from : List Text) (k : Text) (d : ℕ)
    → lookup k (depth_zero from) ≡ some d
    → (e : SearchState) × Memᴰ e (sources from) × (to_lower e.table ≡ k)
unfolding depth_zero sources lookup
depth_zero-mem [] k d e = absurd (ground arith)
depth_zero-mem (t ∷ from) k d e = elim (Bool-cases (to_lower t == k)) [
  | inl this ↦ (record { table = t; steps = [] }, Memᴰ.head refl, (eq_iff (to_lower t) k).0 this)
  | inr other ↦
      let (x, m, same) =
        depth_zero-mem from k d
          (ground (arith, lookup-insert (to_lower t) k 0 (depth_zero from))) in
      (x, Memᴰ.tail m, same)
]

pub mem-sources :
    (from : List Text) (e : SearchState)
    → Memᴰ e (sources from)
    → Memᴰ e.table from × (e.steps ≡ [])
unfolding sources
mem-sources from e m =
    let (t, m', same) = Memᴰ.of_map _ from m in
    (
      subst (λ (x : SearchState). Memᴰ x.table from) same m',
      ap (λ (x : SearchState). x.steps) (sym same),
    )

module _ (schema : Schema) (first to : Text) (from : List Text) where
  pub Bfs-initial : Bfs schema first to from 0 (initial from)
  unfolding initial
  Bfs-initial = record {
    layered = Layered-sources from;
    bounded = λ k d e. omega (arith, depth_zero-eq from k d e);
    matched = λ e m.
        let (t, s) = mem-sources from e m in
        depth_zero_of_mem from e.table t ∙ ap (λ l. some (length l)) (sym s);
    explored = λ t d e. inl (depth_zero-mem from (to_lower t) d e);
    sources = λ t m. depth_zero_of_mem from t m;
  }

  pub IsSound-initial : IsSound schema first to from (initial from)
  unfolding initial
  IsSound-initial = record {
    queue = λ e m.
        let (t, s) = mem-sources from e m in subst (Chain schema from e.table) (sym s) (start t);
    found = λ p e. absurd (ground arith);
  }

  -- The frontier that the loop leaves.
  pub record Settled (fr : Frontier) : Type 0 where
    pub depth : ℕ
    pub bfs : Bfs schema first to from depth fr
    pub sound : IsSound schema first to from fr
    pub empty : fr.queue ≡ []

  pub search-Settled :
      (fuel c : ℕ) (fr fr' : Frontier)
      → Bfs schema first to from c fr
      → IsSound schema first to from fr
      → search schema first to fuel fr ≡ some (ok fr')
      → Settled fr'
  unfolding search
  search-Settled zero c fr fr' b s h = elim (List-cases fr.queue) [
    | inl e ↦
        let same : fr ≡ fr' = ground arith in
        subst Settled same (record { depth = c; bfs = b; sound = s; empty = e })
    | inr (x, rest, e) ↦ absurd (ground arith)
  ]
  search-Settled (suc fuel) c fr fr' b s h = elim (List-cases fr.queue) [
    | inl e ↦
        let same : fr ≡ fr' = ground arith in
        subst Settled same (record { depth = c; bfs = b; sound = s; empty = e })
    | inr (curr, rest, e) ↦
        elim (Result-cases (round schema first to curr (record fr { queue = rest }))) [
          | inr (error, f) ↦ absurd (ground arith)
          | inl (fr1, f) ↦
              search-Settled fuel (length curr.steps) fr1 fr'
                (round-Bfs schema first to from c curr rest fr fr1 e b f)
                (round-IsSound schema first to from curr rest fr fr1 e s f) (ground arith)
        ]
  ]

  any_match-none :
      (t : Text) (from' : List Text)
      → any_match from' to ≡ false
      → Memᴰ t from'
      → table_names_match t to ≡ false
  unfolding any_match
  any_match-none t [] h m = absurd (Memᴰ.not-nil m)
  any_match-none t (u ∷ from') h (Memᴰ.head e) = ground (arith, ap (λ x. table_names_match x to) e)
  any_match-none t (u ∷ from') h (Memᴰ.tail m) = any_match-none t from' (ground arith) m

  -- After the loop each chain is no shorter than the path found, or its end has a depth that is no
  -- greater than its length.
  pub Chain-bound :
      (fr : Frontier) {t : Text} {q : List JoinStep}
      → Settled fr
      → any_match from to ≡ false
      → Chain schema from t q
      → FoundWithin schema first to (length q) fr
        ⊎ ((table_names_match t to ≡ false)
            × ((d : ℕ) × (lookup (to_lower t) fr.best_depth ≡ some d) × (d ≤ length q)))
  Chain-bound fr {t = t} s away (start m) =
      inr (any_match-none t from away m, (0, s.bfs.sources t m, omega arith))
  Chain-bound fr s away (extend {t} {steps} rel hop next ch r l) =
      let long = length-append steps (step_to t rel hop next ∷ []) in
      elim (Chain-bound fr s away ch) [
        | inl (p, e, le) ↦ inl (p, e, omega arith)
        | inr (no_match, (d, e, le)) ↦ elim (s.bfs.explored t d e) [
          | inl (x, m, same) ↦ absurd (Memᴰ.not-nil (subst (Memᴰ x) s.empty m))
          | inr (inl (p, f, le')) ↦ inl (p, f, omega arith)
          | inr (inr cover) ↦ elim (Bool-cases (table_names_match next to)) [
            | inl m ↦ let (p, f, le') = (cover rel r).hit hop next l m in inl (p, f, omega arith)
            | inr m ↦
                let (d', f, le') = (cover rel r).other hop next l m in inr (m, (d', f, omega arith))
          ]
        ]
      ]
