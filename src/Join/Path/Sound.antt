-- ===== src/Join/Path/Sound.antt =====
-- What bfsJoin (semantic/join.go) holds in its queue, and what it finds, are chains from the join
-- tree.
use dux.Base.{
  true, some, List, [], ◌∷◌, Text, length, ◌≡◌, refl, Memᴰ, Memᴰ-concat, arith, inl, inr,
  Bool-cases, subst,
}
use dux.Result.{ok, Result-cases, ok-injective}
use dux.Schema.{Schema, Relationship}
use dux.Join.{JoinStep, table_names_match}
use dux.Join.Path.{SearchState, Frontier, is_late, follow, expand, round}
use dux.Join.Path.Chain.{Chain, extend}
use dux.Join.Path.Pass.{Followed, follow-Followed}

module _ (schema : Schema) (first to : Text) (from : List Text) where
  -- The states and the path found are chains from the join tree.
  pub record IsSound (fr : Frontier) : Type 0 where
    pub queue : (e : SearchState) → Memᴰ e fr.queue → Chain schema from e.table e.steps
    pub found :
        (p : List JoinStep)
        → fr.found ≡ some p
        → (t : Text) × Chain schema from t p × (table_names_match t to ≡ true)

  follow-IsSound :
      (curr : SearchState) (rel : Relationship) (fr fr' : Frontier)
      → Chain schema from curr.table curr.steps
      → Memᴰ rel schema.relationships
      → IsSound fr
      → Followed schema first to curr rel fr fr'
      → IsSound fr'
  follow-IsSound curr rel fr fr' ch r s (Followed.idle e) = s
  follow-IsSound curr rel fr fr' ch r s (Followed.worse hop next l m w) = s
  follow-IsSound curr rel fr fr' ch r s (Followed.reached hop next l m fine) = record {
    queue = s.queue;
    found = λ p e. (next, subst (Chain schema from next) (cc) (extend rel hop next ch r l), m);
  }
  follow-IsSound curr rel fr fr' ch r s (Followed.entered hop next l m w) = record {
    queue = λ e q. elim ((Memᴰ-concat e _ fr.queue).0 q) [
      | inl old ↦ s.queue e old
      | inr this ↦ rw this (extend rel hop next ch r l)
    ];
    found = s.found;
  }

  expand-IsSound :
      (curr : SearchState) (rels : List Relationship) (fr fr' : Frontier)
      → Chain schema from curr.table curr.steps
      → ((rel : Relationship) → Memᴰ rel rels → Memᴰ rel schema.relationships)
      → IsSound fr
      → expand schema first to curr rels fr ≡ ok fr'
      → IsSound fr'
  unfolding expand
  expand-IsSound curr [] fr fr' ch within s h = subst IsSound (ok-injective h) s
  expand-IsSound curr (rel ∷ rels) fr fr' ch within s h =
      elim (Result-cases (follow schema first to curr rel fr)) [
        | inr (e, f) ↦ absurd (ground arith)
        | inl (fr1, f) ↦
            expand-IsSound curr rels fr1 fr' ch (λ r m. within r (Memᴰ.tail m))
              (follow-IsSound curr rel fr fr1 ch (within rel (Memᴰ.head refl)) s
                (follow-Followed schema first to curr rel fr fr1 f))
              (ground arith)
      ]

  pub round-IsSound :
      (curr : SearchState) (rest : List SearchState) (fr fr' : Frontier)
      → fr.queue ≡ curr ∷ rest
      → IsSound fr
      → round schema first to curr (record fr { queue = rest }) ≡ ok fr'
      → IsSound fr'
  unfolding round
  round-IsSound curr rest fr fr' q s h =
      let s' : IsSound (record fr { queue = rest }) = record {
        queue = λ e m. s.queue e (rw q (Memᴰ.tail m));
        found = s.found;
      } in
      elim (Bool-cases (is_late fr.found (length curr.steps))) [
        | inl late ↦ subst IsSound (ground arith) s'
        | inr early ↦
            expand-IsSound curr schema.relationships (record fr { queue = rest }) fr'
              (s.queue curr (rw q (Memᴰ.head refl))) (λ r m. m) s' (ground arith)
      ]
