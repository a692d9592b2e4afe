-- ===== src/Join/Path/Chain.antt =====
-- Chains of relationships: the paths that bfsJoin (semantic/join.go) looks for.
use mathlib.Core.Option.{some-injective}
use dux.Base.{some, List, [], ◌∷◌, ◌++◌, Text, to_lower, ◌≡◌, sym, ◌∙◌, ap, Memᴰ}
use dux.Result.{ok, ok-injective}
use dux.Schema.{Schema, Relationship}
use dux.Join.{JoinStep, table_names_match, resolve_table_strict}
use dux.Join.Path.{Hop, direction, step_to}

module _ (schema : Schema) where
  -- A relationship leads from a table to another.
  pub record Leads (t : Text) (rel : Relationship) (hop : Hop) (next : Text) : Type 0 where
    pub turns : direction t rel ≡ some hop
    pub resolves : resolve_table_strict schema hop.next_raw ≡ ok next

  pub Leads-unique :
      {t : Text} {rel : Relationship} {hop hop' : Hop} {next next' : Text}
      → Leads t rel hop next
      → Leads t rel hop' next'
      → (hop ≡ hop') × (next ≡ next')
  Leads-unique a b =
      let same = some-injective _ _ (sym a.turns ∙ b.turns) in
      (
        same,
        ok-injective
            (sym a.resolves ∙ ap (λ h. resolve_table_strict schema h.next_raw) same ∙ b.resolves),
      )

  -- Only the lower-cased name of a table decides where a relationship leads from it.
  direction_congruent :
      (t u : Text) (rel : Relationship)
      → to_lower t ≡ to_lower u
      → direction t rel ≡ direction u rel
  unfolding direction table_names_match
  direction_congruent t u rel e = rw e

  pub Leads-congruent :
      (t u : Text) {rel : Relationship} {hop : Hop} {next : Text}
      → to_lower t ≡ to_lower u
      → Leads t rel hop next
      → Leads u rel hop next
  Leads-congruent t u {rel = rel} e l = record {
    turns = sym (direction_congruent t u rel e) ∙ l.turns;
    resolves = l.resolves;
  }

  -- Join steps that follow the relationships one after the other from a table of `from`.
  pub data Chain (from : List Text) : Text → List JoinStep → Type 0 where
    start : {t : Text} → Memᴰ t from → Chain from t []
    extend :
        {t : Text} {steps : List JoinStep} (rel : Relationship) (hop : Hop) (next : Text)
        → Chain from t steps
        → Memᴰ rel schema.relationships
        → Leads t rel hop next
        → Chain from next (steps ++ step_to t rel hop next ∷ [])
