-- ===== src/Join/Leaf.antt =====
-- LeafEdge (semantic/join.go): the one step that attaches a table.
use dux.Base.{
  false, none, some, List, [], ◌∷◌, Text, ◌≡◌, refl, ◌↔◌, arith, inl, inr, Bool-cases,
  if◌then◌else◌, All,
}
use dux.Schema.{Schema}
use dux.Join.{JoinStep, JoinPath, table_names_match, resolve_table, leaf_loop, leaf_edge}

-- The steps that join a table of that name.
pub arrivals : Text → List JoinStep → List JoinStep
arrivals table [] = []
arrivals table (step ∷ steps) =
    let rest = arrivals table steps in
    if table_names_match step.table table then step ∷ rest else rest

-- No step starts at a table of that name.
abbrev pub IsNoSource : Text → List JoinStep → Type 0
IsNoSource table = All (λ (step : JoinStep). table_names_match step.from_table table ≡ false)

leaf_loop-some :
    (table : Text) (x : JoinStep) (steps : List JoinStep) (e : JoinStep)
    → (leaf_loop table (some x) steps ≡ some e)
      ↔ (IsNoSource table steps × (arrivals table steps ≡ []) × (x ≡ e))
unfolding leaf_loop arrivals
leaf_loop-some table x [] e = (λ h. (tt, refl, ground arith), λ h. ground arith)
leaf_loop-some table x (step ∷ steps) e =
    elim (Bool-cases (table_names_match step.from_table table)) [
      | inl from ↦ (λ h. absurd (ground arith), λ h. absurd (ground (arith, h.0.0)))
      | inr not_from ↦ elim (Bool-cases (table_names_match step.table table)) [
        | inl to ↦ (λ h. absurd (ground arith), λ h. absurd (ground (arith, h.1)))
        | inr not_to ↦
            let ih = leaf_loop-some table x steps e in
            (
              λ h. let (a, b, c) = ih.0 (ground arith) in ((not_from, a), ground arith, c),
              λ h. let back = ih.1 (h.0.1, ground (arith, h.1), h.2) in ground arith,
            )
      ]
    ]

leaf_loop-none :
    (table : Text) (steps : List JoinStep) (e : JoinStep)
    → (leaf_loop table none steps ≡ some e)
      ↔ (IsNoSource table steps × (arrivals table steps ≡ e ∷ []))
unfolding leaf_loop arrivals
leaf_loop-none table [] e = (λ h. absurd (ground arith), λ h. absurd (ground (arith, h.1)))
leaf_loop-none table (step ∷ steps) e =
    elim (Bool-cases (table_names_match step.from_table table)) [
      | inl from ↦ (λ h. absurd (ground arith), λ h. absurd (ground (arith, h.0.0)))
      | inr not_from ↦ elim (Bool-cases (table_names_match step.table table)) [
        | inl to ↦
            let after = leaf_loop-some table step steps e in
            (
              λ h. let (a, b, c) = after.0 (ground arith) in ((not_from, a), ground arith),
              λ h.
                  let parts : step ∷ arrivals table steps ≡ e ∷ [] = ground (arith, h.1) in
                  let back = after.1 (h.0.1, cc, cc) in ground arith,
            )
        | inr not_to ↦
            let ih = leaf_loop-none table steps e in
            (
              λ h. let (a, b) = ih.0 (ground arith) in ((not_from, a), ground arith),
              λ h. let back = ih.1 (h.0.1, ground (arith, h.1)) in ground arith,
            )
      ]
    ]

-- LeafEdge returns a step exactly when no step of the path starts at the resolved table and that
-- step is the only one that joins it.
pub leaf_edge_iff :
    (p : JoinPath) (schema : Schema) (table : Text) (e : JoinStep)
    → (leaf_edge p schema table ≡ some e) ↔ (
        IsNoSource (resolve_table schema table) p.steps
        × (arrivals (resolve_table schema table) p.steps ≡ e ∷ []))
unfolding leaf_edge
leaf_edge_iff p schema table e = leaf_loop-none (resolve_table schema table) p.steps e
