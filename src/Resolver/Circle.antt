-- ===== src/Resolver/Circle.antt =====
-- The error of a circular reference in resolveMeasures (semantic/resolver.go).
use mathlib.Core.List.Memᴰ
use dux.Base.{
  ℕ, zero, suc, true, Option, none, some, List, [], ◌∷◌, ◌++◌, Text, ◌==◌, ◌≡◌, ◌≢◌, refl, sym, ◌∙◌,
  ◌⊎◌, inl, inr, Bool-cases, Option-cases, arith, length, subst, Memᴰ, Memᴰ-cons, mem, to_lower,
}
use dux.Ast.{ColRef, MeasureDefinition}
use dux.Result.{Error, ok, err, Result-cases, circular_measure}
use dux.Names.{strip_brackets, strip_single_quotes}
use dux.Schema.{find_column}
use dux.Measures.{Measures, find_measure, find_measure_by_name, scan_tables}
use dux.Resolver.{
  Resolver, State, Outcome, refer, measure_ref, visit_ref, resolve_col_ref, column_ref, has, enter,
  left, and_then, visit, visit_all, stored, resolve_measures, resolve_measure_expr,
}
use dux.Resolver.Walk.{col_refs, visit_refs, resolve_measure_expr-col_refs}
use dux.Resolver.Targets.{target, visit_ref-target, target-stored}
use dux.Resolver.Kept.{IsKept, IsKeeping, visit_ref-IsKept, visit-IsKeeping}
use dux.Resolver.Grounded.{Uses, IsPointed, has-mem}

-- The chain of references from the first measure to the second; it may be empty.
pub data Reaches (r : Resolver) (d : MeasureDefinition) : MeasureDefinition → Type 0 where
  here : Reaches r d d
  step : {b c : MeasureDefinition} → Reaches r d b → Uses r b c → Reaches r d c

-- The measure depends on itself.
unfoldable pub IsCircular : Resolver → MeasureDefinition → Type 0
IsCircular r d = (b : MeasureDefinition) × Reaches r d b × Uses r b d

scan_tables-circular :
    (name t c : Text) (all rest : Measures) (found : Option (MeasureDefinition × Text))
    → scan_tables name all rest found ≢ err (circular_measure t c)
unfolding scan_tables
scan_tables-circular name t c all [] none h = absurd (ground arith)
scan_tables-circular name t c all [] (some (d, k)) h = absurd (ground arith)
scan_tables-circular name t c all ((k, defs) ∷ rest) none h =
    elim (Option-cases (find_measure k name all)) [
      | inl missing ↦ scan_tables-circular name t c all rest none (ground arith)
      | inr (d, held) ↦ scan_tables-circular name t c all rest (some (d, k)) (ground arith)
    ]
scan_tables-circular name t c all ((k, defs) ∷ rest) (some (d, j)) h =
    elim (Option-cases (find_measure k name all)) [
      | inl missing ↦ scan_tables-circular name t c all rest (some (d, j)) (ground arith)
      | inr (d', held) ↦ absurd (ground arith)
    ]

module _ (r : Resolver) (v : MeasureDefinition → State → Outcome) (t c : Text) where
  -- A reference that is not a measure is no circle.
  column_ref-circular :
      (cr : ColRef) (st : State) → column_ref r v cr st ≢ some (err (circular_measure t c))
  unfolding column_ref
  column_ref-circular cr st h =
      let found = find_column r.schema (strip_single_quotes cr.table) (strip_brackets cr.column) in
      elim (Option-cases found.column) [
        | inl missing ↦ absurd (ground arith)
        | inr (d, held) ↦ elim (Bool-cases (found.column_key == [])) [
          | inl empty ↦ absurd (ground arith)
          | inr named ↦ absurd (ground arith)
        ]
      ]

  visit_ref-circular :
      (cr : ColRef) (st : State)
      → target r cr ≡ none
      → visit_ref r v cr st ≢ some (err (circular_measure t c))
  unfolding visit_ref target resolve_col_ref find_measure_by_name
  visit_ref-circular cr st gone h =
      let name = strip_brackets cr.column in
      elim (Bool-cases (cr.table == [])) [
        | inl bare ↦ elim (Result-cases (find_measure_by_name name r.local_measures)) [
          | inl (none, e) ↦ absurd (ground arith)
          | inl (some d, e) ↦ absurd (ground arith)
          | inr (e, bad) ↦
              scan_tables-circular name t c r.local_measures r.local_measures none (ground arith)
        ]
        | inr named ↦
            elim (Bool-cases (mem (to_lower (strip_single_quotes cr.table)) r.var_names)) [
              | inl var ↦ absurd (ground arith)
              | inr not_var ↦ column_ref-circular cr st (ground arith)
            ]
      ]

has-address :
    (x d : MeasureDefinition) (defs : List MeasureDefinition)
    → x.address ≡ d.address
    → has x defs ≡ has d defs
unfolding has
has-address x d [] e = refl
has-address x d (y ∷ defs) e = ground (arith, has-address x d defs e)

and_then-err :
    (o : Outcome) (f : State → Outcome) (e : Error)
    → and_then o f ≡ some (err e)
    → (o ≡ some (err e)) ⊎ ((mid : State) × (o ≡ some (ok mid)) × (f mid ≡ some (err e)))
unfolding and_then
and_then-err none f e h = absurd (ground arith)
and_then-err (some (err x)) f e h = inl h
and_then-err (some (ok mid)) f e h = inr (mid, refl, h)

left-err :
    (d : MeasureDefinition) (o : Outcome) (e : Error) → left d o ≡ some (err e) → o ≡ some (err e)
unfolding left
left-err d none e h = absurd (ground arith)
left-err d (some (err x)) e h = h
left-err d (some (ok mid)) e h = absurd (ground arith)

module _ (r : Resolver) (universe : List MeasureDefinition) (pointed : IsPointed universe)
    (within : (d : MeasureDefinition) → Memᴰ d (stored r.local_measures) → Memᴰ d universe)
    (t c : Text) where
  -- Some measure depends on itself.
  Cycle : Type 0
  Cycle = (d : MeasureDefinition) × IsCircular r d

  -- Every definition that is entered and not resolved leads to `d`.
  Leads : State → MeasureDefinition → Type 0
  Leads st d =
      (x : MeasureDefinition)
      → Memᴰ x st.entered
      → (has x st.resolved ≡ true) ⊎ (Memᴰ x universe × Reaches r x d)

  -- The same for the references to `d`, which is about to be visited.
  Calls : State → MeasureDefinition → Type 0
  Calls st d =
      (x : MeasureDefinition)
      → Memᴰ x st.entered
      → (has x st.resolved ≡ true)
        ⊎ (Memᴰ x universe × ((b : MeasureDefinition) × Reaches r x b × Uses r b d))

  IsBlaming : (MeasureDefinition → State → Outcome) → Type 0
  IsBlaming v =
      (d : MeasureDefinition) (st : State)
      → Memᴰ d universe
      → Calls st d
      → v d st ≡ some (err (circular_measure t c))
      → Cycle

  Leads-IsKept : (st mid : State) (d : MeasureDefinition) → Leads st d → IsKept st mid → Leads mid d
  unfolding Leads IsKept
  Leads-IsKept st mid d leads (k, f) x m = elim (f x m) [
    | inr done ↦ inl done
    | inl before ↦ elim (leads x before) [ inl done ↦ inl (k x done) | inr p ↦ inr p ]
  ]

  visit_refs-Cycle :
      (v : MeasureDefinition → State → Outcome) (d : MeasureDefinition) (crs : List ColRef)
      (st : State)
      → IsKeeping v
      → IsBlaming v
      → ((cr : ColRef) → Memᴰ cr crs → Memᴰ cr (col_refs d.expr))
      → Leads st d
      → visit_refs r v crs st ≡ some (err (circular_measure t c))
      → Cycle
  unfolding visit_refs IsBlaming Leads Calls refer Uses
  visit_refs-Cycle v d [] st kv bv in' leads h = absurd (ground arith)
  visit_refs-Cycle v d (cr ∷ crs) st kv bv in' leads h =
      elim (and_then-err (visit_ref r v cr st) (visit_refs r v crs) (circular_measure t c) h) [
        | inr (mid, first, rest) ↦
            visit_refs-Cycle v d crs mid kv bv (λ x m. in' x (Memᴰ.tail m))
              (Leads-IsKept st mid d leads (visit_ref-IsKept r v cr st mid kv first)) rest
        | inl bad ↦ elim (visit_ref-target r v cr st) [
          | inr (gone, quiet) ↦ absurd (visit_ref-circular r v t c cr st gone bad)
          | inl (d', at, e) ↦
              bv d' (refer cr (measure_ref d') st) (within d' (target-stored r cr d' at))
                (λ x m. elim (leads x m) [
                  | inl done ↦ inl done
                  | inr (u, reach) ↦ inr (u, (d, reach, (cr, in' cr (Memᴰ.head refl), at)))
                ])
                (sym e ∙ bad)
        ]
      ]

  visit-IsBlaming : (fuel : ℕ) → IsBlaming (visit r fuel)
  unfolding visit IsBlaming Calls Leads Cycle IsCircular IsPointed enter
  visit-IsBlaming zero d st m calls h = absurd (ground arith)
  visit-IsBlaming (suc fuel) d st m calls h = elim (Bool-cases (has d st.resolved)) [
    | inl done ↦ absurd (ground arith)
    | inr open' ↦ elim (Bool-cases (has d st.entered)) [
      | inl cycle ↦
          let (x, mx, at) = has-mem d st.entered cycle in
          elim (calls x mx) [
            | inl done ↦ let same = has-address x d st.resolved at in absurd (ground arith)
            | inr (ux, (b, reach, uses)) ↦
                let same : x ≡ d = pointed x d ux m at in
                (d, (b, subst (λ y. Reaches r y b) same reach, uses))
          ]
      | inr fresh ↦
          let bad =
            left-err d (resolve_measure_expr r (visit r fuel) d.expr (enter d st))
              (circular_measure t c) (ground arith) in
          visit_refs-Cycle (visit r fuel) d (col_refs d.expr) (enter d st) (visit-IsKeeping r fuel)
            (visit-IsBlaming fuel) (λ cr n. n)
            (λ x n. elim ((Memᴰ-cons x d st.entered).0 n) [
              | inl this ↦ inr (subst (λ y. Memᴰ y universe × Reaches r y d) (sym this) (m, here))
              | inr before ↦ elim (calls x before) [
                | inl done ↦ inl done
                | inr (u, (b, reach, uses)) ↦ inr (u, step reach uses)
              ]
            ])
            (sym (resolve_measure_expr-col_refs r (visit r fuel) d.expr (enter d st)) ∙ bad)
    ]
  ]

  visit_all-Cycle :
      (fuel : ℕ) (defs : List MeasureDefinition) (st : State)
      → ((d : MeasureDefinition) → Memᴰ d defs → Memᴰ d universe)
      → ((x : MeasureDefinition) → Memᴰ x st.entered → has x st.resolved ≡ true)
      → visit_all r fuel defs st ≡ some (err (circular_measure t c))
      → Cycle
  unfolding visit_all Calls IsBlaming IsKept IsKeeping
  visit_all-Cycle fuel [] st in' quiet h = absurd (ground arith)
  visit_all-Cycle fuel (d ∷ defs) st in' quiet h =
      elim (and_then-err (visit r fuel d st) (visit_all r fuel defs) (circular_measure t c) h) [
        | inl bad ↦ visit-IsBlaming fuel d st (in' d (Memᴰ.head refl)) (λ x m. inl (quiet x m)) bad
        | inr (mid, first, rest) ↦
            let (k, f) = visit-IsKeeping r fuel d st mid first in
            visit_all-Cycle fuel defs mid (λ x m. in' x (Memᴰ.tail m))
              (λ x m. elim (f x m) [ inr done ↦ done | inl before ↦ k x (quiet x before) ]) rest
      ]

-- When resolveMeasures reports a circular reference, from a state in which no definition is in
-- progress, some measure does depend on itself; definitions are told apart by their addresses,
-- among those given and those stored.
pub resolve_measures-IsCircular :
    (r : Resolver) (defs : List MeasureDefinition) (st : State) (t c : Text)
    → IsPointed (defs ++ stored r.local_measures)
    → st.entered ≡ []
    → resolve_measures r defs st ≡ some (err (circular_measure t c))
    → (d : MeasureDefinition) × IsCircular r d
unfolding resolve_measures Cycle
resolve_measures-IsCircular r defs st t c pointed start h =
    let all = defs ++ stored r.local_measures in
    visit_all-Cycle r all pointed (λ x n. Memᴰ.append_right defs n) t c (suc (length all)) defs st
      (λ x n. Memᴰ.append_left _ n) (λ x n. absurd (Memᴰ.not-nil (subst (λ l. Memᴰ x l) start n))) h
