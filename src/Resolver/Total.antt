-- ===== src/Resolver/Total.antt =====
-- The fuel of resolveMeasures (semantic/resolver.go): the definitions that are not entered yet.
use mathlib.Core.List.Memᴰ
use dux.Base.{
  ℕ, zero, suc, ◌+◌, ◌≤◌, ◌<◌, true, false, some, List, [], ◌∷◌, ◌++◌, ◌≡◌, refl, ◌∙◌, inl, inr,
  Bool-cases, arith, Memᴰ, Memᴰ-cons, nat_eq, if◌then◌else◌, length,
}
use dux.Ast.{ColRef, MeasureDefinition}
use dux.Result.{Result, ok, err, circular_measure, ok-injective}
use dux.Resolver.{
  Resolver, State, Outcome, refer, measure_ref, visit_ref, has, enter, leave, left, and_then, visit,
  visit_all, stored, resolve_measures, resolve_measure_expr,
}
use dux.Resolver.Walk.{col_refs, visit_refs, resolve_measure_expr-col_refs}
use dux.Resolver.Targets.{visit_ref-target, target-stored}

-- The definitions of a list that are not in the other.
pub missing : List MeasureDefinition → List MeasureDefinition → ℕ
missing [] defs = 0
missing (d ∷ rest) defs = (if has d defs then 0 else 1) + missing rest defs

pub missing-length : (all defs : List MeasureDefinition) → missing all defs ≤ length all
unfolding missing
missing-length [] defs = omega arith
missing-length (d ∷ all) defs = elim (Bool-cases (has d defs)) [
  | inl there ↦ rw there (omega (arith, missing-length all defs))
  | inr gone ↦ rw gone (omega (arith, missing-length all defs))
]

missing-cons :
    (all defs : List MeasureDefinition) (d : MeasureDefinition)
    → missing all (d ∷ defs) ≤ missing all defs
unfolding missing has
missing-cons [] defs d = omega arith
missing-cons (x ∷ all) defs d = ground (arith, missing-cons all defs d)

-- Entering a definition of the list leaves fewer.
pub missing-enter :
    (all defs : List MeasureDefinition) (d : MeasureDefinition)
    → Memᴰ d all
    → has d defs ≡ false
    → missing all (d ∷ defs) < missing all defs
unfolding missing has
missing-enter [] defs d m h = absurd (Memᴰ.not-nil m)
missing-enter (x ∷ all) defs d m h = elim ((Memᴰ-cons d x all).0 m) [
  | inl this ↦
      let e : nat_eq d.address d.address ≡ true = ground arith in
      let gone : has x defs ≡ false = rw (← this) h in
      rw (gone, ← this, e) (omega (arith, missing-cons all defs d))
  | inr later ↦ ground (arith, missing-cons all defs d, missing-enter all defs d later h)
]

module _ (r : Resolver) (universe : List MeasureDefinition)
    (within : (d : MeasureDefinition) → Memᴰ d (stored r.local_measures) → Memᴰ d universe) where
  left_over : State → ℕ
  left_over st = missing universe st.entered

  -- The walk produces a result, and enters definitions only.
  Ends : State → Outcome → Type 0
  Ends st out =
      (o : Result State) × (out ≡ some o)
      × ((st' : State) → o ≡ ok st' → left_over st' ≤ left_over st)

  -- A visit ends where fewer than `n` definitions are left.
  IsEnding : ℕ → (MeasureDefinition → State → Outcome) → Type 0
  IsEnding n v =
      (d : MeasureDefinition) (st : State) → Memᴰ d universe → left_over st < n → Ends st (v d st)

  Ends-and_then :
      (n : ℕ) (st : State) (o : Outcome) (f : State → Outcome)
      → left_over st < n
      → Ends st o
      → ((mid : State) → left_over mid < n → Ends mid (f mid))
      → Ends st (and_then o f)
  unfolding and_then Ends
  Ends-and_then n st o f few (err e, run, less) then' =
      (err e, rw run refl, λ st' q. absurd (ground arith))
  Ends-and_then n st o f few (ok mid, run, less) then' =
      let drop = less mid refl in
      let (o', run', less') = then' mid (omega arith) in
      (o', rw run run', λ st' q. (let more = less' st' q in omega arith))

  visit_ref-Ends :
      (n : ℕ) (v : MeasureDefinition → State → Outcome) (cr : ColRef) (st : State)
      → IsEnding n v
      → left_over st < n
      → Ends st (visit_ref r v cr st)
  unfolding IsEnding Ends left_over refer
  visit_ref-Ends n v cr st iv few = elim (visit_ref-target r v cr st) [
    | inl (d, t, e) ↦
        let (o, run, less) =
          iv d (refer cr (measure_ref d) st) (within d (target-stored r cr d t)) few in
        (o, e ∙ run, less)
    | inr (gone, (o, run, quiet)) ↦
        (o, run, λ st' q. (let (_, same) = quiet st' q in rw same (omega arith)))
  ]

  visit_refs-Ends :
      (n : ℕ) (v : MeasureDefinition → State → Outcome) (crs : List ColRef) (st : State)
      → IsEnding n v
      → left_over st < n
      → Ends st (visit_refs r v crs st)
  unfolding visit_refs Ends
  visit_refs-Ends n v [] st iv few =
      (ok st, refl, λ st' q. (let same : st ≡ st' = ok-injective q in rw (← same) (omega arith)))
  visit_refs-Ends n v (cr ∷ crs) st iv few =
      Ends-and_then n st (visit_ref r v cr st) (visit_refs r v crs) few
        (visit_ref-Ends n v cr st iv few) (λ mid few'. visit_refs-Ends n v crs mid iv few')

  Ends-left :
      (st st0 : State) (d : MeasureDefinition) (o : Outcome)
      → left_over st0 ≤ left_over st
      → Ends st0 o
      → Ends st (left d o)
  unfolding left leave Ends left_over
  Ends-left st st0 d o le (err e, run, less) = (err e, rw run refl, λ st' q. absurd (ground arith))
  Ends-left st st0 d o le (ok mid, run, less) =
      let drop = less mid refl in
      (
        ok (leave d mid),
        rw run refl,
        λ st' q. (let same = ok-injective q in rw (← same) (omega arith)),
      )

  visit-IsEnding : (fuel : ℕ) → IsEnding fuel (visit r fuel)
  unfolding visit IsEnding Ends enter left_over
  visit-IsEnding zero d st m few = absurd (omega arith)
  visit-IsEnding (suc fuel) d st m few = elim (Bool-cases (has d st.resolved)) [
    | inl done ↦ (
      ok st,
      ground arith,
      λ st' q. (let same : st ≡ st' = ok-injective q in rw (← same) (omega arith)),
    )
    | inr open' ↦ elim (Bool-cases (has d st.entered)) [
      | inl cycle ↦
          (err (circular_measure d.table d.column), ground arith, λ st' q. absurd (ground arith))
      | inr fresh ↦
          let fewer = missing-enter universe st.entered d m fresh in
          let walk =
            visit_refs-Ends fuel (visit r fuel) (col_refs d.expr) (enter d st) (visit-IsEnding fuel)
              (omega arith) in
          let body : Ends (enter d st) (resolve_measure_expr r (visit r fuel) d.expr (enter d st)) =
            rw (resolve_measure_expr-col_refs r (visit r fuel) d.expr (enter d st)) walk in
          let (o, run, less) =
            Ends-left st (enter d st) d (resolve_measure_expr r (visit r fuel) d.expr (enter d st))
              (omega arith) body in
          (o, ground arith, less)
    ]
  ]

  visit_all-Ends :
      (fuel : ℕ) (defs : List MeasureDefinition) (st : State)
      → ((d : MeasureDefinition) → Memᴰ d defs → Memᴰ d universe)
      → left_over st < fuel
      → Ends st (visit_all r fuel defs st)
  unfolding visit_all Ends IsEnding
  visit_all-Ends fuel [] st in' few =
      (ok st, refl, λ st' q. (let same : st ≡ st' = ok-injective q in rw (← same) (omega arith)))
  visit_all-Ends fuel (d ∷ defs) st in' few =
      Ends-and_then fuel st (visit r fuel d st) (visit_all r fuel defs) few
        (visit-IsEnding fuel d st (in' d (Memᴰ.head refl)) few)
        (λ mid few'. visit_all-Ends fuel defs mid (λ x n. in' x (Memᴰ.tail n)) few')

-- resolveMeasures ends with a state or an error from every state, also where measures refer to each
-- other in a circle: the fuel of one nested visit for each definition is enough.
pub resolve_measures-total :
    (r : Resolver) (defs : List MeasureDefinition) (st : State)
    → (o : Result State) × (resolve_measures r defs st ≡ some o)
unfolding resolve_measures Ends left_over
resolve_measures-total r defs st =
    let all = defs ++ stored r.local_measures in
    let (o, run, less) =
      visit_all-Ends r all (λ x n. Memᴰ.append_right defs n) (suc (length all)) defs st
        (λ x n. Memᴰ.append_left _ n) (omega (arith, missing-length all st.entered)) in
    (o, run)
