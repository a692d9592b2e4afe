-- ===== src/Resolver/Grounded.antt =====
-- Walks of resolveMeasures (semantic/resolver.go) that report no error.
use mathlib.Core.List.Memᴰ
use dux.Base.{
  ℕ, zero, suc, true, none, some, List, [], ◌∷◌, ◌++◌, ◌≡◌, refl, sym, ◌∙◌, inl, inr, Bool-cases,
  arith, length, subst, Memᴰ, Memᴰ-cons, nat_eq, nat_eq_iff,
}
use dux.Ast.{ColRef, MeasureDefinition}
use dux.Result.{ok, err}
use dux.Resolver.{
  Resolver, State, Outcome, refer, measure_ref, visit_ref, has, enter, leave, left, and_then, visit,
  visit_all, stored, resolve_measures, resolve_measure_expr,
}
use dux.Resolver.Walk.{col_refs, visit_refs, resolve_measure_expr-col_refs}
use dux.Resolver.Targets.{target, visit_ref-target, target-stored}

-- The expression of `d` has a reference to the measure `d'`, outside its table constructors.
unfoldable pub Uses : Resolver → MeasureDefinition → MeasureDefinition → Type 0
Uses r d d' = (cr : ColRef) × Memᴰ cr (col_refs d.expr) × (target r cr ≡ some d')

-- Every chain of such references that starts at the measure ends.
pub data IsGrounded (r : Resolver) : MeasureDefinition → Type 0 where
  grounded :
      (d : MeasureDefinition)
      → ((d' : MeasureDefinition) → Uses r d d' → IsGrounded r d')
      → IsGrounded r d

-- Definitions of a list with one address are the same definition.
unfoldable pub IsPointed : List MeasureDefinition → Type 0
IsPointed defs =
    (d d' : MeasureDefinition) → Memᴰ d defs → Memᴰ d' defs → d.address ≡ d'.address → d ≡ d'

pub has-mem :
    (d : MeasureDefinition) (defs : List MeasureDefinition)
    → has d defs ≡ true
    → (x : MeasureDefinition) × Memᴰ x defs × (x.address ≡ d.address)
unfolding has
has-mem d [] h = absurd (ground arith)
has-mem d (x ∷ defs) h = elim (Bool-cases (nat_eq x.address d.address)) [
  | inl this ↦ (x, Memᴰ.head refl, (nat_eq_iff x.address d.address).0 this)
  | inr other ↦ let (y, m, e) = has-mem d defs (ground arith) in (y, Memᴰ.tail m, e)
]

pub and_then-ok :
    (o : Outcome) (f : State → Outcome) (st : State)
    → and_then o f ≡ some (ok st)
    → (mid : State) × (o ≡ some (ok mid)) × (f mid ≡ some (ok st))
unfolding and_then
and_then-ok none f st h = absurd (ground arith)
and_then-ok (some (err e)) f st h = absurd (ground arith)
and_then-ok (some (ok mid)) f st h = (mid, refl, h)

pub left-ok :
    (d : MeasureDefinition) (o : Outcome) (st : State)
    → left d o ≡ some (ok st)
    → (mid : State) × (o ≡ some (ok mid)) × (leave d mid ≡ st)
unfolding left
left-ok d none st h = absurd (ground arith)
left-ok d (some (err e)) st h = absurd (ground arith)
left-ok d (some (ok mid)) st h = (mid, refl, ground arith)

module _ (r : Resolver) (universe : List MeasureDefinition) (pointed : IsPointed universe)
    (within : (d : MeasureDefinition) → Memᴰ d (stored r.local_measures) → Memᴰ d universe) where
  -- The resolved definitions are grounded.
  IsSound : State → Type 0
  IsSound st = (d : MeasureDefinition) → Memᴰ d st.resolved → Memᴰ d universe × IsGrounded r d

  -- What a visit of any definition is known to do.
  IsVisit : (MeasureDefinition → State → Outcome) → Type 0
  IsVisit v =
      (d : MeasureDefinition) (st st' : State)
      → Memᴰ d universe
      → IsSound st
      → v d st ≡ some (ok st')
      → IsSound st' × IsGrounded r d

  visit_ref-IsSound :
      (v : MeasureDefinition → State → Outcome) (cr : ColRef) (st st' : State)
      → IsVisit v
      → IsSound st
      → visit_ref r v cr st ≡ some (ok st')
      → IsSound st' × ((d : MeasureDefinition) → target r cr ≡ some d → IsGrounded r d)
  unfolding refer IsSound IsVisit
  visit_ref-IsSound v cr st st' iv s h = elim (visit_ref-target r v cr st) [
    | inl (d, t, e) ↦
        let (s', g) =
          iv d (refer cr (measure_ref d) st) st' (within d (target-stored r cr d t)) s
            (sym e ∙ h) in
        (s', λ d' t'. (let same : d ≡ d' = ground arith in rw (← same) g))
    | inr (missing, (o, run, quiet)) ↦
        let (same, _) = quiet st' (ground arith) in
        (λ d m. s d (rw (← same) m), λ d t. absurd (ground arith))
  ]

  visit_refs-IsSound :
      (v : MeasureDefinition → State → Outcome) (crs : List ColRef) (st st' : State)
      → IsVisit v
      → IsSound st
      → visit_refs r v crs st ≡ some (ok st')
      → IsSound st'
        × ((cr : ColRef) (d : MeasureDefinition)
            → Memᴰ cr crs
            → target r cr ≡ some d
            → IsGrounded r d)
  unfolding visit_refs
  visit_refs-IsSound v [] st st' iv s h =
      let same : st ≡ st' = ground arith in (rw (← same) s, λ cr d m. absurd (Memᴰ.not-nil m))
  visit_refs-IsSound v (c ∷ crs) st st' iv s h =
      let (mid, first, rest) = and_then-ok (visit_ref r v c st) (visit_refs r v crs) st' h in
      let (s1, g1) = visit_ref-IsSound v c st mid iv s first in
      let (s2, g2) = visit_refs-IsSound v crs mid st' iv s1 rest in
      (
        s2,
        λ cr d m t. elim ((Memᴰ-cons cr c crs).0 m) [
          | inl this ↦ g1 d (rw (← this) t)
          | inr later ↦ g2 cr d later t
        ],
      )

  visit-IsVisit : (fuel : ℕ) → IsVisit (visit r fuel)
  unfolding visit IsVisit IsSound IsPointed Uses enter leave
  visit-IsVisit zero d st st' m s h = absurd (ground arith)
  visit-IsVisit (suc fuel) d st st' m s h = elim (Bool-cases (has d st.resolved)) [
    | inl done ↦
        let (x, mx, at) = has-mem d st.resolved done in
        let (ux, gx) = s x mx in
        let same : st ≡ st' = ground arith in (rw (← same) s, rw (← pointed x d ux m at) gx)
    | inr open' ↦ elim (Bool-cases (has d st.entered)) [
      | inl cycle ↦ absurd (ground arith)
      | inr fresh ↦
          let (mid, run, e) =
            left-ok d (resolve_measure_expr r (visit r fuel) d.expr (enter d st)) st'
              (ground arith) in
          let walk =
            sym (resolve_measure_expr-col_refs r (visit r fuel) d.expr (enter d st)) ∙ run in
          let (s1, g) =
            visit_refs-IsSound (visit r fuel) (col_refs d.expr) (enter d st) mid
              (visit-IsVisit fuel) s walk in
          let this = grounded d (λ d' u. (let (cr, mc, t) = u in g cr d' mc t)) in
          (
            λ d' m'.
                elim ((Memᴰ-cons d' d mid.resolved).0
                  (subst (λ u. Memᴰ d' u.resolved) (sym e) m')) [
                    | inl it ↦ rw it (m, this)
                    | inr before ↦ s1 d' before
                  ],
            this,
          )
    ]
  ]

  visit_all-IsSound :
      (fuel : ℕ) (defs : List MeasureDefinition) (st st' : State)
      → ((d : MeasureDefinition) → Memᴰ d defs → Memᴰ d universe)
      → IsSound st
      → visit_all r fuel defs st ≡ some (ok st')
      → (d : MeasureDefinition) → Memᴰ d defs
      → IsGrounded r d
  unfolding visit_all IsVisit
  visit_all-IsSound fuel [] st st' in' s h d m = absurd (Memᴰ.not-nil m)
  visit_all-IsSound fuel (def ∷ defs) st st' in' s h d m =
      let (mid, first, rest) = and_then-ok (visit r fuel def st) (visit_all r fuel defs) st' h in
      let (s1, g) = visit-IsVisit fuel def st mid (in' def (Memᴰ.head refl)) s first in
      elim ((Memᴰ-cons d def defs).0 m) [
        | inl this ↦ rw this g
        | inr later ↦
            visit_all-IsSound fuel defs mid st' (λ x n. in' x (Memᴰ.tail n)) s1 rest d later
      ]

-- When resolveMeasures ends without an error from a state in which no definition is resolved yet,
-- every chain of references outside table constructors that starts at one of the definitions ends,
-- so none of them leads back to itself by such references; nothing is said of a reference in the
-- rows of a table constructor. Definitions are told apart by their addresses, among those given and
-- those stored.
pub resolve_measures-IsGrounded :
    (r : Resolver) (defs : List MeasureDefinition) (st st' : State) (d : MeasureDefinition)
    → IsPointed (defs ++ stored r.local_measures)
    → st.resolved ≡ []
    → resolve_measures r defs st ≡ some (ok st')
    → Memᴰ d defs
    → IsGrounded r d
unfolding resolve_measures IsSound
resolve_measures-IsGrounded r defs st st' d pointed start h m =
    visit_all-IsSound r (defs ++ stored r.local_measures) pointed (λ x n. Memᴰ.append_right defs n)
      (suc (length (defs ++ stored r.local_measures))) defs st st' (λ x n. Memᴰ.append_left _ n)
      (λ x n. absurd (Memᴰ.not-nil (subst (λ l. Memᴰ x l) start n))) h d m
