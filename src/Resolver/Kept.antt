-- ===== src/Resolver/Kept.antt =====
-- What a walk of resolveMeasures (semantic/resolver.go) leaves of measureState.
use dux.Base.{
  ℕ, zero, suc, true, some, List, [], ◌∷◌, ◌≡◌, sym, ◌∙◌, ◌⊎◌, inl, inr, Bool-cases, arith, subst,
  Memᴰ, Memᴰ-cons,
}
use dux.Ast.{ColRef, MeasureDefinition}
use dux.Result.{ok}
use dux.Resolver.{
  Resolver, State, Outcome, refer, measure_ref, visit_ref, has, enter, leave, visit,
  resolve_measure_expr,
}
use dux.Resolver.Walk.{col_refs, visit_refs, resolve_measure_expr-col_refs}
use dux.Resolver.Targets.{visit_ref-target}
use dux.Resolver.Grounded.{and_then-ok, left-ok}

-- Resolved definitions stay so, and a definition that a walk enters it resolves.
unfoldable pub IsKept : State → State → Type 0
IsKept st st' =
    ((x : MeasureDefinition) → has x st.resolved ≡ true → has x st'.resolved ≡ true)
    × ((x : MeasureDefinition)
        → Memᴰ x st'.entered
        → Memᴰ x st.entered ⊎ (has x st'.resolved ≡ true))

IsKept-refl : (st : State) → IsKept st st
unfolding IsKept
IsKept-refl st = (λ x h. h, λ x m. inl m)

IsKept-trans : (a b c : State) → IsKept a b → IsKept b c → IsKept a c
unfolding IsKept
IsKept-trans a b c (k, f) (l, g) = (
  λ x h. l x (k x h),
  λ x m. elim (g x m) [
    | inr done ↦ inr done
    | inl in_b ↦ elim (f x in_b) [ inl in_a ↦ inl in_a | inr done ↦ inr (l x done) ]
  ],
)

-- A visit of any definition, when it succeeds.
unfoldable pub IsKeeping : (MeasureDefinition → State → Outcome) → Type 0
IsKeeping v = (d : MeasureDefinition) (st st' : State) → v d st ≡ some (ok st') → IsKept st st'

module _ (r : Resolver) where
  pub visit_ref-IsKept :
      (v : MeasureDefinition → State → Outcome) (cr : ColRef) (st st' : State)
      → IsKeeping v
      → visit_ref r v cr st ≡ some (ok st')
      → IsKept st st'
  unfolding IsKeeping IsKept refer
  visit_ref-IsKept v cr st st' kv h = elim (visit_ref-target r v cr st) [
    | inl (d, t, e) ↦ kv d (refer cr (measure_ref d) st) st' (sym e ∙ h)
    | inr (missing, (o, run, quiet)) ↦
        let (p, q) = quiet st' (ground arith) in
        (λ x y. subst (λ l. has x l ≡ true) (sym p) y, λ x m. inl (subst (λ l. Memᴰ x l) q m))
  ]

  visit_refs-IsKept :
      (v : MeasureDefinition → State → Outcome) (crs : List ColRef) (st st' : State)
      → IsKeeping v
      → visit_refs r v crs st ≡ some (ok st')
      → IsKept st st'
  unfolding visit_refs
  visit_refs-IsKept v [] st st' kv h =
      let same : st ≡ st' = ground arith in subst (λ u. IsKept st u) same (IsKept-refl st)
  visit_refs-IsKept v (c ∷ crs) st st' kv h =
      let (mid, first, rest) = and_then-ok (visit_ref r v c st) (visit_refs r v crs) st' h in
      IsKept-trans st mid st' (visit_ref-IsKept v c st mid kv first)
        (visit_refs-IsKept v crs mid st' kv rest)

  IsKept-leave :
      (d : MeasureDefinition) (st mid : State) → IsKept (enter d st) mid → IsKept st (leave d mid)
  unfolding IsKept enter leave has
  IsKept-leave d st mid (k, f) = (
    λ x h. ground (arith, k x),
    λ x m. elim (f x m) [
      | inr done ↦ inr (ground arith)
      | inl in' ↦ elim ((Memᴰ-cons x d st.entered).0 in') [
        | inl this ↦ inr (rw this (ground arith))
        | inr before ↦ inl before
      ]
    ],
  )

  pub visit-IsKeeping : (fuel : ℕ) → IsKeeping (visit r fuel)
  unfolding visit IsKeeping
  visit-IsKeeping zero d st st' h = absurd (ground arith)
  visit-IsKeeping (suc fuel) d st st' h = elim (Bool-cases (has d st.resolved)) [
    | inl done ↦
        let same : st ≡ st' = ground arith in subst (λ u. IsKept st u) same (IsKept-refl st)
    | inr open' ↦ elim (Bool-cases (has d st.entered)) [
      | inl cycle ↦ absurd (ground arith)
      | inr fresh ↦
          let (mid, run, e) =
            left-ok d (resolve_measure_expr r (visit r fuel) d.expr (enter d st)) st'
              (ground arith) in
          let walk =
            sym (resolve_measure_expr-col_refs r (visit r fuel) d.expr (enter d st)) ∙ run in
          subst (λ u. IsKept st u) e
            (IsKept-leave d st mid (
              visit_refs-IsKept (visit r fuel) (col_refs d.expr) (enter d st) mid
                (visit-IsKeeping fuel) walk))
    ]
  ]
