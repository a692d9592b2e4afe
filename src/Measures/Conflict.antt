-- ===== src/Measures/Conflict.antt =====
-- MeasureNameConflict and the error of PreResolveMeasures (semantic/resolver.go).
use dux.Base.{
  true, false, none, some, List, [], ◌∷◌, Text, ◌==◌, eq_iff, to_lower, ◌≡◌, ◌≢◌, refl, sym, ◌∙◌,
  arith, Bool-cases, Option-cases, inl, inr, ◌↔◌, equal_fold,
}
use dux.Ast.{MeasureDefinition}
use dux.Result.{ok}
use dux.Names.{strip_brackets, strip_single_quotes}
use dux.Schema.Find.{has_unique_keys}
use dux.Measures.{
  Measures, has_name, measure_name_conflict, existing_or, register, find_measure, put,
}
use dux.Measures.Lookup.{fold_value, fold_value-none, existing_or_fold, measure_at, find_measure_at}
use dux.Measures.Define.{conflict-none, register-ok}

has_name-none :
    (name : Text) (defs : List (Text × MeasureDefinition))
    → fold_value (to_lower name) defs ≡ none
    → has_name name defs ≡ false
unfolding has_name fold_value equal_fold
has_name-none name [] h = refl
has_name-none name ((k, d) ∷ defs) h = ground (arith, has_name-none name defs)

at-head :
    (k name : Text) (defs : List (Text × MeasureDefinition)) (m : Measures)
    → has_name name defs ≡ true
    → (d : MeasureDefinition) × (measure_at (to_lower k) (to_lower name) ((k, defs) ∷ m) ≡ some d)
unfolding measure_at fold_value
at-head k name defs m h = elim (Option-cases (fold_value (to_lower name) defs)) [
  | inl missing ↦ absurd (ground (arith, has_name-none name defs missing))
  | inr (d, held) ↦ (d, ground (arith, eq_iff (to_lower k) (to_lower k)))
]

at-tail :
    (k t name : Text) (defs : List (Text × MeasureDefinition)) (m : Measures)
    (d : MeasureDefinition)
    → has_unique_keys ((k, defs) ∷ m) ≡ true
    → measure_at t name m ≡ some d
    → measure_at t name ((k, defs) ∷ m) ≡ some d
unfolding measure_at fold_value has_unique_keys
at-tail k t name defs m d u h = elim (Bool-cases (to_lower k == t)) [
  | inl same ↦
      let e = (eq_iff (to_lower k) t).0 same in
      let gone = fold_value-none (to_lower k) m (ground arith) in absurd (ground arith)
  | inr other ↦ ground arith
]

-- A conflict is with a measure of the name in another table.
conflict-some :
    (m : Measures) (table name t : Text)
    → has_unique_keys m ≡ true
    → measure_name_conflict m table name ≡ some t
    → (to_lower t ≢ to_lower table)
      × ((d : MeasureDefinition) × (measure_at (to_lower t) (to_lower name) m ≡ some d))
unfolding measure_name_conflict equal_fold
conflict-some [] table name t u h = absurd (ground arith)
conflict-some ((k, defs) ∷ m) table name t u h =
    let later : measure_name_conflict m table name ≡ some t
        → (to_lower t ≢ to_lower table)
          × ((d : MeasureDefinition) × (measure_at (to_lower t) (to_lower name) ((k, defs) ∷ m)
                ≡ some d)) =
      λ q.
        (let (other, (d, held)) =
            conflict-some m table name t (unfold has_unique_keys in ground arith) q in
          (other, (d, at-tail k (to_lower t) (to_lower name) defs m d u held))) in
    elim (Bool-cases (to_lower k == to_lower table)) [
      | inl same ↦ later (ground arith)
      | inr other ↦ elim (Bool-cases (has_name name defs)) [
        | inr lacks ↦ later (ground arith)
        | inl has ↦
            let this : k ≡ t = ground arith in
            rw (← this)
              (λ q. ground (arith, eq_iff (to_lower k) (to_lower table)), at-head k name defs m has)
      ]
    ]

-- Where no two tables of a measure map differ in case alone, a DEFINE MEASURE is accepted exactly
-- when every measure that has its name, without regard to case, stands in its table.
pub register_iff :
    (def : MeasureDefinition) (m : Measures)
    → has_unique_keys m ≡ true
    → ((new : Measures) × (register def m ≡ ok new)) ↔ (
        (t : Text) (d : MeasureDefinition)
        → find_measure t (strip_brackets def.column) m ≡ some d
        → to_lower t ≡ to_lower (strip_single_quotes def.table))
unfolding register
register_iff def m u =
    let table = existing_or (strip_single_quotes def.table) m in
    let name = strip_brackets def.column in
    let fold = existing_or_fold (strip_single_quotes def.table) m in
    elim (Option-cases (measure_name_conflict m table name)) [
      | inl clear ↦ (
        λ r t d held. elim (Bool-cases (to_lower t == to_lower table)) [
          | inl same ↦ (eq_iff (to_lower t) (to_lower table)).0 same ∙ fold
          | inr other ↦ absurd (
              ground (
                arith,
                eq_iff (to_lower t) (to_lower table),
                find_measure_at t name m u,
                conflict-none m table name (to_lower t) clear,
              ))
        ],
        λ r. (put table name def m, rw (register, clear) refl),
      )
      | inr (t, clash) ↦
          let (other, (d, held)) = conflict-some m table name t u clash in
          (
            λ r. let clear = (register-ok def m (r.0) (r.1)).1 in absurd (ground arith),
            λ r. absurd (other (r t d (find_measure_at t name m u ∙ held) ∙ sym fold)),
          )
    ]
