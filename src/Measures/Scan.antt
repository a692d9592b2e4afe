-- ===== src/Measures/Scan.antt =====
-- FindMeasureByName (semantic/resolver.go): a bare name where every name is in one table at most.
use dux.Base.{
  true, false, Option, none, some, List, [], ◌∷◌, Text, eq_iff, to_lower, mem, ◌≡◌, refl, sym, ◌∙◌,
  arith, Bool-cases, Option-cases, inl, inr, ◌↔◌,
}
use dux.Ast.{MeasureDefinition}
use dux.Result.{ok, ok-injective}
use dux.Schema.Find.{has_unique_keys, lower_keys}
use dux.Measures.{Measures, find_measure, scan_tables, find_measure_by_name, defs_of}
use dux.Measures.Lookup.{fold_value, fold_value-none, measure_at, find_measure_at}
use dux.Measures.Define.{IsUnambiguous}

module _ (name : Text) (all : Measures) (u : IsUnambiguous all) where
  at : Text → Option MeasureDefinition
  at t = measure_at t (to_lower name) all

  -- A table in the list of keys has a measure of the name.
  Holds : List Text → MeasureDefinition → Type 0
  Holds keys d = (t : Text) × (mem (to_lower t) keys ≡ true) × (at (to_lower t) ≡ some d)

  -- Once a measure is found in a table that is not left to visit, the rest has none.
  scan-found :
      (rest : Measures) (t : Text) (d : MeasureDefinition)
      → at (to_lower t) ≡ some d
      → mem (to_lower t) (lower_keys rest) ≡ false
      → scan_tables name all rest (some (d, t)) ≡ ok (some d)
  unfolding scan_tables at mem lower_keys
  scan-found [] t d held gone = refl
  scan-found ((k, defs) ∷ rest) t d held gone = elim (Option-cases (find_measure k name all)) [
    | inl none_at ↦ ground (arith, scan-found rest t d)
    | inr (d', found) ↦ absurd (
        ground (
          arith,
          eq_iff (to_lower k) (to_lower t),
          find_measure_at k name all u.keys,
          u.names (to_lower k) (to_lower t) (to_lower name) d' d,
        ))
  ]

  scan-none :
      (rest : Measures)
      → has_unique_keys rest ≡ true
      → ((r : Option MeasureDefinition) × (scan_tables name all rest none ≡ ok r)
          × ((d : MeasureDefinition) → r ≡ some d → Holds (lower_keys rest) d)
          × ((t : Text) → mem t (lower_keys rest) ≡ true → r ≡ none → at t ≡ none))
  unfolding scan_tables at Holds mem lower_keys has_unique_keys
  scan-none [] h = (none, refl, λ d e. absurd (ground arith), λ t e. absurd (ground arith))
  scan-none ((k, defs) ∷ rest) h = elim (Option-cases (find_measure k name all)) [
    | inl none_at ↦
        let (r, run, some_at, empty) = scan-none rest (ground arith) in
        (
          r,
          ground arith,
          λ d e. (let (t, m, held) = some_at d e in (t, ground arith, held)),
          λ t m e.
              ground (arith, eq_iff (to_lower k) t, find_measure_at k name all u.keys, empty t),
        )
    | inr (d, found) ↦
        let held = sym (find_measure_at k name all u.keys) ∙ found in
        (
          some d,
          ground (arith, scan-found rest k d held),
          λ d' e. (k, ground (arith, eq_iff (to_lower k) (to_lower k)), held ∙ e),
          λ t m e. absurd (ground arith),
        )
  ]

mem-key :
    (m : Measures) (t n : Text) (d : MeasureDefinition)
    → measure_at t n m ≡ some d
    → mem t (lower_keys m) ≡ true
unfolding measure_at fold_value defs_of
mem-key m t n d h = elim (Bool-cases (mem t (lower_keys m))) [
  | inl held ↦ held
  | inr gone ↦ absurd (ground (arith, fold_value-none t m gone))
]

-- Where no two tables of a measure map differ in case alone and every name is in one table at
-- most, FindMeasureByName never reports an ambiguous name; it returns a definition exactly when
-- FindMeasure finds that definition under some table.
pub find_measure_by_name_iff :
    (name : Text) (measures : Measures)
    → IsUnambiguous measures
    → ((r : Option MeasureDefinition) × (find_measure_by_name name measures ≡ ok r))
      × ((d : MeasureDefinition)
          → (find_measure_by_name name measures ≡ ok (some d))
            ↔ ((t : Text) × (find_measure t name measures ≡ some d)))
unfolding find_measure_by_name at Holds
find_measure_by_name_iff name measures u =
    let (r, run, some_at, empty) = scan-none name measures u measures u.keys in
    (
      (r, run),
      λ d. (
        λ h.
            let (t, m, held) = some_at d (ok-injective (sym run ∙ h)) in
            (t, find_measure_at t name measures u.keys ∙ held),
        λ q.
            let (t, held) = q in
            let there = sym (find_measure_at t name measures u.keys) ∙ held in
            elim (Option-cases r) [
              | inl missing ↦ absurd (
                  ground (
                    arith,
                    empty (to_lower t) (mem-key measures (to_lower t) (to_lower name) d there)
                        missing,
                  ))
              | inr (d', e) ↦
                  let (t', m', held') = some_at d' e in
                  let same = u.names (to_lower t) (to_lower t') (to_lower name) d d' there held' in
                  ground arith
            ],
      ),
    )
