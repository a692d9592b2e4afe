-- ===== src/Resolver/Targets.antt =====
-- The measure that a reference leads to (semantic/resolver.go), and where its definition is stored.
use mathlib.Core.List.Memᴰ
use dux.Base.{
  false, Option, none, some, [], ◌∷◌, ◌++◌, Text, Dict, ◌==◌, if◌then◌else◌, ◌≡◌, refl, ◌∙◌, ◌⊎◌,
  inl, inr, Bool-cases, Option-cases, arith, Memᴰ, mem, to_lower, equal_fold,
}
use dux.Ast.{ColRef, MeasureDefinition}
use dux.Result.{
  Result, Error, ok, err, unknown_measure, unknown_table, unknown_column, Result-cases,
  ok-injective,
}
use dux.Names.{strip_brackets, strip_single_quotes}
use dux.Schema.{find_column}
use dux.Join.{resolve_table}
use dux.Measures.{Measures, find_in, find_measure, find_measure_by_name, scan_tables}
use dux.Resolver.{
  Resolver, State, Outcome, refer, measure_ref, visit_ref, resolve_col_ref, follow_measure,
  column_ref, defs_in, stored, ref_column,
}

-- The measure that resolveMeasureExpr follows from a reference.
unfoldable pub target : Resolver → ColRef → Option MeasureDefinition
target r cr =
    let name = strip_brackets cr.column in
    if cr.table == []
    then elim (find_measure_by_name name r.local_measures) [ ok def ↦ def | err e ↦ none ]
    else find_measure (strip_single_quotes cr.table) name r.local_measures

-- The walk stays among the entered and the resolved definitions.
abbrev pub IsQuiet : State → Outcome → Type 0
IsQuiet st out =
    (o : Result State) × (out ≡ some o)
    × ((st' : State) → o ≡ ok st' → (st'.resolved ≡ st.resolved) × (st'.entered ≡ st.entered))

IsQuiet-ok :
    (st st' : State) (out : Outcome)
    → out ≡ some (ok st')
    → st'.resolved ≡ st.resolved
    → st'.entered ≡ st.entered
    → IsQuiet st out
IsQuiet-ok st st' out h p q = (ok st', h, λ u e. rw (← ok-injective e) (p, q))

IsQuiet-err : (st : State) (e : Error) (out : Outcome) → out ≡ some (err e) → IsQuiet st out
IsQuiet-err st e out h = (err e, h, λ u f. absurd (ground arith))

IsQuiet-of : (st : State) (out same : Outcome) → out ≡ same → IsQuiet st same → IsQuiet st out
IsQuiet-of st out same e (o, run, q) = (o, e ∙ run, q)

module _ (r : Resolver) (visit : MeasureDefinition → State → Outcome) where
  column_ref-IsQuiet : (cr : ColRef) (st : State) → IsQuiet st (column_ref r visit cr st)
  unfolding column_ref refer
  column_ref-IsQuiet cr st =
      let found = find_column r.schema (strip_single_quotes cr.table) (strip_brackets cr.column) in
      elim (Option-cases found.column) [
        | inl missing ↦
            IsQuiet-err st (unknown_table (strip_single_quotes cr.table)) _ (ground arith)
        | inr (c, held) ↦ elim (Bool-cases (found.column_key == [])) [
          | inl empty ↦
              IsQuiet-err st
                (unknown_column (strip_brackets cr.column) (strip_single_quotes cr.table)) _
                (ground arith)
          | inr named ↦
              IsQuiet-ok st
                (refer cr
                  (ref_column (resolve_table r.schema (strip_single_quotes cr.table))
                    found.column_key)
                  st)
                _ (ground arith) refl refl
        ]
      ]

  qualified-IsQuiet :
      (cr : ColRef) (st : State)
      → (cr.table == []) ≡ false
      → target r cr ≡ none
      → IsQuiet st (resolve_col_ref r visit cr st)
  unfolding resolve_col_ref target
  qualified-IsQuiet cr st named missing =
      elim (Bool-cases (mem (to_lower (strip_single_quotes cr.table)) r.var_names)) [
        | inl var ↦ IsQuiet-ok st st _ (ground arith) refl refl
        | inr not_var ↦
            IsQuiet-of st _ (column_ref r visit cr st) (ground arith) (column_ref-IsQuiet cr st)
      ]

  -- A reference is a visit of its target; without a target it visits nothing.
  pub visit_ref-target :
      (cr : ColRef) (st : State)
      → ((d : MeasureDefinition) × (target r cr ≡ some d)
          × (visit_ref r visit cr st ≡ visit d (refer cr (measure_ref d) st)))
        ⊎ ((target r cr ≡ none) × IsQuiet st (visit_ref r visit cr st))
  unfolding visit_ref target follow_measure
  visit_ref-target cr st = elim (Bool-cases (cr.table == [])) [
    | inl bare ↦
        elim (Result-cases (find_measure_by_name (strip_brackets cr.column) r.local_measures)) [
          | inl (none, e) ↦ inr (
            ground arith,
            IsQuiet-err st (unknown_measure (strip_brackets cr.column)) _ (ground arith),
          )
          | inl (some d, e) ↦ inl (d, ground arith, ground arith)
          | inr (e, bad) ↦ inr (ground arith, IsQuiet-err st e _ (ground arith))
        ]
    | inr named ↦
        elim (Option-cases (
          find_measure (strip_single_quotes cr.table) (strip_brackets cr.column)
            r.local_measures)) [
              | inl missing ↦ inr (
                ground arith,
                IsQuiet-of st _ (resolve_col_ref r visit cr st) (ground arith)
                    (qualified-IsQuiet cr st named (ground arith)),
              )
              | inr (d, held) ↦ inl (d, ground arith, ground arith)
            ]
  ]

-- A definition that a lookup finds is one of those stored.
find_in-stored :
    (name : Text) (defs : Dict MeasureDefinition) (d : MeasureDefinition)
    → find_in name defs ≡ some d
    → Memᴰ d (defs_in defs)
unfolding find_in defs_in
find_in-stored name [] d h = absurd (ground arith)
find_in-stored name ((k, e) ∷ defs) d h = elim (Bool-cases (equal_fold k name)) [
  | inl this ↦ Memᴰ.head (ground arith)
  | inr other ↦ Memᴰ.tail (find_in-stored name defs d (ground arith))
]

pub find_measure-stored :
    (table name : Text) (measures : Measures) (d : MeasureDefinition)
    → find_measure table name measures ≡ some d
    → Memᴰ d (stored measures)
unfolding find_measure stored
find_measure-stored table name [] d h = absurd (ground arith)
find_measure-stored table name ((k, defs) ∷ measures) d h =
    let later : find_measure table name measures ≡ some d
        → Memᴰ d (defs_in defs ++ stored measures) =
      λ q. Memᴰ.append_right (defs_in defs) (find_measure-stored table name measures d q) in
    elim (Bool-cases (equal_fold k table)) [
      | inr other ↦ later (ground arith)
      | inl this ↦ elim (Option-cases (find_in name defs)) [
        | inl missing ↦ later (ground arith)
        | inr (e, held) ↦ Memᴰ.append_left _ (find_in-stored name defs d (ground arith))
      ]
    ]

pub scan_tables-stored :
    (name : Text) (all rest : Measures) (found : Option (MeasureDefinition × Text))
    (d : MeasureDefinition)
    → ((e : MeasureDefinition) (t : Text) → found ≡ some (e, t) → Memᴰ e (stored all))
    → scan_tables name all rest found ≡ ok (some d)
    → Memᴰ d (stored all)
unfolding scan_tables
scan_tables-stored name all [] none d f h = absurd (ground arith)
scan_tables-stored name all [] (some (e, t)) d f h = f d t (ground arith)
scan_tables-stored name all ((k, defs) ∷ rest) none d f h =
    elim (Option-cases (find_measure k name all)) [
      | inl missing ↦ scan_tables-stored name all rest none d f (ground arith)
      | inr (e, held) ↦
          scan_tables-stored name all rest (some (e, k)) d
            (λ e' t' q. find_measure-stored k name all e' (ground arith)) (ground arith)
    ]
scan_tables-stored name all ((k, defs) ∷ rest) (some (e, t)) d f h =
    elim (Option-cases (find_measure k name all)) [
      | inl missing ↦ scan_tables-stored name all rest (some (e, t)) d f (ground arith)
      | inr (e', held) ↦ absurd (ground arith)
    ]

pub target-stored :
    (r : Resolver) (cr : ColRef) (d : MeasureDefinition)
    → target r cr ≡ some d
    → Memᴰ d (stored r.local_measures)
unfolding target find_measure_by_name
target-stored r cr d h = elim (Bool-cases (cr.table == [])) [
  | inr named ↦
      find_measure-stored (strip_single_quotes cr.table) (strip_brackets cr.column) r.local_measures
        d (ground arith)
  | inl bare ↦
      elim (Result-cases (find_measure_by_name (strip_brackets cr.column) r.local_measures)) [
        | inr (e, bad) ↦ absurd (ground arith)
        | inl (def, e) ↦
            scan_tables-stored (strip_brackets cr.column) r.local_measures r.local_measures none d
              (λ e' t q. absurd (ground arith)) (ground arith)
      ]
]
