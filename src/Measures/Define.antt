-- ===== src/Measures/Define.antt =====
-- PreResolveMeasures and MeasureNameConflict (semantic/resolver.go): the measures that a query
-- defines over those of the schema.
use dux.Base.{
  true, Option, none, some, List, [], ◌∷◌, Text, ◌==◌, eq_iff, to_lower, insert, lookup,
  if◌then◌else◌, ◌&&◌, ◌≡◌, ◌≢◌, refl, ◌∙◌, arith, Bool-cases, Option-cases, inl, inr, ap,
  equal_fold,
}
use dux.Ast.{MeasureDefinition}
use dux.Result.{ok, Result-cases, ok-injective}
use dux.Names.{strip_brackets, strip_single_quotes}
use dux.Schema.Find.{has_unique_keys}
use dux.Measures.{
  Measures, find_measure, measure_name_conflict, existing_or, defs_of, put, register,
  pre_resolve_measures,
}
use dux.Measures.Lookup.{
  fold_value, fold_value-insert, lookup-existing_or, existing_or_fold, has_unique_keys-insert,
  has_name_fold, measure_at, find_measure_at,
}

-- The table and the name of a definition, in lower case.
table_of : MeasureDefinition → Text
table_of def = to_lower (strip_single_quotes def.table)

name_of : MeasureDefinition → Text
name_of def = to_lower (strip_brackets def.column)

pub measure_at-put :
    (table name t n : Text) (def : MeasureDefinition) (m : Measures)
    → measure_at t n (put (existing_or table m) name def m)
      ≡ (if to_lower table == t && to_lower name == n then some def else measure_at t n m)
unfolding measure_at put
measure_at-put table name t n def m =
    let defs = defs_of (lookup (existing_or table m) m) in
    ground (
      arith,
      eq_iff (to_lower table) t,
      lookup-existing_or table m,
      fold_value-insert table t (insert (existing_or name defs) def defs) m,
      fold_value-insert name n def defs,
    )

-- Without a conflict no other table has the name.
pub conflict-none :
    (m : Measures) (table name t : Text)
    → measure_name_conflict m table name ≡ none
    → to_lower table ≢ t
    → measure_at t (to_lower name) m ≡ none
unfolding measure_name_conflict measure_at fold_value equal_fold
conflict-none [] table name t h other = refl
conflict-none ((k, defs) ∷ m) table name t h other = ground (
  arith,
  eq_iff (to_lower k) (to_lower table),
  eq_iff (to_lower k) t,
  has_name_fold name defs,
  conflict-none m table name t,
)

-- What a definition that is registered does to the map.
pub register-ok :
    (def : MeasureDefinition) (m new : Measures)
    → register def m ≡ ok new
    → (new ≡ put (existing_or (strip_single_quotes def.table) m) (strip_brackets def.column) def m)
      × (measure_name_conflict m
            (existing_or (strip_single_quotes def.table) m)
            (strip_brackets def.column)
          ≡ none)
unfolding register
register-ok def m new h =
    elim (Option-cases (
      measure_name_conflict m (existing_or (strip_single_quotes def.table) m)
        (strip_brackets def.column))) [
          | inl clear ↦ ground arith
          | inr (t, clash) ↦ absurd (ground arith)
        ]

-- A measure name is in one table at most, and no two tables differ in case alone.
pub record IsUnambiguous (m : Measures) : Type 0 where
  pub keys : has_unique_keys m ≡ true
  pub names :
      (t t' n : Text) (d d' : MeasureDefinition)
      → measure_at t n m ≡ some d
      → measure_at t' n m ≡ some d'
      → t ≡ t'

register-at :
    (def : MeasureDefinition) (m new : Measures) (t n : Text)
    → register def m ≡ ok new
    → measure_at t n new
      ≡ (if table_of def == t && name_of def == n then some def else measure_at t n m)
unfolding table_of name_of
register-at def m new t n h =
    let (e, _) = register-ok def m new h in
    rw e (measure_at-put (strip_single_quotes def.table) (strip_brackets def.column) t n def m)

-- The other measures of the name that a definition registers stand in its own table.
register-names :
    (def : MeasureDefinition) (m new : Measures) (t : Text) (d : MeasureDefinition)
    → register def m ≡ ok new
    → measure_at t (name_of def) m ≡ some d
    → table_of def ≡ t
unfolding table_of name_of
register-names def m new t d h held =
    let table = strip_single_quotes def.table in
    let (_, clear) = register-ok def m new h in
    elim (Bool-cases (to_lower table == t)) [
      | inl same ↦ (eq_iff (to_lower table) t).0 same
      | inr other ↦ absurd (
          ground (
            arith,
            eq_iff (to_lower table) t,
            existing_or_fold table m,
            conflict-none m (existing_or table m) (strip_brackets def.column) t clear,
          ))
    ]

register-IsUnambiguous :
    (def : MeasureDefinition) (m new : Measures)
    → IsUnambiguous m
    → register def m ≡ ok new
    → IsUnambiguous new
unfolding put
register-IsUnambiguous def m new u h = record {
  keys =
      let table = strip_single_quotes def.table in
      let name = strip_brackets def.column in
      let defs = defs_of (lookup (existing_or table m) m) in
      rw ((register-ok def m new h).0)
        (has_unique_keys-insert table (insert (existing_or name defs) def defs) m u.keys);
  names = λ t t' n d d' p q. ground (
    arith,
    eq_iff (table_of def) t,
    eq_iff (table_of def) t',
    eq_iff (name_of def) n,
    register-at def m new t n h,
    register-at def m new t' n h,
    register-names def m new t d h,
    register-names def m new t' d' h,
    u.names t t' n d d',
  );
}

-- Where no two tables of a measure map differ in case alone and every name is in one table at
-- most, PreResolveMeasures, when it succeeds, gives a map of the same kind.
pub pre_resolve_measures-IsUnambiguous :
    (defines : List MeasureDefinition) (target new : Measures)
    → IsUnambiguous target
    → pre_resolve_measures defines target ≡ ok new
    → IsUnambiguous new
unfolding pre_resolve_measures
pre_resolve_measures-IsUnambiguous [] target new u h = rw (← ok-injective h) u
pre_resolve_measures-IsUnambiguous (def ∷ defines) target new u h =
    elim (Result-cases (register def target)) [
      | inl (next, e) ↦
          pre_resolve_measures-IsUnambiguous defines next new
            (register-IsUnambiguous def target next u e) (ground arith)
      | inr (e, bad) ↦ absurd (ground arith)
    ]

-- The definition that a query sees under a table and a name: the last that it defines there, and
-- otherwise `old`.
pub overlay :
    Text → Text → List MeasureDefinition → Option MeasureDefinition → Option MeasureDefinition
unfolding table_of name_of
overlay table name [] old = old
overlay table name (def ∷ defines) old =
    overlay table name defines
      (if table_of def == to_lower table && name_of def == to_lower name then some def else old)

-- Where no two tables of a measure map differ in case alone and every name is in one table at
-- most, FindMeasure finds in the map that PreResolveMeasures gives the last definition of the query
-- for the table and the name, and otherwise the definition that was there before.
pub pre_resolve_measures-overlay :
    (defines : List MeasureDefinition) (target new : Measures) (table name : Text)
    → IsUnambiguous target
    → pre_resolve_measures defines target ≡ ok new
    → find_measure table name new ≡ overlay table name defines (find_measure table name target)
unfolding pre_resolve_measures overlay
pre_resolve_measures-overlay [] target new table name u h = rw (ok-injective h) refl
pre_resolve_measures-overlay (def ∷ defines) target new table name u h =
    elim (Result-cases (register def target)) [
      | inr (e, bad) ↦ absurd (ground arith)
      | inl (next, e) ↦
          let v = register-IsUnambiguous def target next u e in
          let later = pre_resolve_measures-overlay defines next new table name v (ground arith) in
          let at =
            find_measure_at table name next v.keys
            ∙ register-at def target next (to_lower table) (to_lower name) e in
          let before = find_measure_at table name target u.keys in
          later ∙ ap (overlay table name defines) (at ∙ rw before refl)
    ]
