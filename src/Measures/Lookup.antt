-- ===== src/Measures/Lookup.antt =====
-- FindMeasure (semantic/resolver.go) as two lookups without regard to case.
use dux.Base.{
  true, false, Option, none, some, [], ◌∷◌, Text, Dict, ◌==◌, eq_iff, equal_fold, to_lower, mem,
  lookup, insert, ◌≡◌, refl, ◌∙◌, arith, if◌then◌else◌, Bool-cases, inl, inr, ap,
}
use dux.Ast.{MeasureDefinition}
use dux.Schema.Find.{lower_keys, has_unique_keys}
use dux.Measures.{Measures, find_in, find_measure, has_name, existing_or, defs_of}

module _ {ℓ} {V : Type ℓ} where
  -- The value under a name, without regard to case.
  unfoldable pub fold_value : Text → Dict V → Option V
  fold_value lower [] = none
  fold_value lower ((k, v) ∷ m) = if to_lower k == lower then some v else fold_value lower m

  pub fold_value-none :
      (l : Text) (m : Dict V) → mem l (lower_keys m) ≡ false → fold_value l m ≡ none
  unfolding fold_value lower_keys mem
  fold_value-none l [] h = refl
  fold_value-none l ((k, v) ∷ m) h = ground (arith, fold_value-none l m)

  pub existing_or_fold : (name : Text) (m : Dict V) → to_lower (existing_or name m) ≡ to_lower name
  unfolding existing_or equal_fold
  existing_or_fold name [] = refl
  existing_or_fold name ((k, v) ∷ m) =
      ground (arith, eq_iff (to_lower k) (to_lower name), existing_or_fold name m)

  -- The key that a name is stored under is another than a key that differs from the name.
  existing_or_other :
      (name k : Text) (m : Dict V)
      → (to_lower k == to_lower name) ≡ false
      → (k == existing_or name m) ≡ false
  existing_or_other name k m h = elim (Bool-cases (k == existing_or name m)) [
    | inr other ↦ other
    | inl same ↦
        let e = (eq_iff k (existing_or name m)).0 same in
        let f : to_lower k ≡ to_lower name = ap to_lower e ∙ existing_or_fold name m in
        absurd (ground (arith, eq_iff (to_lower k) (to_lower name)))
  ]

  pub lookup-existing_or :
      (name : Text) (m : Dict V) → lookup (existing_or name m) m ≡ fold_value (to_lower name) m
  unfolding fold_value existing_or lookup equal_fold
  lookup-existing_or name [] = refl
  lookup-existing_or name ((k, v) ∷ m) =
      ground (arith, eq_iff k k, existing_or_other name k m, lookup-existing_or name m)

  pub fold_value-insert :
      (name l : Text) (v : V) (m : Dict V)
      → fold_value l (insert (existing_or name m) v m)
        ≡ (if to_lower name == l then some v else fold_value l m)
  unfolding fold_value existing_or insert equal_fold
  fold_value-insert name l v [] = refl
  fold_value-insert name l v ((k, w) ∷ m) = ground (
    arith,
    eq_iff k k,
    eq_iff (to_lower k) l,
    eq_iff (to_lower name) l,
    eq_iff (to_lower k) (to_lower name),
    existing_or_other name k m,
    fold_value-insert name l v m,
  )

  pub mem-lower_keys-insert :
      (name l : Text) (v : V) (m : Dict V)
      → mem l (lower_keys (insert (existing_or name m) v m))
        ≡ (if to_lower name == l then true else mem l (lower_keys m))
  unfolding lower_keys existing_or insert equal_fold mem
  mem-lower_keys-insert name l v [] = ground arith
  mem-lower_keys-insert name l v ((k, w) ∷ m) = ground (
    arith,
    eq_iff k k,
    eq_iff (to_lower k) l,
    eq_iff (to_lower name) l,
    eq_iff (to_lower k) (to_lower name),
    existing_or_other name k m,
    mem-lower_keys-insert name l v m,
  )

  pub has_unique_keys-insert :
      (name : Text) (v : V) (m : Dict V)
      → has_unique_keys m ≡ true
      → has_unique_keys (insert (existing_or name m) v m) ≡ true
  unfolding has_unique_keys lower_keys existing_or insert equal_fold mem
  has_unique_keys-insert name v [] h = refl
  has_unique_keys-insert name v ((k, w) ∷ m) h = ground (
    arith,
    eq_iff k k,
    eq_iff (to_lower name) (to_lower k),
    eq_iff (to_lower k) (to_lower name),
    existing_or_other name k m,
    mem-lower_keys-insert name (to_lower k) v m,
    has_unique_keys-insert name v m,
  )

-- FindMeasure reads the names of a table alone.
pub find_in_fold :
    (name : Text) (defs : Dict MeasureDefinition)
    → find_in name defs ≡ fold_value (to_lower name) defs
unfolding find_in fold_value equal_fold
find_in_fold name [] = refl
find_in_fold name ((k, d) ∷ defs) = ground (arith, find_in_fold name defs)

pub has_name_fold :
    (name : Text) (defs : Dict MeasureDefinition)
    → has_name name defs ≡ false
    → fold_value (to_lower name) defs ≡ none
unfolding has_name fold_value equal_fold
has_name_fold name [] h = refl
has_name_fold name ((k, d) ∷ defs) h = ground (arith, has_name_fold name defs)

-- The measure under a table and a name, both in lower case.
unfoldable pub measure_at : Text → Text → Measures → Option MeasureDefinition
unfolding defs_of fold_value
measure_at table name measures = fold_value name (defs_of (fold_value table measures))

-- Where no two tables differ in case alone, FindMeasure is a lookup of the table and then of the
-- name.
pub find_measure_at :
    (table name : Text) (measures : Measures)
    → has_unique_keys measures ≡ true
    → find_measure table name measures ≡ measure_at (to_lower table) (to_lower name) measures
unfolding find_measure measure_at fold_value has_unique_keys equal_fold
find_measure_at table name [] h = refl
find_measure_at table name ((k, defs) ∷ measures) h = ground (
  arith,
  eq_iff (to_lower k) (to_lower table),
  find_in_fold name defs,
  fold_value-none (to_lower table) measures,
  find_measure_at table name measures,
)
