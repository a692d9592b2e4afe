-- ===== src/Measures.antt =====
-- The measures of a schema and of a query (semantic/resolver.go): FindMeasure, FindMeasureByName,
-- MeasureNameConflict and PreResolveMeasures. A measure map is two maps deep: table, then name.
pub mod Lookup
pub mod Scan
pub mod Define
pub mod Conflict
use dux.Base.{
  Bool, true, false, Option, none, some, List, [], ◌∷◌, Text, Dict, equal_fold, lookup, insert,
  if◌then◌else◌, ◌||◌,
}
use dux.Ast.{MeasureDefinition}
use dux.Result.{Result, ok, err, ◌>>=◌, ambiguous_measure, measure_defined}
use dux.Names.{strip_brackets, strip_single_quotes}

abbrev pub Measures : Type 0
Measures = Dict (Dict MeasureDefinition)

-- The loop of FindMeasure over the measures of one table.
unfoldable pub find_in : Text → Dict MeasureDefinition → Option MeasureDefinition
find_in name [] = none
find_in name ((measure_name, def) ∷ defs) =
    if equal_fold measure_name name then some def else find_in name defs

-- FindMeasure
unfoldable pub find_measure : Text → Text → Measures → Option MeasureDefinition
unfolding find_in
find_measure table name [] = none
find_measure table name ((table_key, defs) ∷ measures) =
    let later = find_measure table name measures in
    if equal_fold table_key table
    then elim (find_in name defs) [ some def ↦ some def | none ↦ later ]
    else later

-- The loop of FindMeasureByName over the tables of `measures`, with `found` and `foundTable`.
unfoldable pub scan_tables :
    Text
    → Measures
    → Measures
    → Option (MeasureDefinition × Text)
    → Result (Option MeasureDefinition)
unfolding find_measure
scan_tables name measures [] none = ok none
scan_tables name measures [] (some (def, table)) = ok (some def)
scan_tables name measures ((table, defs) ∷ rest) none = elim (find_measure table name measures) [
  | none ↦ scan_tables name measures rest none
  | some def ↦ scan_tables name measures rest (some (def, table))
]
scan_tables name measures ((table, defs) ∷ rest) (some (found, found_table)) =
    elim (find_measure table name measures) [
      | none ↦ scan_tables name measures rest (some (found, found_table))
      | some def ↦ err (ambiguous_measure name found_table table)
    ]

-- FindMeasureByName
unfoldable pub find_measure_by_name : Text → Measures → Result (Option MeasureDefinition)
unfolding scan_tables
find_measure_by_name name measures = scan_tables name measures measures none

unfoldable pub has_name : Text → Dict MeasureDefinition → Bool
has_name name [] = false
has_name name ((existing_name, def) ∷ defs) = equal_fold existing_name name || has_name name defs

-- MeasureNameConflict
unfoldable pub measure_name_conflict : Measures → Text → Text → Option Text
unfolding has_name
measure_name_conflict [] table name = none
measure_name_conflict ((existing_table, defs) ∷ measures) table name =
    let later = measure_name_conflict measures table name in
    if equal_fold existing_table table
    then later
    else if has_name name defs
    then some existing_table
    else later

-- The key of a map that equals a name by strings.EqualFold, or the name itself.
unfoldable pub existing_or {ℓ} : {V : Type ℓ} → Text → Dict V → Text
existing_or name [] = name
existing_or name ((key, v) ∷ m) = if equal_fold key name then key else existing_or name m

-- target[table], made where it is nil
unfoldable pub defs_of : Option (Dict MeasureDefinition) → Dict MeasureDefinition
defs_of none = []
defs_of (some defs) = defs

-- target[table][storedName] = def
unfoldable pub put : Text → Text → MeasureDefinition → Measures → Measures
unfolding existing_or defs_of
put table name def target =
    let defs = defs_of (lookup table target) in
    insert table (insert (existing_or name defs) def defs) target

-- The body of the loop of PreResolveMeasures.
unfoldable pub register : MeasureDefinition → Measures → Result Measures
unfolding put
register def target =
    let table = existing_or (strip_single_quotes def.table) target in
    let name = strip_brackets def.column in
    elim (measure_name_conflict target table name) [
      | some existing_table ↦ err (measure_defined name existing_table)
      | none ↦ ok (put table name def target)
    ]

-- PreResolveMeasures
unfoldable pub pre_resolve_measures : List MeasureDefinition → Measures → Result Measures
unfolding register
pre_resolve_measures [] target = ok target
pre_resolve_measures (def ∷ defines) target = register def target >>= pre_resolve_measures defines
