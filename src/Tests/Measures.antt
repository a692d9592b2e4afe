-- ===== src/Tests/Measures.antt =====
-- Runs over names and measures (semantic/resolver.go, semantic/schema.go).
use dux.Base.{
  true, Option, some, [], ◌∷◌, ◌++◌, Text, codes, ◌==◌, ◌≡◌, refl, ◌↔◌, to_lower, equal_fold,
  lookup, insert, contains, arith,
}
use dux.Ast.{MeasureDefinition, no_expr}
use dux.Result.{ok, err, measure_defined}
use dux.Names.{undouble, double, strip, strip_brackets, strip_single_quotes, strip-double}
use dux.Schema.Keys.{qualified_table_key, qualified_table_key_with_main}
use dux.Schema.Find.{has_unique_keys}
use dux.Join.{table_names_match}
use dux.Join.Keys.{qualified_table_key-match}
use dux.Measures.{
  Measures, find_measure, find_measure_by_name, existing_or, put, register, pre_resolve_measures,
  measure_name_conflict, has_name,
}
use dux.Measures.Lookup.{measure_at, fold_value}
use dux.Measures.Define.{
  IsUnambiguous, pre_resolve_measures-IsUnambiguous, overlay, pre_resolve_measures-overlay,
}
use dux.Measures.Conflict.{register_iff}
use dux.Measures.Scan.{find_measure_by_name_iff}

abbrev measure : Text → Text → MeasureDefinition
measure table column = record {
  address = 0;
  table = table;
  column = column;
  expr = no_expr;
  expression = codes "1";
}

abbrev revenue : MeasureDefinition
revenue = measure (codes "Sales") (codes "[Revenue]")

abbrev margin : MeasureDefinition
margin = measure (codes "'sales'") (codes "[Margin]")

abbrev clash : MeasureDefinition
clash = measure (codes "Dates") (codes "[REVENUE]")

abbrev held : Measures
held = (codes "Sales", (codes "Revenue", revenue) ∷ []) ∷ []

strip-double_example :
    (strip_brackets (b'[' ∷ (double b']' (codes "a]b") ++ b']' ∷ [])) ≡ codes "a]b")
    × (strip_single_quotes (39 ∷ (double 39 (codes "a]b") ++ 39 ∷ [])) ≡ codes "a]b")
strip-double_example = strip-double (codes "a]b")

strip_runs : strip_brackets (codes "[a]]b]") ≡ codes "a]b"
unfolding strip_brackets strip undouble
strip_runs = refl

qualified_table_key-match_example :
    ((table_names_match
          (qualified_table_key (codes "lake") (codes "main") (codes "Sales"))
          (codes "sales")
        ≡ true)
      ↔ (to_lower (codes "Sales") ≡ to_lower (codes "sales")))
    × ((table_names_match
            (qualified_table_key_with_main (codes "lake") (codes "main") (codes "Sales"))
            (codes "sales")
          ≡ true)
        ↔ (to_lower (codes "Sales") ≡ to_lower (codes "sales")))
unfolding contains
qualified_table_key-match_example =
    qualified_table_key-match (codes "lake") (codes "main") (codes "Sales") (codes "sales") refl
      refl

-- The map starts empty and takes the definitions of the query.
empty-IsUnambiguous : IsUnambiguous []
unfolding has_unique_keys measure_at fold_value
empty-IsUnambiguous = record { keys = refl; names = λ t t' n d d' p q. absurd (ground arith) }

define_runs : pre_resolve_measures (revenue ∷ []) [] ≡ ok held
unfolding pre_resolve_measures register put existing_or measure_name_conflict insert lookup
    strip_brackets strip_single_quotes strip undouble
define_runs = refl

held-IsUnambiguous : IsUnambiguous held
held-IsUnambiguous =
    pre_resolve_measures-IsUnambiguous (revenue ∷ []) [] held empty-IsUnambiguous define_runs

pre_resolve_measures-IsUnambiguous_example : IsUnambiguous held
pre_resolve_measures-IsUnambiguous_example =
    pre_resolve_measures-IsUnambiguous (revenue ∷ []) [] held empty-IsUnambiguous define_runs

pre_resolve_measures-overlay_example :
    find_measure (codes "SALES") (codes "revenue") held
    ≡ overlay
        (codes "SALES")
        (codes "revenue")
        (revenue ∷ [])
        (find_measure (codes "SALES") (codes "revenue") [])
pre_resolve_measures-overlay_example =
    pre_resolve_measures-overlay (revenue ∷ []) [] held (codes "SALES") (codes "revenue")
      empty-IsUnambiguous define_runs

register_iff_example : ((new : Measures) × (register margin held ≡ ok new)) ↔ (
    (t : Text) (d : MeasureDefinition)
    → find_measure t (strip_brackets margin.column) held ≡ some d
    → to_lower t ≡ to_lower (strip_single_quotes margin.table))
register_iff_example = register_iff margin held held-IsUnambiguous.keys

clash_runs : register clash held ≡ err (measure_defined (codes "REVENUE") (codes "Sales"))
unfolding register put existing_or measure_name_conflict has_name insert lookup strip_brackets
    strip_single_quotes strip undouble equal_fold to_lower ◌==◌
clash_runs = refl

find_measure_by_name_iff_example :
    ((r : Option MeasureDefinition) × (find_measure_by_name (codes "REVENUE") held ≡ ok r))
    × ((d : MeasureDefinition)
        → (find_measure_by_name (codes "REVENUE") held ≡ ok (some d))
          ↔ ((t : Text) × (find_measure t (codes "REVENUE") held ≡ some d)))
find_measure_by_name_iff_example =
    find_measure_by_name_iff (codes "REVENUE") held held-IsUnambiguous
