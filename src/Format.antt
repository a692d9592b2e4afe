-- ===== src/Format.antt =====
-- semantic/format.go: the display formats of measures, and the store of them in the schema.
pub mod Valid
pub mod Store
use dux.Base.{
  ℕ, ℤ, Bool, true, false, Option, none, some, List, [], ◌∷◌, Text, Dict, codes, to_lower,
  equal_fold, ◌==◌, ◌||◌, ◌&&◌, lookup, insert, delete, length, nat_eq, below, above, any, not,
  if◌then◌else◌,
}
use dux.Names.{strip_single_quotes}
use dux.Schema.{MeasureFormat, Schema}

pub data FormatError : Type 0 where
  unknown_kind : Text → FormatError
  decimals_out_of_range : ℤ → FormatError
  currency_required : Text → FormatError
  currency_not_allowed : FormatError

abbrev pub format_kinds : List Text
format_kinds =
    codes "number" ∷ codes "decimal" ∷ codes "percent" ∷ codes "currency" ∷ codes "compact" ∷ []

unfoldable pub is_out_of_range : Option ℤ → Bool
is_out_of_range none = false
is_out_of_range (some n) = below n 0 || above n 10

unfoldable pub decimals_of : Option ℤ → ℤ
decimals_of none = ℤ.pos 0
decimals_of (some n) = n

-- Validate
unfoldable pub validate : MeasureFormat → Option FormatError
unfolding is_out_of_range decimals_of
validate f =
    if not (any (λ k. k == f.kind) format_kinds)
    then some (unknown_kind f.kind)
    else if is_out_of_range f.decimals
    then some (decimals_out_of_range (decimals_of f.decimals))
    else if f.kind == codes "currency"
    then (if nat_eq (length f.currency) 3 then none else some (currency_required f.currency))
    else if f.currency == []
    then none
    else some currency_not_allowed

abbrev pub Formats : Type 0
Formats = Dict (Dict MeasureFormat)

unfoldable pub formats_of : Option (Dict MeasureFormat) → Dict MeasureFormat
formats_of none = []
formats_of (some formats) = formats

unfoldable pub is_empty : Dict MeasureFormat → Bool
is_empty [] = true
is_empty (f ∷ formats) = false

-- DeleteMeasureFormat on the map, with the table's quotes stripped
unfoldable pub delete_format : Text → Text → Formats → Formats
unfolding is_empty
delete_format t name all = elim (lookup t all) [
  | none ↦ all
  | some formats ↦
      let left = delete name formats in if is_empty left then delete t all else insert t left all
]

-- The assignment of SetMeasureFormat; a nil map is an empty one
unfoldable pub put_format : Text → Text → MeasureFormat → Formats → Formats
unfolding formats_of
put_format t name format all = insert t (insert name format (formats_of (lookup t all))) all

-- DeleteMeasureFormat
unfoldable pub delete_measure_format : Text → Text → Schema → Schema
unfolding delete_format
delete_measure_format table name s = record s {
  measure_formats = delete_format (strip_single_quotes table) name s.measure_formats;
}

-- SetMeasureFormat; a nil format is none
unfoldable pub set_measure_format : Text → Text → Option MeasureFormat → Schema → Schema
unfolding put_format delete_measure_format
set_measure_format table name none s = delete_measure_format (strip_single_quotes table) name s
set_measure_format table name (some format) s = record s {
  measure_formats = put_format (strip_single_quotes table) name format s.measure_formats;
}

-- The inner loop of the fallback.
unfoldable pub find_format_in : Text → Dict MeasureFormat → Option MeasureFormat
find_format_in name [] = none
find_format_in name ((n, f) ∷ formats) =
    if equal_fold n name then some f else find_format_in name formats

-- The loop of the fallback over the tables.
unfoldable pub find_format : Text → Text → Formats → Option MeasureFormat
unfolding find_format_in
find_format t name [] = none
find_format t name ((k, formats) ∷ all) =
    let later = find_format t name all in
    if to_lower k == to_lower t
    then elim (find_format_in name formats) [ some f ↦ some f | none ↦ later ]
    else later

-- MeasureFormatFor
unfoldable pub measure_format_for : Text → Text → Schema → Option MeasureFormat
unfolding find_format
measure_format_for table name s =
    let t = strip_single_quotes table in
    elim (lookup t s.measure_formats) [
      | some formats ↦ lookup name formats
      | none ↦ find_format t name s.measure_formats
    ]
