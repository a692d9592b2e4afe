-- ===== src/Tests/Formats.antt =====
-- Runs over the formats of measures (semantic/format.go).
use dux.Base.{
  ℤ, none, some, [], codes, ◌==◌, ◌&&◌, length, Option, Text, if◌then◌else◌, any, below, above, ◌≡◌,
  ◌↔◌, refl,
}
use dux.Schema.{MeasureFormat, new_schema}
use dux.Format.{validate, decimals_out_of_range, set_measure_format, measure_format_for}
use dux.Format.Valid.{IsKind, IsShort, IsCurrency, validate_iff}
use dux.Format.Store.{format_at, key_of, measure_format_for-set_measure_format}

abbrev kronor : MeasureFormat
kronor = record { kind = codes "currency"; decimals = some (ℤ.pos 2); currency = codes "SEK" }

abbrev too_fine : MeasureFormat
too_fine = record { kind = codes "number"; decimals = some (ℤ.pos 11); currency = [] }

kronor_runs : validate kronor ≡ none
unfolding validate any ◌==◌ length below above
kronor_runs = refl

too_fine_runs : validate too_fine ≡ some (decimals_out_of_range (ℤ.pos 11))
unfolding validate any ◌==◌ below above
too_fine_runs = refl

validate_iff_example :
    (validate kronor ≡ none)
    ↔ (IsKind (codes "currency") × IsShort (some (ℤ.pos 2)) × IsCurrency kronor)
validate_iff_example = validate_iff kronor

measure_format_for-set_measure_format_example :
    ((f : MeasureFormat)
      → measure_format_for
          (codes "'Order Lines'")
          (codes "Revenue")
          (set_measure_format (codes "'Order Lines'") (codes "Revenue") (some f) new_schema)
        ≡ some f)
    × ((format : Option MeasureFormat) (t' name' : Text)
        → format_at t' name'
            (set_measure_format
              (codes "'Order Lines'")
              (codes "Revenue")
              format
              new_schema).measure_formats
          ≡ (if (key_of (codes "'Order Lines'") format == t') && (codes "Revenue" == name')
              then format
              else format_at t' name' new_schema.measure_formats))
measure_format_for-set_measure_format_example =
    measure_format_for-set_measure_format (codes "'Order Lines'") (codes "Revenue") new_schema
