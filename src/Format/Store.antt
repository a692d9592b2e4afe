-- ===== src/Format/Store.antt =====
-- SetMeasureFormat, DeleteMeasureFormat and MeasureFormatFor (semantic/format.go): the store as a
-- function of the table and the measure.
use dux.Base.{
  true, Option, none, some, [], ◌∷◌, Text, Dict, ◌==◌, eq_iff, ◌&&◌, lookup, insert, delete,
  lookup-insert, lookup-delete, if◌then◌else◌, ◌≡◌, inl, inr, Bool-cases, refl, ◌∙◌, Option-cases,
  arith,
}
use dux.Names.{strip_single_quotes}
use dux.Schema.{MeasureFormat, Schema}
use dux.Format.{
  Formats, formats_of, is_empty, delete_format, put_format, delete_measure_format,
  set_measure_format, measure_format_for,
}

-- The format that is stored at exactly this table and name.
unfoldable pub format_at : Text → Text → Formats → Option MeasureFormat
unfolding formats_of
format_at t name all = lookup name (formats_of (lookup t all))

-- The table that SetMeasureFormat writes at: the quotes are stripped twice where a format is
-- removed.
unfoldable pub key_of : Text → Option MeasureFormat → Text
key_of table none = strip_single_quotes (strip_single_quotes table)
key_of table (some format) = strip_single_quotes table

is_empty-lookup :
    (name : Text) (formats : Dict MeasureFormat)
    → is_empty formats ≡ true
    → lookup name formats ≡ none
unfolding is_empty lookup
is_empty-lookup name [] h = refl
is_empty-lookup name (f ∷ formats) h = absurd (ground arith)

put_format-format_at :
    (t name t' name' : Text) (f : MeasureFormat) (all : Formats)
    → format_at t' name' (put_format t name f all)
      ≡ (if (t == t') && (name == name') then some f else format_at t' name' all)
unfolding format_at put_format formats_of
put_format-format_at t name t' name' f all = ground (
  arith,
  lookup-insert t t' (insert name f (formats_of (lookup t all))) all,
  lookup-insert name name' f (formats_of (lookup t all)),
  eq_iff t t',
)

delete_format-format_at :
    (t name t' name' : Text) (all : Formats)
    → format_at t' name' (delete_format t name all)
      ≡ (if (t == t') && (name == name') then none else format_at t' name' all)
unfolding format_at delete_format formats_of
delete_format-format_at t name t' name' all = elim (Option-cases (lookup t all)) [
  | inl missing ↦
      let nothing : lookup name' (formats_of none) ≡ none = unfold lookup in refl in
      ground (arith, eq_iff t t')
  | inr (formats, held) ↦ elim (Bool-cases (is_empty (delete name formats))) [
    | inl empty ↦ ground (
      arith,
      lookup-delete t t' all,
      lookup-delete name name' formats,
      is_empty-lookup name' (delete name formats) empty,
      eq_iff t t',
    )
    | inr full ↦ ground (
      arith,
      lookup-insert t t' (delete name formats) all,
      lookup-delete name name' formats,
      eq_iff t t',
    )
  ]
]

set-format_at :
    (table name t' name' : Text) (format : Option MeasureFormat) (s : Schema)
    → format_at t' name' (set_measure_format table name format s).measure_formats ≡ (
        if (key_of table format == t') && (name == name')
        then format
        else format_at t' name' s.measure_formats)
unfolding set_measure_format delete_measure_format key_of
set-format_at table name t' name' none s =
    delete_format-format_at (strip_single_quotes (strip_single_quotes table)) name t' name'
      s.measure_formats
set-format_at table name t' name' (some f) s =
    put_format-format_at (strip_single_quotes table) name t' name' f s.measure_formats

-- Where the store has the table, MeasureFormatFor reads exactly the table and the name.
measure_format_for-exact :
    (table name : Text) (s : Schema) (formats : Dict MeasureFormat)
    → lookup (strip_single_quotes table) s.measure_formats ≡ some formats
    → measure_format_for table name s ≡ lookup name formats
unfolding measure_format_for
measure_format_for-exact table name s formats h = ground arith

cond_same {ℓ} : {A : Type ℓ} {x : A} (t : Text) (y : A) → (if t == t then x else y) ≡ x
cond_same t y = let same = (eq_iff t t).1 refl in rw same refl

measure_format_for-set :
    (table name : Text) (f : MeasureFormat) (s : Schema)
    → measure_format_for table name (set_measure_format table name (some f) s) ≡ some f
unfolding set_measure_format put_format
measure_format_for-set table name f s =
    let t = strip_single_quotes table in
    let formats = insert name f (formats_of (lookup t s.measure_formats)) in
    measure_format_for-exact table name (set_measure_format table name (some f) s) formats
      (lookup-insert t t formats s.measure_formats ∙ cond_same t _)
    ∙ lookup-insert name name f (formats_of (lookup t s.measure_formats))
    ∙ cond_same name _

-- A format that SetMeasureFormat stores is the one that MeasureFormatFor gives for the table and
-- the name. After SetMeasureFormat of a format or of none the store holds it at that table and
-- name, and what it held at every other table or name; where it is none the quotes of the table
-- are stripped twice.
pub measure_format_for-set_measure_format :
    (table name : Text) (s : Schema)
    → ((f : MeasureFormat)
        → measure_format_for table name (set_measure_format table name (some f) s) ≡ some f)
      × ((format : Option MeasureFormat) (t' name' : Text)
          → format_at t' name' (set_measure_format table name format s).measure_formats ≡ (
              if (key_of table format == t') && (name == name')
              then format
              else format_at t' name' s.measure_formats))
measure_format_for-set_measure_format table name s = (
  λ f. measure_format_for-set table name f s,
  λ format t' name'. set-format_at table name t' name' format s,
)
