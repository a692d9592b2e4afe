-- ===== src/Filters/Resolve.antt =====
-- resolveFilter and resolveTupleFilter (executor/extfilter.go).
use dux.Base.{
  ℕ, suc, Bool, true, false, Option, none, some, List, [], ◌∷◌, Text, codes, to_lower, equal_fold,
  ◌==◌, ◌||◌, not, lookup, length, nat_eq, if◌then◌else◌,
}
use dux.Ast.{Literal}
use dux.Schema.{Schema, Table, Column, find_fold, find_table}
use dux.Filters.{
  Value, null, FilterColumn, ExternalFilter, FilterOp, op_in, op_between, op_contains, op_in_tuples,
  op_eq, op_ne, op_lt, op_le, op_gt, op_ge, ResolvedColumn, ResolvedFilter, FilterError,
  table_and_column_required, unknown_table, unknown_column, unsupported_op, values_required,
  from_and_to_required, value_required, contains_on_numeric, columns_required, tuples_required,
  several_tables, tuple_length, operand, column_number, tuple_value, filter_number, Try, ok, err,
  ◌>>=◌,
}
use dux.Filters.Literals.{Strconv, is_numeric_type, literal_for}

-- validFilterOps[op]
unfoldable pub filter_op : Text → Option FilterOp
filter_op op =
    if op == codes "in"
    then some op_in
    else if op == codes "between"
    then some op_between
    else if op == codes "contains"
    then some op_contains
    else if op == codes "in_tuples"
    then some op_in_tuples
    else if op == codes "="
    then some op_eq
    else if op == codes "!="
    then some op_ne
    else if op == codes "<"
    then some op_lt
    else if op == codes "<="
    then some op_le
    else if op == codes ">"
    then some op_gt
    else if op == codes ">="
    then some op_ge
    else none

-- findColumn
unfoldable pub find_table_column : Table → Text → Option Column
find_table_column table name = elim (lookup name table.columns) [
  | some c ↦ some c
  | none ↦ elim (find_fold (to_lower name) table.columns) [ some (k, c) ↦ some c | none ↦ none ]
]

-- An error with what it is about.
unfoldable pub within {ℓ} : {A : Type ℓ} → (FilterError → FilterError) → Try A → Try A
within wrap (ok a) = ok a
within wrap (err e) = err (wrap e)

-- x == nil
unfoldable pub is_null : Value → Bool
is_null null = true
is_null _ = false

unfoldable pub blank_filter : Text → Text → FilterOp → Bool → ResolvedFilter
blank_filter table column op numeric = record {
  table = table;
  column = column;
  op = op;
  numeric = numeric;
  values = [];
  value = none;
  from = none;
  to = none;
  columns = [];
  tuples = [];
}

-- i > 0 and the table is another than tableKey
unfoldable pub is_other : Option Text → Text → Bool
is_other none key = false
is_other (some table_key) key = not (equal_fold key table_key)

-- The body of the loop over the columns; `first` is tableKey after the first round.
unfoldable pub resolve_column : Schema → ℕ → Option Text → FilterColumn → Try ResolvedColumn
unfolding is_other
resolve_column schema i first fc =
    if fc.table == [] || fc.column == []
    then err (column_number i table_and_column_required)
    else elim (find_table schema fc.table) [
      | none ↦ err (column_number i unknown_table)
      | some (key, table) ↦
          if is_other first key
          then err (several_tables (elim first [ none ↦ [] | some table_key ↦ table_key ]) key)
          else elim (find_table_column table fc.column) [
            | none ↦ err (column_number i unknown_column)
            | some col ↦
                ok (record {
                  table = key;
                  column = col.name;
                  numeric = is_numeric_type col.data_type;
                })
          ]
    ]

unfoldable pub keep_first : Option Text → Text → Option Text
keep_first none key = some key
keep_first (some table_key) key = some table_key

unfoldable pub resolve_columns :
    Schema → ℕ → Option Text → List FilterColumn → Try (List ResolvedColumn)
unfolding resolve_column keep_first
resolve_columns schema i first [] = ok []
resolve_columns schema i first (fc ∷ columns) = resolve_column schema i first fc >>= λ c.
    resolve_columns schema (suc i) (keep_first first c.table) columns >>= λ cs. ok (c ∷ cs)

-- tableKey after the loop
unfoldable pub first_table : List ResolvedColumn → Text
first_table [] = []
first_table (c ∷ columns) = c.table

module _ (sc : Strconv) where
  -- lit
  unfoldable pub operand_literal : Bool → Value → Text → Try Literal
  unfolding within
  operand_literal numeric v what = within (operand what) (literal_for sc v numeric)

  unfoldable pub value_literals : Bool → List Value → Try (List Literal)
  unfolding operand_literal
  value_literals numeric [] = ok []
  value_literals numeric (v ∷ values) =
      let rest = value_literals numeric values in
      operand_literal numeric v (codes "values") >>= λ l. rest >>= λ ls. ok (l ∷ ls)

  unfoldable pub in_values : Bool → List Value → Try (List Literal)
  unfolding value_literals
  in_values numeric [] = err values_required
  in_values numeric (v ∷ values) = value_literals numeric (v ∷ values)

  -- The case "in" of the switch.
  unfoldable pub resolve_in : ExternalFilter → ResolvedFilter → Try ResolvedFilter
  unfolding in_values
  resolve_in f rf = in_values rf.numeric f.values >>= λ ls. ok (record rf { values = ls })

  unfoldable pub resolve_between : ExternalFilter → ResolvedFilter → Try ResolvedFilter
  unfolding operand_literal
  resolve_between f rf =
      if is_null f.from || is_null f.to
      then err from_and_to_required
      else operand_literal rf.numeric f.from (codes "from") >>= λ from.
          operand_literal rf.numeric f.to (codes "to") >>= λ to.
          ok (record rf { from = some from; to = some to })

  unfoldable pub resolve_contains : Text → ExternalFilter → ResolvedFilter → Try ResolvedFilter
  unfolding operand_literal
  resolve_contains op f rf =
      if is_null f.value
      then err (value_required op)
      else if rf.numeric
      then err contains_on_numeric
      else operand_literal rf.numeric f.value (codes "value") >>= λ v.
          ok (record rf { value = some v })

  -- The default case.
  unfoldable pub resolve_scalar : Text → ExternalFilter → ResolvedFilter → Try ResolvedFilter
  unfolding operand_literal
  resolve_scalar op f rf =
      if is_null f.value
      then err (value_required op)
      else operand_literal rf.numeric f.value (codes "value") >>= λ v.
          ok (record rf { value = some v })

  -- The switch over the operators; the last case is the default.
  unfoldable pub resolve_operands :
      FilterOp → Text → ExternalFilter → ResolvedFilter → Try ResolvedFilter
  unfolding resolve_in resolve_between resolve_contains resolve_scalar
  resolve_operands op_in name f rf = resolve_in f rf
  resolve_operands op_between name f rf = resolve_between f rf
  resolve_operands op_contains name f rf = resolve_contains name f rf
  resolve_operands _ name f rf = resolve_scalar name f rf

  -- resolveFilter after the lookup of the column
  unfoldable pub resolve_with : ExternalFilter → Text → Column → Try ResolvedFilter
  unfolding resolve_operands blank_filter
  resolve_with f key col =
      let op = if f.op == [] then codes "in" else f.op in
      elim (filter_op op) [
        | none ↦ err (unsupported_op op)
        | some o ↦
            resolve_operands o op f (blank_filter key col.name o (is_numeric_type col.data_type))
      ]

  unfoldable pub resolve_single : Schema → ExternalFilter → Try ResolvedFilter
  unfolding resolve_with
  resolve_single schema f =
      if f.table == [] || f.column == []
      then err table_and_column_required
      else elim (find_table schema f.table) [
        | none ↦ err unknown_table
        | some (key, table) ↦ elim (find_table_column table f.column) [
          | none ↦ err unknown_column
          | some col ↦ resolve_with f key col
        ]
      ]

  -- The values of one tuple, which is as long as the columns.
  unfoldable pub resolve_row : ℕ → ℕ → List ResolvedColumn → List Value → Try (List Literal)
  resolve_row i j (c ∷ columns) (v ∷ tup) =
      let rest = resolve_row i (suc j) columns tup in
      within (tuple_value i j) (literal_for sc v c.numeric) >>= λ l. rest >>= λ ls. ok (l ∷ ls)
  resolve_row i j [] tup = ok []
  resolve_row i j (c ∷ columns) [] = ok []

  unfoldable pub resolve_tuples :
      ℕ → List ResolvedColumn → List (List Value) → Try (List (List Literal))
  unfolding resolve_row
  resolve_tuples i columns [] = ok []
  resolve_tuples i columns (tup ∷ tuples) =
      let rest = resolve_tuples (suc i) columns tuples in
      if nat_eq (length tup) (length columns)
      then (resolve_row i 1 columns tup >>= λ r. rest >>= λ rs. ok (r ∷ rs))
      else err (tuple_length i (length tup) (length columns))

  unfoldable pub resolve_parts : Schema → List FilterColumn → List (List Value) → Try ResolvedFilter
  unfolding resolve_columns resolve_tuples first_table blank_filter
  resolve_parts schema [] tuples = err columns_required
  resolve_parts schema (fc ∷ fcs) [] = err tuples_required
  resolve_parts schema (fc ∷ fcs) (tup ∷ tups) =
      resolve_columns schema 1 none (fc ∷ fcs) >>= λ columns.
      resolve_tuples 1 columns (tup ∷ tups) >>= λ tuples.
      ok (record (blank_filter (first_table columns) [] op_in_tuples false) {
        columns = columns;
        tuples = tuples;
      })

  -- resolveTupleFilter
  unfoldable pub resolve_tuple_filter : Schema → ExternalFilter → Try ResolvedFilter
  unfolding resolve_parts
  resolve_tuple_filter schema f = resolve_parts schema f.columns f.tuples

  -- resolveFilter
  unfoldable pub resolve_filter : Schema → ExternalFilter → Try ResolvedFilter
  unfolding resolve_tuple_filter resolve_single
  resolve_filter schema f =
      if f.op == codes "in_tuples" then resolve_tuple_filter schema f else resolve_single schema f

  -- The first loop of ApplyExternalFilters.
  unfoldable pub resolve_filters : Schema → ℕ → List ExternalFilter → Try (List ResolvedFilter)
  unfolding resolve_filter
  resolve_filters schema i [] = ok []
  resolve_filters schema i (f ∷ filters) =
      let rest = resolve_filters schema (suc i) filters in
      within (filter_number i f.table f.column) (resolve_filter schema f) >>= λ rf.
      rest >>= λ rfs. ok (rf ∷ rfs)
