-- ===== src/Schema/Dates.antt =====
-- SetDateTable and DateColumn (semantic/schema.go).
use dux.Base.{
  none, some, [], Text, ◌==◌, to_lower, lookup-insert, lookup-delete, if◌then◌else◌, ◌≡◌, arith,
}
use dux.Schema.{Schema, set_date_table, date_column}

-- After SetDateTable, DateColumn gives for the table, in any casing, the column that was set, or
-- none where the column was empty, and for every other table what it gave before.
pub date_column-set_date_table :
    (s : Schema) (table column other : Text)
    → date_column (set_date_table s table column) other ≡ (
        if to_lower table == to_lower other
        then if column == [] then none else some column
        else date_column s other)
unfolding set_date_table date_column
date_column-set_date_table s table column other = ground (
  arith,
  lookup-insert (to_lower table) (to_lower other) column s.date_tables,
  lookup-delete (to_lower table) (to_lower other) s.date_tables,
)
