-- ===== src/Tests/Schemas.antt =====
-- Runs over the designations (semantic/schema.go).
use dux.Base.{
  true, none, some, [], if◌then◌else◌, codes, to_lower, ◌==◌, lookup, insert, delete, mem, ◌≡◌,
  refl, ◌↔◌,
}
use dux.Schema.{
  Table, find_fold, find_table, find_column, flag, set_table_hidden, set_column_hidden,
  clear_hidden, apply_hidden_flags, map_values, set_date_table, date_column,
}
use dux.Schema.Find.{
  IsFoldUnique, has_unique_keys, has_unique_keys-IsFoldUnique, find_table_iff, find_column-some,
}
use dux.Schema.Dates.{date_column-set_date_table}
use dux.Schema.Hidden.{IsStamped, hidden_flags-IsStamped, clear_hidden-IsStamped}
use dux.Schema.HideTable.{set_table_hidden-IsStamped}
use dux.Schema.HideColumn.{set_column_hidden-IsStamped}
use dux.Tests.Sample.{sample, sales, dates, plain_table, key_column}

pub sample_unique : IsFoldUnique sample.tables
unfolding has_unique_keys to_lower ◌==◌ mem
sample_unique = has_unique_keys-IsFoldUnique sample.tables refl

cleared_unique : IsFoldUnique (clear_hidden sample).tables
unfolding has_unique_keys to_lower ◌==◌ mem clear_hidden map_values
cleared_unique = has_unique_keys-IsFoldUnique (clear_hidden sample).tables refl

find_table_iff_example :
    (find_table sample (codes "LAKE.sales") ≡ some (sales, plain_table (codes "Sales"))) ↔ (
      (lookup sales sample.tables ≡ some (plain_table (codes "Sales")))
      × (to_lower sales ≡ to_lower (codes "LAKE.sales")))
find_table_iff_example =
    find_table_iff sample (codes "LAKE.sales") sales (plain_table (codes "Sales")) sample_unique

find_table_runs : find_table sample (codes "LAKE.sales") ≡ some (sales, plain_table (codes "Sales"))
unfolding find_table find_fold lookup to_lower ◌==◌
find_table_runs = refl

find_column_runs :
    find_column sample (codes "dates") (codes "key")
    ≡ record { column = some key_column; table_key = dates; column_key = codes "Key" }
unfolding find_column find_table find_fold lookup to_lower ◌==◌
find_column_runs = refl

find_column-some_example :
    (t : Table) × (lookup dates sample.tables ≡ some t)
    × (lookup (codes "Key") t.columns ≡ some key_column)
    × (to_lower dates ≡ to_lower (codes "dates"))
    × (to_lower (codes "Key") ≡ to_lower (codes "key"))
find_column-some_example =
    find_column-some sample (codes "dates") (codes "key") dates (codes "Key") key_column
      find_column_runs

hidden_flags-IsStamped_example :
    IsStamped (clear_hidden sample) × IsStamped (apply_hidden_flags sample)
hidden_flags-IsStamped_example = hidden_flags-IsStamped sample

set_table_hidden-IsStamped_example :
    IsStamped (set_table_hidden (clear_hidden sample) (codes "dates") true)
set_table_hidden-IsStamped_example =
    set_table_hidden-IsStamped (clear_hidden sample) (codes "dates") true cleared_unique
      (clear_hidden-IsStamped sample)

set_column_hidden-IsStamped_example :
    IsStamped (set_column_hidden (clear_hidden sample) (codes "dates") (codes "KEY") true)
set_column_hidden-IsStamped_example =
    set_column_hidden-IsStamped (clear_hidden sample) (codes "dates") (codes "KEY") true
      cleared_unique (clear_hidden-IsStamped sample)

hidden_runs :
    flag (codes "dates") (set_table_hidden sample (codes "DATES") true).hidden_tables ≡ true
unfolding set_table_hidden flag find_table find_fold lookup insert delete to_lower ◌==◌
hidden_runs = refl

date_column-set_date_table_example :
    date_column (set_date_table sample (codes "Dates") (codes "Key")) (codes "DATES") ≡ (
      if to_lower (codes "Dates") == to_lower (codes "DATES")
      then if codes "Key" == [] then none else some (codes "Key")
      else date_column sample (codes "DATES"))
date_column-set_date_table_example =
    date_column-set_date_table sample (codes "Dates") (codes "Key") (codes "DATES")

date_runs :
    date_column (set_date_table sample (codes "Dates") (codes "Key")) (codes "DATES")
    ≡ some (codes "Key")
unfolding date_column set_date_table to_lower ◌==◌ lookup insert
date_runs = refl
