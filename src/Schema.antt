-- ===== src/Schema.antt =====
-- semantic/schema.go: the schema, its lookups and its hidden and date-table designations.
pub mod Find
mod Flags
pub mod Hidden
pub mod HideTable
pub mod HideColumn
pub mod Keys
pub mod Dates
use mathlib.Core.Option
use dux.Base.{
  ℤ, Bool, true, false, Option, none, some, List, [], ◌∷◌, ◌++◌, Text, Dict, codes, ◌==◌, to_lower,
  equal_fold, lookup, insert, delete, if◌then◌else◌, ◌&&◌, not,
}
use dux.Ast.{MeasureDefinition}

pub record Column : Type 0 where
  pub name : Text
  pub data_type : Text
  pub hidden : Bool

pub record Table : Type 0 where
  pub name : Text
  pub sql_name : Text
  pub is_view : Bool
  pub hidden : Bool
  pub columns : Dict Column

pub record Relationship : Type 0 where
  pub from_table : Text
  pub from_column : Text
  pub to_table : Text
  pub to_column : Text
  pub bidirectional : Bool

-- MeasureFormat (semantic/format.go); a nil pointer is none
pub record MeasureFormat : Type 0 where
  pub kind : Text
  pub decimals : Option ℤ
  pub currency : Text

pub record Schema : Type 0 where
  pub tables : Dict Table
  pub measures : Dict (Dict MeasureDefinition)
  pub measure_formats : Dict (Dict MeasureFormat)
  pub relationships : List Relationship
  pub date_tables : Dict Text
  pub hidden_tables : Dict Bool
  pub hidden_columns : Dict (Dict Bool)

-- NewSchema
abbrev pub new_schema : Schema
new_schema = record {
  tables = [];
  measures = [];
  measure_formats = [];
  relationships = [];
  date_tables = [];
  hidden_tables = [];
  hidden_columns = [];
}

-- The first key of a loop over the map that equals `lower` in lower case.
module _ {ℓ} {V : Type ℓ} where
  unfoldable pub find_fold : Text → Dict V → Option (Text × V)
  find_fold lower [] = none
  find_fold lower ((k, v) ∷ m) = if to_lower k == lower then some (k, v) else find_fold lower m

-- FindTable, with the canonical key first
unfoldable pub find_table : Schema → Text → Option (Text × Table)
find_table s name = elim (lookup name s.tables) [
  | some t ↦ some (name, t)
  | none ↦ find_fold (to_lower name) s.tables
]

pub record FoundColumn : Type 0 where
  pub column : Option Column
  pub table_key : Text
  pub column_key : Text

-- FindColumn: the column, the canonical table key and the canonical column name
unfoldable pub find_column : Schema → Text → Text → FoundColumn
find_column s table column = elim (find_table s table) [
  | none ↦ record { column = none; table_key = []; column_key = [] }
  | some (key, t) ↦ elim (lookup column t.columns) [
    | some c ↦ record { column = some c; table_key = key; column_key = column }
    | none ↦ elim (find_fold (to_lower column) t.columns) [
      | some (k, c) ↦ record { column = some c; table_key = key; column_key = k }
      | none ↦ record { column = none; table_key = key; column_key = [] }
    ]
  ]
]

-- m[k] of a map[string]bool
unfoldable pub flag : Text → Dict Bool → Bool
flag k m = elim (lookup k m) [ some b ↦ b | none ↦ false ]

-- SetTableHidden
unfoldable pub set_table_hidden : Schema → Text → Bool → Schema
set_table_hidden s table hidden =
    let key = to_lower table in
    let marked : Dict Bool =
      if hidden then insert key true s.hidden_tables else delete key s.hidden_tables in
    elim (find_table s table) [
      | none ↦ record s { hidden_tables = marked }
      | some (k, t) ↦ record s {
        hidden_tables = marked;
        tables = insert k (record t { hidden = hidden }) s.tables;
      }
    ]

-- A loop that updates each value of a map in place.
module _ {ℓ} {V : Type ℓ} where
  unfoldable pub map_values : (V → V) → Dict V → Dict V
  map_values f [] = []
  map_values f ((k, v) ∷ m) = (k, f v) ∷ map_values f m

-- The designations of a table's columns, with none for a nil map.
unfoldable pub mark_column : Dict (Dict Bool) → Text → Text → Bool → Dict (Dict Bool)
mark_column m t_key c_key true = elim (lookup t_key m) [
  | none ↦ insert t_key (insert c_key true []) m
  | some cols ↦ insert t_key (insert c_key true cols) m
]
mark_column m t_key c_key false = elim (lookup t_key m) [
  | none ↦ m
  | some cols ↦ elim (delete c_key cols) [
    | [] ↦ delete t_key m
    | c ∷ rest ↦ insert t_key (c ∷ rest) m
  ]
]

set_hidden_if : Text → Bool → Column → Column
set_hidden_if column hidden c = if equal_fold c.name column then record c { hidden = hidden } else c

-- SetColumnHidden
unfoldable pub set_column_hidden : Schema → Text → Text → Bool → Schema
unfolding set_hidden_if
set_column_hidden s table column hidden =
    let marked = mark_column s.hidden_columns (to_lower table) (to_lower column) hidden in
    elim (find_table s table) [
      | none ↦ record s { hidden_columns = marked }
      | some (k, t) ↦
          let t' = record t { columns = map_values (set_hidden_if column hidden) t.columns } in
          record s { hidden_columns = marked; tables = insert k t' s.tables }
    ]

show_column : Column → Column
show_column c = record c { hidden = false }

clear_table : Table → Table
unfolding show_column
clear_table t = record t { hidden = false; columns = map_values show_column t.columns }

-- ClearHidden
unfoldable pub clear_hidden : Schema → Schema
unfolding clear_table
clear_hidden s = record s {
  hidden_tables = [];
  hidden_columns = [];
  tables = map_values clear_table s.tables;
}

-- hiddenCols != nil && hiddenCols[c] for the map of the table's key
unfoldable pub column_flag : Dict (Dict Bool) → Text → Text → Bool
column_flag m t_key c_key = elim (lookup t_key m) [ none ↦ false | some cols ↦ flag c_key cols ]

pub stamp_column : Schema → Text → Column → Column
stamp_column s lk c = record c { hidden = column_flag s.hidden_columns lk (to_lower c.name) }

pub stamp : Schema → Text → Table → Table
unfolding stamp_column
stamp s k t =
    let lk = to_lower k in
    record t {
      hidden = flag lk s.hidden_tables;
      columns = map_values (stamp_column s lk) t.columns;
    }

pub stamp_all : Schema → Dict Table → Dict Table
unfolding stamp
stamp_all s [] = []
stamp_all s ((k, t) ∷ m) = (k, stamp s k t) ∷ stamp_all s m

-- ApplyHiddenFlags
unfoldable pub apply_hidden_flags : Schema → Schema
unfolding stamp_all
apply_hidden_flags s = record s { tables = stamp_all s s.tables }

-- SetDateTable
unfoldable pub set_date_table : Schema → Text → Text → Schema
set_date_table s table column =
    let key = to_lower table in
    if column == []
    then record s { date_tables = delete key s.date_tables }
    else record s { date_tables = insert key column s.date_tables }

-- DateColumn; the two results are one option
unfoldable pub date_column : Schema → Text → Option Text
date_column s table = lookup (to_lower table) s.date_tables
