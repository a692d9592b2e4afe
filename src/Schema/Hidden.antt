-- ===== src/Schema/Hidden.antt =====
-- ApplyHiddenFlags and ClearHidden (semantic/schema.go): the flags on tables and columns agree with
-- the maps that persist them.
use dux.Base.{false, some, Text, to_lower, lookup, ◌≡◌, refl, inl, inr, arith, Option-cases}
use dux.Schema.{
  Schema, Table, Column, flag, column_flag, clear_table, show_column, stamp_column, clear_hidden,
  stamp, apply_hidden_flags,
}
use dux.Schema.Flags.{lookup-map_values, lookup-stamp_all, flag_nil, column_flag_nil}

-- Each flag of a table and of a column is the one that the maps designate.
pub record IsStamped (s : Schema) : Type 0 where
  pub tables :
      (k : Text) (t : Table)
      → lookup k s.tables ≡ some t
      → t.hidden ≡ flag (to_lower k) s.hidden_tables
  pub columns :
      (k : Text) (t : Table) (j : Text) (c : Column)
      → lookup k s.tables ≡ some t
      → lookup j t.columns ≡ some c
      → c.hidden ≡ column_flag s.hidden_columns (to_lower k) (to_lower c.name)

stamped_column :
    (s : Schema) (k : Text) (t : Table) (j : Text) (c : Column)
    → lookup j (stamp s k t).columns ≡ some c
    → c.hidden ≡ column_flag s.hidden_columns (to_lower k) (to_lower c.name)
unfolding stamp
stamped_column s k t j c e = elim (Option-cases (lookup j t.columns)) [
  | inl missing ↦ ground (arith, lookup-map_values (stamp_column s (to_lower k)) j t.columns)
  | inr (d, held) ↦ ground (arith, lookup-map_values (stamp_column s (to_lower k)) j t.columns)
]

stamp_hidden :
    (s : Schema) (k : Text) (t : Table) → (stamp s k t).hidden ≡ flag (to_lower k) s.hidden_tables
unfolding stamp
stamp_hidden s k t = refl

-- ApplyHiddenFlags stamps every table and column from the maps, whatever their flags were.
pub apply_hidden_flags-IsStamped : (s : Schema) → IsStamped (apply_hidden_flags s)
unfolding apply_hidden_flags
apply_hidden_flags-IsStamped s = record {
  tables = λ k t e. elim (Option-cases (lookup k s.tables)) [
    | inl missing ↦ ground (arith, lookup-stamp_all s k s.tables)
    | inr (u, held) ↦ ground (arith, lookup-stamp_all s k s.tables, stamp_hidden s k u)
  ];
  columns = λ k t j c e f. elim (Option-cases (lookup k s.tables)) [
    | inl missing ↦ ground (arith, lookup-stamp_all s k s.tables)
    | inr (u, held) ↦ ground (arith, lookup-stamp_all s k s.tables, stamped_column s k u j c)
  ];
}

cleared_column :
    (t : Table) (j : Text) (c : Column)
    → lookup j (clear_table t).columns ≡ some c
    → c.hidden ≡ false
unfolding clear_table
cleared_column t j c e = elim (Option-cases (lookup j t.columns)) [
  | inl missing ↦ ground (arith, lookup-map_values show_column j t.columns)
  | inr (d, held) ↦ ground (arith, lookup-map_values show_column j t.columns)
]

-- ClearHidden leaves a schema with every flag down and no designation.
pub clear_hidden-IsStamped : (s : Schema) → IsStamped (clear_hidden s)
unfolding clear_hidden clear_table
clear_hidden-IsStamped s = record {
  tables = λ k t e. elim (Option-cases (lookup k s.tables)) [
    | inl missing ↦ ground (arith, lookup-map_values clear_table k s.tables, flag_nil (to_lower k))
    | inr (u, held) ↦
        ground (arith, lookup-map_values clear_table k s.tables, flag_nil (to_lower k))
  ];
  columns = λ k t j c e f. elim (Option-cases (lookup k s.tables)) [
    | inl missing ↦ ground (arith, lookup-map_values clear_table k s.tables)
    | inr (u, held) ↦ ground (
      arith,
      lookup-map_values clear_table k s.tables,
      cleared_column u j c,
      column_flag_nil (to_lower k) (to_lower c.name),
    )
  ];
}

-- After ClearHidden and after ApplyHiddenFlags the flag of every table and column of the schema is
-- the one that the two maps of designations give, whatever the flags were before.
pub hidden_flags-IsStamped :
    (s : Schema) → IsStamped (clear_hidden s) × IsStamped (apply_hidden_flags s)
hidden_flags-IsStamped s = (clear_hidden-IsStamped s, apply_hidden_flags-IsStamped s)
