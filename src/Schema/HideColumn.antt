-- ===== src/Schema/HideColumn.antt =====
-- SetColumnHidden (semantic/schema.go).
use dux.Base.{
  Bool, some, Text, Dict, ◌==◌, eq_iff, to_lower, lookup, ◌≡◌, inl, inr, arith, Bool-cases,
  Option-cases, lookup-insert, if◌then◌else◌, equal_fold,
}
use dux.Schema.{
  Schema, Table, Column, find_table, mark_column, map_values, set_hidden_if, set_column_hidden,
}
use dux.Schema.Find.{IsFoldUnique, find_table-some, find_table-none}
use dux.Schema.Flags.{lookup-map_values, column_flag-mark_column}
use dux.Schema.Hidden.{IsStamped}

tables-set_column_hidden :
    (s : Schema) (table column k : Text) (t : Table) (hidden : Bool)
    → IsFoldUnique s.tables
    → lookup k (set_column_hidden s table column hidden).tables ≡ some t
    → (u : Table) × (lookup k s.tables ≡ some u)
      × (t ≡ (
          if to_lower k == to_lower table
          then record u { columns = map_values (set_hidden_if column hidden) u.columns }
          else u))
unfolding set_column_hidden
tables-set_column_hidden s table column k t hidden u e = elim (Option-cases (find_table s table)) [
  | inl missing ↦
      let old : lookup k s.tables ≡ some t = ground arith in
      let other = find_table-none s table k t missing old in
      (t, old, ground (arith, eq_iff (to_lower k) (to_lower table)))
  | inr ((j, w), found) ↦
      let (held, same) = find_table-some s table j w found in
      let w' = record w { columns = map_values (set_hidden_if column hidden) w.columns } in
      elim (Bool-cases (j == k)) [
        | inl this ↦ (
          w,
          ground (arith, eq_iff j k),
          ground (
            arith,
            eq_iff j k,
            eq_iff (to_lower k) (to_lower table),
            lookup-insert j k w' s.tables,
          ),
        )
        | inr other ↦
            let old : lookup k s.tables ≡ some t = ground (arith, lookup-insert j k w' s.tables) in
            (
              t,
              old,
              ground (arith, eq_iff j k, eq_iff (to_lower k) (to_lower table), u j k w t held old),
            )
      ]
]

maps-set_column_hidden :
    (s : Schema) (table column : Text) (hidden : Bool)
    → ((set_column_hidden s table column hidden).hidden_tables ≡ s.hidden_tables)
      × ((set_column_hidden s table column hidden).hidden_columns
          ≡ mark_column s.hidden_columns (to_lower table) (to_lower column) hidden)
unfolding set_column_hidden
maps-set_column_hidden s table column hidden = elim (Option-cases (find_table s table)) [
  | inl missing ↦ (ground arith, ground arith)
  | inr (found, e) ↦ (ground arith, ground arith)
]

-- A column after the loop of SetColumnHidden over its table's columns.
hide-column :
    (column j : Text) (hidden : Bool) (m : Dict Column) (c : Column)
    → lookup j (map_values (set_hidden_if column hidden) m) ≡ some c
    → (d : Column) × (lookup j m ≡ some d)
      × (c.name ≡ d.name)
      × (c.hidden ≡ (if to_lower d.name == to_lower column then hidden else d.hidden))
unfolding set_hidden_if equal_fold
hide-column column j hidden m c e = elim (Option-cases (lookup j m)) [
  | inl missing ↦ absurd (ground (arith, lookup-map_values (set_hidden_if column hidden) j m))
  | inr (d, held) ↦ (
    d,
    held,
    ground (arith, lookup-map_values (set_hidden_if column hidden) j m),
    ground (arith, lookup-map_values (set_hidden_if column hidden) j m),
  )
]

-- SetColumnHidden keeps the flags and the maps in agreement, where no two table keys differ in case
-- alone.
pub set_column_hidden-IsStamped :
    (s : Schema) (table column : Text) (hidden : Bool)
    → IsFoldUnique s.tables
    → IsStamped s
    → IsStamped (set_column_hidden s table column hidden)
set_column_hidden-IsStamped s table column hidden u h =
    let (same_tables, marked) = maps-set_column_hidden s table column hidden in
    record {
      tables = λ k t e.
          let (w, held, change) = tables-set_column_hidden s table column k t hidden u e in
          ground (arith, h.tables k w held, change, same_tables);
      columns = λ k t i c e f.
          let (w, held, change) = tables-set_column_hidden s table column k t hidden u e in
          elim (Bool-cases (to_lower k == to_lower table)) [
            | inl this ↦
                let (d, at_i, name, hid) =
                  hide-column column i hidden w.columns c (ground (arith, change)) in
                ground (
                  arith,
                  h.columns k w i d held at_i,
                  marked,
                  name,
                  hid,
                  column_flag-mark_column s.hidden_columns (to_lower table) (to_lower column)
                      (to_lower k) (to_lower c.name) hidden,
                  eq_iff (to_lower k) (to_lower table),
                  eq_iff (to_lower table) (to_lower k),
                  eq_iff (to_lower d.name) (to_lower column),
                  eq_iff (to_lower column) (to_lower d.name),
                )
            | inr other ↦ ground (
              arith,
              h.columns k w i c held,
              marked,
              change,
              column_flag-mark_column s.hidden_columns (to_lower table) (to_lower column)
                  (to_lower k) (to_lower c.name) hidden,
              eq_iff (to_lower k) (to_lower table),
              eq_iff (to_lower table) (to_lower k),
            )
          ];
    }
