-- ===== src/Schema/HideTable.antt =====
-- SetTableHidden (semantic/schema.go).
use dux.Base.{
  Bool, true, false, some, Text, ◌==◌, eq_iff, to_lower, lookup, ◌≡◌, inl, inr, arith, Bool-cases,
  Option-cases, lookup-insert, if◌then◌else◌,
}
use dux.Schema.{Schema, Table, find_table, flag, set_table_hidden}
use dux.Schema.Find.{IsFoldUnique, find_table-some, find_table-none}
use dux.Schema.Flags.{flag-insert, flag-delete}
use dux.Schema.Hidden.{IsStamped}

hidden_columns-set_table_hidden :
    (s : Schema) (table : Text) (hidden : Bool)
    → (set_table_hidden s table hidden).hidden_columns ≡ s.hidden_columns
unfolding set_table_hidden
hidden_columns-set_table_hidden s table hidden = elim (Option-cases (find_table s table)) [
  | inl missing ↦ ground arith
  | inr (found, e) ↦ ground arith
]

-- What the maps say of a table after SetTableHidden.
flag-set :
    (s : Schema) (table k : Text) (hidden : Bool)
    → flag k (set_table_hidden s table hidden).hidden_tables
      ≡ (if to_lower table == k then hidden else flag k s.hidden_tables)
unfolding set_table_hidden
flag-set s table k true = elim (Option-cases (find_table s table)) [
  | inl missing ↦ ground (arith, flag-insert (to_lower table) k true s.hidden_tables)
  | inr (found, e) ↦ ground (arith, flag-insert (to_lower table) k true s.hidden_tables)
]
flag-set s table k false = elim (Option-cases (find_table s table)) [
  | inl missing ↦ ground (arith, flag-delete (to_lower table) k s.hidden_tables)
  | inr (found, e) ↦ ground (arith, flag-delete (to_lower table) k s.hidden_tables)
]

-- What a table is after SetTableHidden: its columns stay, and its flag changes exactly if its key
-- equals the name in lower case.
lookup-set_table_hidden :
    (s : Schema) (table k : Text) (t : Table) (hidden : Bool)
    → IsFoldUnique s.tables
    → lookup k (set_table_hidden s table hidden).tables ≡ some t
    → (u : Table) × (lookup k s.tables ≡ some u)
      × (t ≡ record u { hidden = if to_lower k == to_lower table then hidden else u.hidden })
unfolding set_table_hidden
lookup-set_table_hidden s table k t hidden u e = elim (Option-cases (find_table s table)) [
  | inl missing ↦
      let old : lookup k s.tables ≡ some t = ground arith in
      let other = find_table-none s table k t missing old in
      (t, old, ground (arith, eq_iff (to_lower k) (to_lower table)))
  | inr ((j, w), found) ↦
      let (held, same) = find_table-some s table j w found in
      elim (Bool-cases (j == k)) [
        | inl this ↦ (
          w,
          ground (arith, eq_iff j k),
          ground (
            arith,
            eq_iff j k,
            eq_iff (to_lower k) (to_lower table),
            lookup-insert j k (record w { hidden = hidden }) s.tables,
          ),
        )
        | inr other ↦
            let old : lookup k s.tables ≡ some t =
              ground (arith, lookup-insert j k (record w { hidden = hidden }) s.tables) in
            (
              t,
              old,
              ground (arith, eq_iff j k, eq_iff (to_lower k) (to_lower table), u j k w t held old),
            )
      ]
]

-- SetTableHidden keeps the flags and the maps in agreement, where no two table keys differ in case
-- alone.
pub set_table_hidden-IsStamped :
    (s : Schema) (table : Text) (hidden : Bool)
    → IsFoldUnique s.tables
    → IsStamped s
    → IsStamped (set_table_hidden s table hidden)
set_table_hidden-IsStamped s table hidden u h = record {
  tables = λ k t e.
      let (w, held, change) = lookup-set_table_hidden s table k t hidden u e in
      ground (
        arith,
        flag-set s table (to_lower k) hidden,
        h.tables k w held,
        eq_iff (to_lower k) (to_lower table),
        eq_iff (to_lower table) (to_lower k),
        change,
      );
  columns = λ k t i c e f.
      let (w, held, change) = lookup-set_table_hidden s table k t hidden u e in
      ground
        (arith, h.columns k w i c held, hidden_columns-set_table_hidden s table hidden, change);
}
