-- ===== src/Filters/Accepted.antt =====
-- The filters that resolveFilter (executor/extfilter.go) accepts.
use dux.Base.{
  ℕ, suc, Bool, false, Option, none, some, List, [], ◌∷◌, Text, codes, to_lower, equal_fold, ◌==◌,
  ◌||◌, lookup, length, nat_eq, nat_eq_iff, if◌then◌else◌, All, subst, ◌≡◌, ◌≢◌, refl, sym, ap, ◌∙◌,
  inl, inr, Bool-cases, Option-cases, arith, eq_iff,
}
use dux.Ast.{Literal}
use dux.Schema.{Schema, Table, Column, find_fold, find_table}
use dux.Schema.Find.{find_table-some, find_fold-some}
use dux.Filters.{
  Value, FilterColumn, ExternalFilter, FilterOp, op_in_tuples, ResolvedColumn, ResolvedFilter,
  FilterError, Try, ok, err,
}
use dux.Filters.Literals.{Strconv, is_numeric_type, literal_for}
use dux.Filters.Resolve.{
  filter_op, find_table_column, within, blank_filter, resolve_with, resolve_single, is_other,
  resolve_column, keep_first, resolve_columns, resolve_row, resolve_tuples, first_table,
  resolve_parts, resolve_tuple_filter, resolve_filter, resolve_filters,
}
use dux.Filters.Selects.{IsOperable}
use dux.Filters.Typed.{
  bind-ok, within-ok, unless-ok, unless-false, when-ok, when-true, ok-injective, some≢none,
  IsColumn, AreTyped, literal_for-IsTyped,
}
use dux.Filters.Single.{IsSingle, operands-IsSingle}

-- A filter that is ready for predicate and filterArg.
pub data IsAccepted (schema : Schema) (rf : ResolvedFilter) : Type 0 where
  -- One column of a table of the schema, and operands typed by it.
  on_column :
      (table column : Text) (op : FilterOp) (numeric : Bool)
      → IsColumn schema table column numeric
      → IsSingle table column op numeric rf
      → IsAccepted schema rf
  -- Several columns of one table, and tuples with a typed value for each column.
  on_tuples :
      rf.op ≡ op_in_tuples
      → rf.columns ≢ []
      → rf.tuples ≢ []
      → All
          (λ c. IsColumn schema c.table c.column c.numeric × (to_lower c.table ≡ to_lower rf.table))
          rf.columns
      → All (AreTyped rf.columns) rf.tuples
      → IsAccepted schema rf

found-ok {ℓ κ} :
    {A : Type ℓ} {B : Type κ} (o : Option A) (e : FilterError) (k : A → Try B) (b : B)
    → elim o as (λ x. Try B) [ none ↦ err e | some a ↦ k a ] ≡ ok b
    → (a : A) × (o ≡ some a) × (k a ≡ ok b)
found-ok none e k b h = absurd (ground arith)
found-ok (some a) e k b h = (a, refl, h)

find_table_column-some :
    (table : Table) (name : Text) (c : Column)
    → find_table_column table name ≡ some c
    → (key : Text) × (lookup key table.columns ≡ some c)
unfolding find_table_column
find_table_column-some table name c h = elim (Option-cases (lookup name table.columns)) [
  | inr (d, held) ↦ (name, ground arith)
  | inl missing ↦ elim (Option-cases (find_fold (to_lower name) table.columns)) [
    | inl none_at ↦ absurd (ground arith)
    | inr ((k, d), found) ↦
        let (held, _) = find_fold-some (to_lower name) table.columns k d found in (k, ground arith)
  ]
]

column-IsColumn :
    (schema : Schema) (name key : Text) (table : Table) (column : Text) (c : Column)
    → find_table schema name ≡ some (key, table)
    → find_table_column table column ≡ some c
    → IsColumn schema key c.name (is_numeric_type c.data_type)
column-IsColumn schema name key table column c h q =
    let (at, _) = find_table-some schema name key table h in
    let (k, held) = find_table_column-some table column c q in
    record { held = table; found = c; at = at; key = k; among = held; name = refl; type = refl }

not-in_tuples : (op : Text) → (op == codes "in_tuples") ≡ false → filter_op op ≢ some op_in_tuples
unfolding filter_op
not-in_tuples op h e = ground arith

default_op :
    (op : Text)
    → (op == codes "in_tuples") ≡ false
    → ((if op == [] then codes "in" else op) == codes "in_tuples") ≡ false
default_op op h = elim (Bool-cases (op == [])) [
  | inl empty ↦ rw empty (unfold ◌==◌ in refl)
  | inr other ↦ rw other h
]

same_table :
    (first : Option Text) (key t : Text)
    → first ≡ some t
    → is_other first key ≡ false
    → to_lower key ≡ to_lower t
unfolding is_other equal_fold
same_table none key t e h = absurd (some≢none e)
same_table (some u) key t e h = ground (arith, eq_iff (to_lower key) (to_lower u))

column-ok :
    (schema : Schema) (i : ℕ) (first : Option Text) (fc : FilterColumn) (c : ResolvedColumn)
    → resolve_column schema i first fc ≡ ok c
    → IsColumn schema c.table c.column c.numeric
      × ((t : Text) → first ≡ some t → to_lower c.table ≡ to_lower t)
unfolding resolve_column
column-ok schema i first fc c h =
    let given = unless-ok (fc.table == [] || fc.column == []) _ _ c h in
    let ((key, table), at, more) = found-ok (find_table schema fc.table) _ _ c given in
    let one = unless-false (is_other first key) _ _ c more in
    let rest = unless-ok (is_other first key) _ _ c more in
    let (d, held, last) = found-ok (find_table_column table fc.column) _ _ c rest in
    subst
      (λ c'.
        IsColumn schema c'.table c'.column c'.numeric
        × ((t : Text) → first ≡ some t → to_lower c'.table ≡ to_lower t))
      (ok-injective last)
      (
        column-IsColumn schema fc.table key table fc.column d at held,
        λ t e. same_table first key t e one,
      )

module _ (sc : Strconv) (schema : Schema) where
  single-IsAccepted :
      (f : ExternalFilter) (rf : ResolvedFilter)
      → (f.op == codes "in_tuples") ≡ false
      → resolve_single sc schema f ≡ ok rf
      → IsAccepted schema rf
  unfolding resolve_single resolve_with
  single-IsAccepted f rf o h =
      let given = unless-ok (f.table == [] || f.column == []) _ _ rf h in
      let ((key, table), at, more) = found-ok (find_table schema f.table) _ _ rf given in
      let (c, held, last) = found-ok (find_table_column table f.column) _ _ rf more in
      let op = if f.op == [] then codes "in" else f.op in
      let (o', parsed, done) = found-ok (filter_op op) _ _ rf last in
      on_column key c.name o' (is_numeric_type c.data_type)
        (column-IsColumn schema f.table key table f.column c at held)
        (operands-IsSingle sc o' op f key c.name (is_numeric_type c.data_type) rf
          (λ e. not-in_tuples op (default_op f.op o) (parsed ∙ ap some e)) done)

-- Columns of tables that equal `t` in lower case.
unfoldable pub AreColumns : Schema → Text → List ResolvedColumn → Type 0
AreColumns schema t =
    All (λ c. IsColumn schema c.table c.column c.numeric × (to_lower c.table ≡ to_lower t))

columns-ok :
    (schema : Schema) (i : ℕ) (t : Text) (fcs : List FilterColumn) (cs : List ResolvedColumn)
    → resolve_columns schema i (some t) fcs ≡ ok cs
    → AreColumns schema t cs
unfolding resolve_columns AreColumns keep_first
columns-ok schema i t [] cs h = subst (AreColumns schema t) (ok-injective h) tt
columns-ok schema i t (fc ∷ fcs) cs h =
    let (c, one, more) = bind-ok (resolve_column schema i (some t) fc) _ cs h in
    let (rest, later, same) = bind-ok (resolve_columns schema (suc i) (some t) fcs) _ cs more in
    let (is, table) = column-ok schema i (some t) fc c one in
    subst (AreColumns schema t) (ok-injective same)
      ((is, table t refl), columns-ok schema (suc i) t fcs rest later)

first_columns-ok :
    (schema : Schema) (fc : FilterColumn) (fcs : List FilterColumn) (cs : List ResolvedColumn)
    → resolve_columns schema 1 none (fc ∷ fcs) ≡ ok cs
    → AreColumns schema (first_table cs) cs × (cs ≢ [])
unfolding resolve_columns AreColumns keep_first first_table
first_columns-ok schema fc fcs cs h =
    let (c, one, more) = bind-ok (resolve_column schema 1 none fc) _ cs h in
    let (rest, later, same) = bind-ok (resolve_columns schema 2 (some c.table) fcs) _ cs more in
    let (is, _) = column-ok schema 1 none fc c one in
    subst (λ r. AreColumns schema (first_table r) r × (r ≢ [])) (ok-injective same)
      (((is, refl), columns-ok schema 2 c.table fcs rest later), λ e. cc)

module _ (sc : Strconv) where
  row-AreTyped :
      (i j : ℕ) (columns : List ResolvedColumn) (tup : List Value) (row : List Literal)
      → length tup ≡ length columns
      → resolve_row sc i j columns tup ≡ ok row
      → AreTyped columns row
  unfolding resolve_row AreTyped
  row-AreTyped i j [] [] row n h = subst (AreTyped []) (ok-injective h) tt
  row-AreTyped i j [] (v ∷ tup) row n h = absurd (omega arith)
  row-AreTyped i j (c ∷ columns) [] row n h = absurd (omega arith)
  row-AreTyped i j (c ∷ columns) (v ∷ tup) row n h =
      let (l, one, more) =
        bind-ok (within (FilterError.tuple_value i j) (literal_for sc v c.numeric)) _ row h in
      let (rest, later, same) = bind-ok (resolve_row sc i (suc j) columns tup) _ row more in
      let typed =
        literal_for-IsTyped sc v c.numeric l
          (within-ok (FilterError.tuple_value i j) (literal_for sc v c.numeric) l one) in
      subst (AreTyped (c ∷ columns)) (ok-injective same)
        (typed, row-AreTyped i (suc j) columns tup rest (omega arith) later)

  tuples-AreTyped :
      (i : ℕ) (columns : List ResolvedColumn) (tuples : List (List Value))
      (rows : List (List Literal))
      → resolve_tuples sc i columns tuples ≡ ok rows
      → All (AreTyped columns) rows × (length rows ≡ length tuples)
  unfolding resolve_tuples
  tuples-AreTyped i columns [] rows h =
      subst (λ r. All (AreTyped columns) r × (length r ≡ 0)) (ok-injective h) (tt, refl)
  tuples-AreTyped i columns (tup ∷ tuples) rows h =
      let fits = when-true (nat_eq (length tup) (length columns)) _ _ rows h in
      let rest = when-ok (nat_eq (length tup) (length columns)) _ _ rows h in
      let (row, one, more) = bind-ok (resolve_row sc i 1 columns tup) _ rows rest in
      let (later, made, same) = bind-ok (resolve_tuples sc (suc i) columns tuples) _ rows more in
      let typed =
        row-AreTyped i 1 columns tup row ((nat_eq_iff (length tup) (length columns)).0 fits) one in
      let (all_typed, n) = tuples-AreTyped (suc i) columns tuples later made in
      subst (λ r. All (AreTyped columns) r × (length r ≡ suc (length tuples))) (ok-injective same)
        ((typed, all_typed), omega arith)

  parts-IsAccepted :
      (schema : Schema) (fcs : List FilterColumn) (tuples : List (List Value)) (rf : ResolvedFilter)
      → resolve_parts sc schema fcs tuples ≡ ok rf
      → IsAccepted schema rf
  unfolding resolve_parts AreColumns blank_filter
  parts-IsAccepted schema [] tuples rf h = absurd (ground arith)
  parts-IsAccepted schema (fc ∷ fcs) [] rf h = absurd (ground arith)
  parts-IsAccepted schema (fc ∷ fcs) (tup ∷ tups) rf h =
      let (cs, columns, more) = bind-ok (resolve_columns schema 1 none (fc ∷ fcs)) _ rf h in
      let (rows, tuples, same) = bind-ok (resolve_tuples sc 1 cs (tup ∷ tups)) _ rf more in
      let (known, some') = first_columns-ok schema fc fcs cs columns in
      let (typed, n) = tuples-AreTyped 1 cs (tup ∷ tups) rows tuples in
      subst (IsAccepted schema) (ok-injective same)
        (on_tuples refl some' (λ e. absurd (omega (arith, ap length e))) known typed)

  -- A filter that resolveFilter accepts names columns of one table of the schema and holds the
  -- operands that its operator needs, tuples as long as the columns included, where an operand of
  -- a numeric column is never a string.
  pub resolve_filter-IsAccepted :
      (schema : Schema) (f : ExternalFilter) (rf : ResolvedFilter)
      → resolve_filter sc schema f ≡ ok rf
      → IsAccepted schema rf
  unfolding resolve_filter resolve_tuple_filter
  resolve_filter-IsAccepted schema f rf h = elim (Bool-cases (f.op == codes "in_tuples")) [
    | inl tuples ↦ parts-IsAccepted schema f.columns f.tuples rf (ground arith)
    | inr other ↦ single-IsAccepted sc schema f rf other (ground arith)
  ]

  pub resolve_filters-IsAccepted :
      (schema : Schema) (i : ℕ) (fs : List ExternalFilter) (rfs : List ResolvedFilter)
      → resolve_filters sc schema i fs ≡ ok rfs
      → All (IsAccepted schema) rfs × (length rfs ≡ length fs)
  unfolding resolve_filters
  resolve_filters-IsAccepted schema i [] rfs h =
      subst (λ r. All (IsAccepted schema) r × (length r ≡ 0)) (ok-injective h) (tt, refl)
  resolve_filters-IsAccepted schema i (f ∷ fs) rfs h =
      let about = FilterError.filter_number i f.table f.column in
      let (rf, one, more) = bind-ok (within about (resolve_filter sc schema f)) _ rfs h in
      let (rest, later, same) = bind-ok (resolve_filters sc schema (suc i) fs) _ rfs more in
      let (accepted, n) = resolve_filters-IsAccepted schema (suc i) fs rest later in
      subst (λ r. All (IsAccepted schema) r × (length r ≡ suc (length fs))) (ok-injective same)
        (
          (
            resolve_filter-IsAccepted schema f rf
                (within-ok about (resolve_filter sc schema f) rf one),
            accepted,
          ),
          omega arith,
        )

AreTyped-length :
    (columns : List ResolvedColumn) (tup : List Literal)
    → AreTyped columns tup
    → length tup ≡ length columns
unfolding AreTyped
AreTyped-length [] [] h = refl
AreTyped-length [] (l ∷ tup) h = absurd h
AreTyped-length (c ∷ columns) [] h = absurd h
AreTyped-length (c ∷ columns) (l ∷ tup) (h, hs) = omega (arith, AreTyped-length columns tup hs)

AreTyped-fit :
    (columns : List ResolvedColumn) (tuples : List (List Literal))
    → All (AreTyped columns) tuples
    → All (λ tup. length tup ≡ length columns) tuples
AreTyped-fit columns [] h = tt
AreTyped-fit columns (tup ∷ tuples) (h, hs) =
    (AreTyped-length columns tup h, AreTyped-fit columns tuples hs)

pub IsAccepted-IsOperable :
    (schema : Schema) (rf : ResolvedFilter) → IsAccepted schema rf → IsOperable rf.op rf
IsAccepted-IsOperable schema rf (on_column table column op numeric c s) =
    subst (λ o. IsOperable o rf) (sym s.op_same) s.operable
IsAccepted-IsOperable schema rf (on_tuples op some' full columns typed) =
    subst (λ o. IsOperable o rf) (sym op)
      (unfold IsOperable in (some', full, AreTyped-fit rf.columns rf.tuples typed))
