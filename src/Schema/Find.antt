-- ===== src/Schema/Find.antt =====
-- The lookups FindTable and FindColumn (semantic/schema.go): what they find, and that the order of
-- a loop over a map does not matter where no two keys differ in case alone.
use dux.Base.{
  Bool, true, none, some, List, [], ◌∷◌, Text, Dict, ◌==◌, eq_iff, to_lower, lookup, mem, not, ◌&&◌,
  ◌≡◌, sym, ◌∙◌, ◌≢◌, ◌↔◌, inl, inr, arith, Bool-cases, Option-cases,
}
use dux.Schema.{Schema, Table, Column, find_fold, find_table, find_column}

module _ {ℓ} {V : Type ℓ} where
  -- No two keys of a map differ in case alone.
  abbrev pub IsFoldUnique : Dict V → Type ℓ
  IsFoldUnique m =
      (j k : Text) (v w : V)
      → lookup j m ≡ some v
      → lookup k m ≡ some w
      → to_lower j ≡ to_lower k
      → j ≡ k

  pub find_fold-some :
      (l : Text) (m : Dict V) (k : Text) (v : V)
      → find_fold l m ≡ some (k, v)
      → (lookup k m ≡ some v) × (to_lower k ≡ l)
  unfolding find_fold lookup
  find_fold-some l [] k v h = cc
  find_fold-some l ((j, w) ∷ m) k v h =
      ground (arith, eq_iff (to_lower j) l, eq_iff j k, find_fold-some l m k v)

  pub find_fold-none :
      (l : Text) (m : Dict V) (k : Text) (v : V)
      → find_fold l m ≡ none
      → lookup k m ≡ some v
      → to_lower k ≢ l
  unfolding find_fold lookup
  find_fold-none l [] k v h e = cc
  find_fold-none l ((j, w) ∷ m) k v h e =
      ground (arith, eq_iff (to_lower j) l, eq_iff j k, find_fold-none l m k v)

pub find_table-some :
    (s : Schema) (name k : Text) (t : Table)
    → find_table s name ≡ some (k, t)
    → (lookup k s.tables ≡ some t) × (to_lower k ≡ to_lower name)
unfolding find_table
find_table-some s name k t h = ground (arith, find_fold-some (to_lower name) s.tables k t)

pub find_table-none :
    (s : Schema) (name k : Text) (t : Table)
    → find_table s name ≡ none
    → lookup k s.tables ≡ some t
    → to_lower k ≢ to_lower name
unfolding find_table
find_table-none s name k t h e = ground (arith, find_fold-none (to_lower name) s.tables k t)

-- Where no two table keys differ in case alone, FindTable returns the table whose key equals the
-- name in lower case, whatever the order of the map.
pub find_table_unique :
    (s : Schema) (name k : Text) (t : Table)
    → IsFoldUnique s.tables
    → lookup k s.tables ≡ some t
    → to_lower k ≡ to_lower name
    → find_table s name ≡ some (k, t)
find_table_unique s name k t u e f = elim (Option-cases (find_table s name)) [
  | inl missing ↦ absurd (find_table-none s name k t missing e f)
  | inr ((j, w), found) ↦
      let (at_j, fold_j) = find_table-some s name j w found in
      let same = u j k w t at_j e (fold_j ∙ sym f) in ground arith
]

-- Where no two table keys differ in case alone, FindTable returns a key and a table exactly when
-- the map holds the table under that key and the key equals the name in lower case: the exact
-- match and the scan agree, and the order of the map does not matter.
pub find_table_iff :
    (s : Schema) (name k : Text) (t : Table)
    → IsFoldUnique s.tables
    → (find_table s name ≡ some (k, t))
      ↔ ((lookup k s.tables ≡ some t) × (to_lower k ≡ to_lower name))
find_table_iff s name k t u =
    (find_table-some s name k t, λ p. find_table_unique s name k t u p.0 p.1)

-- When FindColumn returns a column with a table key and a column key, the table under that key
-- holds the column under that column key, and both keys equal the names asked for in lower case.
pub find_column-some :
    (s : Schema) (table column k j : Text) (c : Column)
    → find_column s table column ≡ record { column = some c; table_key = k; column_key = j }
    → (t : Table) × (lookup k s.tables ≡ some t)
      × (lookup j t.columns ≡ some c)
      × (to_lower k ≡ to_lower table)
      × (to_lower j ≡ to_lower column)
unfolding find_column
find_column-some s table column k j c h = elim (Option-cases (find_table s table)) [
  | inl missing ↦ absurd (ground arith)
  | inr ((key, t), found) ↦
      let (held, same) = find_table-some s table key t found in
      let scan = find_fold-some (to_lower column) t.columns j c in
      (t, ground arith, ground (arith, scan), ground arith, ground (arith, scan))
]

-- The test that no two keys of a map differ in case alone.
module _ {ℓ} {V : Type ℓ} where
  unfoldable pub lower_keys : Dict V → List Text
  lower_keys [] = []
  lower_keys ((k, v) ∷ m) = to_lower k ∷ lower_keys m

  unfoldable pub has_unique_keys : Dict V → Bool
  unfolding lower_keys
  has_unique_keys [] = true
  has_unique_keys ((k, v) ∷ m) = not (mem (to_lower k) (lower_keys m)) && has_unique_keys m

  mem-lower_keys :
      (m : Dict V) (k : Text) (v : V) → lookup k m ≡ some v → mem (to_lower k) (lower_keys m) ≡ true
  unfolding lookup mem lower_keys
  mem-lower_keys [] k v h = cc
  mem-lower_keys ((j, w) ∷ m) k v h =
      ground (arith, eq_iff j k, eq_iff (to_lower j) (to_lower k), mem-lower_keys m k v)

  pub has_unique_keys-IsFoldUnique : (m : Dict V) → has_unique_keys m ≡ true → IsFoldUnique m
  unfolding lookup has_unique_keys
  has_unique_keys-IsFoldUnique [] h j k v w e f same = absurd (ground arith)
  has_unique_keys-IsFoldUnique ((i, u) ∷ m) h j k v w e f same = elim (Bool-cases (i == j)) [
    | inl at_j ↦ elim (Bool-cases (i == k)) [
      | inl at_k ↦ ground (arith, eq_iff i j, eq_iff i k)
      | inr not_k ↦
          let later = mem-lower_keys m k w (ground arith) in
          absurd (ground (arith, eq_iff i j, later))
    ]
    | inr not_j ↦
        let later = mem-lower_keys m j v (ground arith) in
        elim (Bool-cases (i == k)) [
          | inl at_k ↦ absurd (ground (arith, eq_iff i k, later))
          | inr not_k ↦
              has_unique_keys-IsFoldUnique m (ground arith) j k v w (ground arith) (ground arith)
                same
        ]
  ]
