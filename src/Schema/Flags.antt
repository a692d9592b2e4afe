-- ===== src/Schema/Flags.antt =====
-- Reads of the maps that persist the hidden designations (semantic/schema.go).
use mathlib.Core.Option
use dux.Base.{
  Bool, true, false, none, [], ◌∷◌, Text, Dict, ◌==◌, eq_iff, lookup, ◌≡◌, refl, inl, inr, arith,
  Option-cases, List-cases as Dict-cases, insert, delete, lookup-insert, lookup-delete,
  if◌then◌else◌, ◌&&◌,
}
use dux.Schema.{Schema, Table, flag, column_flag, mark_column, map_values, stamp, stamp_all}

pub lookup_nil {ℓ} : {V : Type ℓ} (k : Text) → lookup {V = V} k [] ≡ none
unfolding lookup
lookup_nil k = refl

pub flag_nil : (k : Text) → flag k [] ≡ false
unfolding flag lookup
flag_nil k = refl

pub column_flag_nil : (t c : Text) → column_flag [] t c ≡ false
unfolding column_flag lookup
column_flag_nil t c = refl

pub lookup-map_values {ℓ} :
    {V : Type ℓ} (f : V → V) (k : Text) (m : Dict V)
    → lookup k (map_values f m) ≡ Option.map f (lookup k m)
unfolding lookup map_values
lookup-map_values f k [] = refl
lookup-map_values f k ((j, v) ∷ m) = ground (arith, lookup-map_values f k m)

pub lookup-stamp_all :
    (s : Schema) (k : Text) (m : Dict Table)
    → lookup k (stamp_all s m) ≡ Option.map (stamp s k) (lookup k m)
unfolding lookup stamp_all
lookup-stamp_all s k [] = refl
lookup-stamp_all s k ((j, v) ∷ m) = ground (arith, lookup-stamp_all s k m, eq_iff j k)

pub flag-insert :
    (k j : Text) (b : Bool) (m : Dict Bool)
    → flag j (insert k b m) ≡ (if k == j then b else flag j m)
unfolding flag
flag-insert k j b m = ground (arith, lookup-insert k j b m)

pub flag-delete :
    (k j : Text) (m : Dict Bool) → flag j (delete k m) ≡ (if k == j then false else flag j m)
unfolding flag
flag-delete k j m = ground (arith, lookup-delete k j m)

pub column_flag-mark_column :
    (m : Dict (Dict Bool)) (t c t' c' : Text) (b : Bool)
    → column_flag (mark_column m t c b) t' c'
      ≡ (if t == t' && c == c' then b else column_flag m t' c')
unfolding column_flag mark_column flag
column_flag-mark_column m t c t' c' true = elim (Option-cases (lookup t m)) [
  | inl e ↦ ground (
    arith,
    eq_iff t t',
    eq_iff c c',
    lookup-insert t t' (insert c true []) m,
    flag_nil c',
    flag-insert c c' true [],
  )
  | inr (cols, e) ↦ ground (
    arith,
    eq_iff t t',
    eq_iff c c',
    lookup-insert t t' (insert c true cols) m,
    flag-insert c c' true cols,
  )
]
column_flag-mark_column m t c t' c' false = elim (Option-cases (lookup t m)) [
  | inl e ↦ ground (arith, eq_iff t t')
  | inr (cols, e) ↦ elim (Dict-cases (delete c cols)) [
    | inl none_left ↦
        let gone : lookup c' (delete c cols) ≡ none = rw none_left (unfold lookup in refl) in
        ground (arith, eq_iff t t', eq_iff c c', lookup-delete t t' m, flag-delete c c' cols)
    | inr (x, rest, left) ↦
        ground
          (arith, eq_iff t t', eq_iff c c', lookup-insert t t' (x ∷ rest) m, flag-delete c c' cols)
  ]
]
