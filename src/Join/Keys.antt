-- ===== src/Join/Keys.antt =====
-- The keys of the introspection (semantic/schema.go) under tableNamesMatch (semantic/join.go).
use dux.Base.{
  suc, true, false, none, some, List, [], ◌∷◌, ◌++◌, Text, dot, eq_iff, to_lower, last_index,
  after_dot, contains, drop, length, ◌≡◌, refl, ap, ◌∙◌, arith, ◌⊎◌, inl, inr, ◌↔◌,
}
use dux.Schema.Keys.{join_parts, qualified_table_key, qualified_table_key_with_main}
use dux.Join.{bare_match, table_names_match}
use dux.Join.Resolve.{after_dot-to_lower}

last_index-none : (s : Text) → contains dot s ≡ false → last_index dot s ≡ none
unfolding contains last_index
last_index-none [] h = refl
last_index-none (c ∷ s) h = ground (arith, last_index-none s)

after_dot-none : (s : Text) → contains dot s ≡ false → after_dot s ≡ none
unfolding after_dot
after_dot-none s h = ground (arith, last_index-none s h)

last_index-append :
    (p t : Text) → contains dot t ≡ false → last_index dot (p ++ dot ∷ t) ≡ some (length p)
unfolding last_index
last_index-append [] t h = ground (arith, last_index-none t h)
last_index-append (c ∷ p) t h = ground (arith, last_index-append p t h)

drop-append : (p t : Text) → drop (suc (length p)) (p ++ dot ∷ t) ≡ t
drop-append [] t = refl
drop-append (c ∷ p) t = drop-append p t

after_dot-append : (p t : Text) → contains dot t ≡ false → after_dot (p ++ dot ∷ t) ≡ some t
unfolding after_dot
after_dot-append p t h = rw (last_index-append p t h) (ap some (drop-append p t))

append_dot : (p q t : Text) → p ++ dot ∷ (q ++ dot ∷ t) ≡ (p ++ dot ∷ q) ++ dot ∷ t
append_dot [] q t = refl
append_dot (c ∷ p) q t = ap (λ r. c ∷ r) (append_dot p q t)

-- The key is the table, or ends in a dot and the table.
join_parts-cases :
    (parts : List Text) (t : Text)
    → (join_parts parts t ≡ t) ⊎ ((p : Text) × (join_parts parts t ≡ p ++ dot ∷ t))
unfolding join_parts
join_parts-cases [] t = inl refl
join_parts-cases (part ∷ parts) t = elim (join_parts-cases parts t) [
  | inl this ↦ inr (part, ap (λ r. part ++ dot ∷ r) this)
  | inr (p, e) ↦ inr (part ++ dot ∷ p, ap (λ r. part ++ dot ∷ r) e ∙ append_dot part p t)
]

-- Two names without a dot match when they are equal in lower case.
bare-match :
    (t u : Text)
    → contains dot t ≡ false
    → contains dot u ≡ false
    → (table_names_match t u ≡ true) ↔ (to_lower t ≡ to_lower u)
unfolding table_names_match bare_match
bare-match t u ht hu = ground (
  arith,
  eq_iff (to_lower t) (to_lower u),
  after_dot-to_lower t,
  after_dot-to_lower u,
  after_dot-none t ht,
  after_dot-none u hu,
)

qualified-match :
    (k t u : Text)
    → after_dot k ≡ some t
    → contains dot u ≡ false
    → (table_names_match k u ≡ true) ↔ (to_lower t ≡ to_lower u)
unfolding table_names_match bare_match
qualified-match k t u hk hu = ground (
  arith,
  eq_iff (to_lower k) (to_lower u),
  eq_iff (to_lower t) (to_lower u),
  after_dot-to_lower k,
  after_dot-to_lower u,
  after_dot-none u hu,
)

join_parts-match :
    (parts : List Text) (t u : Text)
    → contains dot t ≡ false
    → contains dot u ≡ false
    → (table_names_match (join_parts parts t) u ≡ true) ↔ (to_lower t ≡ to_lower u)
join_parts-match parts t u ht hu = elim (join_parts-cases parts t) [
  | inl this ↦ rw this (bare-match t u ht hu)
  | inr (p, e) ↦ rw e (qualified-match (p ++ dot ∷ t) t u (after_dot-append p t ht) hu)
]

-- A name without a dot matches the key of a table whose name has no dot exactly when the two names
-- are equal in lower case, whatever the catalog and the schema, for both functions that make keys.
pub qualified_table_key-match :
    (catalog schema_name t u : Text)
    → contains dot t ≡ false
    → contains dot u ≡ false
    → ((table_names_match (qualified_table_key catalog schema_name t) u ≡ true)
        ↔ (to_lower t ≡ to_lower u))
      × ((table_names_match (qualified_table_key_with_main catalog schema_name t) u ≡ true)
          ↔ (to_lower t ≡ to_lower u))
unfolding qualified_table_key qualified_table_key_with_main
qualified_table_key-match catalog schema_name t u ht hu =
    (join_parts-match _ t u ht hu, join_parts-match _ t u ht hu)
