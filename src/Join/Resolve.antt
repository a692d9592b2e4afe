-- ===== src/Join/Resolve.antt =====
-- tableNamesMatch, ResolveTable and resolveTableStrict (semantic/join.go).
use mathlib.Core.List.Memᴰ
use mathlib.Core.Option
use dux.Base.{
  ℕ, zero, suc, true, some, [], ◌∷◌, Text, Dict, dot, ◌==◌, eq_iff, eq_refl, to_lower, last_index,
  after_dot, contains, drop, lookup, ◌≡◌, refl, sym, ◌∙◌, Memᴰ, subst, arith, ◌⊎◌, inl, inr,
  Bool-cases, Option-cases, List-cases,
}
use dux.Result.{ok}
use dux.Schema.{Schema, Table}
use dux.Schema.Find.{IsFoldUnique}
use dux.Join.{
  bare_match, table_names_match, fold_key, bare_keys, resolve_table_matches, sole_or, resolve_table,
  strict, resolve_table_strict,
}

last_index-to_lower : (s : Text) → last_index dot (to_lower s) ≡ last_index dot s
unfolding last_index to_lower
last_index-to_lower [] = refl
last_index-to_lower (c ∷ s) = ground (arith, last_index-to_lower s)

drop-to_lower : (n : ℕ) (s : Text) → drop n (to_lower s) ≡ to_lower (drop n s)
unfolding to_lower
drop-to_lower zero s = refl
drop-to_lower (suc n) [] = refl
drop-to_lower (suc n) (c ∷ s) = drop-to_lower n s

pub after_dot-to_lower : (s : Text) → after_dot (to_lower s) ≡ Option.map to_lower (after_dot s)
unfolding after_dot
after_dot-to_lower s = elim (Option-cases (last_index dot s)) [
  | inl missing ↦ ground (arith, last_index-to_lower s)
  | inr (i, at) ↦ ground (arith, last_index-to_lower s, drop-to_lower (suc i) s)
]

-- Two names match or do not in either order.
pub table_names_match_comm : (a b : Text) → table_names_match a b ≡ table_names_match b a
unfolding table_names_match
table_names_match_comm a b =
    ground (arith, eq_iff (to_lower a) (to_lower b), eq_iff (to_lower b) (to_lower a))

fold_key-some :
    (nl : Text) (m : Dict Table) (key : Text)
    → fold_key nl m ≡ some key
    → ((t : Table) × (lookup key m ≡ some t)) × (to_lower key ≡ nl)
unfolding fold_key lookup
fold_key-some nl [] key h = absurd (ground arith)
fold_key-some nl ((k, t) ∷ m) key h = elim (Bool-cases (to_lower k == nl)) [
  | inl this ↦
      let same : k ≡ key = ground arith in
      ((t, ground (arith, eq_iff k key)), ground (arith, eq_iff (to_lower k) nl))
  | inr other ↦
      let ((u, held), fold) = fold_key-some nl m key (ground arith) in
      elim (Bool-cases (k == key)) [
        | inl here ↦ ((t, ground arith), fold)
        | inr later ↦ ((u, ground arith), fold)
      ]
]

fold_key_unique :
    (nl : Text) (m : Dict Table) (key : Text) (t : Table)
    → lookup key m ≡ some t
    → to_lower key ≡ nl
    → (k : Text) × (fold_key nl m ≡ some k)
unfolding fold_key lookup
fold_key_unique nl [] key t h e = absurd (ground arith)
fold_key_unique nl ((k, u) ∷ m) key t h e = elim (Bool-cases (to_lower k == nl)) [
  | inl this ↦ (k, ground arith)
  | inr other ↦
      let (k', f) =
        fold_key_unique nl m key t (ground (arith, eq_iff k key, eq_iff (to_lower k) nl)) e in
      (k', ground arith)
]

bare_keys-cons :
    (nl : Text) (k : Text) (t : Table) (m : Dict Table) (key : Text)
    → Memᴰ key (bare_keys nl ((k, t) ∷ m))
    → ((key ≡ k) × ((bare : Text) × (after_dot k ≡ some bare) × (to_lower bare ≡ nl)))
      ⊎ Memᴰ key (bare_keys nl m)
unfolding bare_keys
bare_keys-cons nl k t m key h = elim (Option-cases (after_dot k)) [
  | inl e ↦
      let skip : bare_keys nl ((k, t) ∷ m) ≡ bare_keys nl m = ground arith in
      inr (subst (Memᴰ key) skip h)
  | inr (bare, e) ↦ elim (Bool-cases (to_lower bare == nl)) [
    | inl this ↦
        let keep : bare_keys nl ((k, t) ∷ m) ≡ k ∷ bare_keys nl m = ground arith in
        elim (Memᴰ.cases_cons (subst (Memᴰ key) keep h)) [
          | inl same ↦ inl (same, (bare, e, (eq_iff (to_lower bare) nl).0 this))
          | inr later ↦ inr later
        ]
    | inr other ↦
        let skip : bare_keys nl ((k, t) ∷ m) ≡ bare_keys nl m = ground arith in
        inr (subst (Memᴰ key) skip h)
  ]
]

mem-bare_keys :
    (nl : Text) (m : Dict Table) (key : Text)
    → Memᴰ key (bare_keys nl m)
    → ((t : Table) × (lookup key m ≡ some t))
      × ((bare : Text) × (after_dot key ≡ some bare) × (to_lower bare ≡ nl))
unfolding bare_keys lookup
mem-bare_keys nl [] key h = absurd (Memᴰ.not-nil h)
mem-bare_keys nl ((k, t) ∷ m) key h = elim (bare_keys-cons nl k t m key h) [
  | inl (same, found) ↦ ((t, ground (arith, eq_iff k key)), rw same found)
  | inr later ↦
      let ((u, held), found) = mem-bare_keys nl m key later in
      elim (Bool-cases (k == key)) [
        | inl here ↦ ((t, ground arith), found)
        | inr other ↦ ((u, ground arith), found)
      ]
]

-- A key that a name resolves to is in the schema, and the two names match.
resolve_table_matches-mem :
    (schema : Schema) (name key : Text)
    → Memᴰ key (resolve_table_matches schema name)
    → ((t : Table) × (lookup key schema.tables ≡ some t)) × (table_names_match key name ≡ true)
unfolding resolve_table_matches table_names_match bare_match
resolve_table_matches-mem schema name key h =
    elim (Option-cases (fold_key (to_lower name) schema.tables)) [
      | inr (k, e) ↦
          let (held, fold) = fold_key-some (to_lower name) schema.tables k e in
          let only : resolve_table_matches schema name ≡ k ∷ [] = ground arith in
          let same : key ≡ k = Memᴰ.eq_of_singleton (subst (Memᴰ key) only h) in
          rw same (held, ground (arith, eq_iff (to_lower k) (to_lower name)))
      | inl e ↦ elim (Bool-cases (contains dot name)) [
        | inl qualified ↦
            let empty : resolve_table_matches schema name ≡ [] = ground arith in
            absurd (Memᴰ.not-nil (subst (Memᴰ key) empty h))
        | inr bare_name ↦
            let keys : resolve_table_matches schema name ≡ bare_keys (to_lower name) schema.tables =
              ground arith in
            let (held, (bare, at, fold)) =
              mem-bare_keys (to_lower name) schema.tables key (subst (Memᴰ key) keys h) in
            (
              held,
              ground (
                arith,
                after_dot-to_lower key,
                eq_iff (to_lower key) (to_lower name),
                eq_iff (to_lower bare) (to_lower name),
              ),
            )
      ]
    ]

-- A name that resolves stays as it is, or becomes a key of the schema; and the result matches it.
pub resolve_table_strict-match :
    (schema : Schema) (name r : Text)
    → resolve_table_strict schema name ≡ ok r
    → (table_names_match r name ≡ true)
      × ((r ≡ name) ⊎ ((t : Table) × (lookup r schema.tables ≡ some t)))
unfolding resolve_table_strict strict
resolve_table_strict-match schema name r h = elim (List-cases (resolve_table_matches schema name)) [
  | inl e ↦
      let same : name ≡ r = ground arith in
      rw (← same) (unfold table_names_match in ground (arith, eq_refl (to_lower name)), inl refl)
  | inr (k, [], e) ↦
      let same : k ≡ r = ground arith in
      let (held, match) = resolve_table_matches-mem schema name k (rw e (Memᴰ.head refl)) in
      rw (← same) (match, inr held)
  | inr (k, k' ∷ rest, e) ↦ absurd (ground arith)
]

-- Where no two table keys differ in case alone, a name that equals a key in lower case resolves to
-- that key, for the strict and for the lenient lookup, whatever the order of the map and whatever
-- qualified keys end in the name.
pub resolve_table_exact :
    (schema : Schema) (name key : Text) (t : Table)
    → IsFoldUnique schema.tables
    → lookup key schema.tables ≡ some t
    → to_lower key ≡ to_lower name
    → (resolve_table schema name ≡ key) × (resolve_table_strict schema name ≡ ok key)
unfolding resolve_table resolve_table_strict resolve_table_matches sole_or strict
resolve_table_exact schema name key t u held fold =
    let (k, e) = fold_key_unique (to_lower name) schema.tables key t held fold in
    let ((w, held'), fold') = fold_key-some (to_lower name) schema.tables k e in
    let same = u k key w t held' held (fold' ∙ sym fold) in (ground arith, ground arith)
