-- ===== src/Join/Validate/Decides.antt =====
-- What ValidateFilterPaths accepts (semantic/join.go).
use mathlib.Core.Bool.{Bool-set}
use mathlib.Core.List.Memᴰ
use dux.Base.{
  ◌≢◌, eq_iff, none, suc, ◌*◌, Bool, true, false, some, List, [], ◌∷◌, ◌++◌, Text, to_lower, mem,
  ◌==◌, length, ◌≡◌, refl, sym, ◌∙◌, ◌↔◌, ap, subst, Memᴰ, arith, ◌⊎◌, inl, inr, Bool-cases,
  ∥∥₁_elim,
}
use dux.Result.{ok, err, ambiguous_graph}
use dux.Schema.{Schema, Relationship}
use dux.Join.Explore.{explore, Walk, here, step}
use dux.Join.Explore.Loop.{
  Inv-start, explore-found, explore-exhausted, explore-ends, mem-of_Walk, Outcome-cases, unseen-le,
}
use dux.Join.Validate.{named, path_step, seen_at, connected, validate_from, validate_filter_paths}

far_ends : List Relationship → List Text
far_ends [] = []
far_ends (rel ∷ rels) = to_lower rel.to_table ∷ to_lower rel.from_table ∷ far_ends rels

length-far_ends : (rels : List Relationship) → length (far_ends rels) ≡ 2 * length rels
unfolding far_ends
length-far_ends [] = omega arith
length-far_ends (rel ∷ rels) = omega (arith, length-far_ends rels)

named-eq : (n d : Text) → named n ≡ some d → n ≡ d
unfolding named
named-eq n d h = ground arith

path_step-mem :
    (c d : Text) (rel : Relationship) (rels : List Relationship)
    → Memᴰ rel rels
    → path_step c rel ≡ some d
    → Memᴰ d (far_ends rels)
unfolding path_step far_ends
path_step-mem c d rel [] m h = absurd (Memᴰ.not-nil m)
path_step-mem c d rel (r ∷ rels) (Memᴰ.tail m) h =
    Memᴰ.tail (Memᴰ.tail (path_step-mem c d rel rels m h))
path_step-mem c d rel (r ∷ rels) (Memᴰ.head e) h =
    elim (Bool-cases (to_lower rel.from_table == c)) [
      | inl from ↦ Memᴰ.head (
          sym (named-eq (to_lower rel.to_table) d (ground arith))
          ∙ ap (λ (x : Relationship). to_lower x.to_table) e)
      | inr other ↦ elim (Bool-cases (to_lower rel.to_table == c)) [
        | inl to ↦ Memᴰ.tail (
            Memᴰ.head (
              sym (named-eq (to_lower rel.from_table) d (ground arith))
              ∙ ap (λ (x : Relationship). to_lower x.from_table) e))
        | inr neither ↦ absurd (ground arith)
      ]
    ]

-- Tables, by their names in lower case, that a chain of relationships connects, each crossed in
-- either direction. An empty name is no table.
pub data IsLinked (rels : List Relationship) (src : Text) : Text → Type 0 where
  at_source : IsLinked rels src src
  forth :
      {c : Text} (rel : Relationship)
      → IsLinked rels src c
      → Memᴰ rel rels
      → to_lower rel.from_table ≡ c
      → to_lower rel.to_table ≢ []
      → IsLinked rels src (to_lower rel.to_table)
  back :
      {c : Text} (rel : Relationship)
      → IsLinked rels src c
      → Memᴰ rel rels
      → to_lower rel.to_table ≡ c
      → to_lower rel.from_table ≢ []
      → IsLinked rels src (to_lower rel.from_table)

named-some : (n d : Text) → named n ≡ some d → n ≢ []
unfolding named
named-some n d h e = let q = (eq_iff n []).1 e in ground arith

named-full : (n : Text) → n ≢ [] → named n ≡ some n
unfolding named
named-full n h = elim (Bool-cases (n == [])) [
  | inl empty ↦ absurd (h ((eq_iff n []).0 empty))
  | inr full ↦ rw full refl
]

path_step-forth :
    (c : Text) (rel : Relationship)
    → to_lower rel.from_table ≡ c
    → path_step c rel ≡ named (to_lower rel.to_table)
unfolding path_step
path_step-forth c rel e = let q = (eq_iff (to_lower rel.from_table) c).1 e in rw q refl

path_step-back :
    (c : Text) (rel : Relationship)
    → (to_lower rel.from_table == c) ≡ false
    → to_lower rel.to_table ≡ c
    → path_step c rel ≡ named (to_lower rel.from_table)
unfolding path_step
path_step-back c rel other e = let q = (eq_iff (to_lower rel.to_table) c).1 e in rw (other, q) refl

path_step-neither :
    (c : Text) (rel : Relationship)
    → (to_lower rel.from_table == c) ≡ false
    → (to_lower rel.to_table == c) ≡ false
    → path_step c rel ≡ none
unfolding path_step
path_step-neither c rel other away = rw (other, away) refl

IsLinked-of_Walk :
    (rels : List Relationship) (src : Text) {d : Text}
    → Walk path_step rels src d
    → IsLinked rels src d
IsLinked-of_Walk rels src here = at_source
IsLinked-of_Walk rels src (step {c} {d} rel w m e) =
    let before = IsLinked-of_Walk rels src w in
    elim (Bool-cases (to_lower rel.from_table == c)) [
      | inl from ↦
          let at = (eq_iff (to_lower rel.from_table) c).0 from in
          let run = sym (path_step-forth c rel at) ∙ e in
          subst (IsLinked rels src) (named-eq (to_lower rel.to_table) d run)
            (forth rel before m at (named-some (to_lower rel.to_table) d run))
      | inr other ↦ elim (Bool-cases (to_lower rel.to_table == c)) [
        | inl to ↦
            let at = (eq_iff (to_lower rel.to_table) c).0 to in
            let run = sym (path_step-back c rel other at) ∙ e in
            subst (IsLinked rels src) (named-eq (to_lower rel.from_table) d run)
              (back rel before m at (named-some (to_lower rel.from_table) d run))
        | inr away ↦ absurd (let q = sym (path_step-neither c rel other away) ∙ e in cc)
      ]
    ]

Walk-of_IsLinked :
    (rels : List Relationship) (src : Text) {d : Text}
    → IsLinked rels src d
    → Walk path_step rels src d
Walk-of_IsLinked rels src at_source = here
Walk-of_IsLinked rels src (forth {c} rel l m at full) =
    step rel (Walk-of_IsLinked rels src l) m
      (path_step-forth c rel at ∙ named-full (to_lower rel.to_table) full)
Walk-of_IsLinked rels src (back {c} rel l m at full) =
    elim (Bool-cases (to_lower rel.from_table == c)) [
      | inl loop ↦
          subst (Walk path_step rels src) (sym ((eq_iff (to_lower rel.from_table) c).0 loop))
            (Walk-of_IsLinked rels src l)
      | inr other ↦
          step rel (Walk-of_IsLinked rels src l) m
            (path_step-back c rel other at ∙ named-full (to_lower rel.from_table) full)
    ]

-- The loop always ends, and it has seen the other end exactly if the other relationships, crossed
-- in either direction, connect the two.
connected_decides :
    (others : List Relationship) (src dst : Text)
    → (b : Bool) × (connected others src dst ≡ some b) × ((b ≡ true) ↔ ∥ IsLinked others src dst ∥₁)
unfolding connected seen_at
connected_decides others src dst =
    let fuel = suc (2 * length others) in
    let run = explore (λ t. t) (λ _. false) path_step others fuel (src ∷ []) (src ∷ []) in
    let inv = Inv-start (λ t. t) (λ _. false) path_step others src refl in
    elim (Outcome-cases run) [
      | inl e ↦
          let (d, w, t) =
            explore-found (λ t. t) (λ _. false) path_step others src
              (λ c d rel same. ap (λ x. path_step x rel) same) fuel (src ∷ []) (src ∷ []) inv e in
          absurd (cc)
      | inr (inl (v, e)) ↦
          let inv' =
            explore-exhausted (λ t. t) (λ _. false) path_step others src
              (λ c d rel same. ap (λ x. path_step x rel) same) fuel (src ∷ []) (src ∷ []) v inv e in
          (
            mem dst v,
            rw e refl,
            (
              λ m.
                  let (d, w, same) = inv'.visited_sound dst m in
                  ∣ IsLinked-of_Walk others src (subst (Walk path_step others src) same w) ∣₁,
              λ h. ∥∥₁_elim h (Bool-set _ _) λ w.
                  mem-of_Walk (λ t. t) (λ _. false) path_step others src
                    (λ c d rel same. ap (λ x. path_step x rel) same) v inv'
                    (Walk-of_IsLinked others src w),
            ),
          )
      | inr (inr e) ↦ absurd (
          explore-ends (λ t. t) (λ _. false) path_step others src (far_ends others)
            (λ c d rel m h. path_step-mem c d rel others m h) fuel (src ∷ []) (src ∷ [])
            (omega (arith, unseen-le (far_ends others) (src ∷ []), length-far_ends others)) e)
    ]

-- The endpoints of a relationship are connected over the relationships `others`.
abbrev pub IsConnected : List Relationship → Relationship → Type 0
IsConnected others r = ∥ IsLinked others (to_lower r.from_table) (to_lower r.to_table) ∥₁

-- No bidirectional relationship of the list has its endpoints connected over the relationships
-- before and after it.
abbrev pub IsUnambiguous : List Relationship → List Relationship → Type 0
IsUnambiguous before [] = Unit {0}
IsUnambiguous before (r ∷ after) =
    (r.bidirectional ≡ true → ¬ IsConnected (before ++ after) r)
    × IsUnambiguous (before ++ r ∷ []) after

-- The first bidirectional relationship of the list whose endpoints are connected over the others.
pub data Conflict : List Relationship → List Relationship → Relationship → Type 0 where
  this :
      {before after : List Relationship} (r : Relationship)
      → r.bidirectional ≡ true
      → IsConnected (before ++ after) r
      → Conflict before (r ∷ after) r
  later :
      {before after : List Relationship} (r : Relationship) {c : Relationship}
      → (r.bidirectional ≡ true → ¬ IsConnected (before ++ after) r)
      → Conflict (before ++ r ∷ []) after c
      → Conflict before (r ∷ after) c

validate_from_decides :
    (before rest : List Relationship)
    → ((validate_from before rest ≡ some (ok tt)) × IsUnambiguous before rest)
      ⊎ ((c : Relationship) × (validate_from before rest
            ≡ some (err (ambiguous_graph c.from_table c.to_table)))
          × Conflict before rest c)
unfolding validate_from
validate_from_decides before [] = inl (refl, tt)
validate_from_decides before (r ∷ after) =
    let rest = validate_from_decides (before ++ r ∷ []) after in
    let (b, e, decides) =
      connected_decides (before ++ after) (to_lower r.from_table) (to_lower r.to_table) in
    elim (Bool-cases r.bidirectional) [
      | inr one_way ↦ elim rest [
        | inl (f, clear) ↦ inl (ground arith, (λ h. absurd (ground arith), clear))
        | inr (c, f, conflict) ↦
            inr (c, ground arith, Conflict.later r (λ h. absurd (ground arith)) conflict)
      ]
      | inl both ↦ elim (Bool-cases b) [
        | inl yes' ↦ inr (r, ground arith, Conflict.this r both (decides.0 yes'))
        | inr no' ↦
            let apart =
              λ (w : IsConnected (before ++ after) r). absurd {A = ⊥} (let t = decides.1 w in cc) in
            elim rest [
              | inl (f, clear) ↦ inl (ground arith, (λ _. apart, clear))
              | inr (c, f, conflict) ↦ inr (c, ground arith, Conflict.later r (λ _. apart) conflict)
            ]
      ]
    ]

-- ValidateFilterPaths always ends. It accepts a schema when no bidirectional relationship has its
-- endpoints connected by a chain of the other relationships, each crossed in either direction, and
-- otherwise its error names the
-- first such relationship.
pub validate_filter_paths_decides :
    (schema : Schema)
    → ((validate_filter_paths schema ≡ some (ok tt)) × IsUnambiguous [] schema.relationships)
      ⊎ ((c : Relationship) × (validate_filter_paths schema
            ≡ some (err (ambiguous_graph c.from_table c.to_table)))
          × Conflict [] schema.relationships c)
unfolding validate_filter_paths
validate_filter_paths_decides schema = validate_from_decides [] schema.relationships
