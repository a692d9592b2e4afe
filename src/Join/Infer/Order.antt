-- ===== src/Join/Infer/Order.antt =====
-- The steps of a join tree, and that InferJoinPath (semantic/join.go) keeps to it.
use dux.Base.{
  true, false, List, [], ◌∷◌, ◌++◌, Text, to_lower, mem, ◌≡◌, refl, sym, ◌∙◌, ap, Memᴰ, Memᴰ-concat,
  arith, inl, inr, Bool-cases, eq_refl,
}
use dux.Schema.{Schema, Relationship}
use dux.Join.{JoinStep}
use dux.Join.Path.{Hop, step_to}
use dux.Join.Path.Chain.{Chain, start, extend, Leads}
use dux.Join.Infer.{Tree, add_step, add_steps}

-- The keys that are joined after the steps.
unfoldable pub keys_after : List Text → List JoinStep → List Text
keys_after keys [] = keys
keys_after keys (step ∷ steps) = keys_after (to_lower step.table ∷ keys) steps

-- A step joins a table along a declared relationship.
pub record IsDeclared (schema : Schema) (step : JoinStep) : Type 0 where
  pub rel : Relationship
  pub hop : Hop
  pub member : Memᴰ rel schema.relationships
  pub leads : Leads schema step.from_table rel hop step.table
  pub same : step ≡ step_to step.from_table rel hop step.table

-- The joins can be made in order: each starts at a table that is joined already, follows a declared
-- relationship, and joins a table that is not joined yet.
abbrev pub IsTree : Schema → List Text → List JoinStep → Type 0
IsTree schema keys [] = Unit {0}
IsTree schema keys (step ∷ steps) =
    (mem (to_lower step.from_table) keys ≡ true)
    × (mem (to_lower step.table) keys ≡ false)
    × IsDeclared schema step
    × IsTree schema (to_lower step.table ∷ keys) steps

keys_after-snoc :
    (keys : List Text) (steps : List JoinStep) (step : JoinStep)
    → keys_after keys (steps ++ step ∷ []) ≡ to_lower step.table ∷ keys_after keys steps
unfolding keys_after
keys_after-snoc keys [] step = refl
keys_after-snoc keys (s ∷ steps) step = keys_after-snoc (to_lower s.table ∷ keys) steps step

module _ (schema : Schema) where
  IsTree-snoc :
      (keys : List Text) (steps : List JoinStep) (step : JoinStep)
      → IsTree schema keys steps
      → mem (to_lower step.from_table) (keys_after keys steps) ≡ true
      → mem (to_lower step.table) (keys_after keys steps) ≡ false
      → IsDeclared schema step
      → IsTree schema keys (steps ++ step ∷ [])
  unfolding keys_after
  IsTree-snoc keys [] step t from new d = (from, new, d, tt)
  IsTree-snoc keys (s ∷ steps) step t from new d =
      (t.0, t.1, t.2, IsTree-snoc (to_lower s.table ∷ keys) steps step t.3 from new d)

  module _ (primary : Text) where
    -- What holds of the variables of the loop.
    pub record IsJoined (tree : Tree) : Type 0 where
      pub keys : tree.joined ≡ keys_after (to_lower primary ∷ []) tree.steps
      pub tables : (t : Text) → Memᴰ t tree.joined_tables → mem (to_lower t) tree.joined ≡ true
      pub is_tree : IsTree schema (to_lower primary ∷ []) tree.steps

    mem-step : (k j : Text) (keys : List Text) → mem k keys ≡ true → mem k (j ∷ keys) ≡ true
    unfolding mem
    mem-step k j keys h = ground arith

    mem_self : (k : Text) (keys : List Text) → mem k (k ∷ keys) ≡ true
    unfolding mem
    mem_self k keys = ground (arith, eq_refl k)

    -- One more step keeps the tree, joins its table and leaves what was joined.
    pub add_step-IsJoined :
        (step : JoinStep) (tree : Tree)
        → IsJoined tree
        → mem (to_lower step.from_table) tree.joined ≡ true
        → IsDeclared schema step
        → IsJoined (add_step step tree)
          × (mem (to_lower step.table) (add_step step tree).joined ≡ true)
          × ((k : Text) → mem k tree.joined ≡ true → mem k (add_step step tree).joined ≡ true)
    unfolding add_step
    add_step-IsJoined step tree j from d =
        elim (Bool-cases (mem (to_lower step.table) tree.joined)) [
          | inl old ↦ rw old (j, old, λ k m. m)
          | inr new ↦ rw new (
            record {
              keys =
                  ap (λ ks. to_lower step.table ∷ ks) j.keys
                  ∙ sym (keys_after-snoc (to_lower primary ∷ []) tree.steps step);
              tables = λ t m. elim ((Memᴰ-concat t step.table tree.joined_tables).0 m) [
                | inl before ↦ mem-step (to_lower t) _ tree.joined (j.tables t before)
                | inr this ↦ rw this (mem_self (to_lower step.table) tree.joined)
              ];
              is_tree =
                  IsTree-snoc (to_lower primary ∷ []) tree.steps step j.is_tree (rw j.keys at from)
                    (rw j.keys at new) d;
            },
            mem_self (to_lower step.table) tree.joined,
            λ k m. mem-step k _ tree.joined m,
          )
        ]

    add_steps-snoc :
        (steps : List JoinStep) (step : JoinStep) (tree : Tree)
        → add_steps (steps ++ step ∷ []) tree ≡ add_step step (add_steps steps tree)
    unfolding add_steps
    add_steps-snoc [] step tree = refl
    add_steps-snoc (s ∷ steps) step tree = add_steps-snoc steps step (add_step s tree)

    -- A chain from the tree keeps it a tree, joins the end of the chain and leaves what was joined.
    pub add_steps-IsJoined :
        (tree : Tree)
        → IsJoined tree
        → {t : Text} {p : List JoinStep} → Chain schema tree.joined_tables t p
        → IsJoined (add_steps p tree)
          × (mem (to_lower t) (add_steps p tree).joined ≡ true)
          × ((k : Text) → mem k tree.joined ≡ true → mem k (add_steps p tree).joined ≡ true)
    unfolding add_steps step_to
    add_steps-IsJoined tree j (start {t} m) = (j, j.tables t m, λ k n. n)
    add_steps-IsJoined tree j (extend {t} {steps} rel hop next c r l) =
        let (j1, at, keeps) = add_steps-IsJoined tree j c in
        let step = step_to t rel hop next in
        let (j2, at2, keeps2) =
          add_step-IsJoined step (add_steps steps tree) j1 at
            (record { rel = rel; hop = hop; member = r; leads = l; same = refl }) in
        rw (add_steps-snoc steps step tree) (j2, at2, λ k m. keeps2 k (keeps k m))
