-- ===== src/Join/Infer/Plan.antt =====
-- What InferJoinPath (semantic/join.go) returns.
use mathlib.Core.List.Memᴰ
use dux.Base.{
  ◌++◌, ◌≢◌, true, some, List, [], ◌∷◌, Text, to_lower, mem, ◌≡◌, refl, sym, ◌∙◌, ap, Memᴰ, arith,
  ◌⊎◌, inl, inr, Bool-cases, subst, ◌==◌, eq_refl, eq_iff,
}
use dux.Result.{Result, ok, err, Result-cases}
use dux.Schema.{Schema}
use dux.Join.{
  JoinStep, JoinPath, table_names_match, resolve_table_strict, unique_slice, unique_loop,
}
use dux.Join.Path.{bfs_join}
use dux.Join.Path.Total.{bfs_join-total}
use dux.Join.Path.Shortest.{Option-Result-cases, bfs_join-shortest}
use dux.Join.Infer.{
  Tree, add_step, add_steps, attach, resolve_all, seed, path_of, infer, infer_join_path,
}
use dux.Join.Infer.Order.{keys_after, IsTree, IsJoined, add_steps-IsJoined}

append_some : (xs : List Text) (x : Text) → xs ++ x ∷ [] ≢ []
append_some [] x h = cc
append_some (y ∷ ys) x h = cc

add_step-some :
    (step : JoinStep) (tree : Tree)
    → tree.joined_tables ≢ []
    → (add_step step tree).joined_tables ≢ []
unfolding add_step
add_step-some step tree h = elim (Bool-cases (mem (to_lower step.table) tree.joined)) [
  | inl old ↦ rw old h
  | inr new ↦ rw new (append_some tree.joined_tables step.table)
]

add_steps-some :
    (steps : List JoinStep) (tree : Tree)
    → tree.joined_tables ≢ []
    → (add_steps steps tree).joined_tables ≢ []
unfolding add_steps
add_steps-some [] tree h = h
add_steps-some (step ∷ steps) tree h =
    add_steps-some steps (add_step step tree) (add_step-some step tree h)

attach-total :
    (schema : Schema) (targets : List Text) (tree : Tree)
    → tree.joined_tables ≢ []
    → (r : Result Tree) × (attach schema targets tree ≡ some r)
unfolding attach
attach-total schema [] tree some' = (ok tree, refl)
attach-total schema (t ∷ ts) tree some' = elim (Bool-cases (mem (to_lower t) tree.joined)) [
  | inl old ↦ let (r, e) = attach-total schema ts tree some' in (r, rw old e)
  | inr new ↦
      let (r, e) = bfs_join-total schema tree.joined_tables t some' in
      elim (Result-cases r) [
        | inl (path, f) ↦
            let (r', e') =
              attach-total schema ts (add_steps path tree) (add_steps-some path tree some') in
            (r', ground arith)
        | inr (error, f) ↦ (err error, ground arith)
      ]
]

infer-total :
    (schema : Schema) (p : Result Text) (ts : Result (List Text))
    → (r : Result JoinPath) × (infer schema p ts ≡ some r)
unfolding infer path_of
infer-total schema (err e) ts = (err e, refl)
infer-total schema (ok p) (err e) = (err e, refl)
infer-total schema (ok p) (ok ts) =
    let (r, e) = attach-total schema (unique_slice ts) (seed p) (unfold seed in λ h. cc) in
    elim (Result-cases r) [
      | inl (tree, f) ↦ (ok (record { steps = tree.steps }), ground arith)
      | inr (error, f) ↦ (err error, ground arith)
    ]

-- InferJoinPath always returns, a path or an error, whatever the schema and the tables.
pub infer_join_path-total :
    (schema : Schema) (tables : List Text)
    → (r : Result JoinPath) × (infer_join_path schema tables ≡ some r)
unfolding infer_join_path
infer_join_path-total schema [] = (_, refl)
infer_join_path-total schema (p ∷ []) = (_, refl)
infer_join_path-total schema (p ∷ t ∷ ts) =
    infer-total schema (resolve_table_strict schema p) (resolve_all schema (t ∷ ts))

module _ (schema : Schema) (primary : Text) where
  -- A table is in the FROM clause: a joined key is that of a table whose name matches.
  abbrev pub IsCovered : List Text → Text → Type 0
  IsCovered keys target =
      (u : Text) × (mem (to_lower u) keys ≡ true) × (table_names_match u target ≡ true)

  match_same : (t : Text) → table_names_match t t ≡ true
  unfolding table_names_match
  match_same t = ground (arith, eq_refl (to_lower t))

  attach-IsJoined :
      (targets : List Text) (tree tree' : Tree)
      → IsJoined schema primary tree
      → attach schema targets tree ≡ some (ok tree')
      → IsJoined schema primary tree'
        × ((k : Text) → mem k tree.joined ≡ true → mem k tree'.joined ≡ true)
        × ((t : Text) → Memᴰ t targets → IsCovered tree'.joined t)
  unfolding attach
  attach-IsJoined [] tree tree' j h =
      let same : tree ≡ tree' = ground arith in
      rw (← same) (j, λ k m. m, λ t m. absurd (Memᴰ.not-nil m))
  attach-IsJoined (target ∷ targets) tree tree' j h =
      elim (Bool-cases (mem (to_lower target) tree.joined)) [
        | inl old ↦
            let (j', keeps, covers) = attach-IsJoined targets tree tree' j (ground arith) in
            (
              j',
              keeps,
              λ t m. elim (Memᴰ.cases_cons m) [
                | inl this ↦ (target, keeps (to_lower target) old, rw this (match_same target))
                | inr later ↦ covers t later
              ],
            )
        | inr new ↦ elim (Option-Result-cases (bfs_join schema tree.joined_tables target)) [
          | inl e ↦ absurd (ground arith)
          | inr (inr (error, e)) ↦ absurd (ground arith)
          | inr (inl (path, run)) ↦
              let ((t', chain, match), _) =
                bfs_join-shortest schema tree.joined_tables target path run in
              let (j1, at, keeps1) = add_steps-IsJoined schema primary tree j chain in
              let (j', keeps, covers) =
                attach-IsJoined targets (add_steps path tree) tree' j1 (ground arith) in
              (
                j',
                λ k m. keeps k (keeps1 k m),
                λ t m. elim (Memᴰ.cases_cons m) [
                  | inl this ↦ (t', keeps (to_lower t') at, rw this match)
                  | inr later ↦ covers t later
                ],
              )
        ]
      ]

  IsJoined-seed : IsJoined schema primary (seed primary)
  unfolding seed keys_after mem
  IsJoined-seed = record {
    keys = refl;
    tables = λ t m.
        ground
          (arith, eq_iff (to_lower primary) (to_lower t), ap to_lower (Memᴰ.eq_of_singleton m));
    is_tree = tt;
  }

mem-unique_loop :
    (seen ss : List Text) (t : Text)
    → Memᴰ t ss
    → (mem t seen ≡ true) ⊎ Memᴰ t (unique_loop seen ss)
unfolding unique_loop mem
mem-unique_loop seen [] t m = absurd (Memᴰ.not-nil m)
mem-unique_loop seen (s ∷ ss) t m = elim (Bool-cases (mem s seen)) [
  | inl old ↦ rw old (elim (Memᴰ.cases_cons m) [
    | inl this ↦ inl (rw this old)
    | inr later ↦ mem-unique_loop seen ss t later
  ])
  | inr new ↦ rw new (elim (Memᴰ.cases_cons m) [
    | inl this ↦ inr (Memᴰ.head this)
    | inr later ↦ elim (mem-unique_loop (s ∷ seen) ss t later) [
      | inr found ↦ inr (Memᴰ.tail found)
      | inl before ↦ elim (Bool-cases (s == t)) [
        | inl this ↦ inr (Memᴰ.head (sym ((eq_iff s t).0 this)))
        | inr other ↦ inl (ground arith)
      ]
    ]
  ])
]

mem-unique_slice : (ss : List Text) (t : Text) → Memᴰ t ss → Memᴰ t (unique_slice ss)
unfolding unique_slice mem
mem-unique_slice ss t m = elim (mem-unique_loop [] ss t m) [
  | inl seen ↦ absurd (ground arith)
  | inr found ↦ found
]

mem-resolve_all :
    (schema : Schema) (tables ts : List Text) (t : Text)
    → resolve_all schema tables ≡ ok ts
    → Memᴰ t tables
    → (t' : Text) × (resolve_table_strict schema t ≡ ok t') × Memᴰ t' ts
unfolding resolve_all
mem-resolve_all schema [] ts t h m = absurd (Memᴰ.not-nil m)
mem-resolve_all schema (x ∷ tables) ts t h m = elim (Result-cases (resolve_table_strict schema x)) [
  | inr (e, f) ↦ absurd (ground arith)
  | inl (x', f) ↦ elim (Result-cases (resolve_all schema tables)) [
    | inr (e, g) ↦ absurd (ground arith)
    | inl (ts', g) ↦
        let split : x' ∷ ts' ≡ ts = ground arith in
        subst (λ l. (t' : Text) × (resolve_table_strict schema t ≡ ok t') × Memᴰ t' l) split
          (elim (Memᴰ.cases_cons m) [
            | inl this ↦ (x', rw this f, Memᴰ.head refl)
            | inr later ↦
                let (t', e, n) = mem-resolve_all schema tables ts' t g later in (t', e, Memᴰ.tail n)
          ])
  ]
]

module _ (schema : Schema) (primary table : Text) (tables : List Text) (r : Text) (p : JoinPath)
    (resolved : resolve_table_strict schema primary ≡ ok r)
    (inferred : infer_join_path schema (primary ∷ table ∷ tables) ≡ some (ok p)) where
  -- The parts of a successful run.
  planned :
      (ts : List Text) × (tree : Tree) × (resolve_all schema (table ∷ tables) ≡ ok ts)
      × (attach schema (unique_slice ts) (seed r) ≡ some (ok tree))
      × (tree.steps ≡ p.steps)
  unfolding infer_join_path infer path_of
  planned = elim (Result-cases (resolve_all schema (table ∷ tables))) [
    | inr (e, f) ↦ absurd (ground arith)
    | inl (ts, f) ↦
        let (result, g) = attach-total schema (unique_slice ts) (seed r) (unfold seed in λ h. cc) in
        elim (Result-cases result) [
          | inr (e, k) ↦ absurd (ground arith)
          | inl (tree, k) ↦ (ts, tree, f, g ∙ ap some k, ground arith)
        ]
  ]

  -- The steps that InferJoinPath returns for two or more tables can be joined in order: from the
  -- resolved first table on, each step starts at a table that is joined already, follows a declared
  -- relationship, and joins a table that is not joined yet.
  pub infer_join_path-IsTree : IsTree schema (to_lower r ∷ []) p.steps
  infer_join_path-IsTree =
      let (ts, tree, _, run, same) = planned in
      let (j, _, _) =
        attach-IsJoined schema r (unique_slice ts) (seed r) tree (IsJoined-seed schema r) run in
      subst (IsTree schema (to_lower r ∷ [])) same j.is_tree

  -- For two or more tables, each table asked for resolves, and the steps that InferJoinPath returns
  -- join a table, or start from one, whose name matches the resolved one.
  pub infer_join_path-IsCovered :
      (t : Text)
      → Memᴰ t (table ∷ tables)
      → (t' : Text) × (resolve_table_strict schema t ≡ ok t')
        × IsCovered schema r (keys_after (to_lower r ∷ []) p.steps) t'
  infer_join_path-IsCovered t m =
      let (ts, tree, all, run, same) = planned in
      let (j, _, covers) =
        attach-IsJoined schema r (unique_slice ts) (seed r) tree (IsJoined-seed schema r) run in
      let (t', e, n) = mem-resolve_all schema (table ∷ tables) ts t all m in
      let (u, at, match) = covers t' (mem-unique_slice ts t' n) in
      (
        t',
        e,
        (
          u,
          subst (λ ks. mem (to_lower u) ks ≡ true) (j.keys ∙ ap (keys_after (to_lower r ∷ [])) same)
              at,
          match,
        ),
      )
