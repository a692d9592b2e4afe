-- ===== src/Emitter/Walks.antt =====
-- What a walk over an expression keeps, and the fuel of the walks through measures
-- (emitter/emitter.go, emitter/cluster.go).
use dux.Base.{
  ℕ, zero, suc, ◌≤◌, Bool, false, Option, some, List, [], ◌∷◌, ◌≡◌, refl, inl, inr, Bool-cases,
  arith, Memᴰ, length,
}
use dux.Ast.{
  Expr, no_expr, expr, Ops, no_ops, op_expr, Term, no_term, term, Atom, table_constructor,
  func_call, col_ref, literal, sub_expr, qualified_ident, quoted_ident, ident, FuncCall, call, Args,
  no_args, arg, MeasureDefinition,
}
use dux.Resolver.{has}
use dux.Resolver.Total.{missing, missing-length, missing-enter}
use dux.Emitter.{Emitter, walk_terms, walk_ops, walk_term, walk_atom, walk_call, walk_args}
use dux.Emitter.Subtrees.{known_defs, walk_def, walk_all}

-- What each visit keeps, a walk keeps.
module _ {ℓ κ} {S : Type ℓ} (visit : Term → S → S × Bool) (P : S → Type κ)
    (keeps : (t : Term) (s : S) → P s → P (visit t s).0) where
  mutual
    unfolding walk_terms walk_ops walk_term walk_atom walk_call walk_args

    pub walk_terms-keeps : (e : Expr) (s : S) → P s → P (walk_terms visit e s)
    walk_terms-keeps no_expr s h = h
    walk_terms-keeps (expr left right) s h =
        walk_ops-keeps right (walk_term visit left s) (walk_term-keeps left s h)

    walk_ops-keeps : (ops : Ops) (s : S) → P s → P (walk_ops visit ops s)
    walk_ops-keeps no_ops s h = h
    walk_ops-keeps (op_expr op right ops) s h =
        walk_ops-keeps ops (walk_term visit right s) (walk_term-keeps right s h)

    walk_term-keeps : (t : Term) (s : S) → P s → P (walk_term visit t s)
    walk_term-keeps no_term s h = h
    walk_term-keeps (term neg atom) s h = elim (Bool-cases (visit (term neg atom) s).1) [
      | inl deeper ↦
          rw deeper (walk_atom-keeps atom (visit (term neg atom) s).0 (keeps (term neg atom) s h))
      | inr stop ↦ rw stop (keeps (term neg atom) s h)
    ]

    walk_atom-keeps : (a : Atom) (s : S) → P s → P (walk_atom visit a s)
    walk_atom-keeps (table_constructor rows) s h = h
    walk_atom-keeps (func_call fc) s h = walk_call-keeps fc s h
    walk_atom-keeps (col_ref cr) s h = h
    walk_atom-keeps (literal l) s h = h
    walk_atom-keeps (sub_expr e) s h = walk_terms-keeps e s h
    walk_atom-keeps (qualified_ident name) s h = h
    walk_atom-keeps (quoted_ident name) s h = h
    walk_atom-keeps (ident name) s h = h

    walk_call-keeps : (fc : FuncCall) (s : S) → P s → P (walk_call visit fc s)
    walk_call-keeps (call address pos name args) s h = walk_args-keeps args s h

    walk_args-keeps : (args : Args) (s : S) → P s → P (walk_args visit args s)
    walk_args-keeps no_args s h = h
    walk_args-keeps (arg e args) s h =
        walk_args-keeps args (walk_terms visit e s) (walk_terms-keeps e s h)

unfoldable pub IsDone {ℓ} : {X : Type ℓ} → Option X → Type ℓ
IsDone {X = X} o = (x : X) × (o ≡ some x)

-- A visit that goes into definitions of the list alone, and into none that is being visited.
module _ {ℓ} {X : Type ℓ}
    (visit : List MeasureDefinition
      → (MeasureDefinition → Option X → Option X)
      → Term
      → Option X
      → Option X × Bool)
    (universe : List MeasureDefinition)
    (visits : (visiting : List MeasureDefinition) (inner : MeasureDefinition → Option X → Option X)
        (t : Term) (s : Option X)
      → ((d : MeasureDefinition) (s' : Option X)
          → Memᴰ d universe
          → has d visiting ≡ false
          → IsDone s'
          → IsDone (inner d s'))
      → IsDone s
      → IsDone (visit visiting inner t s).0) where
  walk_def-IsDone :
      (fuel : ℕ) (visiting : List MeasureDefinition) (d : MeasureDefinition) (s : Option X)
      → missing universe visiting ≤ fuel
      → Memᴰ d universe
      → has d visiting ≡ false
      → IsDone s
      → IsDone (walk_def visit fuel visiting d s)
  unfolding walk_def
  walk_def-IsDone zero visiting d s few m fresh h =
      absurd (omega (arith, missing-enter universe visiting d m fresh))
  walk_def-IsDone (suc fuel) visiting d s few m fresh h =
      let fewer = missing-enter universe visiting d m fresh in
      walk_terms-keeps (visit (d ∷ visiting) (walk_def visit fuel (d ∷ visiting))) IsDone
        (λ t s' h'.
          visits (d ∷ visiting) (walk_def visit fuel (d ∷ visiting)) t s'
            (λ d' s'' m' fresh' h''.
              walk_def-IsDone fuel (d ∷ visiting) d' s'' (omega arith) m' fresh' h'')
            h')
        d.expr s h

  pub walk_all-IsDone :
      (e : Emitter) (ex : Expr) (start : X)
      → known_defs e ≡ universe
      → IsDone (walk_all e visit ex start)
  unfolding walk_all IsDone
  walk_all-IsDone e ex start known =
      let few : missing universe [] ≤ length (known_defs e) =
        rw known (missing-length universe []) in
      walk_terms-keeps (visit [] (walk_def visit (length (known_defs e)) [])) IsDone
        (λ t s h.
          visits [] (walk_def visit (length (known_defs e)) []) t s
            (λ d s' m fresh h'. walk_def-IsDone (length (known_defs e)) [] d s' few m fresh h') h)
        ex (some start) (start, refl)
