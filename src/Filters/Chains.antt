-- ===== src/Filters/Chains.antt =====
-- The truth of the chains that conjoin and the loops of predicate build (executor/extfilter.go).
use mathlib.Core.Option
use dux.Base.{
  ◌>>=◌, Bool, true, false, some, List, [], ◌∷◌, Text, codes, ◌==◌, ◌&&◌, ◌||◌, any, all, ◌≡◌, refl,
  ap, ◌∙◌,
}
use dux.Ast.{
  ColRef, Literal, Expr, no_expr, expr, Ops, no_ops, op_expr, Term, no_term, term, sub_expr,
}
use dux.Filters.Build.{sub, conjoin, and_ops, disjoin, or_ops}
use dux.Filters.Meaning.{truth, truth_term, truth_and, truth_or}

pub and_true : (b : Bool) → b ≡ b && true
and_true true = refl
and_true false = refl

or_false : (b : Bool) → b ≡ b || false
or_false true = refl
or_false false = refl

module _ {V : Type 0} (column : ColRef → V) (constant : Literal → V) (apply : Text → List V → V)
    (compare : Text → V → V → Bool) where
  -- The conditions have these truth values.
  unfoldable pub HaveTruths : List Expr → List Bool → Type 0
  HaveTruths [] [] = Unit
  HaveTruths (e ∷ es) (b ∷ bs) = (truth column constant apply compare e ≡ some b) × HaveTruths es bs
  HaveTruths _ _ = ⊥

  truth-sub :
      (e : Expr)
      → truth_term column constant apply compare (sub e) ≡ truth column constant apply compare e
  unfolding truth sub
  truth-sub no_expr = refl
  truth-sub (expr no_term no_ops) = refl
  truth-sub (expr no_term (op_expr op right ops)) = refl
  truth-sub (expr (term negative atom) no_ops) = refl
  truth-sub (expr (term negative atom) (op_expr op right ops)) = refl

  truth_and-step :
      (t : Term) (ops : Ops) (b c : Bool)
      → truth_term column constant apply compare t ≡ some b
      → truth_and column constant apply compare ops ≡ some c
      → truth_and column constant apply compare (op_expr (codes "&&") t ops) ≡ some (b && c)
  unfolding truth ◌==◌
  truth_and-step t ops b c h k = λ i. h i >>= λ b'. Option.map (λ c'. b' && c') (k i)

  truth_or-step :
      (t : Term) (ops : Ops) (b c : Bool)
      → truth_term column constant apply compare t ≡ some b
      → truth_or column constant apply compare ops ≡ some c
      → truth_or column constant apply compare (op_expr (codes "||") t ops) ≡ some (b || c)
  unfolding truth ◌==◌
  truth_or-step t ops b c h k = λ i. h i >>= λ b'. Option.map (λ c'. b' || c') (k i)

  truth-and :
      (t u : Term) (ops : Ops) (a b c : Bool)
      → truth_term column constant apply compare t ≡ some a
      → truth_term column constant apply compare u ≡ some b
      → truth_and column constant apply compare ops ≡ some c
      → truth column constant apply compare (expr t (op_expr (codes "&&") u ops))
        ≡ some (a && (b && c))
  unfolding truth ◌==◌
  truth-and t u ops a b c h k l =
      λ i. h i >>= λ a'. k i >>= λ b'. Option.map (λ c'. a' && (b' && c')) (l i)

  truth-or :
      (t u : Term) (ops : Ops) (a b c : Bool)
      → truth_term column constant apply compare t ≡ some a
      → truth_term column constant apply compare u ≡ some b
      → truth_or column constant apply compare ops ≡ some c
      → truth column constant apply compare (expr t (op_expr (codes "||") u ops))
        ≡ some (a || (b || c))
  unfolding truth ◌==◌
  truth-or t u ops a b c h k l =
      λ i. h i >>= λ a'. k i >>= λ b'. Option.map (λ c'. a' || (b' || c')) (l i)

  -- A condition in parentheses.
  pub truth-sub_expr :
      (e : Expr)
      → truth_term column constant apply compare (term false (sub_expr e))
        ≡ truth column constant apply compare e
  unfolding truth
  truth-sub_expr e = refl

  truth-single :
      (t : Term)
      → truth column constant apply compare (expr t no_ops)
        ≡ truth_term column constant apply compare t
  unfolding truth
  truth-single t = refl

  truth-and_ops :
      (es : List Expr) (bs : List Bool)
      → HaveTruths es bs
      → truth_and column constant apply compare (and_ops es) ≡ some (all (λ b. b) bs)
  unfolding and_ops HaveTruths all
  truth-and_ops [] [] h = unfold truth in refl
  truth-and_ops [] (b ∷ bs) h = absurd h
  truth-and_ops (e ∷ es) [] h = absurd h
  truth-and_ops (e ∷ es) (b ∷ bs) (h, hs) =
      truth_and-step (sub e) (and_ops es) b (all (λ b. b) bs) (truth-sub e ∙ h)
        (truth-and_ops es bs hs)

  truth-or_ops :
      (es : List Expr) (bs : List Bool)
      → HaveTruths es bs
      → truth_or column constant apply compare (or_ops es) ≡ some (any (λ b. b) bs)
  unfolding or_ops HaveTruths any
  truth-or_ops [] [] h = unfold truth in refl
  truth-or_ops [] (b ∷ bs) h = absurd h
  truth-or_ops (e ∷ es) [] h = absurd h
  truth-or_ops (e ∷ es) (b ∷ bs) (h, hs) =
      truth_or-step (term false (sub_expr e)) (or_ops es) b (any (λ b. b) bs) (truth-sub_expr e ∙ h)
        (truth-or_ops es bs hs)

  -- A conjunction of one or more conditions holds when all of them do.
  pub conjoin-truth :
      (e : Expr) (es : List Expr) (b : Bool) (bs : List Bool)
      → HaveTruths (e ∷ es) (b ∷ bs)
      → (c : Expr) × (conjoin (e ∷ es) ≡ some c)
        × (truth column constant apply compare c ≡ some (all (λ b. b) (b ∷ bs)))
  unfolding conjoin and_ops HaveTruths all
  conjoin-truth e [] b [] (h, hs) =
      (_, refl, truth-single (sub e) ∙ truth-sub e ∙ h ∙ ap some (and_true b))
  conjoin-truth e [] b (b' ∷ bs) (h, hs) = absurd hs
  conjoin-truth e (e' ∷ es) b [] (h, hs) = absurd hs
  conjoin-truth e (e' ∷ es) b (b' ∷ bs) (h, (h', hs)) = (
    _,
    refl,
    truth-and (sub e) (sub e') (and_ops es) b b' (all (λ b. b) bs) (truth-sub e ∙ h)
        (truth-sub e' ∙ h') (truth-and_ops es bs hs),
  )

  -- A disjunction of one or more conditions holds when one of them does.
  pub disjoin-truth :
      (e : Expr) (es : List Expr) (b : Bool) (bs : List Bool)
      → HaveTruths (e ∷ es) (b ∷ bs)
      → (c : Expr) × (disjoin (e ∷ es) ≡ some c)
        × (truth column constant apply compare c ≡ some (any (λ b. b) (b ∷ bs)))
  unfolding disjoin or_ops HaveTruths any
  disjoin-truth e [] b [] (h, hs) = (_, refl, h ∙ ap some (or_false b))
  disjoin-truth e [] b (b' ∷ bs) (h, hs) = absurd hs
  disjoin-truth e (e' ∷ es) b [] (h, hs) = absurd hs
  disjoin-truth e (e' ∷ es) b (b' ∷ bs) (h, (h', hs)) = (
    _,
    refl,
    truth-or (term false (sub_expr e)) (term false (sub_expr e')) (or_ops es) b b' (any (λ b. b) bs)
        (truth-sub_expr e ∙ h) (truth-sub_expr e' ∙ h') (truth-or_ops es bs hs),
  )
