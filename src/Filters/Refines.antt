-- ===== src/Filters/Refines.antt =====
-- The condition of a filter (executor/extfilter.go) against what the filter selects.
use mathlib.Core.Option
use dux.Base.{
  ◌>>=◌, Bool, false, Option, none, some, List, [], ◌∷◌, Text, codes, ◌==◌, ◌&&◌, ◌||◌, any, all,
  map, length, All, ◌≡◌, ◌≢◌, refl, sym, ap, ◌∙◌, arith, List-cases, inl, inr,
}
use dux.Ast.{ColRef, Literal, Expr}
use dux.Filters.{
  FilterOp, op_in, op_between, op_contains, op_in_tuples, op_eq, op_ne, op_lt, op_le, op_gt, op_ge,
  ResolvedColumn, ResolvedFilter,
}
use dux.Filters.Build.{col_ref_expr, lit_expr, binary, conjoin, disjoin, func_expr}
use dux.Filters.Predicate.{
  predicate, predicate_of, op_text, tuple_ands, tuple_ors, between_expr, contains_expr, scalar_expr,
}
use dux.Filters.Selects.{IsOperable, cell, tuple_selects, compares, selects}
use dux.Filters.Meaning.{truth}
use dux.Filters.Chains.{HaveTruths, and_true, conjoin-truth, disjoin-truth}

bind_bind :
    {A B C : Type 0} (o : Option A) (f : A → Option B) (g : B → Option C)
    → (o >>= λ a. f a >>= g) ≡ (o >>= f >>= g)
bind_bind none f g = refl
bind_bind (some a) f g = refl

any-map : {A : Type 0} (g : A → Bool) (xs : List A) → any (λ b. b) (map g xs) ≡ any g xs
unfolding any
any-map g [] = refl
any-map g (x ∷ xs) = ap (λ r. g x || r) (any-map g xs)

module _ {V : Type 0} (column : ColRef → V) (constant : Literal → V) (apply : Text → List V → V)
    (compare : Text → V → V → Bool) where
  -- A comparison of a column with a literal.
  truth-equal :
      (table name : Text) (l : Literal)
      → truth column constant apply compare
          (binary (col_ref_expr table name) (codes "=") (lit_expr l))
        ≡ some (cell column constant apply compare (codes "=") table name l)
  unfolding truth binary col_ref_expr cell ◌==◌
  truth-equal table name l = refl

  literal_conditions :
      (table name : Text) (ls : List Literal)
      → HaveTruths column constant apply compare
          (map (λ v. binary (col_ref_expr table name) (codes "=") (lit_expr v)) ls)
          (map (cell column constant apply compare (codes "=") table name) ls)
  unfolding HaveTruths
  literal_conditions table name [] = tt
  literal_conditions table name (l ∷ ls) =
      (truth-equal table name l, literal_conditions table name ls)

  -- The condition that a filter becomes has the truth value of the filter.
  Refines : FilterOp → ResolvedFilter → Type 0
  Refines op rf =
      (e : Expr) × (predicate_of op rf ≡ some e)
      × (truth column constant apply compare e ≡ some (selects column constant apply compare op rf))

  Refines-in : (rf : ResolvedFilter) → IsOperable op_in rf → Refines op_in rf
  unfolding Refines predicate_of selects IsOperable
  Refines-in rf h = elim (List-cases rf.values) [
    | inl empty ↦ absurd (h empty)
    | inr (v, vs, e) ↦
        let same = cell column constant apply compare (codes "=") rf.table rf.column in
        let conditions = literal_conditions rf.table rf.column (v ∷ vs) in
        let (c, built, holds) = disjoin-truth column constant apply compare _ _ _ _ conditions in
        (c, rw e built, holds ∙ ap some (any-map same (v ∷ vs) ∙ ap (any same) (sym e)))
  ]

  Refines-between : (rf : ResolvedFilter) → IsOperable op_between rf → Refines op_between rf
  unfolding Refines predicate_of selects IsOperable compares truth binary col_ref_expr cell ◌==◌
      between_expr
  Refines-between rf ((from, p), (to, q)) =
      let low = compares column constant apply compare (codes ">=") rf in
      let high = compares column constant apply compare (codes "<=") rf in
      (
        between_expr (col_ref_expr rf.table rf.column) from to,
        λ i. p i >>= λ f. Option.map (between_expr (col_ref_expr rf.table rf.column) f) (q i),
        ap (λ b. some (low (some from) && b)) (sym (and_true (high (some to))))
            ∙ sym (λ i. some (low (p i) && high (q i))),
      )

  Refines-contains : (rf : ResolvedFilter) → IsOperable op_contains rf → Refines op_contains rf
  unfolding Refines predicate_of selects IsOperable contains_expr truth binary col_ref_expr
      func_expr ◌==◌
  Refines-contains rf (l, p) = (
    contains_expr (col_ref_expr rf.table rf.column) l,
    ap (Option.map (contains_expr (col_ref_expr rf.table rf.column))) p,
    rw p refl,
  )

  truth_scalar :
      (op : Text) (rf : ResolvedFilter) (l : Literal)
      → (op == codes "&&") ≡ false
      → (op == codes "||") ≡ false
      → truth column constant apply compare
          (binary (col_ref_expr rf.table rf.column) op (lit_expr l))
        ≡ some (compares column constant apply compare op rf (some l))
  unfolding truth binary col_ref_expr compares cell
  truth_scalar op rf l p q = rw (p, q) refl

  scalar_refines :
      (op : FilterOp) (rf : ResolvedFilter) (l : Literal)
      → (op_text op == codes "&&") ≡ false
      → (op_text op == codes "||") ≡ false
      → rf.value ≡ some l
      → (e : Expr) × (scalar_expr op rf ≡ some e)
        × (truth column constant apply compare e
            ≡ some (compares column constant apply compare (op_text op) rf rf.value))
  unfolding scalar_expr
  scalar_refines op rf l p q v = (
    binary (col_ref_expr rf.table rf.column) (op_text op) (lit_expr l),
    ap (Option.map (λ x. binary (col_ref_expr rf.table rf.column) (op_text op) (lit_expr x))) v,
    truth_scalar (op_text op) rf l p q
        ∙ sym (ap (λ o. some (compares column constant apply compare (op_text op) rf o)) v),
  )

  -- The comparisons of one tuple, which has a value for each column.
  tuple_conditions :
      (columns : List ResolvedColumn) (tup : List Literal)
      → length tup ≡ length columns
      → (es : List Expr) × (bs : List Bool) × (tuple_ands columns tup ≡ some es)
        × HaveTruths column constant apply compare es bs
        × (all (λ b. b) bs ≡ tuple_selects column constant apply compare columns tup)
  unfolding tuple_ands HaveTruths tuple_selects all
  tuple_conditions [] tup h = ([], [], refl, tt, refl)
  tuple_conditions (c ∷ columns) [] h = absurd (omega arith)
  tuple_conditions (c ∷ columns) (l ∷ tup) h =
      let (es, bs, built, truths, same) = tuple_conditions columns tup (omega arith) in
      (
        binary (col_ref_expr c.table c.column) (codes "=") (lit_expr l) ∷ es,
        cell column constant apply compare (codes "=") c.table c.column l ∷ bs,
        ap
            (Option.map
              (λ ands. binary (col_ref_expr c.table c.column) (codes "=") (lit_expr l) ∷ ands))
            built,
        (truth-equal c.table c.column l, truths),
        ap (λ b. cell column constant apply compare (codes "=") c.table c.column l && b) same,
      )

  -- The conjunction of one tuple.
  tuple_condition :
      (columns : List ResolvedColumn) (tup : List Literal)
      → columns ≢ []
      → length tup ≡ length columns
      → (c : Expr) × ((tuple_ands columns tup >>= conjoin) ≡ some c)
        × (truth column constant apply compare c
            ≡ some (tuple_selects column constant apply compare columns tup))
  unfolding tuple_ands
  tuple_condition [] tup some' h = absurd (some' refl)
  tuple_condition (c ∷ columns) [] some' h = absurd (omega arith)
  tuple_condition (c ∷ columns) (l ∷ tup) some' h =
      let (es, bs, built, truths, same) = tuple_conditions columns tup (omega arith) in
      let first = binary (col_ref_expr c.table c.column) (codes "=") (lit_expr l) in
      let equal = cell column constant apply compare (codes "=") c.table c.column l in
      let (p, made, holds) =
        conjoin-truth column constant apply compare first es equal bs
          (unfold HaveTruths in (truth-equal c.table c.column l, truths)) in
      (
        p,
        ap (λ o. Option.map (λ ands. first ∷ ands) o >>= conjoin) built ∙ made,
        holds ∙ unfold all in unfold tuple_selects in ap (λ b. some (equal && b)) same,
      )

  tuple_ors-cons :
      (columns : List ResolvedColumn) (tup : List Literal) (tuples : List (List Literal)) (p : Expr)
      (es : List Expr)
      → (tuple_ands columns tup >>= conjoin) ≡ some p
      → tuple_ors columns tuples ≡ some es
      → tuple_ors columns (tup ∷ tuples) ≡ some (p ∷ es)
  unfolding tuple_ors
  tuple_ors-cons columns tup tuples p es made built =
      bind_bind (tuple_ands columns tup) conjoin
        (λ q. Option.map (λ ors. q ∷ ors) (tuple_ors columns tuples))
      ∙ (λ i. made i >>= λ q. Option.map (λ ors. q ∷ ors) (built i))

  tuples_conditions :
      (columns : List ResolvedColumn) (tuples : List (List Literal))
      → columns ≢ []
      → All (λ tup. length tup ≡ length columns) tuples
      → (es : List Expr) × (tuple_ors columns tuples ≡ some es)
        × HaveTruths column constant apply compare es
            (map (tuple_selects column constant apply compare columns) tuples)
  unfolding HaveTruths
  tuples_conditions columns [] some' h = ([], unfold tuple_ors in refl, tt)
  tuples_conditions columns (tup ∷ tuples) some' (h, hs) =
      let (p, made, holds) = tuple_condition columns tup some' h in
      let (es, built, truths) = tuples_conditions columns tuples some' hs in
      (p ∷ es, tuple_ors-cons columns tup tuples p es made built, (holds, truths))

  tuples_refine :
      (columns : List ResolvedColumn) (tuples : List (List Literal))
      → columns ≢ []
      → tuples ≢ []
      → All (λ tup. length tup ≡ length columns) tuples
      → (e : Expr) × ((tuple_ors columns tuples >>= disjoin) ≡ some e)
        × (truth column constant apply compare e
            ≡ some (any (tuple_selects column constant apply compare columns) tuples))
  tuples_refine columns [] some' full h = absurd (full refl)
  tuples_refine columns (tup ∷ tuples) some' full (h, hs) =
      let selected = tuple_selects column constant apply compare columns in
      let (p, made, holds) = tuple_condition columns tup some' h in
      let (es, built, truths) = tuples_conditions columns tuples some' hs in
      let (e, joined, true_of) =
        disjoin-truth column constant apply compare p es (selected tup) (map selected tuples)
          (unfold HaveTruths in (holds, truths)) in
      (
        e,
        ap (λ o. o >>= disjoin) (tuple_ors-cons columns tup tuples p es made built) ∙ joined,
        true_of ∙ ap some (any-map selected (tup ∷ tuples)),
      )

  Refines-at : (op : FilterOp) (rf : ResolvedFilter) → IsOperable op rf → Refines op rf
  unfolding Refines predicate_of selects IsOperable op_text ◌==◌
  Refines-at op_in rf h = Refines-in rf h
  Refines-at op_between rf h = Refines-between rf h
  Refines-at op_contains rf h = Refines-contains rf h
  Refines-at op_in_tuples rf (some', full, fit) = tuples_refine rf.columns rf.tuples some' full fit
  Refines-at op_eq rf (l, v) = scalar_refines op_eq rf l refl refl v
  Refines-at op_ne rf (l, v) = scalar_refines op_ne rf l refl refl v
  Refines-at op_lt rf (l, v) = scalar_refines op_lt rf l refl refl v
  Refines-at op_le rf (l, v) = scalar_refines op_le rf l refl refl v
  Refines-at op_gt rf (l, v) = scalar_refines op_gt rf l refl refl v
  Refines-at op_ge rf (l, v) = scalar_refines op_ge rf l refl refl v

-- The condition that predicate builds from a filter with the operands its operator needs exists,
-- and has under every reading of columns, literals, functions and comparisons the truth value of
-- the filter: one of the values or tuples equals, the bounds hold, SEARCH gives more than 0, or
-- the comparison holds, which is <> for !=.
pub predicate_refines :
    {V : Type 0} (column : ColRef → V) (constant : Literal → V) (apply : Text → List V → V)
    (compare : Text → V → V → Bool) (rf : ResolvedFilter)
    → IsOperable rf.op rf
    → (e : Expr) × (predicate rf ≡ some e)
      × (truth column constant apply compare e
          ≡ some (selects column constant apply compare rf.op rf))
unfolding predicate Refines
predicate_refines column constant apply compare rf h =
    Refines-at column constant apply compare rf.op rf h
