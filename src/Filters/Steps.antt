-- ===== src/Filters/Steps.antt =====
-- The steps of ApplyExternalFilters (executor/extfilter.go).
use dux.Base.{
  ℕ, suc, Bool, true, false, Option, some, List, [], ◌∷◌, ◌++◌, Text, to_lower, equal_fold, ◌==◌,
  ◌||◌, map, any, if◌then◌else◌, All, ◌≡◌, refl, ap, ◌∙◌, ◌⊎◌, inl, inr, Bool-cases, arith, eq_iff,
  length, ◌+◌,
}
use dux.Ast.{ColRef, Literal, Expr, Args, no_args, arg}
use dux.Schema.{Schema}
use dux.Filters.{ResolvedFilter, FilterError, other_table, Try, ok, err}
use dux.Filters.Predicate.{predicate}
use dux.Filters.Inject.{is_string_arg, before_pairs, from_pairs, prepend, inject_args}
use dux.Filters.Apply.{each, check_tables}
use dux.Filters.Chains.{HaveTruths}
use dux.Filters.Selects.{selects}
use dux.Filters.Refines.{predicate_refines}
use dux.Filters.Accepted.{IsAccepted, IsAccepted-IsOperable}

unfoldable pub list_of : Args → List Expr
list_of no_args = []
list_of (arg e args) = e ∷ list_of args

list_of-prepend : (es : List Expr) (args : Args) → list_of (prepend es args) ≡ es ++ list_of args
unfolding list_of prepend
list_of-prepend [] args = refl
list_of-prepend (e ∷ es) args = ap (λ r. e ∷ r) (list_of-prepend es args)

pairs-split :
    (args : Args)
    → (list_of args ≡ before_pairs args ++ list_of (from_pairs args))
      × (any is_string_arg (before_pairs args) ≡ false)
      × ((from_pairs args ≡ no_args)
          ⊎ ((e : Expr) × (rest : Args) × (from_pairs args ≡ arg e rest)
              × (is_string_arg e ≡ true)))
unfolding list_of before_pairs from_pairs any
pairs-split no_args = (refl, refl, inl refl)
pairs-split (arg e args) = elim (Bool-cases (is_string_arg e)) [
  | inl string ↦ rw string (refl, refl, inr (e, args, refl, string))
  | inr other ↦
      let (same, none_before, ends) = pairs-split args in
      rw other (ap (λ r. e ∷ r) same, rw (other, none_before) refl, ends)
]

-- injectSummarizeArgs keeps the arguments and puts the filters, in order and together, before the
-- first string literal among them, or at the end where there is none.
pub inject_args-split :
    (filters : List Expr) (args : Args)
    → (list_of (inject_args filters args)
        ≡ before_pairs args ++ (filters ++ list_of (from_pairs args)))
      × (list_of args ≡ before_pairs args ++ list_of (from_pairs args))
      × (any is_string_arg (before_pairs args) ≡ false)
      × ((from_pairs args ≡ no_args)
          ⊎ ((e : Expr) × (rest : Args) × (from_pairs args ≡ arg e rest)
              × (is_string_arg e ≡ true)))
unfolding inject_args
inject_args-split filters args =
    let (same, none_before, ends) = pairs-split args in
    (
      list_of-prepend (before_pairs args) (prepend filters (from_pairs args))
          ∙ ap (λ r. before_pairs args ++ r) (list_of-prepend filters (from_pairs args)),
      same,
      none_before,
      ends,
    )

pub each-cons :
    (f : ResolvedFilter → Option Expr) (rf : ResolvedFilter) (rfs : List ResolvedFilter) (e : Expr)
    (es : List Expr)
    → f rf ≡ some e
    → each f rfs ≡ some es
    → each f (rf ∷ rfs) ≡ some (e ∷ es)
unfolding each
each-cons f rf rfs e es h hs = ground arith

module _ {V : Type 0} (column : ColRef → V) (constant : Literal → V) (apply : Text → List V → V)
    (compare : Text → V → V → Bool) (schema : Schema) where
  pub each-predicate :
      (rfs : List ResolvedFilter)
      → All (IsAccepted schema) rfs
      → (es : List Expr) × (each predicate rfs ≡ some es)
        × HaveTruths column constant apply compare es
            (map (λ rf. selects column constant apply compare rf.op rf) rfs)
  unfolding HaveTruths
  each-predicate [] h = ([], unfold each in refl, tt)
  each-predicate (rf ∷ rfs) (h, hs) =
      let (e, built, holds) =
        predicate_refines column constant apply compare rf (IsAccepted-IsOperable schema rf h) in
      let (es, more, truths) = each-predicate rfs hs in
      (e ∷ es, each-cons predicate rf rfs e es built more, (holds, truths))

table_ok :
    (i : ℕ) (table key base : Text) (rest : Try (Unit {0}))
    → (if equal_fold table key || equal_fold table base
        then rest
        else err (other_table i table base))
      ≡ ok tt
    → ((to_lower table ≡ to_lower key) ⊎ (to_lower table ≡ to_lower base)) × (rest ≡ ok tt)
unfolding equal_fold
table_ok i table key base rest h = elim (Bool-cases (to_lower table == to_lower key)) [
  | inl at ↦ (inl ((eq_iff (to_lower table) (to_lower key)).0 at), ground arith)
  | inr away ↦ elim (Bool-cases (to_lower table == to_lower base)) [
    | inl at ↦ (inr ((eq_iff (to_lower table) (to_lower base)).0 at), ground arith)
    | inr off ↦ absurd (ground arith)
  ]
]

-- A filter's table equals the base table in lower case, by its key or by the name in the query.
unfoldable pub IsOnBase : Text → Text → ResolvedFilter → Type 0
IsOnBase key base rf = (to_lower rf.table ≡ to_lower key) ⊎ (to_lower rf.table ≡ to_lower base)

pub check_tables-ok :
    (i : ℕ) (key base : Text) (rfs : List ResolvedFilter)
    → check_tables i key base rfs ≡ ok tt
    → All (IsOnBase key base) rfs
unfolding check_tables IsOnBase equal_fold
check_tables-ok i key base [] h = tt
check_tables-ok i key base (rf ∷ rfs) h =
    let (at, rest) = table_ok i rf.table key base (check_tables (suc i) key base rfs) h in
    (at, check_tables-ok (suc i) key base rfs rest)

table_err :
    (i : ℕ) (table key base : Text) (rest : Try (Unit {0})) (e : FilterError)
    → (if equal_fold table key || equal_fold table base
        then rest
        else err (other_table i table base))
      ≡ err e
    → (((to_lower table ≡ to_lower key) ⊎ (to_lower table ≡ to_lower base)) × (rest ≡ err e))
      ⊎ ((¬ ((to_lower table ≡ to_lower key) ⊎ (to_lower table ≡ to_lower base)))
          × (e ≡ other_table i table base))
unfolding equal_fold
table_err i table key base rest e h = elim (Bool-cases (to_lower table == to_lower key)) [
  | inl at ↦ inl (inl ((eq_iff (to_lower table) (to_lower key)).0 at), ground arith)
  | inr away ↦ elim (Bool-cases (to_lower table == to_lower base)) [
    | inl at ↦ inl (inr ((eq_iff (to_lower table) (to_lower base)).0 at), ground arith)
    | inr off ↦ inr (
      λ on. elim on [
        | inl same ↦
            let yes' = (eq_iff (to_lower table) (to_lower key)).1 same in absurd (ground arith)
        | inr same ↦
            let yes' = (eq_iff (to_lower table) (to_lower base)).1 same in absurd (ground arith)
      ],
      ground arith,
    )
  ]
]

-- The error is about the first filter that is on another table.
pub check_tables-err :
    (i : ℕ) (key base : Text) (rfs : List ResolvedFilter) (e : FilterError)
    → check_tables i key base rfs ≡ err e
    → (before : List ResolvedFilter) × (rf : ResolvedFilter) × (after : List ResolvedFilter) × (rfs
        ≡ before ++ (rf ∷ after))
      × All (IsOnBase key base) before
      × (¬ IsOnBase key base rf)
      × (e ≡ other_table (i + length before) rf.table base)
unfolding check_tables IsOnBase
check_tables-err i key base [] e h = absurd (ground arith)
check_tables-err i key base (rf ∷ rfs) e h =
    elim (table_err i rf.table key base (check_tables (suc i) key base rfs) e h) [
      | inr (off, says) ↦
          ([], rf, rfs, refl, tt, off, says ∙ ap (λ n. other_table n rf.table base) (omega arith))
      | inl (on, later) ↦
          let (before, off, after, split, ons, away, says) =
            check_tables-err (suc i) key base rfs e later in
          (
            rf ∷ before,
            off,
            after,
            ap (λ r. rf ∷ r) split,
            (on, ons),
            away,
            says ∙ ap (λ n. other_table n off.table base) (omega arith),
          )
    ]
