-- ===== src/Filters/Inserted.antt =====
-- Where the filters stand among the arguments (injectSummarizeArgs, executor/extfilter.go).
use dux.Base.{
  Bool, true, false, Text, List, [], ◌∷◌, ◌++◌, any, All, ◌≡◌, refl, ap, ◌⊎◌, inl, inr, Bool-cases,
  arith,
}
use dux.Ast.{string, Expr, expr, no_ops, term, literal, Args}
use dux.Filters.Inject.{is_string_arg, before_pairs, from_pairs, inject_args}
use dux.Filters.Steps.{list_of, inject_args-split}

-- A string literal, with which a pair of a name and an expression begins.
unfoldable pub IsName : Expr → Type 0
IsName e = (negative : Bool) × (s : Text) × (e ≡ expr (term negative (literal (string s))) no_ops)

-- The new arguments stand together before the first name, or at the end where there is none; the
-- old ones keep their order around them.
unfoldable pub IsInserted : List Expr → Args → Args → Type 0
IsInserted new args args' =
    (before : List Expr) × (after : List Expr) × (list_of args ≡ before ++ after)
    × (list_of args' ≡ before ++ (new ++ after))
    × All (λ e. ¬ IsName e) before
    × ((after ≡ []) ⊎ ((e : Expr) × (rest : List Expr) × (after ≡ e ∷ rest) × IsName e))

is_string_arg-IsName : (e : Expr) → is_string_arg e ≡ true → IsName e
unfolding is_string_arg IsName
is_string_arg-IsName (expr (term negative (literal (string s))) no_ops) h = (negative, s, refl)
is_string_arg-IsName e h = absurd (ground arith)

IsName-is_string_arg : (e : Expr) → IsName e → is_string_arg e ≡ true
unfolding is_string_arg IsName
IsName-is_string_arg e (negative, s, h) = ap is_string_arg h

none_named : (es : List Expr) → any is_string_arg es ≡ false → All (λ e. ¬ IsName e) es
unfolding any
none_named [] h = tt
none_named (e ∷ es) h = elim (Bool-cases (is_string_arg e)) [
  | inl named ↦ absurd (ground arith)
  | inr other ↦ (
    λ name. (let holds = IsName-is_string_arg e name in absurd (ground arith)),
    none_named es (ground arith),
  )
]

pub inject_args-IsInserted :
    (new : List Expr) (args : Args) → IsInserted new args (inject_args new args)
unfolding IsInserted
inject_args-IsInserted new args =
    let (made, same, none_before, ends) = inject_args-split new args in
    (
      before_pairs args,
      list_of (from_pairs args),
      same,
      made,
      none_named (before_pairs args) none_before,
      elim ends [
        | inl empty ↦ inl (unfold list_of in ap list_of empty)
        | inr (e, rest, at, named) ↦
            inr (e, list_of rest, (unfold list_of in ap list_of at), is_string_arg-IsName e named)
      ],
    )
