-- ===== src/Filters/Place.antt =====
-- The call that findSummarizeColumns finds (executor/extfilter.go), said by a relation between the
-- syntax before and after an assignment to its arguments.
use dux.Base.{
  ℕ, true, false, none, some, Text, codes, to_upper, subst, ◌==◌, eq_iff, ◌≡◌, refl, sym, ap, ◌⊎◌,
  inl, inr, Bool-cases, arith,
}
use dux.Ast.{
  Expr, no_expr, expr, no_ops, op_expr, no_term, term, func_call, col_ref, literal, sub_expr,
  table_constructor, qualified_ident, quoted_ident, ident, FuncCall, call, Args, no_args, arg,
  TableExpr, func, qualified_table, quoted_table, table, Position,
}
use dux.Filters.Inject.{
  Found, inside, keeps_first, find_call, find_first, find_second, find_summarize_columns,
}

-- A call as an expression of its own, without a sign and without operators.
abbrev pub bare : FuncCall → Expr
bare fc = expr (term false (func_call fc)) no_ops

-- The functions that keep the rows of their first argument.
unfoldable pub IsWrapper : Text → Type 0
IsWrapper name =
    (to_upper name ≡ codes "ADDCOLUMNS")
    ⊎ (to_upper name ≡ codes "SELECTCOLUMNS")
    ⊎ (to_upper name ≡ codes "FILTER")

-- The second call is the first with the arguments `new` in place of `old` in one SUMMARIZECOLUMNS:
-- the call itself, or one in the second argument of TOPN or in the first of a wrapper, and so on.
pub data Replaces (old new : Args) : FuncCall → FuncCall → Type 0 where
  here :
      (address : ℕ) (pos : Position) (name : Text)
      → to_upper name ≡ codes "SUMMARIZECOLUMNS"
      → Replaces old new (call address pos name old) (call address pos name new)
  under_topn :
      (address : ℕ) (pos : Position) (name : Text) (n : Expr) (rest : Args) {fc fc' : FuncCall}
      → to_upper name ≡ codes "TOPN"
      → Replaces old new fc fc'
      → Replaces old new
          (call address pos name (arg n (arg (bare fc) rest)))
          (call address pos name (arg n (arg (bare fc') rest)))
  under_wrapper :
      (address : ℕ) (pos : Position) (name : Text) (rest : Args) {fc fc' : FuncCall}
      → IsWrapper name
      → Replaces old new fc fc'
      → Replaces old new
          (call address pos name (arg (bare fc) rest))
          (call address pos name (arg (bare fc') rest))

pub data ReplacesIn (old new : Args) : TableExpr → TableExpr → Type 0 where
  in_call :
      (pos : Position) {fc fc' : FuncCall}
      → Replaces old new fc fc'
      → ReplacesIn old new (func pos fc) (func pos fc')

-- An assignment through the pointer is related so to what was there.
unfoldable Good : {X : Type 0} → (Args → Args → X → Type 0) → Found X → Type 0
Good R none = Unit {0}
Good R (some (args, put)) = (new : Args) → R args new (put new)

Good-inside :
    {X Y : Type 0} (f : X → Y) (R : Args → Args → X → Type 0) (R' : Args → Args → Y → Type 0)
    (o : Found X)
    → ((old new : Args) (x : X) → R old new x → R' old new (f x))
    → Good R o
    → Good R' (inside f o)
unfolding Good inside
Good-inside f R R' none go h = tt
Good-inside f R R' (some (args, put)) go h = λ new. go args new (put new) (h new)

abbrev FirstAt : Args → Args → Args → Args → Type 0
FirstAt args old new args' =
    (fc : FuncCall) × (fc' : FuncCall) × (rest : Args) × (args ≡ arg (bare fc) rest)
    × (args' ≡ arg (bare fc') rest)
    × Replaces old new fc fc'

abbrev SecondAt : Args → Args → Args → Args → Type 0
SecondAt args old new args' =
    (fc : FuncCall) × (fc' : FuncCall) × (n : Expr) × (rest : Args) × (args
      ≡ arg n (arg (bare fc) rest))
    × (args' ≡ arg n (arg (bare fc') rest))
    × Replaces old new fc fc'

Good-bare :
    (fc : FuncCall) (rest : Args) (o : Found FuncCall)
    → Good (λ old new. Replaces old new fc) o
    → Good (FirstAt (arg (bare fc) rest)) (
        inside
          (λ e. arg e rest)
          (inside (λ t. expr t no_ops) (inside (term false) (inside func_call o))))
unfolding Good inside
Good-bare fc rest none h = tt
Good-bare fc rest (some (args, put)) h = λ new. (fc, put new, rest, refl, refl, h new)

IsWrapper-of : (name : Text) → keeps_first (to_upper name) ≡ true → IsWrapper name
unfolding keeps_first IsWrapper
IsWrapper-of name h = elim (Bool-cases (to_upper name == codes "ADDCOLUMNS")) [
  | inl add ↦ inl ((eq_iff (to_upper name) (codes "ADDCOLUMNS")).0 add)
  | inr not_add ↦ elim (Bool-cases (to_upper name == codes "SELECTCOLUMNS")) [
    | inl select ↦ inr (inl ((eq_iff (to_upper name) (codes "SELECTCOLUMNS")).0 select))
    | inr not_select ↦ elim (Bool-cases (to_upper name == codes "FILTER")) [
      | inl filter ↦ inr (inr ((eq_iff (to_upper name) (codes "FILTER")).0 filter))
      | inr not_filter ↦ absurd (ground arith)
    ]
  ]
]

-- Where find_call finds a call, from what holds for the arguments.
call_cases :
    (address : ℕ) (pos : Position) (name : Text) (args : Args)
    → Good (FirstAt args) (find_first args)
    → Good (SecondAt args) (find_second args)
    → Good
        (λ old new. Replaces old new (call address pos name args))
        (find_call (call address pos name args))
unfolding find_call
call_cases address pos name args first second =
    let at = call address pos name in
    elim (Bool-cases (to_upper name == codes "SUMMARIZECOLUMNS")) [
      | inl found ↦ rw found (
          unfold Good in
          λ new.
            here address pos name ((eq_iff (to_upper name) (codes "SUMMARIZECOLUMNS")).0 found))
      | inr not_found ↦ elim (Bool-cases (to_upper name == codes "TOPN")) [
        | inl topn ↦
            rw (not_found, topn)
              (Good-inside at (SecondAt args) (λ old new. Replaces old new (at args))
                (find_second args)
                (λ old new args' (fc, fc', n, rest, before, after, h).
                  subst (λ a. Replaces old new (at a) (at args')) (sym before)
                    (subst (λ a. Replaces old new (at (arg n (arg (bare fc) rest))) (at a))
                      (sym after)
                      (under_topn address pos name n rest
                        ((eq_iff (to_upper name) (codes "TOPN")).0 topn) h)))
                second)
        | inr not_topn ↦ elim (Bool-cases (keeps_first (to_upper name))) [
          | inl keeps ↦
              rw (not_found, not_topn, keeps)
                (Good-inside at (FirstAt args) (λ old new. Replaces old new (at args))
                  (find_first args)
                  (λ old new args' (fc, fc', rest, before, after, h).
                    subst (λ a. Replaces old new (at a) (at args')) (sym before)
                      (subst (λ a. Replaces old new (at (arg (bare fc) rest)) (at a)) (sym after)
                        (under_wrapper address pos name rest (IsWrapper-of name keeps) h)))
                  first)
          | inr other ↦ rw (not_found, not_topn, other) (unfold Good in tt)
        ]
      ]
    ]

mutual
  unfolding Good find_call inside

  find_call-Good : (fc : FuncCall) → Good (λ old new. Replaces old new fc) (find_call fc)
  find_call-Good (call address pos name args) =
      call_cases address pos name args (find_first-Good args) (find_second-Good args)

  find_first-Good : (args : Args) → Good (FirstAt args) (find_first args)
  find_first-Good no_args = tt
  find_first-Good (arg no_expr rest) = tt
  find_first-Good (arg (expr left (op_expr op right ops)) rest) = tt
  find_first-Good (arg (expr no_term no_ops) rest) = tt
  find_first-Good (arg (expr (term true atom) no_ops) rest) = tt
  find_first-Good (arg (expr (term false (func_call fc)) no_ops) rest) =
      Good-bare fc rest (find_call fc) (find_call-Good fc)
  find_first-Good (arg (expr (term false (table_constructor rows)) no_ops) rest) = tt
  find_first-Good (arg (expr (term false (col_ref cr)) no_ops) rest) = tt
  find_first-Good (arg (expr (term false (literal l)) no_ops) rest) = tt
  find_first-Good (arg (expr (term false (sub_expr e)) no_ops) rest) = tt
  find_first-Good (arg (expr (term false (qualified_ident s)) no_ops) rest) = tt
  find_first-Good (arg (expr (term false (quoted_ident s)) no_ops) rest) = tt
  find_first-Good (arg (expr (term false (ident s)) no_ops) rest) = tt

  find_second-Good : (args : Args) → Good (SecondAt args) (find_second args)
  find_second-Good no_args = tt
  find_second-Good (arg e args) =
      Good-inside (arg e) (FirstAt args) (SecondAt (arg e args)) (find_first args)
        (λ old new args' (fc, fc', rest, before, after, h).
          (fc, fc', e, rest, ap (arg e) before, ap (arg e) after, h))
        (find_first-Good args)

-- An assignment through the pointer that is found replaces the arguments of one call.
pub find_summarize_columns-ReplacesIn :
    (t : TableExpr) (args : Args) (put : Args → TableExpr)
    → find_summarize_columns t ≡ some (args, put)
    → (new : Args) → ReplacesIn args new t (put new)
unfolding Good find_summarize_columns
find_summarize_columns-ReplacesIn t args put h =
    subst (Good (λ old new. ReplacesIn old new t)) h (table_good t)
  where
    table_good :
        (t' : TableExpr) → Good (λ old new. ReplacesIn old new t') (find_summarize_columns t')
    table_good (func pos fc) =
        Good-inside (func pos) (λ old new. Replaces old new fc)
          (λ old new. ReplacesIn old new (func pos fc)) (find_call fc)
          (λ old new fc' r. in_call pos r) (find_call-Good fc)
    table_good (qualified_table pos s) = tt
    table_good (quoted_table pos s) = tt
    table_good (table pos s) = tt

PointsAt : {X : Type 0} → Args → Found X → Type 0
PointsAt {X} old o = (put : (Args → X)) × (o ≡ some (old, put))

PointsAt-inside :
    {X Y : Type 0} (f : X → Y) (old : Args) (o : Found X)
    → PointsAt old o
    → PointsAt old (inside f o)
unfolding PointsAt inside
PointsAt-inside f old o (put, h) = (λ new. f (put new), ap (inside f) h)

keeps_wrapper :
    (name : Text)
    → IsWrapper name
    → (keeps_first (to_upper name) ≡ true)
      × ((to_upper name == codes "SUMMARIZECOLUMNS") ≡ false)
      × ((to_upper name == codes "TOPN") ≡ false)
unfolding keeps_first IsWrapper ◌==◌
keeps_wrapper name (inl h) = rw h (refl, refl, refl)
keeps_wrapper name (inr (inl h)) = rw h (refl, refl, refl)
keeps_wrapper name (inr (inr h)) = rw h (refl, refl, refl)

topn_other :
    (name : Text)
    → to_upper name ≡ codes "TOPN"
    → (to_upper name == codes "SUMMARIZECOLUMNS") ≡ false
unfolding ◌==◌
topn_other name h = rw h refl

Replaces-PointsAt :
    {old new : Args} {fc fc' : FuncCall} → Replaces old new fc fc' → PointsAt old (find_call fc)
unfolding find_call PointsAt
Replaces-PointsAt (here address pos name h) =
    let found = (eq_iff (to_upper name) (codes "SUMMARIZECOLUMNS")).1 h in
    rw found (call address pos name, refl)
Replaces-PointsAt {old} (under_topn address pos name n rest h r) =
    let topn = (eq_iff (to_upper name) (codes "TOPN")).1 h in
    let (put, below) = Replaces-PointsAt r in
    rw (topn_other name h, topn, below) (unfold inside in (_, refl))
Replaces-PointsAt {old} (under_wrapper address pos name rest h r) =
    let (keeps, not_found, not_topn) = keeps_wrapper name h in
    let (put, below) = Replaces-PointsAt r in
    rw (not_found, not_topn, keeps, below) (unfold inside in (_, refl))

-- Where nothing is found there is no such call.
pub find_summarize_columns-none :
    (t : TableExpr)
    → find_summarize_columns t ≡ none
    → (old new : Args) (t' : TableExpr) → ¬ ReplacesIn old new t t'
unfolding find_summarize_columns PointsAt inside
find_summarize_columns-none (func _ _) h old new _ (in_call pos r) =
    let (put, found) = Replaces-PointsAt r in absurd (ground arith)
find_summarize_columns-none (qualified_table _ _) h old new _ x = elim x [ ]
find_summarize_columns-none (quoted_table _ _) h old new _ x = elim x [ ]
find_summarize_columns-none (table _ _) h old new _ x = elim x [ ]
