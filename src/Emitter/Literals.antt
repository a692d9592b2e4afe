-- ===== src/Emitter/Literals.antt =====
-- emitLiteral (emitter/emitter.go): the SQL text of a literal.
use mathlib.Core.Option
use dux.Base.{
  ℕ, suc, ◌-◌, true, false, Option, none, some, [], ◌∷◌, ◌++◌, Text, to_upper, nat_eq, leb, take,
  drop, length, length-append, ◌≡◌, refl, ap, ◌∙◌, inl, inr, Bool-cases, arith, if◌then◌else◌,
}
use dux.Ast.{Literal, string, number, boolean}
use dux.Names.{undouble, double, undouble-double, take-length}
use dux.Filters.Literals.{str}

-- s[1:len(s)-1], with none for the panic on a shorter text
unfoldable pub slice : Text → Option Text
slice s = if leb 2 (length s) then some (take (length s - 2) (drop 1 s)) else none

-- The case of a string: pairs of double quotes as one, single quotes as pairs.
unfoldable pub quote : Text → Text
unfolding undouble double
quote inner = 39 ∷ (double 39 (undouble 34 inner) ++ 39 ∷ [])

-- emitLiteral
unfoldable pub emit_literal : Literal → Option Text
unfolding slice quote
emit_literal (string raw) = Option.map quote (slice raw)
emit_literal (number n) = some n
emit_literal (boolean b) = some (to_upper b)

-- The rest of an SQL string constant after its first quote: two quotes stand for one, and one quote
-- ends the constant, after which nothing may follow.
unfoldable pub sql_rest : Text → Option Text
sql_rest [] = none
sql_rest (x ∷ []) = if nat_eq x 39 then some [] else none
sql_rest (x ∷ y ∷ s) =
    let pair = Option.map (λ t. x ∷ t) (sql_rest s) in
    let other = Option.map (λ t. x ∷ t) (sql_rest (y ∷ s)) in
    if nat_eq x 39 then (if nat_eq y 39 then pair else none) else other

-- The value of an SQL string constant.
unfoldable pub sql_value : Text → Option Text
unfolding sql_rest
sql_value [] = none
sql_value (x ∷ s) = if nat_eq x 39 then sql_rest s else none

sql_rest-other :
    (x : ℕ) (s t : Text)
    → nat_eq x 39 ≡ false
    → sql_rest s ≡ some t
    → sql_rest (x ∷ s) ≡ some (x ∷ t)
unfolding sql_rest
sql_rest-other x [] t e h = absurd (ground arith)
sql_rest-other x (y ∷ s) t e h = rw (e, h) refl

sql_rest-pair :
    (x : ℕ) (s t : Text)
    → nat_eq x 39 ≡ true
    → sql_rest s ≡ some t
    → sql_rest (x ∷ x ∷ s) ≡ some (x ∷ t)
unfolding sql_rest
sql_rest-pair x s t e h = rw (e, h) refl

sql_rest-double : (s : Text) → sql_rest (double 39 s ++ 39 ∷ []) ≡ some s
unfolding double
sql_rest-double [] = unfold sql_rest in refl
sql_rest-double (x ∷ s) = elim (Bool-cases (nat_eq x 39)) [
  | inl e ↦ rw e (sql_rest-pair x (double 39 s ++ 39 ∷ []) s e (sql_rest-double s))
  | inr e ↦ rw e (sql_rest-other x (double 39 s ++ 39 ∷ []) s e (sql_rest-double s))
]

sql_value-quote : (s : Text) → sql_value (quote s) ≡ some (undouble 34 s)
unfolding sql_value quote
sql_value-quote s = sql_rest-double (undouble 34 s)

slice-wrap : (s : Text) → slice (34 ∷ (s ++ 34 ∷ [])) ≡ some s
unfolding slice
slice-wrap s =
    let len : length (s ++ 34 ∷ []) ≡ suc (length s) = length-append s (34 ∷ []) ∙ omega arith in
    let long : leb 2 (suc (suc (length s))) ≡ true = ground arith in
    let two : suc (suc (length s)) - 2 ≡ length s = omega arith in
    rw (len, long, two) (rw (take-length s (34 ∷ [])) refl)

emit_literal-wrap : (s : Text) → emit_literal (string (34 ∷ (s ++ 34 ∷ []))) ≡ some (quote s)
unfolding emit_literal
emit_literal-wrap s = ap (Option.map quote) (slice-wrap s)

-- The SQL text of a string literal is one SQL string constant, whatever bytes the string has. A
-- token with the text's double quotes written twice gives a constant whose value is the text; a
-- filter's value gives one whose value is the text with each two adjacent double quotes as one.
pub sql_value-emit_literal :
    (s : Text)
    → ((t : Text) × (emit_literal (string (34 ∷ (double 34 s ++ 34 ∷ []))) ≡ some t)
        × (sql_value t ≡ some s))
      × ((t : Text) × (emit_literal (str s) ≡ some t) × (sql_value t ≡ some (undouble 34 s)))
unfolding str
sql_value-emit_literal s = (
  (
    quote (double 34 s),
    emit_literal-wrap (double 34 s),
    sql_value-quote (double 34 s) ∙ ap some (undouble-double 34 s),
  ),
  (quote s, emit_literal-wrap s, sql_value-quote s),
)
