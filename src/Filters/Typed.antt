-- ===== src/Filters/Typed.antt =====
-- The literals that literalFor (executor/extfilter.go) makes, and what a successful step leaves.
use dux.Base.{
  suc, Bool, true, false, none, some, List, [], ◌∷◌, Text, codes, lookup, length, if◌then◌else◌,
  All, subst, ◌≡◌, ◌≢◌, refl, arith,
}
use dux.Ast.{Literal, string}
use dux.Schema.{Schema, Table, Column}
use dux.Filters.{
  Value, null, json_number, float64, float32, int, int32, int64, text, boolean, unsupported,
  ResolvedColumn, FilterError, Try, ok, err, ◌>>=◌,
}
use dux.Filters.Literals.{Strconv, is_numeric_type, literal_of_text, literal_for}
use dux.Filters.Resolve.{within, operand_literal, value_literals}

pub bind-ok {ℓ κ} :
    {A : Type ℓ} {B : Type κ} (m : Try A) (f : A → Try B) (b : B)
    → (m >>= f) ≡ ok b
    → (a : A) × (m ≡ ok a) × (f a ≡ ok b)
bind-ok (ok a) f b h = (a, refl, h)
bind-ok (err e) f b h = absurd (ground arith)

pub within-ok {ℓ} :
    {A : Type ℓ} (wrap : FilterError → FilterError) (m : Try A) (a : A)
    → within wrap m ≡ ok a
    → m ≡ ok a
unfolding within
within-ok wrap (ok x) a h = h
within-ok wrap (err e) a h = absurd (ground arith)

-- The test of a guard that lets the call go on.
pub unless-false {ℓ} :
    {A : Type ℓ} (b : Bool) (e : FilterError) (m : Try A) (a : A)
    → (if b then err e else m) ≡ ok a
    → b ≡ false
unless-false true e m a h = absurd (ground arith)
unless-false false e m a h = refl

pub when-ok {ℓ} :
    {A : Type ℓ} (b : Bool) (e : FilterError) (m : Try A) (a : A)
    → (if b then m else err e) ≡ ok a
    → m ≡ ok a
when-ok true e m a h = h
when-ok false e m a h = absurd (ground arith)

pub when-true {ℓ} :
    {A : Type ℓ} (b : Bool) (e : FilterError) (m : Try A) (a : A)
    → (if b then m else err e) ≡ ok a
    → b ≡ true
when-true true e m a h = refl
when-true false e m a h = absurd (ground arith)

pub ok-injective {ℓ} : {A : Type ℓ} {a b : A} → ok a ≡ ok b → a ≡ b
ok-injective h = cc

pub unless-ok {ℓ} :
    {A : Type ℓ} (b : Bool) (e : FilterError) (m : Try A) (a : A)
    → (if b then err e else m) ≡ ok a
    → m ≡ ok a
unless-ok true e m a h = absurd (ground arith)
unless-ok false e m a h = h

pub some≢none {ℓ} : {A : Type ℓ} {a : A} → none ≢ some a
some≢none h = cc

-- A numeric column has no string operand.
abbrev pub IsTyped : Bool → Literal → Type 0
IsTyped numeric l = numeric ≡ true → (s : Text) → l ≢ string s

-- The table and the column that a filter or a column of a tuple names.
pub record IsColumn (schema : Schema) (table column : Text) (numeric : Bool) : Type 0 where
  pub held : Table
  pub found : Column
  pub at : lookup table schema.tables ≡ some held
  pub key : Text
  pub among : lookup key held.columns ≡ some found
  pub name : column ≡ found.name
  pub type : numeric ≡ is_numeric_type found.data_type

unfoldable pub AreTyped : List ResolvedColumn → List Literal → Type 0
AreTyped [] [] = Unit
AreTyped (c ∷ columns) (l ∷ tup) = IsTyped c.numeric l × AreTyped columns tup
AreTyped _ _ = ⊥

module _ (sc : Strconv) where
  pub literal_of_text-IsTyped :
      (t : Text) (numeric : Bool) (l : Literal)
      → literal_of_text sc t numeric ≡ ok l
      → IsTyped numeric l
  unfolding literal_of_text
  literal_of_text-IsTyped t numeric l h n s e = ground arith

  pub literal_for-IsTyped :
      (v : Value) (numeric : Bool) (l : Literal)
      → literal_for sc v numeric ≡ ok l
      → IsTyped numeric l
  unfolding literal_for
  literal_for-IsTyped (json_number t) numeric l h = literal_of_text-IsTyped t numeric l h
  literal_for-IsTyped (float64 x) numeric l h = λ n s e. ground arith
  literal_for-IsTyped (int x) numeric l h = literal_of_text-IsTyped (sc.format_int x) numeric l h
  literal_for-IsTyped (int32 x) numeric l h = literal_of_text-IsTyped (sc.format_int x) numeric l h
  literal_for-IsTyped (int64 x) numeric l h = literal_of_text-IsTyped (sc.format_int x) numeric l h
  literal_for-IsTyped (float32 x) numeric l h =
      literal_of_text-IsTyped (sc.format_float32 x) numeric l h
  literal_for-IsTyped (text t) numeric l h = literal_of_text-IsTyped t numeric l h
  literal_for-IsTyped (boolean b) numeric l h = λ n s e. ground arith
  literal_for-IsTyped null numeric l h = absurd (ground arith)
  literal_for-IsTyped unsupported numeric l h = absurd (ground arith)

  pub operand-IsTyped :
      (numeric : Bool) (v : Value) (what : Text) (l : Literal)
      → operand_literal sc numeric v what ≡ ok l
      → IsTyped numeric l
  unfolding operand_literal
  operand-IsTyped numeric v what l h =
      literal_for-IsTyped v numeric l
        (within-ok (FilterError.operand what) (literal_for sc v numeric) l h)

  pub values-IsTyped :
      (numeric : Bool) (values : List Value) (ls : List Literal)
      → value_literals sc numeric values ≡ ok ls
      → All (IsTyped numeric) ls × (length ls ≡ length values)
  unfolding value_literals
  values-IsTyped numeric [] [] h = (tt, refl)
  values-IsTyped numeric [] (l ∷ ls) h = absurd (ground arith)
  values-IsTyped numeric (v ∷ values) ls h =
      let (l, first, more) = bind-ok (operand_literal sc numeric v (codes "values")) _ ls h in
      let (rest, later, same) = bind-ok (value_literals sc numeric values) _ ls more in
      let (typed, n) = values-IsTyped numeric values rest later in
      subst (λ r. All (IsTyped numeric) r × (length r ≡ suc (length values))) (ok-injective same)
        ((operand-IsTyped numeric v (codes "values") l first, typed), omega arith)
